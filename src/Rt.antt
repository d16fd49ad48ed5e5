-- ===== src/Rt.antt =====
-- edb/rt: the process's console and the runtime that stands in for an enclave.
pub mod Console
pub mod Mock
