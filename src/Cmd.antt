-- ===== src/Cmd.antt =====
-- cmd/edb: the process, from its configuration to the server, and what it tells when it ends.
pub mod Paths
pub mod Diagnosis
pub mod Run
pub mod Bindings
pub mod LogPlace
pub mod Up
pub mod Progress
pub mod EnclaveMain
pub mod NativeMain
pub mod InvokeMain
pub mod Served
pub mod Serve
