-- ===== src/Core.antt =====
-- edb/core: the life of a node, from its master key to its database.
pub mod States
pub mod Key
pub mod Certificate
pub mod Lifecycle
pub mod Frame
pub mod Lock
pub mod Settings
pub mod Recovery
pub mod Deadlock
pub mod Progress
pub mod Report
pub mod Quote
pub mod Chain
pub mod Initialize
pub mod Environment
