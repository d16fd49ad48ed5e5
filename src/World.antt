-- ===== src/World.antt =====
-- The process that the program runs in: the operating system as it sees it, the memory of its
-- objects, how a call ends, and the code outside src/ that it calls.
mod Errors
mod Memory
mod Monad
mod External
mod System
pub mod Frame
pub mod Progress
pub mod Tame
pub mod Unfailing
pub mod Invariant
pub use Errors.*
pub use Memory.*
pub use Monad.*
pub use External.*
unfoldable pub use System.*
