-- ===== src/Std.antt =====
-- The functions of Go's standard library whose results the program computes with.
pub mod Hex
pub mod Base64
pub mod Strings
pub mod FilePath
pub mod Net
mod Tests
