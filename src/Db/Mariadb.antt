-- ===== src/Db/Mariadb.antt =====
-- edb/db/mariadb.go: MariaDB behind the database interface. The server itself is a parameter: a
-- bootstrap, a start and a query of the table that the bootstrap has filled.
pub mod Config
pub mod Script
pub mod Bootstrap
pub mod Startup
pub mod Separate
pub mod Fields
pub mod Once
mod TakeOver
pub mod Adopt
pub mod Files
pub mod Restart
