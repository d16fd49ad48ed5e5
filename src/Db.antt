-- ===== src/Db.antt =====
-- edb/db: the database behind an interface.
pub mod Interface
pub mod Util
pub mod Marblerun
pub mod Mariadb
pub mod Mock
