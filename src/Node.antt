-- ===== src/Node.antt =====
-- A node over the lives of its process (cmd/edb/run.go, edb/core, edb/db, edb/server): what is on its
-- disk.
pub mod Intact
mod Files
mod Bootstrap
mod Database
mod Keys
mod Methods
mod Requests
mod Process
pub mod Found
pub mod Start
mod Run
pub mod Lives
pub mod Served
pub mod Recovered
