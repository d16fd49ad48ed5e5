-- ===== src/Server.antt =====
-- edb/server/server.go: the HTTP API, over the methods of `Core`.
pub mod Response
pub mod Handlers
pub mod Laws
pub mod Schedule
pub mod Mux
pub mod Applied
