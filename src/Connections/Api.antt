-- ===== src/Connections/Api.antt =====
-- The server of the HTTP interface in connections/api.go.
pub mod Server
pub mod Contracts
pub mod Chain
pub mod Router
