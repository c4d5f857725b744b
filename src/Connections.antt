-- ===== src/Connections.antt =====
-- The servers and the daemon's client of connections/.
pub mod Agreement
pub mod Api
pub mod Daemon
pub mod Setup
pub mod Values
pub mod Ws
