-- ===== src/Server/Invariant.antt =====
-- What holds of the server's record between two operations (src/server.rs).
pub mod Updates
pub mod Operations
