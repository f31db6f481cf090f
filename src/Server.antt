-- ===== src/Server.antt =====
-- src/server.rs: the state of the Minecraft server that the proxy starts, watches and stops.
-- Each operation is one step here, with one reading of the clock; the waits of the source are the
-- borders between the steps.
pub mod State
pub mod Events
pub mod Invariant
pub mod Lifecycle
pub mod Timers
pub mod Model
pub mod Stop
pub mod Process
