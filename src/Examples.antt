-- ===== src/Examples.antt =====
-- The theorems at concrete inputs.
pub mod Codec
pub mod Crates
pub mod Data
pub mod Dialogue
pub mod Directory
pub mod Connections
pub mod Lifecycle
pub mod Joining
