-- ===== src/Mc.antt =====
-- src/mc: what the proxy reads of the Minecraft server's own files, and facts of the game.
pub mod Ban
pub mod Whitelist
pub mod Properties
pub mod Uuid
pub mod Dimension
pub mod Favicon
pub mod Rcon
-- `TICKS_PER_SECOND`.
use plexsoftware.Prelude.{ℕ}

abbrev pub ticks_per_second : ℕ
ticks_per_second = 20
