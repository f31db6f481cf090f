-- ===== src/Proto.antt =====
-- src/proto: the protocol state of a connection and the framing of its packets.
pub mod Action
pub mod Client
pub mod Login
pub mod Packet
pub mod Play
