-- ===== src/Proto/Packet/Reading.antt =====
-- What `read_packet` does with the bytes of a connection (src/proto/packet.rs).
pub mod Chunks
pub mod Conservation
pub mod Framing
pub mod Faults
