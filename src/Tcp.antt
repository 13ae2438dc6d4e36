-- ===== src/Tcp.antt =====
-- src/main/transport/tcp_assembler.h: the IPv4 TCP reassembler.
pub mod Seq
pub mod Options
pub mod Ring
pub mod Bitmap
pub mod Backend
pub mod Session
pub mod Segment
pub mod Engine
mod Tests
