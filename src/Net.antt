-- ===== src/Net.antt =====
-- Packets on the wire: the Internet checksum, and the frames that are injected.
pub mod Checksum
pub mod Injector
mod Tests
