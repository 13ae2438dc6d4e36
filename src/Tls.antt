-- ===== src/Tls.antt =====
-- src/main/tls: the TLS ClientHello parser and the domain policy.
pub mod Connection
pub mod Parser
pub mod Blocklist
mod Tests
