-- ===== src/Security.antt =====
-- src/security: what protects a node from its peers.
pub mod RateLimit
pub mod PeerBan
pub mod Encryption
