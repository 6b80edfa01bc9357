-- ===== src/Gossip/Errors.antt =====
-- src/gossip/errors.rs.
use stellarconduit_core.Prelude.{Bytes}
use stellarconduit_core.Peer.Identity.{PeerIdentity}

pub data GossipError : Type 0 where
  invalid_signature peer_banned : PeerIdentity → GossipError
  normal_queue_overflow low_queue_overflow : Bytes → GossipError
  invalid_envelope codec_error : Bytes → GossipError
  ttl_expired : GossipError
