-- ===== src/Discovery.antt =====
-- src/discovery/events.rs: what discovery tells the upper layers.
pub mod PeerList
use stellarconduit_core.Prelude.{ℕ}
use stellarconduit_core.Peer.Identity.{PeerIdentity}

pub data DiscoveryEvent : Type 0 where
  peer_discovered : PeerIdentity → DiscoveryEvent
  peer_updated : PeerIdentity → ℕ → DiscoveryEvent
  peer_lost : PeerIdentity → DiscoveryEvent
