-- ===== src/Topology.antt =====
-- src/topology: what a node knows of the mesh around it. This file models src/topology/events.rs.
pub mod HopCounter
pub mod Graph
pub mod Health
use stellarconduit_core.Prelude.{ℕ, Bytes, zeros}

pub data TopologyEvent : Type 0 where
  peer_updated : Bytes → ℕ → ℕ → TopologyEvent
  peer_pruned : Bytes → TopologyEvent
  relay_reachability_gained : Bytes → ℕ → TopologyEvent
  relay_reachability_lost : TopologyEvent
  mesh_size_changed : ℕ → ℕ → TopologyEvent
  peer_disconnected relay_lost peer_unreachable : Bytes → TopologyEvent
  cluster_merge partition_detected : Bytes → TopologyEvent

unfoldable pub affected_peer_pubkey : TopologyEvent → Bytes
affected_peer_pubkey (peer_updated k hops n) = k
affected_peer_pubkey (peer_pruned k) = k
affected_peer_pubkey (relay_reachability_gained k hops) = k
affected_peer_pubkey relay_reachability_lost = zeros 32
affected_peer_pubkey (mesh_size_changed previous current) = zeros 32
affected_peer_pubkey (peer_disconnected k) = k
affected_peer_pubkey (relay_lost k) = k
affected_peer_pubkey (peer_unreachable k) = k
affected_peer_pubkey (cluster_merge k) = k
affected_peer_pubkey (partition_detected k) = k
