-- ===== src/Topology/Health.antt =====
-- src/topology/health.rs: the pruner, which sweeps the peer list, the graph and the database. The task
-- that runs a sweep every five minutes is a timer around `sweep`.
pub mod Sweeps
use stellarconduit_core.Prelude.{ℕ, ◌-◌, [], ◌∷◌, List, Bytes, Bool, false, Option, none, some}
use stellarconduit_core.Discovery.{DiscoveryEvent, peer_discovered, peer_updated, peer_lost}
use stellarconduit_core.Discovery.PeerList.{PeerList, prune_stale_peers}
use stellarconduit_core.Persistence.{MeshDatabase, DbError}
use stellarconduit_core.Persistence.Peers.{mark_peer_offline}
use stellarconduit_core.Persistence.Pending.{delete_messages_older_than}
use stellarconduit_core.Topology.Graph.{MeshGraph, prune_stale_edges}

-- In milliseconds.
abbrev pub edge_timeout : ℕ
edge_timeout = 3600000

-- In seconds.
abbrev pub msg_max_age : ℕ
msg_max_age = 86400

pub record StatePruner : Type 0 where
  pub graph : MeshGraph
  pub peer_list : PeerList
  pub db : MeshDatabase

-- The loop over the events; `refused` is what the connection answers for a peer.
unfoldable pub mark_lost :
    List DiscoveryEvent → MeshDatabase → (Bytes → Option DbError) → MeshDatabase
mark_lost [] db refused = db
mark_lost (peer_lost identity ∷ events) db refused =
    mark_lost events (mark_peer_offline db identity.pubkey (refused identity.pubkey)).0 refused
mark_lost (peer_discovered identity ∷ events) db refused = mark_lost events db refused
mark_lost (peer_updated identity signal ∷ events) db refused = mark_lost events db refused

unfoldable pub prune_peers : StatePruner → ℕ → (Bytes → Option DbError) → StatePruner
prune_peers s now refused =
    let (peer_list, lost) = prune_stale_peers s.peer_list now in
    record s { peer_list = peer_list; db = mark_lost lost s.db refused }

-- No event bus is given.
unfoldable pub prune_graph_edges : (ℕ → ℕ → Bool) → StatePruner → ℕ → StatePruner
prune_graph_edges big s instant = record s {
  graph = (prune_stale_edges big s.graph edge_timeout false instant).0;
}

-- `saturating_sub`.
unfoldable pub prune_pending_messages : StatePruner → ℕ → Option DbError → StatePruner
prune_pending_messages s now refused = record s {
  db = (delete_messages_older_than s.db (now - msg_max_age) refused).0;
}

-- One round of `start_background_task`.
unfoldable pub sweep :
    (ℕ → ℕ → Bool) → StatePruner → ℕ → ℕ → (Bytes → Option DbError) → Option DbError → StatePruner
sweep big s now instant refused pending_refused =
    prune_pending_messages (prune_graph_edges big (prune_peers s now refused) instant) now
      pending_refused
