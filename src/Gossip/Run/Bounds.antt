-- ===== src/Gossip/Run/Bounds.antt =====
-- src/gossip/protocol.rs: what holds of the queue and the peers however long the loop runs.
use stellarconduit_core.Prelude.{List}
use stellarconduit_core.Prelude.LruCache.{LruCache}
use stellarconduit_core.Prelude.HashMap.{Unique}
use stellarconduit_core.Metrics.{Metrics}
use stellarconduit_core.Peer.Identity.{PeerIdentity}
use stellarconduit_core.Discovery.PeerList.{PeerList}
use stellarconduit_core.Gossip.Bloom.{Bloom}
use stellarconduit_core.Gossip.Fanout
use stellarconduit_core.Gossip.Queue.Capacity.{IsBounded}
use stellarconduit_core.Gossip.Run.{Node}

-- The tiers of the queue are within their capacities, and no key has two peers.
pub record IsSound {b : Bloom} {cache : LruCache (List PeerIdentity)} (n : Node b cache)
    : Type 0 where
  pub bounded : IsBounded n.state.active_queue
  pub unique : Unique n.bans.peer_list.peers
