-- ===== src/Gossip/Loop.antt =====
-- src/gossip/protocol.rs: the branches of `run_gossip_loop`. Each is a step from the state that the
-- loop has when its timer or event fires; the branch of the rounds calls Gossip.FanoutRound.
pub mod Steps
use stellarconduit_core.Prelude.{
  ℕ, List, [], ◌∷◌, Bytes, Bool, true, false, ◌&&◌, Option, none, some, if◌then◌else◌, ltb, length,
  bytes_eq,
}
use stellarconduit_core.Prelude.LruCache.{LruCache}
use stellarconduit_core.Message.{
  ProtocolMessage, transaction, topology_update, sync_request, sync_response, handshake,
  SyncResponse,
}
use stellarconduit_core.Metrics.{Metrics, fetch_add}
use stellarconduit_core.Peer.Identity.{PeerIdentity}
use stellarconduit_core.Discovery.PeerList.{PeerList, check_ban_expirations}
use stellarconduit_core.Persistence.{MeshDatabase, DbError, remove_ban}
use stellarconduit_core.Topology.{
  TopologyEvent, peer_updated, peer_pruned, relay_reachability_gained, relay_reachability_lost,
  mesh_size_changed, peer_disconnected, relay_lost, peer_unreachable, cluster_merge,
  partition_detected, affected_peer_pubkey,
}
use stellarconduit_core.Router.Table.{RoutingTable, invalidate, clear}
use stellarconduit_core.Gossip.Strikes.{StrikeTracker, clear_peer}
use stellarconduit_core.Gossip.State.{GossipState, handle_sync_response, macro_merge_threshold}

-- What the check of bans works on.
pub record Bans : Type 0 where
  pub strike_tracker : StrikeTracker
  pub peer_list : PeerList
  pub db : Option MeshDatabase
  pub metrics : Metrics

-- What the database answers to the removal of a peer's ban.
abbrev pub Answers : Type 0
Answers = Bytes → Option DbError

unfoldable pub removed : Option MeshDatabase → Bytes → Option DbError → Option MeshDatabase
unfolding remove_ban
removed none pubkey refused = none
removed (some db) pubkey refused = some (remove_ban db pubkey refused).0

-- The loop over the peers whose ban was lifted. A failure to remove a ban is only logged.
unfoldable pub forgive : List PeerIdentity → Answers → Bans → Bans
unfolding removed
forgive [] refused s = s
forgive (p ∷ ps) refused s = forgive ps refused (record s {
  strike_tracker = clear_peer s.strike_tracker p.pubkey;
  db = removed s.db p.pubkey (refused p.pubkey);
})

abbrev is_nil : {A : Type 0} → List A → Bool
is_nil [] = true
is_nil (x ∷ xs) = false

abbrev pub counted : Bans → PeerList → List PeerIdentity → Bans
counted s l unbanned = record s {
  peer_list = l;
  metrics = record s.metrics {
    peers_unbanned = fetch_add s.metrics.peers_unbanned (length unbanned);
  };
}

-- What follows the check of the expirations, given its outcome.
unfoldable pub after_check : Bans → PeerList × List PeerIdentity → Answers → Bans
unfolding forgive
after_check s (l, unbanned) refused =
    if is_nil unbanned
    then record s { peer_list = l }
    else forgive unbanned refused (counted s l unbanned)

unfoldable pub on_ban_check : Bans → ℕ → Answers → Bans
unfolding after_check
on_ban_check s now refused = after_check s (check_ban_expirations s.peer_list now) refused

-- What comes back within the timeout: a message with its sender, or nothing.
abbrev pub Response : Type 0
Response = Option (PeerIdentity × ProtocolMessage)

-- `from_peer == peer`.
abbrev pub same_peer : PeerIdentity → PeerIdentity → Bool
same_peer a b = bytes_eq a.pubkey b.pubkey && bytes_eq a.display_id b.display_id

abbrev pub merge : GossipState → Metrics → SyncResponse → GossipState × Metrics
merge st m resp =
    let n = length resp.missing_envelopes in
    (
      handle_sync_response st resp,
      record m {
        sync_responses_received = fetch_add m.sync_responses_received 1;
        envelopes_merged_from_sync = fetch_add m.envelopes_merged_from_sync n;
        macro_merge_events =
            if ltb macro_merge_threshold n
            then fetch_add m.macro_merge_events 1
            else m.macro_merge_events;
      },
    )

unfoldable pub on_response : GossipState → Metrics → PeerIdentity → Response → GossipState × Metrics
on_response st m peer none = (st, m)
on_response st m peer (some (from, sync_response resp)) =
    if same_peer from peer then merge st m resp else (st, m)
on_response st m peer (some (from, transaction e)) = (st, m)
on_response st m peer (some (from, topology_update u)) = (st, m)
on_response st m peer (some (from, sync_request r)) = (st, m)
on_response st m peer (some (from, handshake k)) = (st, m)

-- The anti-entropy branch, for the peer that was picked, whether the request was sent, and what
-- came back.
unfoldable pub on_anti_entropy :
    GossipState → Metrics → Option PeerIdentity → Bool → Response → GossipState × Metrics
unfolding on_response
on_anti_entropy st m none sent response = (st, m)
on_anti_entropy st m (some peer) sent response =
    if sent
    then on_response st (record m { sync_requests_sent = fetch_add m.sync_requests_sent 1 }) peer
        response
    else (st, m)

module _ (cache : LruCache (List PeerIdentity)) where
  -- The branch of the topology events, where there is a routing table.
  unfoldable pub on_topology_event : RoutingTable cache → TopologyEvent → RoutingTable cache
  unfolding affected_peer_pubkey
  on_topology_event t (peer_disconnected k) =
      invalidate cache t (affected_peer_pubkey (peer_disconnected k))
  on_topology_event t (relay_lost k) = invalidate cache t (affected_peer_pubkey (relay_lost k))
  on_topology_event t (peer_unreachable k) =
      invalidate cache t (affected_peer_pubkey (peer_unreachable k))
  on_topology_event t (cluster_merge k) = clear cache t
  on_topology_event t (partition_detected k) = clear cache t
  on_topology_event t (peer_updated k hops n) = t
  on_topology_event t (peer_pruned k) = t
  on_topology_event t (relay_reachability_gained k hops) = t
  on_topology_event t relay_reachability_lost = t
  on_topology_event t (mesh_size_changed previous current) = t
