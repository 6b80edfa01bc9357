-- ===== src/Gossip/Run.antt =====
-- src/gossip/protocol.rs: `run_gossip_loop` as a relation of steps. A step is a branch of the loop, or
-- what another task does meanwhile with the state or the peer list that it shares.
pub mod Bounds
use stellarconduit_core.Prelude.{ℕ, List, [], Bytes, Bool, true, false, Option, none, some, ◌≡◌, In}
use stellarconduit_core.Prelude.LruCache.{LruCache}
use stellarconduit_core.Message.{TransactionEnvelope}
use stellarconduit_core.Peer.Identity.{PeerIdentity}
use stellarconduit_core.Topology.{TopologyEvent}
use stellarconduit_core.Router.Table.{RoutingTable}
use stellarconduit_core.Discovery.PeerList.Keys
use stellarconduit_core.Discovery.PeerList.Keys.{Call}
use stellarconduit_core.Gossip.Bloom.{Bloom, SlidingBloomFilter}
use stellarconduit_core.Gossip.Fanout
use stellarconduit_core.Gossip.Fanout.{Choice}
use stellarconduit_core.Gossip.Round.{GossipScheduler, is_time_for_round, round_executed}
use stellarconduit_core.Gossip.State.{GossipState, add_envelope}
use stellarconduit_core.Gossip.FanoutRound.{Round, eligible, execute_fanout_round}
use stellarconduit_core.Gossip.Loop.{
  Bans, Answers, Response, on_ban_check, on_anti_entropy, on_topology_event,
}

module _ (b : Bloom) (cache : LruCache (List PeerIdentity)) where
  -- The variables of the loop and what it shares.
  pub record Node : Type 0 where
    pub scheduler : GossipScheduler
    pub bloom : SlidingBloomFilter b
    pub state : GossipState
    pub bans : Bans
    pub routing_table : Option (RoutingTable cache)

  abbrev pub after_round : Node → Round b → ℕ → Node
  after_round n r now_ms = record n {
    scheduler = round_executed n.scheduler now_ms;
    bloom = r.bloom;
    state = r.state;
    bans = record n.bans { peer_list = r.peer_list; metrics = r.metrics };
  }

  unfoldable pub after_sync : Node → Option PeerIdentity → Bool → Response → Node
  after_sync n peer sent response =
      let (st, metrics) = on_anti_entropy n.state n.bans.metrics peer sent response in
      record n { state = st; bans = record n.bans { metrics = metrics } }

  abbrev on_table : Option (RoutingTable cache) → TopologyEvent → Option (RoutingTable cache)
  on_table none event = none
  on_table (some t) event = some (on_topology_event cache t event)

  abbrev pub after_event : Node → TopologyEvent → Node
  after_event n event = record n { routing_table = on_table n.routing_table event }

  -- The peer that the random choice picks, if there is one to pick.
  abbrev pub Picked : List PeerIdentity → Option PeerIdentity → Type 0
  Picked active none = active ≡ []
  Picked active (some peer) = In peer active

  module _ (ln_ceil : ℕ → ℕ) (choose : Choice PeerIdentity) where
    unfoldable pub fire : Node → ℕ → ℕ × ℕ → Node
    fire n now_ms now =
        after_round n
          (execute_fanout_round b ln_ceil choose n.bloom n.bans.metrics n.state n.bans.peer_list
            Fanout.new now)
          now_ms

    pub data Step : Node → Node → Type 0 where
      fires :
          (n : Node) (now_ms : ℕ) (now : ℕ × ℕ)
          → is_time_for_round n.scheduler now_ms ≡ true
          → Step n (fire n now_ms now)
      waits : (n : Node) (now_ms : ℕ) → is_time_for_round n.scheduler now_ms ≡ false → Step n n
      syncs :
          (n : Node) (now : ℕ) (peer : Option PeerIdentity) (sent : Bool) (response : Response)
          → Picked (eligible n.bans.peer_list now) peer
          → Step n (after_sync n peer sent response)
      checks :
          (n : Node) (now : ℕ) (refused : Answers)
          → Step n (record n { bans = on_ban_check n.bans now refused })
      hears : (n : Node) (event : TopologyEvent) → Step n (after_event n event)
      adds :
          (n : Node) (e : TransactionEnvelope)
          → Step n (record n { state = (add_envelope n.state e).0 })
      lists :
          (n : Node) (call : ℕ × Call)
          → Step n
              (record n { bans = record n.bans { peer_list = Keys.step n.bans.peer_list call } })

    pub data Reaches (s : Node) : Node → Type 0 where
      here : Reaches s s
      next : {n m : Node} → Reaches s n → Step n m → Reaches s m
