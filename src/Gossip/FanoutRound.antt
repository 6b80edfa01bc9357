-- ===== src/Gossip/FanoutRound.antt =====
-- src/gossip/protocol.rs: `execute_fanout_round`. A send that fails or times out is only logged,
-- so the sends are listed in their order, and the transport keeps its own state.
pub mod Sends
pub mod Once
use stellarconduit_core.Prelude.{
  ℕ, ◌+◌, ◌-◌, List, [], ◌∷◌, ◌++◌, map, Bytes, Bool, true, false, not, none, if◌then◌else◌, ◌==◌,
  length, retain,
}
use stellarconduit_core.Message.{TransactionEnvelope, ProtocolMessage, transaction}
use stellarconduit_core.Metrics.{Metrics, fetch_add}
use stellarconduit_core.Peer.{Peer}
use stellarconduit_core.Peer.Identity.{PeerIdentity}
use stellarconduit_core.Peer.Reputation.{apply_penalty, duplicate_message_flood}
use stellarconduit_core.Discovery.PeerList.{PeerList, get_active_peers, update_peer}
use stellarconduit_core.Gossip.Queue.{drain_batch, envelopes}
use stellarconduit_core.Gossip.Bloom.{Bloom, SlidingBloomFilter, check_and_add}
use stellarconduit_core.Gossip.Fanout.{FanoutCalculator, calculate, Choice, select_random}
use stellarconduit_core.Gossip.State.{GossipState}

abbrev pub fanout_batch_size : ℕ
fanout_batch_size = 32

abbrev pub is_nil : {A : Type 0} → List A → Bool
is_nil [] = true
is_nil (x ∷ xs) = false

-- The identities of the active peers that are not banned.
abbrev pub eligible : PeerList → ℕ → List PeerIdentity
eligible l now = map (λ p. p.identity) (retain (λ p. not p.is_banned) (get_active_peers l now))

-- The outbound copy.
abbrev pub outbound : TransactionEnvelope → TransactionEnvelope
outbound e = record e { ttl_hops = e.ttl_hops - 1 }

abbrev pub send_each :
    TransactionEnvelope → List PeerIdentity → List (PeerIdentity × ProtocolMessage)
send_each e = map (λ p. (p, transaction (outbound e)))

-- One penalty for each duplicate, in order.
unfoldable pub penalize_all : List Bytes → PeerList → PeerList
penalize_all [] l = l
penalize_all (origin ∷ origins) l =
    penalize_all origins (update_peer l origin (λ p. apply_penalty p duplicate_message_flood))

module _ (b : Bloom) where
  -- What the loop over the batch leaves.
  pub record Dispatched : Type 0 where
    pub bloom : SlidingBloomFilter b
    pub metrics : Metrics
    pub sends : List (PeerIdentity × ProtocolMessage)
    pub forwarded : List TransactionEnvelope
    pub duplicate_origins : List Bytes

  -- The loop over the batch. `forwarded` lists the envelopes that the source only counts.
  unfoldable pub dispatch :
      List PeerIdentity → SlidingBloomFilter b → Metrics → List TransactionEnvelope → Dispatched
  dispatch recipients bloom metrics [] = record {
    bloom = bloom;
    metrics = metrics;
    sends = [];
    forwarded = [];
    duplicate_origins = [];
  }
  dispatch recipients bloom metrics (e ∷ es) =
      let (bloom', seen) = check_and_add b bloom e.message_id in
      let duplicate =
        dispatch recipients bloom'
          (record metrics { envelopes_dropped_bloom = fetch_add metrics.envelopes_dropped_bloom 1 })
          es in
      let expired =
        dispatch recipients bloom'
          (record metrics { envelopes_dropped_ttl = fetch_add metrics.envelopes_dropped_ttl 1 })
          es in
      let sent = dispatch recipients bloom' metrics es in
      if seen
      then record duplicate { duplicate_origins = e.origin_pubkey ∷ duplicate.duplicate_origins }
      else (if e.ttl_hops == 0 then expired else record sent {
        sends = send_each e recipients ++ sent.sends;
        forwarded = e ∷ sent.forwarded;
      })

  pub record Round : Type 0 where
    pub bloom : SlidingBloomFilter b
    pub metrics : Metrics
    pub state : GossipState
    pub peer_list : PeerList
    pub sends : List (PeerIdentity × ProtocolMessage)

  module _ (ln_ceil : ℕ → ℕ) (choose : Choice PeerIdentity) where
    abbrev pub recipients : FanoutCalculator → List PeerIdentity → List PeerIdentity
    recipients calc active =
        select_random choose active (calculate ln_ceil calc (length active) none)

    -- The branch with peers to send to.
    unfoldable pub send_round :
        SlidingBloomFilter b
        → Metrics
        → GossipState
        → PeerList
        → FanoutCalculator
        → List PeerIdentity
        → ℕ
        → Round
    unfolding dispatch penalize_all
    send_round bloom metrics state l calc active now =
        let (q, batch) = drain_batch state.active_queue fanout_batch_size now in
        let d = dispatch (recipients calc active) bloom metrics (envelopes batch) in
        record {
          bloom = d.bloom;
          metrics = record d.metrics {
            gossip_rounds_fired = fetch_add d.metrics.gossip_rounds_fired 1;
            envelopes_forwarded = fetch_add d.metrics.envelopes_forwarded (length d.forwarded);
          };
          state = record state { active_queue = q };
          peer_list = penalize_all d.duplicate_origins l;
          sends = d.sends;
        }

    -- The clock, in seconds, is read for the activity of peers, then for the urgency of envelopes.
    unfoldable pub execute_fanout_round :
        SlidingBloomFilter b → Metrics → GossipState → PeerList → FanoutCalculator → ℕ × ℕ → Round
    unfolding send_round
    execute_fanout_round bloom metrics state l calc (now, now_drained) =
        let active = eligible l now in
        if is_nil active
        then record {
          bloom = bloom;
          metrics = record metrics {
            gossip_rounds_fired = fetch_add metrics.gossip_rounds_fired 1;
          };
          state = state;
          peer_list = l;
          sends = [];
        }
        else send_round bloom metrics state l calc active now_drained
