-- ===== src/Gossip/FanoutRound/Sends.antt =====
-- src/gossip/protocol.rs: to whom a round sends what, and how it counts.
use stellarconduit_core.Prelude.{
  ℕ, suc, ◌+◌, ◌-◌, ◌*◌, ◌<◌, List, [], ◌∷◌, ◌++◌, ◌≡◌, refl, arith, ◌==◌, length, inl, inr,
  Bool-cases, In, length-append, length-map, u64,
}
use stellarconduit_core.Message.{TransactionEnvelope, ProtocolMessage, transaction}
use stellarconduit_core.Metrics.{Metrics, fetch_add}
use stellarconduit_core.Peer.Identity.{PeerIdentity}
use stellarconduit_core.Discovery.PeerList.{PeerList}
use stellarconduit_core.Gossip.Bloom.{Bloom, SlidingBloomFilter, check_and_add}
use stellarconduit_core.Gossip.FanoutRound.{outbound, send_each, Dispatched, dispatch}

-- A send to `p`: of an envelope of the list that may still hop, with one hop less.
abbrev pub SendOf :
    List PeerIdentity → List TransactionEnvelope → PeerIdentity → ProtocolMessage → Type 0
SendOf ps es p m =
    In p ps
    × ((e : TransactionEnvelope) × In e es
        × (0 < e.ttl_hops)
        × (m ≡ transaction (record e { ttl_hops = e.ttl_hops - 1 })))

length-sends :
    (e : TransactionEnvelope) (ps : List PeerIdentity)
    (rest : List (PeerIdentity × ProtocolMessage))
    → length (send_each e ps ++ rest) ≡ length ps + length rest
length-sends e ps rest = ground (
  arith,
  length-append (send_each e ps) rest,
  length-map {B = PeerIdentity × ProtocolMessage} (λ p. (p, transaction (outbound e))) ps,
)

one_more : (p n r : ℕ) → r ≡ n * p → p + r ≡ suc n * p
one_more p n r h = grind (arith, h)

module _ (b : Bloom) where
  -- What the loop counts: each envelope once, as forwarded, as a duplicate or as expired, and a send
  -- of each forwarded one to each recipient.
  pub record Accounts (ps : List PeerIdentity) (ms : Metrics) (es : List TransactionEnvelope)
      (d : Dispatched b) : Type 0 where
    pub expired : ℕ
    pub all_counted : length d.forwarded + (length d.duplicate_origins + expired) ≡ length es
    pub duplicates_counted :
        d.metrics.envelopes_dropped_bloom
        ≡ u64 (ms.envelopes_dropped_bloom + length d.duplicate_origins)
    pub expired_counted : d.metrics.envelopes_dropped_ttl ≡ u64 (ms.envelopes_dropped_ttl + expired)
    pub sends_counted : length d.sends ≡ length d.forwarded * length ps

  -- Where the counters are words, a round accounts for every envelope of its batch.
  pub dispatch-Accounts :
      (ps : List PeerIdentity) (bloom : SlidingBloomFilter b) (ms : Metrics)
      (es : List TransactionEnvelope)
      → ms.envelopes_dropped_bloom < 18446744073709551616
      → ms.envelopes_dropped_ttl < 18446744073709551616
      → Accounts ps ms es (dispatch b ps bloom ms es)
  unfolding dispatch
  dispatch-Accounts ps bloom ms [] h k = record {
    expired = 0;
    all_counted = refl;
    duplicates_counted = ground arith;
    expired_counted = ground arith;
    sends_counted = ground arith;
  }
  dispatch-Accounts ps bloom ms (e ∷ es) h k =
      elim (Bool-cases (check_and_add b bloom e.message_id).1) [
        | inl seen ↦
            let r = dispatch-Accounts ps bloom' dropped es (omega arith) k in
            record {
              expired = r.expired;
              all_counted = ground (arith, r.all_counted);
              duplicates_counted = ground (arith, r.duplicates_counted);
              expired_counted = ground (arith, r.expired_counted);
              sends_counted = ground (arith, r.sends_counted);
            }
        | inr fresh ↦ elim (Bool-cases (e.ttl_hops == 0)) [
          | inl over ↦
              let r = dispatch-Accounts ps bloom' ended es h (omega arith) in
              record {
                expired = r.expired + 1;
                all_counted = ground (arith, r.all_counted);
                duplicates_counted = ground (arith, r.duplicates_counted);
                expired_counted = ground (arith, r.expired_counted);
                sends_counted = ground (arith, r.sends_counted);
              }
          | inr alive ↦
              let r = dispatch-Accounts ps bloom' ms es h k in
              record {
                expired = r.expired;
                all_counted = ground (arith, r.all_counted);
                duplicates_counted = ground (arith, r.duplicates_counted);
                expired_counted = ground (arith, r.expired_counted);
                sends_counted = ground (
                  arith,
                  length-sends e ps (dispatch b ps bloom' ms es).sends,
                  one_more (length ps) (length (dispatch b ps bloom' ms es).forwarded)
                      (length (dispatch b ps bloom' ms es).sends) r.sends_counted,
                );
              }
        ]
      ]
    where
      bloom' : SlidingBloomFilter b
      bloom' = (check_and_add b bloom e.message_id).0

      dropped : Metrics
      dropped = record ms { envelopes_dropped_bloom = fetch_add ms.envelopes_dropped_bloom 1 }

      ended : Metrics
      ended = record ms { envelopes_dropped_ttl = fetch_add ms.envelopes_dropped_ttl 1 }
