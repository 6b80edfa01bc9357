-- ===== src/Gossip/FanoutRound/Once.antt =====
-- src/gossip/protocol.rs: rounds forward no envelope twice.
use stellarconduit_core.Prelude.{
  ℕ, suc, ◌+◌, ◌≤◌, ◌<◌, List, [], ◌∷◌, ◌++◌, Bytes, true, false, ◌≡◌, ◌≢◌, refl, ap, sym, ◌∙◌,
  subst₂, arith, length, ◌⊎◌, ◌==◌, inl, inr, Bool-cases, All, All-imp, All-append,
}
use stellarconduit_core.Message.{TransactionEnvelope}
use stellarconduit_core.Metrics.{Metrics, fetch_add}
use stellarconduit_core.Peer.Identity.{PeerIdentity}
use stellarconduit_core.Gossip.Bloom.{Bloom, NoFalseNegatives, SlidingBloomFilter, check_and_add}
use stellarconduit_core.Gossip.Bloom.Window.{
  Keeps, check_and_add-Keeps, insert_count-le, recorded-Keeps,
}
use stellarconduit_core.Gossip.FanoutRound.{dispatch}

-- No id stands twice.
abbrev pub Distinct : List TransactionEnvelope → Type 0
Distinct [] = Unit {0}
Distinct (e ∷ es) = All (λ x. x.message_id ≢ e.message_id) es × Distinct es

Distinct-append :
    (xs ys : List TransactionEnvelope)
    → Distinct xs
    → Distinct ys
    → All (λ x. All (λ y. y.message_id ≢ x.message_id) ys) xs
    → Distinct (xs ++ ys)
Distinct-append [] ys h k a = k
Distinct-append (x ∷ xs) ys h k a = (All-append _ xs ys h.0 a.0, Distinct-append xs ys h.1 k a.1)

module _ (b : Bloom) (laws : NoFalseNegatives b) where
  -- The filter is in order: its window has room for at least one id and is not overfull.
  abbrev pub IsSound : SlidingBloomFilter b → Type 0
  IsSound s = (0 < s.capacity) × (s.insert_count ≤ s.capacity)

  Keeps-seen :
      (k : ℕ) (s : SlidingBloomFilter b) (id : Bytes)
      → Keeps b k s id
      → (check_and_add b s id).1 ≡ true
  unfolding check_and_add
  Keeps-seen k s id h = ground arith

  Keeps-le :
      (j k : ℕ) (s : SlidingBloomFilter b) (id : Bytes) → j ≤ k → Keeps b k s id → Keeps b j s id
  Keeps-le j k s id h m = ground arith

  check_and_add-IsSound :
      (s : SlidingBloomFilter b) (id : Bytes)
      → IsSound s
      → IsSound (check_and_add b s id).0 × ((check_and_add b s id).0.capacity ≡ s.capacity)
  check_and_add-IsSound s id h =
      let (c, e) = insert_count-le b laws s id h.0 h.1 in ((omega (arith, h.0), c), e)

  -- The loop on one envelope: what becomes of the filter, and which it forwards.
  dispatch-cons :
      (ps : List PeerIdentity) (s : SlidingBloomFilter b) (ms : Metrics) (e : TransactionEnvelope)
      (es : List TransactionEnvelope)
      → (ms' : Metrics) × ((dispatch b ps s ms (e ∷ es)).bloom
          ≡ (dispatch b ps (check_and_add b s e.message_id).0 ms' es).bloom)
        × (((dispatch b ps s ms (e ∷ es)).forwarded
              ≡ (dispatch b ps (check_and_add b s e.message_id).0 ms' es).forwarded)
            ⊎ (((dispatch b ps s ms (e ∷ es)).forwarded
                  ≡ e ∷ (dispatch b ps (check_and_add b s e.message_id).0 ms' es).forwarded)
                × ((check_and_add b s e.message_id).1 ≡ false)))
  unfolding dispatch
  dispatch-cons ps s ms e es = elim (Bool-cases (check_and_add b s e.message_id).1) [
    | inl seen ↦ (
      record ms { envelopes_dropped_bloom = fetch_add ms.envelopes_dropped_bloom 1 },
      ground arith,
      inl (ground arith),
    )
    | inr fresh ↦ elim (Bool-cases (e.ttl_hops == 0)) [
      | inl expired ↦ (
        record ms { envelopes_dropped_ttl = fetch_add ms.envelopes_dropped_ttl 1 },
        ground arith,
        inl (ground arith),
      )
      | inr alive ↦ (ms, ground arith, inr (ground arith, fresh))
    ]
  ]

  dispatch-IsSound :
      (es : List TransactionEnvelope) (ps : List PeerIdentity) (s : SlidingBloomFilter b)
      (ms : Metrics)
      → IsSound s
      → IsSound (dispatch b ps s ms es).bloom
        × ((dispatch b ps s ms es).bloom.capacity ≡ s.capacity)
  unfolding dispatch
  dispatch-IsSound [] ps s ms h = (h, refl)
  dispatch-IsSound (e ∷ es) ps s ms h =
      let (ms', eb, f) = dispatch-cons ps s ms e es in
      let s' = (check_and_add b s e.message_id).0 in
      let (h', c) = check_and_add-IsSound s e.message_id h in
      let (h'', c') = dispatch-IsSound es ps s' ms' h' in
      (rw eb h'', ap (λ t. t.capacity) eb ∙ c' ∙ c)

  -- An id that the filter keeps long enough is not forwarded, and is kept on.
  dispatch-Keeps :
      (es : List TransactionEnvelope) (ps : List PeerIdentity) (s : SlidingBloomFilter b)
      (ms : Metrics) (k : ℕ) (id : Bytes)
      → IsSound s
      → Keeps b (length es + k) s id
      → Keeps b k (dispatch b ps s ms es).bloom id
        × All (λ x. x.message_id ≢ id) (dispatch b ps s ms es).forwarded
  unfolding dispatch
  dispatch-Keeps [] ps s ms k id h m = (Keeps-le k (0 + k) s id (omega arith) m, tt)
  dispatch-Keeps (e ∷ es) ps s ms k id h m =
      let (ms', eb, f) = dispatch-cons ps s ms e es in
      let s' = (check_and_add b s e.message_id).0 in
      let (h', c) = check_and_add-IsSound s e.message_id h in
      let n = length es + k in
      let m' =
        check_and_add-Keeps b laws n s id e.message_id h.1
          (Keeps-le (suc n) (suc (length es) + k) s id (omega arith) m) in
      let (kept, unsent) = dispatch-Keeps es ps s' ms' k id h' m' in
      (
        rw eb kept,
        elim f [
          | inl skips ↦ rw skips unsent
          | inr (sends, fresh) ↦
              rw sends
                (λ eq. absurd (ground (arith, Keeps-seen (suc (length es) + k) s id m)), unsent)
        ],
      )

  abbrev AllKept : ℕ → SlidingBloomFilter b → List TransactionEnvelope → Type 0
  AllKept k t = All (λ x. Keeps b k t x.message_id)

  -- What the loop forwards has different ids, and the filter keeps each for the rest of the capacity.
  dispatch-Distinct :
      (es : List TransactionEnvelope) (ps : List PeerIdentity) (s : SlidingBloomFilter b)
      (ms : Metrics) (k : ℕ)
      → IsSound s
      → length es + k ≤ s.capacity
      → Distinct (dispatch b ps s ms es).forwarded
        × AllKept k (dispatch b ps s ms es).bloom (dispatch b ps s ms es).forwarded
  unfolding dispatch
  dispatch-Distinct [] ps s ms k h room = (tt, tt)
  dispatch-Distinct (e ∷ es) ps s ms k h room =
      let (ms', eb, f) = dispatch-cons ps s ms e es in
      let s' = (check_and_add b s e.message_id).0 in
      let (h', c) = check_and_add-IsSound s e.message_id h in
      let (d, kept) = dispatch-Distinct es ps s' ms' k h' (omega (arith, c)) in
      elim f [
        | inl skips ↦ (rw skips d, subst₂ (AllKept k) (sym eb) (sym skips) kept)
        | inr (sends, fresh) ↦
            let m =
              Keeps-le (length es + k) s.capacity s' e.message_id (omega arith)
                (recorded-Keeps b laws s e.message_id h.0 h.1 fresh) in
            let (on, unsent) = dispatch-Keeps es ps s' ms' k e.message_id h' m in
            (rw sends (unsent, d), subst₂ (AllKept k) (sym eb) (sym sends) (on, kept))
      ]

  -- The rounds of a node, each with its recipients, counters and batch: all that they forward.
  pub forwarded_by :
      SlidingBloomFilter b
      → List (List PeerIdentity × Metrics × List TransactionEnvelope)
      → List TransactionEnvelope
  forwarded_by s [] = []
  forwarded_by s ((ps, ms, es) ∷ rs) =
      (dispatch b ps s ms es).forwarded ++ forwarded_by (dispatch b ps s ms es).bloom rs

  -- The number of envelopes in the batches.
  abbrev pub handled : List (List PeerIdentity × Metrics × List TransactionEnvelope) → ℕ
  handled [] = 0
  handled ((ps, ms, es) ∷ rs) = length es + handled rs

  forwarded_by-Keeps :
      (rs : List (List PeerIdentity × Metrics × List TransactionEnvelope))
      (s : SlidingBloomFilter b) (id : Bytes)
      → IsSound s
      → Keeps b (handled rs) s id
      → All (λ x. x.message_id ≢ id) (forwarded_by s rs)
  unfolding forwarded_by
  forwarded_by-Keeps [] s id h m = tt
  forwarded_by-Keeps ((ps, ms, es) ∷ rs) s id h m =
      let (on, unsent) = dispatch-Keeps es ps s ms (handled rs) id h m in
      let (h', c) = dispatch-IsSound es ps s ms h in
      All-append _ (dispatch b ps s ms es).forwarded _ unsent
        (forwarded_by-Keeps rs (dispatch b ps s ms es).bloom id h' on)

  -- Over any rounds that handle no more envelopes than a window of the filter holds, whoever the
  -- recipients are, no two forwarded envelopes have the same id.
  pub forwarded_by-Distinct :
      (rs : List (List PeerIdentity × Metrics × List TransactionEnvelope))
      (s : SlidingBloomFilter b)
      → IsSound s
      → handled rs ≤ s.capacity
      → Distinct (forwarded_by s rs)
  unfolding forwarded_by
  forwarded_by-Distinct [] s h room = tt
  forwarded_by-Distinct ((ps, ms, es) ∷ rs) s h room =
      let d = dispatch b ps s ms es in
      let (own, kept) = dispatch-Distinct es ps s ms (handled rs) h room in
      let (h', c) = dispatch-IsSound es ps s ms h in
      Distinct-append d.forwarded (forwarded_by d.bloom rs) own
        (forwarded_by-Distinct rs d.bloom h' (omega (arith, c)))
        (All-imp _ _ (λ x m. forwarded_by-Keeps rs d.bloom x.message_id h' m) d.forwarded kept)
