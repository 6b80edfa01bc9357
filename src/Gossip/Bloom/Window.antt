-- ===== src/Gossip/Bloom/Window.antt =====
-- src/gossip/bloom.rs: how long the sliding filter remembers an id.
use stellarconduit_core.Prelude.{
  ℕ, suc, ◌+◌, ◌≤◌, ◌<◌, List, [], ◌∷◌, Bytes, true, false, ◌≡◌, ◌⊎◌, arith, length,
}
use stellarconduit_core.Gossip.Bloom.{
  Bloom, NoFalseNegatives, SlidingBloomFilter, check, check_and_add,
}

module _ (b : Bloom) where
  -- The filter after a sequence of ids.
  pub run : SlidingBloomFilter b → List Bytes → SlidingBloomFilter b
  run s [] = s
  run s (id ∷ ids) = run (check_and_add b s id).0 ids

  -- `id` will be remembered for at least `k` more calls: it stands in the current window, or in the
  -- previous one while the current one has room.
  abbrev pub Keeps : ℕ → SlidingBloomFilter b → Bytes → Type 0
  Keeps k s id =
      ((b.check s.current id ≡ true) × (k + s.insert_count ≤ s.capacity + s.capacity))
      ⊎ ((b.check s.previous id ≡ true) × (k + s.insert_count ≤ s.capacity))

  module _ (laws : NoFalseNegatives b) where
    pub check_and_add-Keeps :
        (k : ℕ) (s : SlidingBloomFilter b) (id j : Bytes)
        → s.insert_count ≤ s.capacity
        → Keeps (suc k) s id
        → Keeps k (check_and_add b s j).0 id
    unfolding check_and_add
    check_and_add-Keeps k s id j c h =
        ground (arith, laws.check-set_keeps s.current id j, laws.check-set_keeps s.previous id j)

    pub insert_count-le :
        (s : SlidingBloomFilter b) (id : Bytes)
        → 0 < s.capacity
        → s.insert_count ≤ s.capacity
        → ((check_and_add b s id).0.insert_count ≤ (check_and_add b s id).0.capacity)
          × ((check_and_add b s id).0.capacity ≡ s.capacity)
    unfolding check_and_add
    insert_count-le s id p c = ground arith

    run-Keeps :
        (ids : List Bytes) (k : ℕ) (s : SlidingBloomFilter b) (id : Bytes)
        → 0 < s.capacity
        → s.insert_count ≤ s.capacity
        → Keeps (length ids + k) s id
        → Keeps k (run s ids) id
    unfolding run
    run-Keeps [] k s id p c h = ground arith
    run-Keeps (j ∷ ids) k s id p c h =
        let (c', e) = insert_count-le s j p c in
        run-Keeps ids k (check_and_add b s j).0 id (omega arith) c'
          (check_and_add-Keeps (length ids + k) s id j c (ground arith))

    pub recorded-Keeps :
        (s : SlidingBloomFilter b) (id : Bytes)
        → 0 < s.capacity
        → s.insert_count ≤ s.capacity
        → (check_and_add b s id).1 ≡ false
        → Keeps s.capacity (check_and_add b s id).0 id
    unfolding check_and_add
    recorded-Keeps s id p c h = ground (
      arith,
      laws.check-set s.current id,
      laws.check-set (b.new_for_fp_rate s.capacity s.fp_rate) id,
    )

    -- An id that the filter took for new is reported as seen after any further calls, as long as
    -- these are no more than the capacity of a window.
    pub check-run :
        (s : SlidingBloomFilter b) (id : Bytes) (ids : List Bytes)
        → 0 < s.capacity
        → s.insert_count ≤ s.capacity
        → (check_and_add b s id).1 ≡ false
        → length ids ≤ s.capacity
        → check b (run (check_and_add b s id).0 ids) id ≡ true
    unfolding check
    check-run s id ids p c h n =
        let (c', e) = insert_count-le s id p c in
        let r = recorded-Keeps s id p c h in
        ground (arith, run-Keeps ids 0 (check_and_add b s id).0 id (omega arith) c' (ground arith))

    -- The window in use never holds more ids than its capacity.
    pub run-insert_count-le :
        (s : SlidingBloomFilter b) (ids : List Bytes)
        → 0 < s.capacity
        → s.insert_count ≤ s.capacity
        → (run s ids).insert_count ≤ s.capacity
    unfolding run
    run-insert_count-le s [] p c = c
    run-insert_count-le s (id ∷ ids) p c =
        let (c', e) = insert_count-le s id p c in
        omega (arith, run-insert_count-le (check_and_add b s id).0 ids (omega arith) c')
