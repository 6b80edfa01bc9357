-- ===== src/Router/PathFinder/Ranking.antt =====
-- src/router/path_finder.rs: the order of the ranking.
use stellarconduit_core.Prelude.{
  ℕ, List, [], ◌∷◌, Bytes, Bool, true, false, Option, none, some, ◌≡◌, refl, sym, subst, subst₂,
  ◌∙◌, arith, Perm, bytes_eq, bytes_eq_iff, bytes_eq_refl, In, inl, inr, ◌⊎◌, Bool-cases, All-In,
  All-of_In,
}
use stellarconduit_core.Prelude.Sort.{Sorted, sort_by, sort_by-Sorted, sort_by-perm, In-sort_by}
use stellarconduit_core.Prelude.HashMap
use stellarconduit_core.Prelude.HashMap.{HashMap, get-insert}
use stellarconduit_core.Topology.HopCounter.{HopCounter}
use stellarconduit_core.Topology.Graph.{MeshGraph}
use stellarconduit_core.Router.PathFinder.{
  flatten, shortest_from, store, shortest_paths, no_farther, rank_next_hops,
}

-- The distance that the search finds from a peer, if it finds one.
abbrev pub distance : MeshGraph → HopCounter → Bytes → Option ℕ
distance g c p = flatten (shortest_from g c p)

-- The first peer of a pair is no farther from a relay.
abbrev pub by_distance : MeshGraph → HopCounter → Bytes → Bytes → Bool
by_distance g c a b = no_farther (distance g c a) (distance g c b)

no_farther_total : (a b : Option ℕ) → no_farther a b ≡ false → no_farther b a ≡ true
no_farther_total a none h = absurd (ground arith)
no_farther_total none (some b) h = refl
no_farther_total (some a) (some b) h = ground arith

no_farther_trans :
    (a b d : Option ℕ) → no_farther a b ≡ true → no_farther b d ≡ true → no_farther a d ≡ true
no_farther_trans a b none h k = refl
no_farther_trans a none (some d) h k = absurd (ground arith)
no_farther_trans none (some b) (some d) h k = absurd (ground arith)
no_farther_trans (some a) (some b) (some d) h k = ground arith

store-same :
    (p : Bytes) (o : Option ℕ) (m : HashMap ℕ)
    → (HashMap.get p m ≡ none) ⊎ (HashMap.get p m ≡ o)
    → HashMap.get p (store p o m) ≡ o
store-same p none m h = ground arith
store-same p (some d) m h = ground (arith, get-insert p p d m, bytes_eq_refl p)

store-other :
    (p q : Bytes) (o : Option ℕ) (m : HashMap ℕ)
    → bytes_eq p q ≡ false
    → HashMap.get q (store p o m) ≡ HashMap.get q m
store-other p q none m h = refl
store-other p q (some d) m h = ground (arith, get-insert p q d m)

module _ (g : MeshGraph) (c : HopCounter) where
  shortest_paths-kept :
      (ps : List Bytes) (m : HashMap ℕ) (q : Bytes)
      → HashMap.get q m ≡ distance g c q
      → HashMap.get q (shortest_paths g c ps m) ≡ distance g c q
  unfolding shortest_paths
  shortest_paths-kept [] m q h = h
  shortest_paths-kept (p ∷ ps) m q h =
      shortest_paths-kept ps (store p (distance g c p) m) q (elim (Bool-cases (bytes_eq p q)) [
        | inl same ↦
            subst (λ b. HashMap.get q (store b (distance g c b) m) ≡ distance g c q)
              (sym ((bytes_eq_iff p q).0 same)) (store-same q (distance g c q) m (inr h))
        | inr other ↦ store-other p q (distance g c p) m other ∙ h
      ])

  get-shortest_paths :
      (ps : List Bytes) (m : HashMap ℕ) (q : Bytes)
      → In q ps
      → HashMap.get q m ≡ none
      → HashMap.get q (shortest_paths g c ps m) ≡ distance g c q
  unfolding shortest_paths
  get-shortest_paths [] m q i h = absurd i
  get-shortest_paths (p ∷ ps) m q i h = elim (Bool-cases (bytes_eq p q)) [
    | inl same ↦ shortest_paths-kept ps (store p (distance g c p) m) q (
        subst (λ b. HashMap.get q (store b (distance g c b) m) ≡ distance g c q)
          (sym ((bytes_eq_iff p q).0 same)) (store-same q (distance g c q) m (inl h)))
    | inr other ↦
        get-shortest_paths ps (store p (distance g c p) m) q (rest i other)
          (store-other p q (distance g c p) m other ∙ h)
  ]
    where
      rest : In q (p ∷ ps) → bytes_eq p q ≡ false → In q ps
      rest (inl e) o = absurd (ground (arith, bytes_eq_refl p))
      rest (inr r) o = r

  Sorted-congr :
      (f f' : Bytes → Option ℕ) (ps : List Bytes)
      → ((p : Bytes) → In p ps → f p ≡ f' p)
      → Sorted (λ a b. no_farther (f a) (f b)) ps
      → Sorted (λ a b. no_farther (f' a) (f' b)) ps
  Sorted-congr f f' [] h s = tt
  Sorted-congr f f' (p ∷ ps) h s = (
    All-of_In _ ps (λ q i.
        subst₂ (λ a b. no_farther a b ≡ true) (h p (inl refl)) (h q (inr i))
          (All-In (λ q'. no_farther (f p) (f q') ≡ true) q ps s.0 i)),
    Sorted-congr f f' ps (λ q i. h q (inr i)) s.1,
  )

  -- The ranking has the active connections, each as often, and in the order of the distances that
  -- the search finds from them; those without one come last.
  pub rank_next_hops-Sorted :
      (ps : List Bytes)
      → Sorted (by_distance g c) (rank_next_hops g c ps) × Perm (rank_next_hops g c ps) ps
  unfolding rank_next_hops HashMap.get
  rank_next_hops-Sorted ps =
      let paths = shortest_paths g c ps [] in
      let by = λ (a : Bytes) (b : Bytes). no_farther (HashMap.get a paths) (HashMap.get b paths) in
      (
        Sorted-congr (λ p. HashMap.get p paths) (distance g c) (sort_by by ps)
            (λ p i. get-shortest_paths ps [] p ((In-sort_by by p ps).0 i) refl)
            (sort_by-Sorted by
              (λ a b h. no_farther_total (HashMap.get a paths) (HashMap.get b paths) h)
              (λ x y z h k.
                no_farther_trans (HashMap.get x paths) (HashMap.get y paths) (HashMap.get z paths) h
                  k)
              ps),
        sort_by-perm by ps,
      )
