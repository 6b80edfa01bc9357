-- ===== src/Router/PathFinder/Shortest.antt =====
-- src/router/path_finder.rs: the search finds the shortest distance.
use stellarconduit_core.Prelude.{
  ℕ, zero, suc, ◌+◌, ◌≤◌, List, [], ◌∷◌, Bytes, true, Option, none, some, ◌≡◌, refl, ap, sym, subst,
  ◌∙◌, arith, leb, min, bytes_eq_iff, In, inl, inr, All-In,
}
use stellarconduit_core.Prelude.Sort.{Sorted}
use stellarconduit_core.Prelude.HashMap
use stellarconduit_core.Prelude.HashMap.{HashMap}
use stellarconduit_core.Topology.HopCounter.{HopCounter, AtMost}
use stellarconduit_core.Topology.Graph.{MeshGraph, get_neighbors}
use stellarconduit_core.Router.PathFinder.{
  visits, expand, or_empty, better, search, entries, shortest_from,
}
use stellarconduit_core.Router.PathFinder.Search.{search-Reaches, shortest_from_ends}
use stellarconduit_core.Router.PathFinder.Expansion.{
  Entry, Known, nearer, Loop, Expanded, expand-Expanded,
}
use stellarconduit_core.Router.PathFinder.Walks.{neighbors, Walk, here, step, Reaches}

module _ (g : MeshGraph) (c : HopCounter) (start : Bytes) where
  -- What the search keeps: every edge out of a node that was taken leads to a known node at most one
  -- deeper, and the minimum is no more than what a taken node gives.
  record Invariant (done queue : List Entry) (visited : List Bytes) (m : Option ℕ) : Type 0 where
    seen : (v : Bytes) → visits visited v ≡ true → (e : ℕ) × Known done queue (v, e)
    closed :
        (v w : Bytes) (d : ℕ)
        → In (v, d) done
        → In w (neighbors g v)
        → (e : ℕ) × Known done queue (w, e) × (e ≤ d + 1)
    sorted : Sorted nearer queue
    close : (x y : Entry) → Known done queue x → In y queue → x.1 ≤ y.1 + 1
    best :
        (v : Bytes) (d h : ℕ)
        → In (v, d) done
        → HashMap.get v c.peer_distances ≡ some h
        → AtMost (d + h) m
    begun : Known done queue (start, 0)

  move :
      (done queue : List Entry) (u x : Entry) → Known done (u ∷ queue) x → Known (u ∷ done) queue x
  move done queue u x (inl p) = inl (inr p)
  move done queue u x (inr (inl e)) = inl (inl e)
  move done queue u x (inr (inr q)) = inr q

  back :
      (done queue : List Entry) (u x : Entry) → Known (u ∷ done) queue x → Known done (u ∷ queue) x
  back done queue u x (inl (inl e)) = inr (inl e)
  back done queue u x (inl (inr p)) = inl p
  back done queue u x (inr q) = inr (inr q)

  Invariant-Loop :
      (done queue : List Entry) (visited : List Bytes) (m : Option ℕ) (u : Bytes) (d : ℕ)
      → Invariant done ((u, d) ∷ queue) visited m
      → Loop ((u, d) ∷ done) d queue visited
  Invariant-Loop done queue visited m u d i = record {
    seen = λ v h. let (e, k) = i.seen v h in (e, move done queue (u, d) (v, e) k);
    sorted = i.sorted.1;
    near = λ x k. i.close x (u, d) (back done queue (u, d) x k) (inl refl);
    far = λ x q. far x (All-In (λ y. nearer (u, d) y ≡ true) x queue i.sorted.0 q);
  }
    where
      far : (x : Entry) → leb d x.1 ≡ true → d ≤ x.1
      far x h = ground arith

  AtMost-better : (m o : Option ℕ) (d h : ℕ) → AtMost h m → AtMost h (better m d o)
  AtMost-better m none d h a = ground (arith, a)
  AtMost-better m (some k) d h (y, e, le) = (min y (d + k), ground arith, omega arith)

  AtMost-better_new : (m : Option ℕ) (d h : ℕ) → AtMost (d + h) (better m d (some h))
  AtMost-better_new none d h = (d + h, refl, omega arith)
  AtMost-better_new (some k) d h = (min k (d + h), refl, omega arith)

  Invariant-step :
      (done queue : List Entry) (visited : List Bytes) (m : Option ℕ) (u : Bytes) (d : ℕ)
      → Invariant done ((u, d) ∷ queue) visited m
      → let e = expand d (neighbors g u) queue visited in
        Invariant ((u, d) ∷ done) e.0 e.1 (better m d (HashMap.get u c.peer_distances))
  Invariant-step done queue visited m u d i = record {
    seen = r.loop.seen;
    closed = closed;
    sorted = r.loop.sorted;
    close = λ x y k q. omega (arith, r.loop.near x k, r.loop.far y q);
    best = best;
    begun = on (start, 0) i.begun;
  }
    where
      r :
          Expanded
            ((u, d) ∷ done)
            d
            (neighbors g u)
            queue
            (expand d (neighbors g u) queue visited).0
            (expand d (neighbors g u) queue visited).1
      r =
          expand-Expanded ((u, d) ∷ done) d (neighbors g u) queue visited
            (Invariant-Loop done queue visited m u d i)

      on :
          (x : Entry)
          → Known done ((u, d) ∷ queue) x
          → Known ((u, d) ∷ done) (expand d (neighbors g u) queue visited).0 x
      on x k = elim (move done queue (u, d) x k) [ inl p ↦ inl p | inr q ↦ inr (r.grows x q) ]

      closed :
          (v w : Bytes) (n : ℕ)
          → In (v, n) ((u, d) ∷ done)
          → In w (neighbors g v)
          → (e : ℕ) × Known ((u, d) ∷ done) (expand d (neighbors g u) queue visited).0 (w, e)
            × (e ≤ n + 1)
      closed v w n (inl same) edge =
          let (e, k, le) = r.reached w (subst (λ (x : Entry). In w (neighbors g x.0)) same edge) in
          (e, k, subst (λ (x : Entry). e ≤ x.1 + 1) (sym same) le)
      closed v w n (inr p) edge = let (e, k, le) = i.closed v w n p edge in (e, on (w, e) k, le)

      best :
          (v : Bytes) (n h : ℕ)
          → In (v, n) ((u, d) ∷ done)
          → HashMap.get v c.peer_distances ≡ some h
          → AtMost (n + h) (better m d (HashMap.get u c.peer_distances))
      best v n h (inl same) known =
          subst (λ (x : Entry). AtMost (x.1 + h) (better m d (HashMap.get u c.peer_distances)))
            (sym same)
            (subst (λ o. AtMost (d + h) (better m d o))
              (sym (subst (λ (x : Entry). HashMap.get x.0 c.peer_distances ≡ some h) same known))
              (AtMost-better_new m d h))
      best v n h (inr p) known =
          AtMost-better m (HashMap.get u c.peer_distances) d (n + h) (i.best v n h p known)

  -- Once the queue is empty, every walk ends at a node that was taken, at its length or before.
  walk-taken :
      (done : List Entry) (visited : List Bytes) (m : Option ℕ) (n : ℕ) (v : Bytes)
      → Invariant done [] visited m
      → Walk g start n v
      → (e : ℕ) × In (v, e) done × (e ≤ n)
  walk-taken done visited m zero v i here = elim i.begun [
    | inl p ↦ (0, p, omega arith)
    | inr q ↦ absurd q
  ]
  walk-taken done visited m (suc n) v i (step {v = u} w edge) =
      let (e, p, le) = walk-taken done visited m n u i w in
      let (e', k, le') = i.closed u v e p edge in
      elim k [ inl p' ↦ (e', p', omega arith) | inr q ↦ absurd q ]

  search-AtMost :
      (fuel : ℕ) (done queue : List Entry) (visited : List Bytes) (m r : Option ℕ) (k : ℕ)
      (x : Reaches g c start k)
      → Invariant done queue visited m
      → search g c fuel queue visited m ≡ some r
      → AtMost k r
  unfolding search get_neighbors
  search-AtMost fuel done [] visited m r k x i e =
      let (n, p, le) = walk-taken done visited m x.steps x.node i x.walk in
      let (y, q, le') = i.best x.node n x.hops p x.announced in
      (y, ground arith, omega (arith, x.total))
  search-AtMost zero done (y ∷ queue) visited m r k x i e = absurd (ground arith)
  search-AtMost (suc fuel) done ((u, d) ∷ queue) visited m r k x i e =
      let step_to = expand d (or_empty (HashMap.get u g.edges)) queue visited in
      search-AtMost fuel ((u, d) ∷ done) step_to.0 step_to.1
        (better m d (HashMap.get u c.peer_distances)) r k x
        (Invariant-step done queue visited m u d i) e

  first-Invariant : Invariant [] ((start, 0) ∷ []) (start ∷ []) none
  first-Invariant = record {
    seen = λ v h. (0, inr (inl (ap (λ b. (b, 0)) (ground (arith, bytes_eq_iff v start)))));
    closed = λ v w d p edge. absurd p;
    sorted = (tt, tt);
    close = λ x y k q. ground arith;
    best = λ v d h p known. absurd p;
    begun = inr (inl refl);
  }

  -- The distance that the search finds is one: a walk in the graph to a node that announced the rest.
  pub shortest_from-Reaches :
      (k : ℕ) → shortest_from g c start ≡ some (some k) → Reaches g c start k
  unfolding shortest_from
  shortest_from-Reaches k e =
      search-Reaches g c start (suc (entries g.edges)) ((start, 0) ∷ []) (start ∷ []) none k
        (λ x i. elim i [
          | inl first ↦ subst (λ (y : Entry). Walk g start y.1 y.0) (sym first) here
          | inr none_left ↦ absurd none_left
        ])
        (λ j impossible. absurd (ground arith)) e

  -- Where a relay can be reached over so many hops, the search ends with a distance that is no more.
  pub shortest_from-least :
      (k : ℕ) → Reaches g c start k → (y : ℕ) × (shortest_from g c start ≡ some (some y)) × (y ≤ k)
  unfolding shortest_from
  shortest_from-least k x =
      let (r, e) = shortest_from_ends g c start in
      let (y, s, le) = least r e in (y, e ∙ ap some s, le)
    where
      least : (r : Option ℕ) → shortest_from g c start ≡ some r → AtMost k r
      least r e =
          search-AtMost (suc (entries g.edges)) [] ((start, 0) ∷ []) (start ∷ []) none r k x
            first-Invariant e
