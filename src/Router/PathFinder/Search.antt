-- ===== src/Router/PathFinder/Search.antt =====
-- src/router/path_finder.rs: the search ends, and finds only distances that there are.
use stellarconduit_core.Prelude.{
  ℕ, zero, suc, ◌+◌, ◌≤◌, ◌<◌, List, [], ◌∷◌, ◌++◌, Bytes, false, Option, none, some, ◌≡◌, refl,
  sym, subst, leb, ◌∙◌, arith, if◌then◌else◌, length, length-append, bytes_eq, bytes_eq_refl, In,
  In-append, inl, inr, ◌⊎◌, Bool-cases, Option-cases,
}
use stellarconduit_core.Prelude.HashMap
use stellarconduit_core.Prelude.HashMap.{HashMap}
use stellarconduit_core.Topology.HopCounter.{HopCounter}
use stellarconduit_core.Topology.Graph.{MeshGraph, get_neighbors}
use stellarconduit_core.Router.PathFinder.{
  visits, expand, or_empty, better, search, entries, shortest_from,
}
use stellarconduit_core.Router.PathFinder.Walks.{Walk, step, Reaches}

-- How many items of a list are not visited yet.
fresh : List Bytes → List Bytes → ℕ
fresh visited [] = 0
fresh visited (x ∷ xs) = (if visits visited x then 0 else 1) + fresh visited xs

fresh_all : HashMap (List Bytes) → List Bytes → ℕ
fresh_all [] visited = 0
fresh_all ((k, ns) ∷ m) visited = fresh visited ns + fresh_all m visited

fresh-le : (visited xs : List Bytes) (n : Bytes) → fresh (n ∷ visited) xs ≤ fresh visited xs
unfolding fresh
fresh-le visited [] n = omega arith
fresh-le visited (x ∷ xs) n = ground (arith, fresh-le visited xs n)

fresh-lt :
    (visited xs : List Bytes) (n : Bytes)
    → In n xs
    → visits visited n ≡ false
    → fresh (n ∷ visited) xs < fresh visited xs
unfolding fresh
fresh-lt visited [] n i h = absurd i
fresh-lt visited (x ∷ xs) n (inl e) h = ground (arith, fresh-le visited xs n, bytes_eq_refl x)
fresh-lt visited (x ∷ xs) n (inr i) h = ground (arith, fresh-lt visited xs n i h)

fresh_all-le :
    (m : HashMap (List Bytes)) (visited : List Bytes) (n : Bytes)
    → fresh_all m (n ∷ visited) ≤ fresh_all m visited
unfolding fresh_all
fresh_all-le [] visited n = omega arith
fresh_all-le ((k, ns) ∷ m) visited n =
    omega (arith, fresh-le visited ns n, fresh_all-le m visited n)

fresh_all-lt :
    (m : HashMap (List Bytes)) (visited : List Bytes) (u n : Bytes)
    → In n (or_empty (HashMap.get u m))
    → visits visited n ≡ false
    → fresh_all m (n ∷ visited) < fresh_all m visited
unfolding fresh_all HashMap.get
fresh_all-lt [] visited u n i h = absurd i
fresh_all-lt ((k, ns) ∷ m) visited u n i h = elim (Bool-cases (bytes_eq k u)) [
  | inl e ↦ omega (arith, fresh-lt visited ns n (ground arith) h, fresh_all-le m visited n)
  | inr e ↦ omega (arith, fresh-le visited ns n, fresh_all-lt m visited u n (ground arith) h)
]

-- What is queued is no longer fresh.
expand_measure :
    (g : MeshGraph) (u : Bytes) (d : ℕ) (ns : List Bytes) (q : List (Bytes × ℕ))
    (visited : List Bytes)
    → ((n : Bytes) → In n ns → In n (or_empty (HashMap.get u g.edges)))
    → length (expand d ns q visited).0 + fresh_all g.edges (expand d ns q visited).1
      ≤ length q + fresh_all g.edges visited
unfolding expand
expand_measure g u d [] q visited sub = omega arith
expand_measure g u d (n ∷ ns) q visited sub = elim (Bool-cases (visits visited n)) [
  | inl old ↦ rw old (expand_measure g u d ns q visited (λ x i. sub x (inr i)))
  | inr new ↦ rw new (
      omega (
        arith,
        expand_measure g u d ns (q ++ (n, d + 1) ∷ []) (n ∷ visited) (λ x i. sub x (inr i)),
        length-append q ((n, d + 1) ∷ []),
        fresh_all-lt g.edges visited u n (sub n (inl refl)) new,
      ))
]

search_ends :
    (g : MeshGraph) (c : HopCounter) (fuel : ℕ) (q : List (Bytes × ℕ)) (visited : List Bytes)
    (m : Option ℕ)
    → length q + fresh_all g.edges visited ≤ fuel
    → (r : Option ℕ) × (search g c fuel q visited m ≡ some r)
unfolding search get_neighbors
search_ends g c fuel [] visited m h = (m, ground arith)
search_ends g c zero (x ∷ q) visited m h = absurd (omega (arith, h))
search_ends g c (suc fuel) ((u, d) ∷ q) visited m h =
    let ns = or_empty (HashMap.get u g.edges) in
    let e = expand d ns q visited in
    search_ends g c fuel e.0 e.1 (better m d (HashMap.get u c.peer_distances))
      (omega (arith, h, expand_measure g u d ns q visited (λ n i. i)))

fresh-length : (visited xs : List Bytes) → fresh visited xs ≤ length xs
unfolding fresh
fresh-length visited [] = omega arith
fresh-length visited (x ∷ xs) = ground (arith, fresh-length visited xs)

fresh_all-entries :
    (m : HashMap (List Bytes)) (visited : List Bytes) → fresh_all m visited ≤ entries m
unfolding fresh_all
fresh_all-entries [] visited = omega arith
fresh_all-entries ((k, ns) ∷ m) visited =
    omega (arith, fresh-length visited ns, fresh_all-entries m visited)

-- The fuel of the search is enough in every graph.
pub shortest_from_ends :
    (g : MeshGraph) (c : HopCounter) (start : Bytes)
    → (r : Option ℕ) × (shortest_from g c start ≡ some r)
unfolding shortest_from
shortest_from_ends g c start =
    search_ends g c (suc (entries g.edges)) ((start, 0) ∷ []) (start ∷ []) none
      (omega (arith, fresh_all-entries g.edges (start ∷ [])))

In-expand :
    (d : ℕ) (ns : List Bytes) (q : List (Bytes × ℕ)) (visited : List Bytes) (x : Bytes × ℕ)
    → In x (expand d ns q visited).0
    → In x q ⊎ ((x.1 ≡ d + 1) × In x.0 ns)
unfolding expand
In-expand d [] q visited x i = inl i
In-expand d (n ∷ ns) q visited x i = elim (Bool-cases (visits visited n)) [
  | inl old ↦ elim (In-expand d ns q visited x (ground arith)) [
    | inl a ↦ inl a
    | inr (e, b) ↦ inr (e, inr b)
  ]
  | inr new ↦ elim (In-expand d ns (q ++ (n, d + 1) ∷ []) (n ∷ visited) x (ground arith)) [
    | inl a ↦ elim ((In-append x q ((n, d + 1) ∷ [])).0 a) [ inl b ↦ inl b | inr b ↦ ground arith ]
    | inr (e, b) ↦ inr (e, inr b)
  ]
]

plus_one : (d : ℕ) → d + 1 ≡ suc d
plus_one d = omega arith

better-Reaches :
    (g : MeshGraph) (c : HopCounter) (start : Bytes) (m : Option ℕ) (u : Bytes) (d : ℕ)
    → ((j : ℕ) → m ≡ some j → Reaches g c start j)
    → Walk g start d u
    → (j : ℕ) → better m d (HashMap.get u c.peer_distances) ≡ some j
    → Reaches g c start j
better-Reaches g c start m u d found w j e = elim (Option-cases (HashMap.get u c.peer_distances)) [
  | inl unknown ↦ found j (ground arith)
  | inr (h, known) ↦
      let direct : Reaches g c start (d + h) = record {
        node = u;
        steps = d;
        hops = h;
        walk = w;
        announced = known;
        total = refl;
      } in
      elim (Option-cases m) [
        | inl first ↦ subst (Reaches g c start) (ground arith) direct
        | inr (k, so_far) ↦ elim (Bool-cases (leb k (d + h))) [
          | inl keep ↦ found j (ground arith)
          | inr replace ↦ subst (Reaches g c start) (ground arith) direct
        ]
      ]
]

pub search-Reaches :
    (g : MeshGraph) (c : HopCounter) (start : Bytes) (fuel : ℕ) (q : List (Bytes × ℕ))
    (visited : List Bytes) (m : Option ℕ) (k : ℕ)
    → ((x : Bytes × ℕ) → In x q → Walk g start x.1 x.0)
    → ((j : ℕ) → m ≡ some j → Reaches g c start j)
    → search g c fuel q visited m ≡ some (some k)
    → Reaches g c start k
unfolding search get_neighbors
search-Reaches g c start fuel [] visited m k walks found e = found k (ground arith)
search-Reaches g c start zero (x ∷ q) visited m k walks found e = absurd (ground arith)
search-Reaches g c start (suc fuel) ((u, d) ∷ q) visited m k walks found e =
    let ns = or_empty (HashMap.get u g.edges) in
    let step_to = expand d ns q visited in
    let walk_u : Walk g start d u = walks (u, d) (inl refl) in
    search-Reaches g c start fuel step_to.0 step_to.1 (better m d (HashMap.get u c.peer_distances))
      k
      (λ x i. elim (In-expand d ns q visited x i) [
        | inl old ↦ walks x (inr old)
        | inr (depth, edge) ↦
            subst (λ n. Walk g start n x.0) (sym (depth ∙ plus_one d)) (step walk_u edge)
      ])
      (better-Reaches g c start m u d found walk_u) e
