-- ===== src/Router/PathFinder/Expansion.antt =====
-- src/router/path_finder.rs: the loop over the neighbours of a node.
use stellarconduit_core.Prelude.{
  ℕ, ◌+◌, ◌≤◌, List, [], ◌∷◌, ◌++◌, Bytes, Bool, true, ◌≡◌, refl, ap, sym, subst, arith, leb,
  bytes_eq, bytes_eq_iff, In, In-append, inl, inr, ◌⊎◌, Bool-cases, All,
}
use stellarconduit_core.Prelude.Sort.{Sorted}
use stellarconduit_core.Router.PathFinder.{visits, expand}

abbrev pub Entry : Type 0
Entry = Bytes × ℕ

-- An entry that was taken from the queue or stands in it.
abbrev pub Known : List Entry → List Entry → Entry → Type 0
Known done queue x = In x done ⊎ In x queue

abbrev pub nearer : Entry → Entry → Bool
nearer a b = leb a.1 b.1

-- What the loop over the neighbours of a node at depth `d` keeps.
pub record Loop (done : List Entry) (d : ℕ) (queue : List Entry) (visited : List Bytes)
    : Type 0 where
  pub seen : (v : Bytes) → visits visited v ≡ true → (e : ℕ) × Known done queue (v, e)
  pub sorted : Sorted nearer queue
  pub near : (x : Entry) → Known done queue x → x.1 ≤ d + 1
  pub far : (x : Entry) → In x queue → d ≤ x.1

Sorted-snoc :
    (q : List Entry) (x : Entry)
    → Sorted nearer q
    → ((y : Entry) → In y q → y.1 ≤ x.1)
    → Sorted nearer (q ++ x ∷ [])
Sorted-snoc [] x s h = (tt, tt)
Sorted-snoc (y ∷ q) x s h = (snoc q (h y (inl refl)) s.0, Sorted-snoc q x s.1 (λ z i. h z (inr i)))
  where
    snoc :
        (l : List Entry)
        → y.1 ≤ x.1
        → All (λ z. nearer y z ≡ true) l
        → All (λ z. nearer y z ≡ true) (l ++ x ∷ [])
    snoc [] le a = (ground arith, tt)
    snoc (z ∷ l) le a = (a.0, snoc l le a.1)

Loop-push :
    (done : List Entry) (d : ℕ) (queue : List Entry) (visited : List Bytes) (n : Bytes)
    → Loop done d queue visited
    → Loop done d (queue ++ (n, d + 1) ∷ []) (n ∷ visited)
Loop-push done d queue visited n l = record {
  seen = λ v h. elim (Bool-cases (bytes_eq v n)) [
    | inl same ↦ (
      d + 1,
      inr (
          (In-append (v, d + 1) queue ((n, d + 1) ∷ [])).1
            (inr (inl (ap (λ b. (b, d + 1)) ((bytes_eq_iff v n).0 same))))),
    )
    | inr other ↦ let (e, k) = l.seen v (ground arith) in (e, keep (v, e) k)
  ];
  sorted = Sorted-snoc queue (n, d + 1) l.sorted (λ y i. l.near y (inr i));
  near = λ x k. elim k [
    | inl p ↦ l.near x (inl p)
    | inr q ↦ elim ((In-append x queue ((n, d + 1) ∷ [])).0 q) [
      | inl old ↦ l.near x (inr old)
      | inr new ↦ ground arith
    ]
  ];
  far = λ x q. elim ((In-append x queue ((n, d + 1) ∷ [])).0 q) [
    | inl old ↦ l.far x old
    | inr new ↦ ground arith
  ];
}
  where
    keep : (x : Entry) → Known done queue x → Known done (queue ++ (n, d + 1) ∷ []) x
    keep x (inl p) = inl p
    keep x (inr q) = inr ((In-append x queue ((n, d + 1) ∷ [])).1 (inl q))

-- What the loop has done at its end.
pub record Expanded (done : List Entry) (d : ℕ) (ns : List Bytes) (queue queue' : List Entry)
    (visited' : List Bytes) : Type 0 where
  pub loop : Loop done d queue' visited'
  pub grows : (x : Entry) → In x queue → In x queue'
  pub reached : (w : Bytes) → In w ns → (e : ℕ) × Known done queue' (w, e) × (e ≤ d + 1)

pub expand-Expanded :
    (done : List Entry) (d : ℕ) (ns : List Bytes) (queue : List Entry) (visited : List Bytes)
    → Loop done d queue visited
    → Expanded done d ns queue (expand d ns queue visited).0 (expand d ns queue visited).1
unfolding expand
expand-Expanded done d [] queue visited l = record {
  loop = l;
  grows = λ x i. i;
  reached = λ w i. absurd i;
}
expand-Expanded done d (n ∷ ns) queue visited l = elim (Bool-cases (visits visited n)) [
  | inl old ↦
      let r = expand-Expanded done d ns queue visited l in
      let (e, k) = l.seen n old in
      rw old (record {
        loop = r.loop;
        grows = r.grows;
        reached = λ w i. elim i [
          | inl same ↦ (
            e,
            subst (λ b. Known done (expand d ns queue visited).0 (b, e)) (sym same)
                (wider r (n, e) k),
            l.near (n, e) k,
          )
          | inr rest ↦ r.reached w rest
        ];
      })
  | inr new ↦
      let r =
        expand-Expanded done d ns (queue ++ (n, d + 1) ∷ []) (n ∷ visited)
          (Loop-push done d queue visited n l) in
      let pushed : (x : Entry)
          → In x queue ⊎ In x ((n, d + 1) ∷ [])
          → In x (expand d ns (queue ++ (n, d + 1) ∷ []) (n ∷ visited)).0 =
        λ x i. r.grows x ((In-append x queue ((n, d + 1) ∷ [])).1 i) in
      rw new (record {
        loop = r.loop;
        grows = λ x i. pushed x (inl i);
        reached = λ w i. elim i [
          | inl same ↦
              (d + 1, inr (pushed (w, d + 1) (inr (inl (ap (λ b. (b, d + 1)) same)))), omega arith)
          | inr rest ↦ r.reached w rest
        ];
      })
]
  where
    wider :
        {q' : List Entry} {v' : List Bytes}
        → Expanded done d ns queue q' v'
        → (x : Entry) → Known done queue x
        → Known done q' x
    wider r x (inl p) = inl p
    wider r x (inr q) = inr (r.grows x q)
