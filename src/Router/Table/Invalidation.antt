-- ===== src/Router/Table/Invalidation.antt =====
-- src/router/table.rs: which routes an invalidation removes.
use stellarconduit_core.Prelude.{
  List, [], ◌∷◌, map, Bytes, Bool, true, false, Option, none, some, ◌≡◌, refl, ap, sym, ◌∙◌, arith,
  if◌then◌else◌, any, retain, bytes_eq, bytes_eq_iff, bytes_eq_refl, In, In-retain, inl, inr,
  Bool-cases, Option-cases,
}
use stellarconduit_core.Prelude.LruCache.{LruCache, Forgets}
use stellarconduit_core.Peer.Identity.{PeerIdentity}
use stellarconduit_core.Router.Table.{through, RoutingTable, lookup, pop_all, invalidate}

-- The route, unless it goes through the peer.
abbrev pub avoiding : Bytes → Option (List PeerIdentity) → Option (List PeerIdentity)
avoiding peer none = none
avoiding peer (some hops) = if through peer hops then none else some hops

abbrev Entries : Type 0
Entries = List (Bytes × List PeerIdentity)

key_of-In :
    (k : Bytes) (v : List PeerIdentity) (es : Entries)
    → In (k, v) es
    → any (λ j. bytes_eq j k) (map (λ e. e.0) es) ≡ true
key_of-In k v [] i = absurd i
key_of-In k v ((j, w) ∷ es) (inl e) = ground (arith, e, bytes_eq_refl k)
key_of-In k v ((j, w) ∷ es) (inr i) = ground (arith, key_of-In k v es i)

In-of-key :
    (k : Bytes) (es : Entries)
    → any (λ j. bytes_eq j k) (map (λ e. e.0) es) ≡ true
    → (v : List PeerIdentity) × In (k, v) es
In-of-key k [] h = absurd (ground arith)
In-of-key k ((j, w) ∷ es) h = elim (Bool-cases (bytes_eq j k)) [
  | inl same ↦ (w, inl (ap (λ b. (b, w)) (sym ((bytes_eq_iff j k).0 same))))
  | inr other ↦ let (v, i) = In-of-key k es (ground arith) in (v, inr i)
]

module _ (cache : LruCache (List PeerIdentity)) (forgets : Forgets cache) where
  get-pop_all :
      (ks : List Bytes) (j : Bytes) (s : cache.Cache)
      → (cache.get j (pop_all cache ks s)).1
        ≡ (if any (λ k. bytes_eq k j) ks then none else (cache.get j s).1)
  unfolding pop_all
  get-pop_all [] j s = refl
  get-pop_all (k ∷ ks) j s = ground (arith, get-pop_all ks j (cache.pop k s), forgets.get-pop k j s)

  lookup-get :
      (t : RoutingTable cache) (dest : Bytes)
      → (lookup cache t dest).1 ≡ (cache.get dest t.cached).1
  unfolding lookup
  lookup-get t dest = elim (Option-cases (cache.get dest t.cached).1) [
    | inl e ↦ ground arith
    | inr (hops, e) ↦ ground arith
  ]

  -- After the through routes were popped.
  get-purged :
      (peer dest : Bytes) (s : cache.Cache)
      → (cache.get dest
          (pop_all cache (map (λ e. e.0) (retain (λ e. through peer e.1) (cache.entries s))) s)).1
        ≡ avoiding peer (cache.get dest s).1
  get-purged peer dest s =
      let es = retain (λ (e : Bytes × List PeerIdentity). through peer e.1) (cache.entries s) in
      let step = get-pop_all (map (λ e. e.0) es) dest s in
      elim (Option-cases (cache.get dest s).1) [
        | inl missing ↦ ground (arith, step)
        | inr (hops, found) ↦ elim (Bool-cases (through peer hops)) [
          | inl bad ↦
              let i =
                (In-retain (λ (e : Bytes × List PeerIdentity). through peer e.1) (dest, hops)
                    (cache.entries s)).1
                  ((forgets.In-entries dest hops s).1 found, bad) in
              ground (arith, step, key_of-In dest hops es i)
          | inr good ↦ elim (Bool-cases (any (λ j. bytes_eq j dest) (map (λ e. e.0) es))) [
            | inr absent ↦ ground (arith, step)
            | inl present ↦
                let (v, i) = In-of-key dest es present in
                let (j, bad) =
                  (In-retain (λ (e : Bytes × List PeerIdentity). through peer e.1) (dest, v)
                      (cache.entries s)).0
                    i in
                absurd (ground (arith, (forgets.In-entries dest v s).0 j))
          ]
        ]
      ]

  -- After a peer is invalidated, the table has no route to it and none through it, and every other
  -- route as before.
  pub lookup-invalidate :
      (t : RoutingTable cache) (peer dest : Bytes)
      → (lookup cache (invalidate cache t peer) dest).1
        ≡ (if bytes_eq peer dest then none else avoiding peer (lookup cache t dest).1)
  unfolding invalidate
  lookup-invalidate t peer dest =
      lookup-get (invalidate cache t peer) dest
      ∙ get-purged peer dest (cache.pop peer t.cached)
      ∙ ap (avoiding peer) (forgets.get-pop peer dest t.cached)
      ∙ spread (bytes_eq peer dest) (cache.get dest t.cached).1
      ∙ ap (λ o. if bytes_eq peer dest then none else avoiding peer o) (sym (lookup-get t dest))
    where
      spread :
          (x : Bool) (o : Option (List PeerIdentity))
          → avoiding peer (if x then none else o) ≡ (if x then none else avoiding peer o)
      spread true o = refl
      spread false o = refl
