-- ===== src/Discovery/PeerList/Expiry.antt =====
-- src/discovery/peer_list.rs: which peers a prune removes.
use stellarconduit_core.Prelude.{
  All-imp, subst, retain-cons_keep, retain-cons_skip, retain_all, retain-retain, retain_congr,
  fun_ext, ℕ, List, [], ◌∷◌, map, sym, All, bytes_eq_refl, Bytes, Bool, false, none, some, ◌≡◌,
  arith, not, Bool-cases, inl, inr, bytes_eq, bytes_eq_iff, retain, refl, ◌||◌, ◌&&◌, ◌∙◌, ap,
}
use stellarconduit_core.Prelude.HashMap
use stellarconduit_core.Prelude.HashMap.{
  HashMap, values, Unique, keys, get-retain-none, retain-Unique, get-remove, remove-Unique,
  insert-Unique, modify-Unique,
}
use stellarconduit_core.Peer.{Peer}
use stellarconduit_core.Discovery.{peer_lost}
use stellarconduit_core.Discovery.PeerList.{
  PeerList, prune_stale_peers, remove_stale, is_stale, is_active, get_active_peers,
}

-- Whether a key stands in a list of keys.
abbrev has : Bytes → List Bytes → Bool
has k [] = false
has k (j ∷ ks) = bytes_eq k j || has k ks

not_or : (a b : Bool) → (not a && not b) ≡ not (a || b)
not_or a b = ground arith

remove_stale-cons :
    (j : Bytes) (ks : List Bytes) (m : HashMap Peer)
    → (remove_stale (j ∷ ks) m).0 ≡ (remove_stale ks (HashMap.remove j m)).0
unfolding remove_stale
remove_stale-cons j ks m = ground arith

remove_stale-eq-retain :
    (ks : List Bytes) (m : HashMap Peer) → (remove_stale ks m).0 ≡ retain (λ e. not (has e.0 ks)) m
unfolding remove_stale HashMap.remove
remove_stale-eq-retain [] m = sym (retain_all m)
remove_stale-eq-retain (j ∷ ks) m =
    remove_stale-cons j ks m
    ∙ remove_stale-eq-retain ks (HashMap.remove j m)
    ∙ retain-retain (λ e. not (has e.0 ks)) (λ e. not (bytes_eq e.0 j)) m
    ∙ ap (λ p. retain p m) (fun_ext (λ e. not_or (bytes_eq e.0 j) (has e.0 ks)))

-- Every entry of the first map is in the second.
abbrev Holds : HashMap Peer → HashMap Peer → Type 0
Holds s m = All (λ e. HashMap.get e.0 m ≡ some e.1) s

Holds-remove :
    (k : Bytes) (s m : HashMap Peer)
    → HashMap.get k s ≡ none
    → Holds s m
    → Holds s (HashMap.remove k m)
unfolding HashMap.get
Holds-remove k [] m n h = tt
Holds-remove k ((j, w) ∷ s) m n h =
    ground (arith, bytes_eq_iff k j, bytes_eq_iff j k, get-remove k j m, Holds-remove k s m)

Holds-cons :
    (k : Bytes) (v : Peer) (s m : HashMap Peer)
    → HashMap.get k s ≡ none
    → Holds s m
    → Holds s ((k, v) ∷ m)
unfolding HashMap.get
Holds-cons k v [] m n h = tt
Holds-cons k v ((j, w) ∷ s) m n h =
    ground (arith, bytes_eq_iff k j, bytes_eq_iff j k, Holds-cons k v s m)

get-cons_self : (k : Bytes) (v : Peer) (m : HashMap Peer) → HashMap.get k ((k, v) ∷ m) ≡ some v
unfolding HashMap.get
get-cons_self k v m = rw (bytes_eq_refl k)

retain-Holds : (p : Bytes × Peer → Bool) (m : HashMap Peer) → Unique m → Holds (retain p m) m
retain-Holds p [] u = tt
retain-Holds p ((k, v) ∷ m) u =
    let rest = Holds-cons k v _ m (get-retain-none p k m u.0) (retain-Holds p m u.1) in
    elim (Bool-cases (p (k, v))) [
      | inl e ↦
          subst (λ s. Holds s ((k, v) ∷ m)) (sym (retain-cons_keep p (k, v) m e))
            (get-cons_self k v m, rest)
      | inr e ↦ subst (λ s. Holds s ((k, v) ∷ m)) (sym (retain-cons_skip p (k, v) m e)) rest
    ]

-- Each removed peer is reported, in the order of the keys.
lost-remove_stale :
    (s m : HashMap Peer)
    → Unique s
    → Holds s m
    → (remove_stale (keys s) m).1 ≡ map (λ e. peer_lost e.1.identity) s
unfolding remove_stale
lost-remove_stale [] m u h = refl
lost-remove_stale ((k, v) ∷ s) m u h =
    ground (arith, lost-remove_stale s (HashMap.remove k m), Holds-remove k s m)

-- A key that the map lacks differs from the keys of its entries.
get-none_ne :
    (k : Bytes) (m : HashMap Peer) → HashMap.get k m ≡ none → All (λ e. (bytes_eq e.0 k ≡ false)) m
unfolding HashMap.get
get-none_ne k [] h = tt
get-none_ne k ((j, w) ∷ m) h = ground (arith, get-none_ne k m)

has-none :
    (p : Bytes × Peer → Bool) (k : Bytes) (m : HashMap Peer)
    → HashMap.get k m ≡ none
    → has k (keys (retain p m)) ≡ false
unfolding HashMap.get
has-none p k [] h = refl
has-none p k ((j, w) ∷ m) h = ground (arith, bytes_eq_iff k j, bytes_eq_iff j k, has-none p k m)

has_cons :
    (p : Bytes × Peer → Bool) (k : Bytes) (ks : List Bytes) (m : HashMap Peer)
    → All (λ e. (bytes_eq e.0 k ≡ false)) m
    → All (λ e. has e.0 ks ≡ p e) m
    → All (λ e. has e.0 (k ∷ ks) ≡ p e) m
has_cons p k ks [] n h = tt
has_cons p k ks ((j, w) ∷ m) n h = (ground arith, has_cons p k ks m n.1 h.1)

has-keys-retain :
    (p : Bytes × Peer → Bool) (m : HashMap Peer)
    → Unique m
    → All (λ e. has e.0 (keys (retain p m)) ≡ p e) m
has-keys-retain p [] u = tt
has-keys-retain p ((k, v) ∷ m) u = elim (Bool-cases (p (k, v))) [
  | inl e ↦
      subst (λ s. All (λ e. has e.0 (keys s) ≡ p e) ((k, v) ∷ m))
        (sym (retain-cons_keep p (k, v) m e))
        (
          ground (arith, bytes_eq_refl k),
          has_cons p k (keys (retain p m)) m (get-none_ne k m u.0) (has-keys-retain p m u.1),
        )
  | inr e ↦
      subst (λ s. All (λ e. has e.0 (keys s) ≡ p e) ((k, v) ∷ m))
        (sym (retain-cons_skip p (k, v) m e)) (has-none p k m u.0 ∙ sym e, has-keys-retain p m u.1)
]

fresh-eq-retain :
    (p : Bytes × Peer → Bool) (m : HashMap Peer)
    → Unique m
    → (remove_stale (keys (retain p m)) m).0 ≡ retain (λ e. not (p e)) m
fresh-eq-retain p m u =
    remove_stale-eq-retain (keys (retain p m)) m
    ∙ retain_congr _ _ m (All-imp _ _ (λ e h. ap not h) m (has-keys-retain p m u))

-- Where no key stands twice, a prune keeps the peers that are not stale, as they were, and reports
-- each stale one as lost, once.
pub prune_stale_peers_lem :
    (l : PeerList) (now : ℕ)
    → Unique l.peers
    → prune_stale_peers l now ≡ (
      record l { peers = retain (λ e. not (is_stale l.expiry_seconds now e)) l.peers },
      map (λ e. peer_lost e.1.identity) (retain (is_stale l.expiry_seconds now) l.peers),
    )
unfolding prune_stale_peers
prune_stale_peers_lem l now u = ground (
  arith,
  fresh-eq-retain (is_stale l.expiry_seconds now) l.peers u,
  lost-remove_stale (retain (is_stale l.expiry_seconds now) l.peers) l.peers
      (retain-Unique (is_stale l.expiry_seconds now) l.peers u)
      (retain-Holds (is_stale l.expiry_seconds now) l.peers u),
)

values-retain :
    (expiry now : ℕ) (m : HashMap Peer)
    → values (retain (λ e. not (is_stale expiry now e)) m)
      ≡ retain (is_active expiry now) (values m)
values-retain expiry now [] = refl
values-retain expiry now ((k, p) ∷ m) = ground (arith, values-retain expiry now m)

-- After a prune the list holds the active peers only, and all of them.
pub values-prune_stale_peers :
    (l : PeerList) (now : ℕ)
    → Unique l.peers
    → values (prune_stale_peers l now).0.peers ≡ get_active_peers l now
unfolding get_active_peers
values-prune_stale_peers l now u =
    rw (prune_stale_peers_lem l now u) (values-retain l.expiry_seconds now l.peers)
