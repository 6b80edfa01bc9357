-- ===== src/Witness/Tables.antt =====
-- The theorems on the routing table at concrete inputs.
use stellarconduit_core.Prelude.{
  List, [], ◌∷◌, Bytes, none, some, ◌≡◌, refl, sym, ap, subst, ◌∙◌, arith, In, inl, inr, length,
  if◌then◌else◌, bytes_eq, bytes_eq_iff, bytes_eq_refl, Bool-cases,
}
use stellarconduit_core.Prelude.HashMap
use stellarconduit_core.Prelude.HashMap.{HashMap, Unique, insert-Unique, remove-Unique, get-remove}
use stellarconduit_core.Prelude.LruCache.{LruCache, Forgets}
use stellarconduit_core.Metrics
use stellarconduit_core.Peer.Identity
use stellarconduit_core.Peer.Identity.{PeerIdentity}
use stellarconduit_core.Router.Table.{RoutingTable, lookup, invalidate}
use stellarconduit_core.Router.Table.Invalidation.{avoiding, lookup-invalidate}
use stellarconduit_core.Witness.{alice, bob}

abbrev Routes : Type 0
Routes = List PeerIdentity

get-none-In :
    (k : Bytes) (v : Routes) (m : HashMap Routes) → In (k, v) m → HashMap.get k m ≡ none → ⊥
unfolding HashMap.get
get-none-In k v [] i h = i
get-none-In k v ((j, w) ∷ m) (inl e) h =
    ground (arith, ap (λ (x : Bytes × Routes). x.0) e, bytes_eq_refl j)
get-none-In k v ((j, w) ∷ m) (inr i) h = ground (arith, get-none-In k v m i)

get-In :
    (k : Bytes) (v : Routes) (m : HashMap Routes)
    → Unique m
    → In (k, v) m
    → HashMap.get k m ≡ some v
unfolding HashMap.get
get-In k v [] u i = absurd i
get-In k v ((j, w) ∷ m) u (inl e) =
    ground (
      arith,
      ap (λ (x : Bytes × Routes). x.0) e,
      ap (λ (x : Bytes × Routes). x.1) e,
      bytes_eq_refl j,
    )
get-In k v ((j, w) ∷ m) u (inr i) = elim (Bool-cases (bytes_eq j k)) [
  | inl same ↦
      absurd
        (get-none-In k v m i (subst (λ x. HashMap.get x m ≡ none) ((bytes_eq_iff j k).0 same) u.0))
  | inr other ↦ ground (arith, get-In k v m u.1 i)
]

pair : (k j : Bytes) (v w : Routes) → k ≡ j → v ≡ w → Path (Bytes × Routes) (k, v) (j, w)
pair k j v w a b = ap (λ x. (x, v)) a ∙ ap (λ y. (j, y)) b

In-of-get : (k : Bytes) (v : Routes) (m : HashMap Routes) → HashMap.get k m ≡ some v → In (k, v) m
unfolding HashMap.get
In-of-get k v [] h = absurd (ground arith)
In-of-get k v ((j, w) ∷ m) h = elim (Bool-cases (bytes_eq j k)) [
  | inl same ↦ inl (pair k j v w (sym ((bytes_eq_iff j k).0 same)) (ground arith))
  | inr other ↦ inr (In-of-get k v m (ground arith))
]

-- A cache that forgets nothing by itself, without repeated keys.
abbrev pub roomy : LruCache Routes
roomy = record {
  Cache = (m : HashMap Routes) × Unique m;
  empty = λ n. ([], tt);
  get = λ k s. (s, HashMap.get k s.0);
  put = λ k v s. (HashMap.insert k v s.0, insert-Unique k v s.0 s.1);
  pop = λ k s. (HashMap.remove k s.0, remove-Unique k s.0 s.1);
  clear = λ s. ([], tt);
  entries = λ s. s.0;
  len = λ s. length s.0;
}

pub get-nothing : (k : Bytes) → HashMap.get {V = Routes} k [] ≡ none
unfolding HashMap.get
get-nothing k = refl

roomy-Forgets : Forgets roomy
roomy-Forgets = record {
  get-pop = λ k j s. get-remove k j s.0;
  In-entries = λ k v s. (get-In k v s.0 s.1, In-of-get k v s.0);
  get-clear = λ k s. get-nothing k;
}

abbrev pub one_route : RoutingTable roomy
one_route = record {
  cached = ((alice, Identity.new bob ∷ []) ∷ [], (get-nothing alice, tt));
  metrics = Metrics.new;
}

lookup-invalidate_example :
    (lookup roomy (invalidate roomy one_route bob) alice).1
    ≡ (if bytes_eq bob alice then none else avoiding bob (lookup roomy one_route alice).1)
lookup-invalidate_example = lookup-invalidate roomy roomy-Forgets one_route bob alice
