-- ===== src/Prelude/HashMap.antt =====
-- `std::collections::HashMap<[u8; 32], V>` as an association list. Iteration goes in list order,
-- one of the orders that the standard library may choose.
use mathlib.Core.Path.{◌≡◌, refl}
use Prim.Native.Nat.{◌+◌}
use mathlib.Core.Logic.{◌≢◌}
use mathlib.Core.Bool.{Bool, not}
use mathlib.Core.Option
use mathlib.Core.Option.{Option, none, some}
use mathlib.Core.List.{List, [], ◌∷◌, map}
use native.Mathlib.Omega.{arith}
use stellarconduit_core.Prelude.Tests.{if◌then◌else◌}
use stellarconduit_core.Prelude.Lists.{retain, length}
use stellarconduit_core.Prelude.ByteArrays.{Bytes, bytes_eq, bytes_eq_iff, bytes_eq_refl}

abbrev pub HashMap : Type 0 → Type 0
HashMap V = List (Bytes × V)

module _ {V : Type 0} where
  unfoldable pub get : Bytes → HashMap V → Option V
  get k [] = none
  get k ((j, v) ∷ m) = if bytes_eq j k then some v else get k m

  unfoldable pub insert : Bytes → V → HashMap V → HashMap V
  insert k v [] = (k, v) ∷ []
  insert k v ((j, w) ∷ m) = if bytes_eq j k then (k, v) ∷ m else (j, w) ∷ insert k v m

  unfoldable pub remove : Bytes → HashMap V → HashMap V
  remove k = retain (λ e. not (bytes_eq e.0 k))

  abbrev pub keys : HashMap V → List Bytes
  keys = map (λ e. e.0)

  abbrev pub values : HashMap V → List V
  values = map (λ e. e.1)

  -- `map.get_mut(k)` followed by a write through the reference.
  unfoldable pub modify : Bytes → (V → V) → HashMap V → HashMap V
  modify k f [] = []
  modify k f ((j, v) ∷ m) = if bytes_eq j k then (j, f v) ∷ m else (j, v) ∷ modify k f m

  -- No two entries have one key.
  abbrev pub Unique : HashMap V → Type 0
  Unique [] = Unit
  Unique ((k, v) ∷ m) = (get k m ≡ none) × Unique m

  pub get-insert :
      (k j : Bytes) (v : V) (m : HashMap V)
      → get j (insert k v m) ≡ (if bytes_eq k j then some v else get j m)
  unfolding get insert
  get-insert k j v [] = refl
  get-insert k j v ((i, w) ∷ m) =
      ground (arith, bytes_eq_iff k j, bytes_eq_iff i k, bytes_eq_iff i j, get-insert k j v m)

  pub get-remove :
      (k j : Bytes) (m : HashMap V) → get j (remove k m) ≡ (if bytes_eq k j then none else get j m)
  unfolding get remove
  get-remove k j [] = ground arith
  get-remove k j ((i, w) ∷ m) =
      ground (arith, bytes_eq_iff k j, bytes_eq_iff i k, bytes_eq_iff i j, get-remove k j m)

  pub get-modify :
      (k j : Bytes) (f : V → V) (m : HashMap V)
      → get j (modify k f m) ≡ (if bytes_eq k j then Option.map f (get j m) else get j m)
  unfolding get modify
  get-modify k j f [] = ground arith
  get-modify k j f ((i, w) ∷ m) =
      ground (arith, bytes_eq_iff k j, bytes_eq_iff i k, bytes_eq_iff i j, get-modify k j f m)

  pub get-insert_self : (k : Bytes) (v : V) (m : HashMap V) → get k (insert k v m) ≡ some v
  get-insert_self k v m = ground (arith, get-insert k k v m, bytes_eq_refl k)

  pub insert-Unique : (k : Bytes) (v : V) (m : HashMap V) → Unique m → Unique (insert k v m)
  unfolding get insert
  insert-Unique k v [] u = (refl, tt)
  insert-Unique k v ((i, w) ∷ m) u =
      ground (arith, bytes_eq_iff i k, bytes_eq_iff k i, get-insert k i v m, insert-Unique k v m)

  pub modify-Unique : (k : Bytes) (f : V → V) (m : HashMap V) → Unique m → Unique (modify k f m)
  unfolding modify
  modify-Unique k f [] u = u
  modify-Unique k f ((i, w) ∷ m) u =
      ground (arith, bytes_eq_iff i k, bytes_eq_iff k i, get-modify k i f m, modify-Unique k f m)

  pub get-retain-none :
      (p : Bytes × V → Bool) (k : Bytes) (m : HashMap V)
      → get k m ≡ none
      → get k (retain p m) ≡ none
  unfolding get
  get-retain-none p k [] h = refl
  get-retain-none p k ((i, w) ∷ m) h = ground (arith, get-retain-none p k m)

  pub retain-Unique : (p : Bytes × V → Bool) (m : HashMap V) → Unique m → Unique (retain p m)
  retain-Unique p [] u = u
  retain-Unique p ((i, w) ∷ m) u = ground (arith, get-retain-none p i m, retain-Unique p m)

  pub remove-Unique : (k : Bytes) (m : HashMap V) → Unique m → Unique (remove k m)
  unfolding remove
  remove-Unique k m u = retain-Unique _ m u

  -- What a filter of the entries leaves under a key.
  abbrev pub kept : (Bytes × V → Bool) → Bytes → Option V → Option V
  kept p k none = none
  kept p k (some v) = if p (k, v) then some v else none

  pub get-retain :
      (p : Bytes × V → Bool) (k : Bytes) (m : HashMap V)
      → Unique m
      → get k (retain p m) ≡ kept p k (get k m)
  unfolding get
  get-retain p k [] u = refl
  get-retain p k ((i, w) ∷ m) u =
      ground (arith, bytes_eq_iff i k, get-retain p k m, get-retain-none p k m)

module _ {V : Type 0} where
  pub length-insert_new :
      (k : Bytes) (v : V) (m : HashMap V) → get k m ≡ none → length (insert k v m) ≡ length m + 1
  unfolding get insert
  length-insert_new k v [] h = omega arith
  length-insert_new k v ((i, w) ∷ m) h = ground (arith, length-insert_new k v m)

  pub length-insert_old :
      (k : Bytes) (v : V) (m : HashMap V) → get k m ≢ none → length (insert k v m) ≡ length m
  unfolding get insert
  length-insert_old k v [] h = absurd (h refl)
  length-insert_old k v ((i, w) ∷ m) h = ground (arith, length-insert_old k v m)

  pub length-modify : (k : Bytes) (f : V → V) (m : HashMap V) → length (modify k f m) ≡ length m
  unfolding modify
  length-modify k f [] = refl
  length-modify k f ((i, w) ∷ m) = ground (arith, length-modify k f m)

  pub remove-none : (k : Bytes) (m : HashMap V) → get k m ≡ none → remove k m ≡ m
  unfolding get remove
  remove-none k [] h = refl
  remove-none k ((i, w) ∷ m) h = ground (arith, remove-none k m)

  pub length-remove :
      (k : Bytes) (m : HashMap V) → Unique m → get k m ≢ none → length (remove k m) + 1 ≡ length m
  unfolding get remove
  length-remove k [] u h = absurd (h refl)
  length-remove k ((i, w) ∷ m) u h =
      ground (arith, bytes_eq_iff i k, remove-none k m, length-remove k m)

-- `for v in map.values_mut()`.
abbrev pub map_values : {V : Type 0} → (V → V) → HashMap V → HashMap V
map_values f = map (λ e. (e.0, f e.1))

pub get-map_values :
    {V : Type 0} (f : V → V) (k : Bytes) (m : HashMap V)
    → get k (map_values f m) ≡ Option.map f (get k m)
unfolding get
get-map_values f k [] = refl
get-map_values f k ((i, w) ∷ m) = ground (arith, get-map_values f k m)

pub map_values-Unique :
    {V : Type 0} (f : V → V) (m : HashMap V) → Unique m → Unique (map_values f m)
map_values-Unique f [] u = u
map_values-Unique f ((i, w) ∷ m) u = ground (arith, get-map_values f i m, map_values-Unique f m)
