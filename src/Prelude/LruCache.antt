-- ===== src/Prelude/LruCache.antt =====
-- The crate lru as far as the program uses it: an interface, and what is documented of it.
use mathlib.Core.Path.{◌≡◌}
use mathlib.Core.Logic.{◌↔◌}
use mathlib.Core.Option.{Option, none, some}
use mathlib.Core.List.{List}
use Prim.Native.Nat.{ℕ}
use stellarconduit_core.Prelude.Tests.{if◌then◌else◌}
use stellarconduit_core.Prelude.Lists.{In}
use stellarconduit_core.Prelude.ByteArrays.{Bytes, bytes_eq}

-- A lookup changes the order of use.
pub record LruCache (V : Type 0) : Type 1 where
  pub Cache : Type 0
  pub empty : ℕ → Cache
  pub get : Bytes → Cache → Cache × Option V
  pub put : Bytes → V → Cache → Cache
  pub pop : Bytes → Cache → Cache
  pub clear : Cache → Cache
  pub entries : Cache → List (Bytes × V)
  pub len : Cache → ℕ

-- What was just put or looked up is found.
pub record Recalls {V : Type 0} (c : LruCache V) : Type 0 where
  pub get-put : (k : Bytes) (v : V) (s : c.Cache) → (c.get k (c.put k v s)).1 ≡ some v
  pub get-get : (k : Bytes) (s : c.Cache) → (c.get k (c.get k s).0).1 ≡ (c.get k s).1

-- What is found stands among the entries, what is popped is not found, and nothing else is lost.
pub record Forgets {V : Type 0} (c : LruCache V) : Type 0 where
  pub get-pop :
      (k j : Bytes) (s : c.Cache)
      → (c.get j (c.pop k s)).1 ≡ (if bytes_eq k j then none else (c.get j s).1)
  pub In-entries :
      (k : Bytes) (v : V) (s : c.Cache) → In (k, v) (c.entries s) ↔ ((c.get k s).1 ≡ some v)
  pub get-clear : (k : Bytes) (s : c.Cache) → (c.get k (c.clear s)).1 ≡ none
