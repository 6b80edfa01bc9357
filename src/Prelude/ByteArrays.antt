-- ===== src/Prelude/ByteArrays.antt =====
-- Byte arrays (`[u8; 32]`, `[u8; 4]`, `&[u8]`): equality and the lexicographic order of `Ord`.
use Prim.Native.Nat.{ℕ}
use mathlib.Core.Path.{◌≡◌, refl}
use mathlib.Core.Logic.{◌↔◌}
use mathlib.Core.Bool.{Bool, true, false, ◌&&◌, ◌||◌}
use mathlib.Core.List.{List, [], ◌∷◌}
use native.Mathlib.Omega.{arith}
use stellarconduit_core.Prelude.Tests.{ltb, ◌==◌}

abbrev pub Bytes : Type 0
Bytes = List ℕ

-- `==` on arrays.
unfoldable pub bytes_eq : Bytes → Bytes → Bool
bytes_eq [] [] = true
bytes_eq [] (b ∷ bs) = false
bytes_eq (a ∷ as') [] = false
bytes_eq (a ∷ as') (b ∷ bs) = a == b && bytes_eq as' bs

eq_of_bytes_eq : (xs ys : Bytes) → bytes_eq xs ys ≡ true → xs ≡ ys
unfolding bytes_eq
eq_of_bytes_eq [] [] h = refl
eq_of_bytes_eq [] (b ∷ bs) h = cc
eq_of_bytes_eq (a ∷ xs) [] h = cc
eq_of_bytes_eq (a ∷ xs) (b ∷ bs) h = ground (arith, eq_of_bytes_eq xs bs)

pub bytes_eq_refl : (xs : Bytes) → bytes_eq xs xs ≡ true
unfolding bytes_eq
bytes_eq_refl [] = refl
bytes_eq_refl (a ∷ xs) = ground (arith, bytes_eq_refl xs)

pub bytes_eq_iff : (xs ys : Bytes) → (bytes_eq xs ys ≡ true) ↔ (xs ≡ ys)
bytes_eq_iff xs ys = (eq_of_bytes_eq xs ys, λ e. rw e (bytes_eq_refl ys))

-- `a <= b` on arrays, as `sort_unstable` compares them.
unfoldable pub bytes_leb : Bytes → Bytes → Bool
bytes_leb [] ys = true
bytes_leb (a ∷ xs) [] = false
bytes_leb (a ∷ xs) (b ∷ ys) = ltb a b || (a == b && bytes_leb xs ys)

pub bytes_leb_total : (xs ys : Bytes) → bytes_leb xs ys ≡ false → bytes_leb ys xs ≡ true
unfolding bytes_leb
bytes_leb_total [] ys h = cc
bytes_leb_total (a ∷ xs) [] h = refl
bytes_leb_total (a ∷ xs) (b ∷ ys) h = ground (arith, bytes_leb_total xs ys)

pub bytes_leb_trans :
    (xs ys zs : Bytes) → bytes_leb xs ys ≡ true → bytes_leb ys zs ≡ true → bytes_leb xs zs ≡ true
unfolding bytes_leb
bytes_leb_trans [] ys zs h k = refl
bytes_leb_trans (a ∷ xs) [] zs h k = cc
bytes_leb_trans (a ∷ xs) (b ∷ ys) [] h k = cc
bytes_leb_trans (a ∷ xs) (b ∷ ys) (c ∷ zs) h k = ground (arith, bytes_leb_trans xs ys zs)
