-- ===== src/Prelude/Sort.antt =====
-- `slice::sort_by_key`: a stable sort by a Boolean order, here an insertion sort.
use Prim.Native.Nat.{suc}
use mathlib.Core.Path.{◌≡◌, refl}
use mathlib.Core.Logic.{◌↔◌, inl, inr}
use mathlib.Core.Bool.{Bool, true, false}
use mathlib.Core.List.{List, [], ◌∷◌, ◌++◌, Perm, perm_middle}
use mathlib.Core.List.Perm
use native.Mathlib.Omega.{arith}
use stellarconduit_core.Prelude.Tests.{if◌then◌else◌, Bool-cases}
use stellarconduit_core.Prelude.Lists.{length, All, In, All-imp}

module _ {A : Type 0} where
  abbrev pub insert_sorted : (A → A → Bool) → A → List A → List A
  insert_sorted le x [] = x ∷ []
  insert_sorted le x (y ∷ ys) = if le x y then x ∷ y ∷ ys else y ∷ insert_sorted le x ys

  -- The first items are inserted last, before their equals, so the sort is stable.
  unfoldable pub sort_by : (A → A → Bool) → List A → List A
  sort_by le [] = []
  sort_by le (x ∷ xs) = insert_sorted le x (sort_by le xs)

  -- Every item is `le` all that follow it.
  abbrev pub Sorted : (A → A → Bool) → List A → Type 0
  Sorted le [] = Unit
  Sorted le (x ∷ xs) = All (λ y. le x y ≡ true) xs × Sorted le xs

  pub perm_append_swap : (xs ys zs : List A) → Perm (xs ++ (ys ++ zs)) (ys ++ (xs ++ zs))
  perm_append_swap [] ys zs = Perm.refl _
  perm_append_swap (x ∷ xs) ys zs =
      Perm.trans (Perm.cons x (perm_append_swap xs ys zs)) (Perm.symm (perm_middle ys (xs ++ zs)))

module _ {A : Type 0} (le : A → A → Bool) where
  insert_sorted-perm : (x : A) (xs : List A) → Perm (insert_sorted le x xs) (x ∷ xs)
  insert_sorted-perm x [] = Perm.refl _
  insert_sorted-perm x (y ∷ ys) = elim (Bool-cases (le x y)) [
    | inl e ↦ rw e (Perm.refl _)
    | inr e ↦ rw e (Perm.trans (Perm.cons y (insert_sorted-perm x ys)) (Perm.swap x y ys))
  ]

  pub sort_by-perm : (xs : List A) → Perm (sort_by le xs) xs
  unfolding sort_by
  sort_by-perm [] = Perm.refl _
  sort_by-perm (x ∷ xs) =
      Perm.trans (insert_sorted-perm x (sort_by le xs)) (Perm.cons x (sort_by-perm xs))

  length-insert_sorted : (x : A) (xs : List A) → length (insert_sorted le x xs) ≡ suc (length xs)
  length-insert_sorted x [] = refl
  length-insert_sorted x (y ∷ ys) = ground (arith, length-insert_sorted x ys)

  pub length-sort_by : (xs : List A) → length (sort_by le xs) ≡ length xs
  unfolding sort_by
  length-sort_by [] = refl
  length-sort_by (x ∷ xs) = omega (arith, length-insert_sorted x (sort_by le xs), length-sort_by xs)

  All-insert_sorted :
      (P : A → Type 0) (x : A) (xs : List A) → P x → All P xs → All P (insert_sorted le x xs)
  All-insert_sorted P x [] p h = (p, tt)
  All-insert_sorted P x (y ∷ ys) p h = elim (Bool-cases (le x y)) [
    | inl e ↦ rw e (p, h)
    | inr e ↦ rw e (h.0, All-insert_sorted P x ys p h.1)
  ]

  pub All-sort_by : (P : A → Type 0) (xs : List A) → All P xs → All P (sort_by le xs)
  unfolding sort_by
  All-sort_by P [] h = tt
  All-sort_by P (x ∷ xs) h = All-insert_sorted P x (sort_by le xs) h.0 (All-sort_by P xs h.1)

  In-insert_sorted : (a x : A) (xs : List A) → In a (insert_sorted le x xs) ↔ In a (x ∷ xs)
  In-insert_sorted a x [] = (λ h. h, λ h. h)
  In-insert_sorted a x (y ∷ ys) = elim (Bool-cases (le x y)) [
    | inl e ↦ rw e (λ h. h, λ h. h)
    | inr e ↦ rw e (
      λ h. ground (arith, (In-insert_sorted a x ys).0),
      λ h. ground (arith, (In-insert_sorted a x ys).1),
    )
  ]

  pub In-sort_by : (a : A) (xs : List A) → In a (sort_by le xs) ↔ In a xs
  unfolding sort_by
  In-sort_by a [] = (λ h. h, λ h. h)
  In-sort_by a (x ∷ xs) = (
    λ h. ground (arith, (In-insert_sorted a x (sort_by le xs)).0, (In-sort_by a xs).0),
    λ h. (In-insert_sorted a x (sort_by le xs)).1 (ground (arith, (In-sort_by a xs).1)),
  )

  module _ (total : (a b : A) → le a b ≡ false → le b a ≡ true)
      (trans : (a b c : A) → le a b ≡ true → le b c ≡ true → le a c ≡ true) where
    insert_sorted-Sorted : (x : A) (xs : List A) → Sorted le xs → Sorted le (insert_sorted le x xs)
    insert_sorted-Sorted x [] h = (tt, tt)
    insert_sorted-Sorted x (y ∷ ys) h = elim (Bool-cases (le x y)) [
      | inl e ↦ rw e ((e, All-imp _ _ (λ z k. trans x y z e k) ys h.0), h)
      | inr e ↦ rw e (All-insert_sorted _ x ys (total x y e) h.0, insert_sorted-Sorted x ys h.1)
    ]

    pub sort_by-Sorted : (xs : List A) → Sorted le (sort_by le xs)
    unfolding sort_by
    sort_by-Sorted [] = tt
    sort_by-Sorted (x ∷ xs) = insert_sorted-Sorted x (sort_by le xs) (sort_by-Sorted xs)
