-- ===== src/Transport/Chunks/Marks.antt =====
-- src/transport/unified.rs: the marks of the bytes that a buffer received.
use stellarconduit_core.Prelude.{
  ℕ, zero, suc, ◌+◌, ◌≤◌, ◌<◌, List, [], ◌∷◌, Bytes, Bool, true, false, ◌≡◌, refl, ap, arith,
  if◌then◌else◌, length, drop, zeros, inl, ◌⊎◌,
}
use stellarconduit_core.Transport.Chunks.{set_at, is_set, falses}

-- Where a byte is marked as received, it is the message's.
abbrev pub Agrees : Bytes → Bytes → List Bool → Type 0
Agrees [] [] [] = Unit {0}
Agrees [] [] (b ∷ bs) = ⊥
Agrees [] (d ∷ ds) bs = ⊥
Agrees (x ∷ xs) [] bs = ⊥
Agrees (x ∷ xs) (d ∷ ds) [] = ⊥
Agrees (x ∷ xs) (d ∷ ds) (b ∷ bs) = ((b ≡ false) ⊎ (d ≡ x)) × Agrees xs ds bs

-- How many marks are set.
pub marks : List Bool → ℕ
marks [] = 0
marks (b ∷ bs) = (if b then 1 else 0) + marks bs

pub Agrees-set_at :
    (xs ds : Bytes) (bs : List Bool) (i x : ℕ) (rest : Bytes)
    → Agrees xs ds bs
    → drop i xs ≡ x ∷ rest
    → Agrees xs (set_at i x ds) (set_at i true bs)
unfolding set_at
Agrees-set_at [] [] [] i x rest a e = a
Agrees-set_at [] [] (b ∷ bs) i x rest a e = absurd a
Agrees-set_at [] (d ∷ ds) bs i x rest a e = absurd a
Agrees-set_at (y ∷ xs) [] bs i x rest a e = absurd a
Agrees-set_at (y ∷ xs) (d ∷ ds) [] i x rest a e = absurd a
Agrees-set_at (y ∷ xs) (d ∷ ds) (b ∷ bs) zero x rest a e = ground (arith, a, e)
Agrees-set_at (y ∷ xs) (d ∷ ds) (b ∷ bs) (suc i) x rest a e =
    (a.0, Agrees-set_at xs ds bs i x rest a.1 e)

pub marks-set_at :
    (bs : List Bool) (i : ℕ)
    → i < length bs
    → marks (set_at i true bs) ≡ (if is_set i bs then marks bs else marks bs + 1)
unfolding set_at is_set marks
marks-set_at [] i h = absurd (omega (arith, h))
marks-set_at (b ∷ bs) zero h = ground arith
marks-set_at (b ∷ bs) (suc i) h = ground (arith, marks-set_at bs i (omega (arith, h)))

pub length-set_at : {A : Type 0} (i : ℕ) (x : A) (xs : List A) → length (set_at i x xs) ≡ length xs
unfolding set_at
length-set_at i x [] = refl
length-set_at zero x (y ∷ ys) = refl
length-set_at (suc i) x (y ∷ ys) = ap suc (length-set_at i x ys)

pub is_set-set_at : (bs : List Bool) (i : ℕ) → i < length bs → is_set i (set_at i true bs) ≡ true
unfolding set_at is_set
is_set-set_at [] i h = absurd (omega (arith, h))
is_set-set_at (b ∷ bs) zero h = refl
is_set-set_at (b ∷ bs) (suc i) h = is_set-set_at bs i (omega (arith, h))

pub is_set-kept :
    (bs : List Bool) (i j : ℕ) → is_set j bs ≡ true → is_set j (set_at i true bs) ≡ true
unfolding set_at is_set
is_set-kept [] i j h = h
is_set-kept (b ∷ bs) zero zero h = refl
is_set-kept (b ∷ bs) zero (suc j) h = h
is_set-kept (b ∷ bs) (suc i) zero h = h
is_set-kept (b ∷ bs) (suc i) (suc j) h = is_set-kept bs i j h

marks-le : (bs : List Bool) → marks bs ≤ length bs
unfolding marks
marks-le [] = omega arith
marks-le (b ∷ bs) = ground (arith, marks-le bs)

pub full-Agrees :
    (xs ds : Bytes) (bs : List Bool) → Agrees xs ds bs → marks bs ≡ length bs → ds ≡ xs
unfolding marks
full-Agrees [] [] [] a h = refl
full-Agrees [] [] (b ∷ bs) a h = absurd a
full-Agrees [] (d ∷ ds) bs a h = absurd a
full-Agrees (y ∷ xs) [] bs a h = absurd a
full-Agrees (y ∷ xs) (d ∷ ds) [] a h = absurd a
full-Agrees (y ∷ xs) (d ∷ ds) (b ∷ bs) a h = ground (arith, marks-le bs, full-Agrees xs ds bs a.1)

pub all-marks :
    (bs : List Bool) → ((j : ℕ) → j < length bs → is_set j bs ≡ true) → marks bs ≡ length bs
unfolding marks is_set
all-marks [] h = refl
all-marks (b ∷ bs) h =
    ground (arith, h 0 (omega arith), all-marks bs (λ j k. h (suc j) (omega (arith, k))))

pub zeros-Agrees : (xs : Bytes) → Agrees xs (zeros (length xs)) (falses (length xs))
zeros-Agrees [] = tt
zeros-Agrees (x ∷ xs) = (inl refl, zeros-Agrees xs)

pub marks-falses : (n : ℕ) → marks (falses n) ≡ 0
unfolding marks
marks-falses zero = refl
marks-falses (suc n) = ground (arith, marks-falses n)

pub length-falses : (n : ℕ) → length (falses n) ≡ n
length-falses zero = refl
length-falses (suc n) = ap suc (length-falses n)
