-- ===== src/Transport/Chunks/Buffers.antt =====
-- src/transport/unified.rs: a buffer that took only parts of one message.
use stellarconduit_core.Prelude.{
  ℕ, zero, suc, ◌+◌, ◌≤◌, ◌<◌, [], ◌∷◌, ◌++◌, Bytes, true, none, ◌≡◌, refl, sym, subst, ◌∙◌, arith,
  leb, length, drop, inl, inr, Bool-cases,
}
use stellarconduit_core.Transport.Chunks.{
  PartialMessageBuffer, or_insert, set_at, is_set, put, write,
}
use stellarconduit_core.Transport.Chunks.Marks.{
  Agrees, marks, Agrees-set_at, marks-set_at, length-set_at, is_set-set_at, is_set-kept,
  full-Agrees, all-marks, zeros-Agrees, marks-falses, length-falses,
}

-- A buffer that took only parts of the message.
pub record Holds (message : Bytes) (b : PartialMessageBuffer) : Type 0 where
  pub agrees : Agrees message b.data_bytes b.received_map
  pub counted : b.received_bytes ≡ marks b.received_map
  pub total : b.total_length ≡ length message
  pub map_length : length b.received_map ≡ length message

drop-tail : (i x : ℕ) (xs rest : Bytes) → drop i xs ≡ x ∷ rest → drop (i + 1) xs ≡ rest
drop-tail zero x [] rest e = absurd (ground (arith, e))
drop-tail zero x (y ∷ xs) rest e = ground (arith, e)
drop-tail (suc i) x [] rest e = absurd (ground (arith, e))
drop-tail (suc i) x (y ∷ xs) rest e =
    subst (λ n. drop n (y ∷ xs) ≡ rest) (shift i) (drop-tail i x xs rest e)
  where
    shift : (n : ℕ) → suc (n + 1) ≡ suc n + 1
    shift n = omega arith

drop-bound : (i x : ℕ) (xs rest : Bytes) → drop i xs ≡ x ∷ rest → i < length xs
drop-bound zero x [] rest e = absurd (ground (arith, e))
drop-bound zero x (y ∷ xs) rest e = omega arith
drop-bound (suc i) x [] rest e = absurd (ground (arith, e))
drop-bound (suc i) x (y ∷ xs) rest e = omega (arith, drop-bound i x xs rest e)

put-Holds :
    (message : Bytes) (b : PartialMessageBuffer) (i x : ℕ) (rest : Bytes)
    → Holds message b
    → drop i message ≡ x ∷ rest
    → Holds message (put b i x)
put-Holds message b i x rest h e = record {
  agrees = Agrees-set_at message b.data_bytes b.received_map i x rest h.agrees e;
  counted = ground (
    arith,
    h.counted,
    h.map_length,
    drop-bound i x message rest e,
    marks-set_at b.received_map i,
  );
  total = h.total;
  map_length = length-set_at i true b.received_map ∙ h.map_length;
}

pub write-Holds :
    (bytes : Bytes) (message : Bytes) (b : PartialMessageBuffer) (i : ℕ) (rest : Bytes)
    → Holds message b
    → drop i message ≡ bytes ++ rest
    → Holds message (write b i bytes)
unfolding write
write-Holds [] message b i rest h e = h
write-Holds (x ∷ bytes) message b i rest h e =
    write-Holds bytes message (put b i x) (i + 1) rest (put-Holds message b i x (bytes ++ rest) h e)
      (drop-tail i x message (bytes ++ rest) e)

-- A mark is never taken back.
pub write-kept :
    (bytes : Bytes) (b : PartialMessageBuffer) (i j : ℕ)
    → is_set j b.received_map ≡ true
    → is_set j (write b i bytes).received_map ≡ true
unfolding write
write-kept [] b i j h = h
write-kept (x ∷ bytes) b i j h =
    write-kept bytes (put b i x) (i + 1) j (is_set-kept b.received_map i j h)

-- Every byte of the payload is marked.
pub write-marks :
    (bytes : Bytes) (b : PartialMessageBuffer) (i j : ℕ)
    → i + length bytes ≤ length b.received_map
    → i ≤ j
    → j < i + length bytes
    → is_set j (write b i bytes).received_map ≡ true
unfolding write
write-marks [] b i j room lo hi = absurd (omega (arith, lo, hi))
write-marks (x ∷ bytes) b i j room lo hi = elim (Bool-cases (leb j i)) [
  | inl first ↦ write-kept bytes (put b i x) (i + 1) j (
      subst (λ n. is_set n (set_at i true b.received_map) ≡ true) (ground arith)
        (is_set-set_at b.received_map i (omega arith)))
  | inr later ↦
      write-marks bytes (put b i x) (i + 1) j (ground (arith, length-set_at i true b.received_map))
        (ground arith) (omega arith)
]

-- A complete buffer holds the message, and one with every mark is complete.
pub Holds-complete :
    (message : Bytes) (b : PartialMessageBuffer)
    → Holds message b
    → b.received_bytes ≡ b.total_length
    → b.data_bytes ≡ message
Holds-complete message b h e =
    full-Agrees message b.data_bytes b.received_map h.agrees
      (omega (arith, h.counted, h.total, h.map_length, e))

pub Holds-full :
    (message : Bytes) (b : PartialMessageBuffer)
    → Holds message b
    → ((j : ℕ) → j < length message → is_set j b.received_map ≡ true)
    → b.received_bytes ≡ b.total_length
Holds-full message b h all =
    let full = all-marks b.received_map (λ j k. all j (omega (arith, k, h.map_length))) in
    omega (arith, h.counted, h.total, h.map_length, full)

pub none-Holds : (message : Bytes) (now : ℕ) → Holds message (or_insert none (length message) now)
none-Holds message now = record {
  agrees = zeros-Agrees message;
  counted = sym (marks-falses (length message));
  total = refl;
  map_length = length-falses (length message);
}
