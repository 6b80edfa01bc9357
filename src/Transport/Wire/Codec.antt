-- ===== src/Transport/Wire/Codec.antt =====
-- Encoding and decoding of a frame are inverse to each other.
use stellarconduit_core.Prelude.{
  ℕ, ◌+◌, ◌*◌, ◌/◌, ◌%◌, ◌<◌, ◌≤◌, [], ◌∷◌, ◌++◌, Bytes, some, ◌≡◌, refl, sym, subst, ◌∙◌, arith,
  length, length-take, length-drop, take-append-drop, take, drop, All, ◌↔◌, zero, suc, to_le_bytes,
  from_le_bytes,
}
use stellarconduit_core.Transport.Chunks.{ChunkFrame}
use stellarconduit_core.Transport.Wire.{encode_chunk, decode_chunk, fields}

-- The fields are in the range of their types, and the size is that of the payload.
pub record IsFrame (c : ChunkFrame) : Type 0 where
  pub id_range : c.message_id < 4294967296
  pub total_range : c.total_length < 4294967296
  pub offset_range : c.offset < 4294967296
  pub size_range : c.payload_size < 65536
  pub sized : length c.payload ≡ c.payload_size

four : (x : ℕ) → x < 4294967296 → from_le_bytes (to_le_bytes 4 x) ≡ x
unfolding to_le_bytes from_le_bytes
four x h = omega arith

two : (x : ℕ) → x < 65536 → from_le_bytes (to_le_bytes 2 x) ≡ x
unfolding to_le_bytes from_le_bytes
two x h = omega arith

pub fields-encode_chunk : (c : ChunkFrame) → IsFrame c → fields (encode_chunk c) ≡ c
unfolding fields encode_chunk from_le_bytes to_le_bytes
fields-encode_chunk c h = ground arith

pub length-encode_chunk : (c : ChunkFrame) → length (encode_chunk c) ≡ 14 + length c.payload
unfolding encode_chunk to_le_bytes
length-encode_chunk c = omega arith

pub decode_chunk-encode_chunk :
    (c : ChunkFrame) → IsFrame c → decode_chunk (encode_chunk c) ≡ some c
unfolding decode_chunk
decode_chunk-encode_chunk c h =
    ground (arith, fields-encode_chunk c h, length-encode_chunk c, h.sized)

bytes_of :
    (n : ℕ) (xs : Bytes)
    → All (λ b. b < 256) xs
    → length xs ≡ n
    → to_le_bytes n (from_le_bytes xs) ≡ xs
unfolding to_le_bytes from_le_bytes
bytes_of zero [] h e = refl
bytes_of zero (b ∷ bs) h e = absurd (omega arith)
bytes_of (suc n) [] h e = absurd (omega arith)
bytes_of (suc n) (b ∷ bs) h e =
    let head : (b + 256 * from_le_bytes bs) % 256 ≡ b = omega arith in
    let tail : (b + 256 * from_le_bytes bs) / 256 ≡ from_le_bytes bs = omega arith in
    rw (head, tail, bytes_of n bs h.1 (omega arith))

-- 256 to the power of `n`.
abbrev limit : ℕ → ℕ
limit zero = 1
limit (suc n) = 256 * limit n

range : (n : ℕ) (xs : Bytes) → All (λ b. b < 256) xs → length xs ≡ n → from_le_bytes xs < limit n
unfolding from_le_bytes
range zero [] h e = omega arith
range zero (b ∷ bs) h e = absurd (omega arith)
range (suc n) [] h e = absurd (omega arith)
range (suc n) (b ∷ bs) h e = omega (arith, range n bs h.1 (omega arith))

All-take : (n : ℕ) (xs : Bytes) → All (λ b. b < 256) xs → All (λ b. b < 256) (take n xs)
All-take zero xs h = tt
All-take (suc n) [] h = tt
All-take (suc n) (x ∷ xs) h = (h.0, All-take n xs h.1)

All-drop : (n : ℕ) (xs : Bytes) → All (λ b. b < 256) xs → All (λ b. b < 256) (drop n xs)
All-drop zero xs h = h
All-drop (suc n) [] h = tt
All-drop (suc n) (x ∷ xs) h = All-drop n xs h.1

drop-nil : (n : ℕ) → drop {A = ℕ} n [] ≡ []
drop-nil zero = refl
drop-nil (suc n) = refl

drop-drop : (n m : ℕ) (xs : Bytes) → drop n (drop m xs) ≡ drop (m + n) xs
drop-drop n zero xs = ground arith
drop-drop n (suc m) [] = drop-nil n ∙ sym (drop-nil (suc m + n))
drop-drop n (suc m) (x ∷ xs) =
    let shift : suc (m + n) ≡ suc m + n = omega arith in
    subst (λ k. drop n (drop m xs) ≡ drop k (x ∷ xs)) shift (drop-drop n m xs)

module _ (raw : Bytes) (bytes : All (λ b. b < 256) raw) (long : 14 ≤ length raw) where
  slice :
      (n m : ℕ)
      → n + m ≤ 14
      → to_le_bytes n (from_le_bytes (take n (drop m raw))) ≡ take n (drop m raw)
  slice n m h =
      bytes_of n (take n (drop m raw)) (All-take n (drop m raw) (All-drop m raw bytes))
        (omega (arith, length-take n (drop m raw), length-drop m raw))

  slice_range : (n m : ℕ) → n + m ≤ 14 → from_le_bytes (take n (drop m raw)) < limit n
  slice_range n m h =
      range n (take n (drop m raw)) (All-take n (drop m raw) (All-drop m raw bytes))
        (omega (arith, length-take n (drop m raw), length-drop m raw))

  fields-IsFrame : length (fields raw).payload ≡ (fields raw).payload_size → IsFrame (fields raw)
  unfolding fields
  fields-IsFrame sized = record {
    id_range = slice_range 4 0 (omega arith);
    total_range = slice_range 4 4 (omega arith);
    offset_range = slice_range 4 8 (omega arith);
    size_range = slice_range 2 12 (omega arith);
    sized = sized;
  }

  cut : (n m : ℕ) → take n (drop m raw) ++ drop (m + n) raw ≡ drop m raw
  cut n m = rw (← (drop-drop n m raw)) (take-append-drop n (drop m raw))

  encode_chunk-fields : encode_chunk (fields raw) ≡ raw
  unfolding encode_chunk fields
  encode_chunk-fields = rw (
    slice 4 0 (omega arith),
    slice 4 4 (omega arith),
    slice 4 8 (omega arith),
    slice 2 12 (omega arith),
    cut 2 12,
    cut 4 8,
    cut 4 4,
    cut 4 0,
  )

-- A buffer of bytes is read as a frame exactly when it is the encoding of that frame, with a payload
-- of the length that it states.
pub decode_chunk_iff :
    (raw : Bytes) (c : ChunkFrame)
    → All (λ b. b < 256) raw
    → (decode_chunk raw ≡ some c) ↔ (IsFrame c × (encode_chunk c ≡ raw))
unfolding decode_chunk
decode_chunk_iff raw c bytes = (
  λ h. read (ground (arith, h)) (ground (arith, h)) (ground (arith, h)),
  λ (f, e). subst (λ r. decode_chunk r ≡ some c) e (decode_chunk-encode_chunk c f),
)
  where
    read :
        14 ≤ length raw
        → length (fields raw).payload ≡ (fields raw).payload_size
        → fields raw ≡ c
        → IsFrame c × (encode_chunk c ≡ raw)
    read long sized e =
        subst (λ f. IsFrame f × (encode_chunk f ≡ raw)) e
          (fields-IsFrame raw bytes long sized, encode_chunk-fields raw bytes long)
