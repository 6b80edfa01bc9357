-- ===== src/Transport/Chunks/Cover.antt =====
-- src/transport/unified.rs: the frames of a message are parts of it and cover it.
use stellarconduit_core.Prelude.{
  ℕ, zero, suc, ◌+◌, ◌-◌, ◌≤◌, ◌<◌, ◌++◌, Bytes, true, ◌≡◌, refl, sym, subst, arith, ltb, leb, min,
  length, take, drop, inl, inr, ◌⊎◌, Bool-cases, In, take-append-drop, length-take, length-drop,
}
use stellarconduit_core.Transport.Chunks.{ChunkFrame, frame, frames, chunk, is_valid}

-- A valid chunk whose payload stands in the message at its offset.
pub record Part (message : Bytes) (c : ChunkFrame) : Type 0 where
  pub valid : is_valid c ≡ true
  pub total : c.total_length ≡ length message
  pub after : Bytes
  pub placed : drop c.offset message ≡ c.payload ++ after
  pub room : c.offset + length c.payload ≤ length message

-- Position `j` of the message is in the payload.
abbrev pub Covers : ChunkFrame → ℕ → Type 0
Covers c j = (c.offset ≤ j) × (j < c.offset + length c.payload)

pub payload_length :
    (message : Bytes) (offset end : ℕ)
    → end ≤ length message
    → length (take (end - offset) (drop offset message)) ≡ end - offset
payload_length message offset end h =
    omega (arith, length-take (end - offset) (drop offset message), length-drop offset message)

pub frame-Part :
    (message : Bytes) (id offset end : ℕ)
    → length message ≤ 1048576
    → offset < end
    → end ≤ length message
    → end - offset ≤ 65535
    → Part message (frame message id offset end)
frame-Part message id offset end small lo hi fits = record {
  valid = ground (arith, payload_length message offset end hi);
  total = omega arith;
  after = drop (end - offset) (drop offset message);
  placed =
      subst
        (λ n.
          drop n message
          ≡ take (end - offset) (drop offset message) ++ drop (end - offset) (drop offset message))
        (omega arith) (sym (take-append-drop (end - offset) (drop offset message)));
  room = ground (arith, payload_length message offset end hi);
}

module _ (capacity : ℕ) (message : Bytes) (id : ℕ) (small : length message ≤ 1048576)
    (pos : 0 < capacity) (fits : capacity ≤ 65535) where
  In-frames :
      (fuel offset : ℕ) (c : ChunkFrame)
      → In c (frames fuel capacity message id offset)
      → Part message c × (c.message_id ≡ id)
  unfolding frames
  In-frames zero offset c i = absurd i
  In-frames (suc fuel) offset c i = elim (Bool-cases (ltb offset (length message))) [
    | inr over ↦ absurd (ground arith)
    | inl more ↦ elim (first_or_later more) [
      | inl e ↦
          subst (λ f. Part message f × (f.message_id ≡ id)) (sym e)
            (
              frame-Part message id offset (min (offset + capacity) (length message)) small
                  (ground arith) (omega arith) (omega arith),
              refl,
            )
      | inr later ↦ In-frames fuel (min (offset + capacity) (length message)) c later
    ]
  ]
    where
      first_or_later :
          ltb offset (length message) ≡ true
          → (c ≡ frame message id offset (min (offset + capacity) (length message)))
            ⊎ In c (frames fuel capacity message id (min (offset + capacity) (length message)))
      first_or_later more = ground (arith, i)

  frames-cover :
      (fuel offset j : ℕ)
      → length message ≤ offset + fuel
      → offset ≤ j
      → j < length message
      → (c : ChunkFrame) × In c (frames fuel capacity message id offset) × Covers c j
  unfolding frames
  frames-cover zero offset j enough lo hi = absurd (omega (arith, enough, lo, hi))
  frames-cover (suc fuel) offset j enough lo hi =
      let end = min (offset + capacity) (length message) in
      elim (Bool-cases (ltb j end)) [
        | inl this ↦ (
          frame message id offset end,
          ground arith,
          (omega arith, ground (arith, payload_length message offset end (omega arith))),
        )
        | inr next ↦
            let (c, i, v) = frames-cover fuel end j (ground arith) (ground arith) hi in
            (c, ground arith, v)
      ]

-- What the chunker makes of a message that is not empty and not too long, for packets with room for
-- more than the header.
pub chunk-Part :
    (mtu : ℕ) (message : Bytes) (id : ℕ) (c : ChunkFrame)
    → length message ≤ 1048576
    → In c (chunk mtu message id)
    → Part message c × (c.message_id ≡ id)
unfolding chunk
chunk-Part mtu message id c small i = elim (Bool-cases (leb mtu 14)) [
  | inl tight ↦ absurd (ground arith)
  | inr roomy ↦
      In-frames (min (mtu - 14) 65535) message id small (ground arith) (omega arith)
        (length message) 0 c (ground arith)
]

pub chunk-Covers :
    (mtu : ℕ) (message : Bytes) (id j : ℕ)
    → length message ≤ 1048576
    → 14 < mtu
    → j < length message
    → (c : ChunkFrame) × In c (chunk mtu message id) × Covers c j
unfolding chunk
chunk-Covers mtu message id j small roomy h =
    let (c, i, v) =
      frames-cover (min (mtu - 14) 65535) message id small (omega arith) (omega arith)
        (length message) 0 j (omega arith) (omega arith) h in
    (c, ground arith, v)
