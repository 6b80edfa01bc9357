-- ===== src/Transport/Chunks/Steps.antt =====
-- src/transport/unified.rs: what a chunk does to the buffer of its message.
use stellarconduit_core.Prelude.{
  ℕ, Bytes, Bool, true, false, Option, none, some, ◌≡◌, ◌≢◌, sym, subst, ◌∙◌, arith, ◌==◌, length,
  inl, inr, ◌⊎◌, Option-cases, bytes_eq, bytes_eq_refl,
}
use stellarconduit_core.Prelude.HashMap
use stellarconduit_core.Prelude.HashMap.{HashMap, get-insert, get-remove}
use stellarconduit_core.Transport.Chunks.{
  ChunkFrame, PartialMessageBuffer, MessageReassembler, or_insert, is_set, write, finish, is_valid,
  key, receive_chunk,
}
use stellarconduit_core.Transport.Chunks.Buffers.{
  Holds, write-Holds, write-kept, write-marks, none-Holds,
}
use stellarconduit_core.Transport.Chunks.Cover.{Part, Covers}

unfoldable pub buffer : MessageReassembler → ℕ → Option PartialMessageBuffer
buffer r id = HashMap.get (key id) r.buffers

keys_differ : (a b : ℕ) → (a == b) ≡ false → bytes_eq (key a) (key b) ≡ false
unfolding bytes_eq
keys_differ a b h = ground arith

-- A chunk of another message leaves the buffer alone.
pub buffer-other :
    (r : MessageReassembler) (c : ChunkFrame) (now id : ℕ)
    → (c.message_id == id) ≡ false
    → buffer (receive_chunk r c now).0 id ≡ buffer r id
unfolding receive_chunk buffer
buffer-other r c now id h =
    let k = key c.message_id in
    let b = or_insert (HashMap.get k r.buffers) c.total_length now in
    let b' : PartialMessageBuffer = record (write b c.offset c.payload) { last_updated = now } in
    ground (
      arith,
      keys_differ c.message_id id h,
      get-insert k (key id) b' r.buffers,
      get-remove k (key id) r.buffers,
    )

-- The buffer that a chunk is written into, and what it leaves.
abbrev pub opened : MessageReassembler → ℕ → ℕ → ℕ → PartialMessageBuffer
opened r id total now = or_insert (buffer r id) total now

abbrev written : MessageReassembler → ChunkFrame → ℕ → PartialMessageBuffer
written r c now = record (write (opened r c.message_id c.total_length now) c.offset c.payload) {
  last_updated = now;
}

receive_chunk-finish :
    (r : MessageReassembler) (c : ChunkFrame) (now : ℕ)
    → is_valid c ≡ true
    → (opened r c.message_id c.total_length now).total_length ≡ c.total_length
    → receive_chunk r c now ≡ finish r c.message_id (written r c now)
unfolding receive_chunk buffer
receive_chunk-finish r c now v t = ground (arith, v, t)

-- The marks of a buffer, if there is one.
abbrev pub marked : Option PartialMessageBuffer → ℕ → Bool
marked none j = false
marked (some b) j = is_set j b.received_map

-- There is no buffer, or an incomplete one with parts of the message.
abbrev pub Pending : Bytes → Option PartialMessageBuffer → Type 0
Pending message none = Unit {0}
Pending message (some b) = Holds message b × (b.received_bytes ≢ b.total_length)

module _ (message : Bytes) (id : ℕ) where
  opened-Holds :
      (r : MessageReassembler) (c : ChunkFrame) (now : ℕ)
      → Pending message (buffer r id)
      → c.total_length ≡ length message
      → Holds message (opened r id c.total_length now)
  opened-Holds r c now p t = elim (Option-cases (buffer r id)) [
    | inl e ↦ rw (e, t) (none-Holds message now)
    | inr (b, e) ↦ rw e (subst (Pending message) e p).0
  ]

  opened-marked :
      (r : MessageReassembler) (total now j : ℕ)
      → marked (buffer r id) j ≡ true
      → is_set j (opened r id total now).received_map ≡ true
  opened-marked r total now j m = elim (Option-cases (buffer r id)) [
    | inl e ↦ absurd (ground arith)
    | inr (b, e) ↦ ground arith
  ]

  touched :
      (b : PartialMessageBuffer) (now : ℕ)
      → Holds message b
      → Holds message (record b { last_updated = now })
  touched b now h = record {
    agrees = h.agrees;
    counted = h.counted;
    total = h.total;
    map_length = h.map_length;
  }

  -- The buffer of the message after a chunk of it.
  abbrev pub after : MessageReassembler → ChunkFrame → ℕ → PartialMessageBuffer
  after r c now = record (write (opened r id c.total_length now) c.offset c.payload) {
    last_updated = now;
  }

  pub after-Holds :
      (r : MessageReassembler) (c : ChunkFrame) (now : ℕ)
      → Pending message (buffer r id)
      → Part message c
      → Holds message (after r c now)
  after-Holds r c now p part =
      touched (write (opened r id c.total_length now) c.offset c.payload) now (
        write-Holds c.payload message (opened r id c.total_length now) c.offset part.after
          (opened-Holds r c now p part.total) part.placed)

  pub receive_chunk-after :
      (r : MessageReassembler) (c : ChunkFrame) (now : ℕ)
      → Pending message (buffer r id)
      → Part message c
      → c.message_id ≡ id
      → receive_chunk r c now ≡ finish r id (after r c now)
  receive_chunk-after r c now p part e =
      subst
        (λ i.
          receive_chunk r c now
          ≡ finish r i (record (write (opened r i c.total_length now) c.offset c.payload) {
            last_updated = now;
          }))
        e
        (receive_chunk-finish r c now part.valid (
          subst (λ i. (opened r i c.total_length now).total_length ≡ c.total_length) (sym e)
            ((opened-Holds r c now p part.total).total ∙ sym part.total)))

  pub after-marked :
      (r : MessageReassembler) (c : ChunkFrame) (now j : ℕ)
      → Pending message (buffer r id)
      → Part message c
      → (marked (buffer r id) j ≡ true) ⊎ Covers c j
      → is_set j (after r c now).received_map ≡ true
  after-marked r c now j p part (inl m) =
      write-kept c.payload (opened r id c.total_length now) c.offset j
        (opened-marked r c.total_length now j m)
  after-marked r c now j p part (inr v) =
      write-marks c.payload (opened r id c.total_length now) c.offset j
        (omega (arith, part.room, (opened-Holds r c now p part.total).map_length)) v.0 v.1

  pub buffer-finish :
      (r : MessageReassembler) (b : PartialMessageBuffer)
      → (b.received_bytes == b.total_length) ≡ false
      → (buffer (finish r id b).0 id ≡ some b) × ((finish r id b).1 ≡ none)
  unfolding buffer
  buffer-finish r b h =
      ground (arith, get-insert (key id) (key id) b r.buffers, bytes_eq_refl (key id))

  pub buffer-done :
      (r : MessageReassembler) (b : PartialMessageBuffer)
      → (b.received_bytes == b.total_length) ≡ true
      → buffer (finish r id b).0 id ≡ none
  unfolding buffer
  buffer-done r b h = ground (arith, get-remove (key id) (key id) r.buffers, bytes_eq_refl (key id))

  pub finish-done :
      (r : MessageReassembler) (b : PartialMessageBuffer)
      → (b.received_bytes == b.total_length) ≡ true
      → (finish r id b).1 ≡ some b.data_bytes
  finish-done r b h = ground arith
