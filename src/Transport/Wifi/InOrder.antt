-- ===== src/Transport/Wifi/InOrder.antt =====
-- src/transport/wifi_transport.rs: frames that arrive in order complete their message at the last one.
use stellarconduit_core.Prelude.{
  ℕ, ◌+◌, ◌-◌, ◌≤◌, ◌<◌, [], ◌∷◌, Bytes, true, Option, none, some, ◌≡◌, refl, sym, ◌≢◌, ap, subst,
  ◌∙◌, arith, ==_iff, ltb, length, inl, inr, Bool-cases, Option-cases,
}
use stellarconduit_core.Transport.Chunks.{
  ChunkFrame, PartialMessageBuffer, MessageReassembler, frame, write, put, receive_chunk, finish,
  is_set,
}
use stellarconduit_core.Transport.Chunks.Buffers.{Holds, Holds-complete, Holds-full}
use stellarconduit_core.Transport.Chunks.Cover.{Part, frame-Part, payload_length}
use stellarconduit_core.Transport.Chunks.Steps.{
  buffer, marked, Pending, after, after-Holds, receive_chunk-after, after-marked, buffer-finish,
  buffer-done, finish-done, opened,
}

-- The bytes that a buffer counts.
abbrev pub received : Option PartialMessageBuffer → ℕ
received none = 0
received (some b) = b.received_bytes

write-received-le :
    (bytes : Bytes) (b : PartialMessageBuffer) (i : ℕ)
    → (write b i bytes).received_bytes ≤ b.received_bytes + length bytes
unfolding write
write-received-le [] b i = omega arith
write-received-le (x ∷ bytes) b i = ground (arith, write-received-le bytes (put b i x) (i + 1))

opened-received :
    (r : MessageReassembler) (id total now : ℕ)
    → (opened r id total now).received_bytes ≡ received (buffer r id)
opened-received r id total now = elim (Option-cases (buffer r id)) [
  | inl e ↦ rw e
  | inr (b, e) ↦ rw e
]

-- The first `offset` bytes arrived, and no other.
pub record Prefix (message : Bytes) (id offset : ℕ) (r : MessageReassembler) : Type 0 where
  pub pending : Pending message (buffer r id)
  pub reached : (j : ℕ) → j < offset → marked (buffer r id) j ≡ true
  pub counted : received (buffer r id) ≤ offset

module _ (message : Bytes) (id : ℕ) (small : length message ≤ 1048576) where
  module _ (offset end now : ℕ) (r : MessageReassembler) (p : Prefix message id offset r)
      (lo : offset < end) (hi : end ≤ length message) (fits : end - offset ≤ 65535) where
    abbrev this : ChunkFrame
    this = frame message id offset end

    part : Part message this
    part = frame-Part message id offset end small lo hi fits

    size : length this.payload ≡ end - offset
    size = payload_length message offset end hi

    -- The buffer after the frame.
    abbrev kept : PartialMessageBuffer
    kept = after message id r this now

    kept-Holds : Holds message kept
    kept-Holds = after-Holds message id r this now p.pending part

    kept-finish : receive_chunk r this now ≡ finish r id kept
    kept-finish = receive_chunk-after message id r this now p.pending part refl

    kept_count : kept.received_bytes ≤ end
    kept_count = omega (
      arith,
      write-received-le this.payload (opened r id this.total_length now) this.offset,
      opened-received r id this.total_length now,
      size,
      p.counted,
    )

    kept_marked : (j : ℕ) → j < end → is_set j kept.received_map ≡ true
    kept_marked j h =
        after-marked message id r this now j p.pending part (elim (Bool-cases (ltb j offset)) [
          | inl old ↦ inl (p.reached j (ground arith))
          | inr new ↦ inr (ground arith, ground (arith, size))
        ])

    -- Before the end, a frame leaves a longer prefix and delivers nothing.
    pub receive_chunk-Prefix :
        end < length message
        → Prefix message id end (receive_chunk r this now).0 × ((receive_chunk r this now).1 ≡ none)
    receive_chunk-Prefix more =
        let short : kept.received_bytes ≢ kept.total_length =
          λ e. absurd (omega (arith, kept_count, kept-Holds.total, e, more)) in
        let (stored, silent) = buffer-finish message id r kept (ground (arith, short)) in
        rw kept-finish (
          record {
            pending = subst (Pending message) (sym stored) (kept-Holds, short);
            reached = λ j h. ap (λ o. marked o j) stored ∙ kept_marked j h;
            counted = subst (λ o. received o ≤ end) (sym stored) kept_count;
          },
          silent,
        )

    -- The last frame delivers the message and frees its buffer.
    pub receive_chunk-last :
        end ≡ length message
        → (buffer (receive_chunk r this now).0 id ≡ none)
          × ((receive_chunk r this now).1 ≡ some message)
    receive_chunk-last e =
        let full =
          Holds-full message kept kept-Holds (λ j h. kept_marked j (omega (arith, h, e))) in
        let done = (==_iff kept.received_bytes kept.total_length).1 full in
        rw kept-finish (
          buffer-done message id r kept done,
          finish-done message id r kept done
              ∙ ap some (Holds-complete message kept kept-Holds full),
        )
