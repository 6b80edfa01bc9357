-- ===== src/Transport/Chunks/Delivery.antt =====
-- src/transport/unified.rs: a message whose frames arrived is delivered as it was.
use stellarconduit_core.Prelude.{
  ℕ, ◌≤◌, ◌<◌, List, [], ◌∷◌, ◌++◌, Bytes, true, Option, none, some, ◌≡◌, refl, ap, sym, subst, ◌∙◌,
  arith, if◌then◌else◌, ◌==◌, ==_iff, length, inl, inr, ◌⊎◌, Bool-cases, Option-cases, In, All,
}
use stellarconduit_core.Prelude.HashMap
use stellarconduit_core.Prelude.HashMap.{HashMap, get-insert, get-remove}
use stellarconduit_core.Transport.Chunks.{
  ChunkFrame, MessageReassembler, key, receive_chunk, chunk, chunk_frame_header_size,
  max_message_size_bytes,
}
use stellarconduit_core.Transport.Chunks.Buffers.{Holds-complete, Holds-full}
use stellarconduit_core.Transport.Chunks.Steps.{
  buffer, marked, Pending, after, buffer-other, after-Holds, receive_chunk-after, after-marked,
  buffer-finish, buffer-done, finish-done,
}
use stellarconduit_core.Transport.Chunks.Cover.{Part, Covers, chunk-Part, chunk-Covers}

abbrev pub of_option : Option Bytes → List Bytes
of_option none = []
of_option (some m) = m ∷ []

-- What the reassembler delivers from the chunks of one message id, among others, each with the
-- instant at which it arrives.
unfoldable pub delivered : MessageReassembler → ℕ → List (ℕ × ChunkFrame) → List Bytes
delivered r id [] = []
delivered r id ((now, c) ∷ cs) =
    let out = of_option (receive_chunk r c now).1 in
    let rest = delivered (receive_chunk r c now).0 id cs in
    if c.message_id == id then out ++ rest else rest

module _ (message : Bytes) (id : ℕ) where
  -- A chunk of the message that covers a position, among those that arrive.
  abbrev Arrives : List (ℕ × ChunkFrame) → ℕ → Type 0
  Arrives cs j = (x : ℕ × ChunkFrame) × In x cs × (x.1.message_id ≡ id) × Covers x.1 j

  arrives :
      (cs : List (ℕ × ChunkFrame)) (r : MessageReassembler)
      → 0 < length message
      → Pending message (buffer r id)
      → ((x : ℕ × ChunkFrame) → In x cs → x.1.message_id ≡ id → Part message x.1)
      → ((j : ℕ) → j < length message → (marked (buffer r id) j ≡ true) ⊎ Arrives cs j)
      → In message (delivered r id cs)
  unfolding delivered
  arrives [] r pos p parts cover = elim (Option-cases (buffer r id)) [
    | inl e ↦ elim (cover 0 pos) [ inl m ↦ absurd (ground arith) | inr (x, i, k, v) ↦ absurd i ]
    | inr (b, e) ↦
        let (h, short) = subst (Pending message) e p in
        absurd (
          short (
            Holds-full message b h
              (λ j k. elim (cover j k) [ inl m ↦ ground arith | inr (x, i, n, v) ↦ absurd i ])))
  ]
  arrives ((now, c) ∷ cs) r pos p parts cover = elim (Bool-cases (c.message_id == id)) [
    | inr other ↦
        let kept = buffer-other r c now id other in
        rw other (
          arrives cs (receive_chunk r c now).0 pos (subst (Pending message) (sym kept) p)
            (λ x i. parts x (inr i))
            (λ j k. elim (cover j k) [
              | inl m ↦ inl (ap (λ o. marked o j) kept ∙ m)
              | inr (x, inl first, n, v) ↦ absurd (
                  ground (
                    arith,
                    ap (λ (y : ℕ × ChunkFrame). y.1.message_id) first,
                    n,
                    (==_iff c.message_id id).1,
                  ))
              | inr (x, inr later, n, v) ↦ inr (x, later, n, v)
            ]))
    | inl same ↦
        let e = (==_iff c.message_id id).0 same in
        let part = parts (now, c) (inl refl) e in
        let b = after message id r c now in
        let h = after-Holds message id r c now p part in
        let eq = receive_chunk-after message id r c now p part e in
        elim (Bool-cases (b.received_bytes == b.total_length)) [
          | inl done ↦
              let complete =
                Holds-complete message b h ((==_iff b.received_bytes b.total_length).0 done) in
              rw (same, eq, done) (inl (sym complete))
          | inr short ↦
              let (stored, silent) = buffer-finish message id r b short in
              let stored' =
                ap (λ (o : MessageReassembler × Option Bytes). buffer o.0 id) eq ∙ stored in
              let silent' = ap (λ (o : MessageReassembler × Option Bytes). o.1) eq ∙ silent in
              rw (same, silent')
                (arrives cs (receive_chunk r c now).0 pos
                  (subst (Pending message) (sym stored') (
                    h,
                    λ full.
                        absurd (ground (arith, (==_iff b.received_bytes b.total_length).1 full)),
                  ))
                  (λ x i. parts x (inr i))
                  (λ j k. elim (cover j k) [
                    | inl m ↦ inl (
                        ap (λ o. marked o j) stored'
                        ∙ after-marked message id r c now j p part (inl m))
                    | inr (x, inl first, n, v) ↦ inl (
                        ap (λ o. marked o j) stored'
                        ∙ after-marked message id r c now j p part
                            (inr (subst (λ (y : ℕ × ChunkFrame). Covers y.1 j) first v)))
                    | inr (x, inr later, n, v) ↦ inr (x, later, n, v)
                  ]))
        ]
  ]

  delivered-only :
      (cs : List (ℕ × ChunkFrame)) (r : MessageReassembler)
      → Pending message (buffer r id)
      → ((x : ℕ × ChunkFrame) → In x cs → x.1.message_id ≡ id → Part message x.1)
      → All (λ m. m ≡ message) (delivered r id cs)
  unfolding delivered
  delivered-only [] r p parts = tt
  delivered-only ((now, c) ∷ cs) r p parts = elim (Bool-cases (c.message_id == id)) [
    | inr other ↦ rw other (
        delivered-only cs (receive_chunk r c now).0
          (subst (Pending message) (sym (buffer-other r c now id other)) p)
          (λ x i. parts x (inr i)))
    | inl same ↦
        let e = (==_iff c.message_id id).0 same in
        let part = parts (now, c) (inl refl) e in
        let b = after message id r c now in
        let h = after-Holds message id r c now p part in
        let eq = receive_chunk-after message id r c now p part e in
        elim (Bool-cases (b.received_bytes == b.total_length)) [
          | inl done ↦
              let gone =
                ap (λ (o : MessageReassembler × Option Bytes). buffer o.0 id) eq
                ∙ buffer-done message id r b done in
              let rest =
                delivered-only cs (receive_chunk r c now).0 (subst (Pending message) (sym gone) tt)
                  (λ x i. parts x (inr i)) in
              let complete =
                Holds-complete message b h ((==_iff b.received_bytes b.total_length).0 done) in
              let out =
                ap (λ (o : MessageReassembler × Option Bytes). o.1) eq
                ∙ finish-done message id r b done in
              rw (same, out) (complete, rest)
          | inr short ↦
              let (stored, silent) = buffer-finish message id r b short in
              let stored' =
                ap (λ (o : MessageReassembler × Option Bytes). buffer o.0 id) eq ∙ stored in
              let silent' = ap (λ (o : MessageReassembler × Option Bytes). o.1) eq ∙ silent in
              rw (same, silent')
                (delivered-only cs (receive_chunk r c now).0
                  (subst (Pending message) (sym stored') (
                    h,
                    λ full.
                        absurd (ground (arith, (==_iff b.received_bytes b.total_length).1 full)),
                  ))
                  (λ x i. parts x (inr i)))
        ]
  ]

-- Where every frame of a message arrives at least once, in any order, repeated or among chunks of
-- other messages, and nothing else under its id, the message is delivered, and nothing but it.
pub In-delivered :
    (r : MessageReassembler) (mtu : ℕ) (message : Bytes) (id : ℕ) (cs : List (ℕ × ChunkFrame))
    → chunk_frame_header_size < mtu
    → 0 < length message
    → length message ≤ max_message_size_bytes
    → HashMap.get (key id) r.buffers ≡ none
    → ((x : ℕ × ChunkFrame) → In x cs → x.1.message_id ≡ id → In x.1 (chunk mtu message id))
    → ((c : ChunkFrame) → In c (chunk mtu message id) → (now : ℕ) × In (now, c) cs)
    → In message (delivered r id cs) × All (λ m. m ≡ message) (delivered r id cs)
unfolding buffer
In-delivered r mtu message id cs roomy pos small idle only all =
    let pending : Pending message (buffer r id) = subst (Pending message) (sym idle) tt in
    let parts : (x : ℕ × ChunkFrame) → In x cs → x.1.message_id ≡ id → Part message x.1 =
      λ x i e. (chunk-Part mtu message id x.1 small (only x i e)).0 in
    (
      arrives message id cs r pos pending parts (λ j h.
          let (c, i, v) = chunk-Covers mtu message id j small roomy h in
          let (now, k) = all c i in inr ((now, c), k, (chunk-Part mtu message id c small i).1, v)),
      delivered-only message id cs r pending parts,
    )
