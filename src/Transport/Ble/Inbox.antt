-- ===== src/Transport/Ble/Inbox.antt =====
-- src/transport/ble_transport.rs: frames that were written on the link become messages of the inbox.
use stellarconduit_core.Prelude.{
  ℕ, ◌+◌, ◌≤◌, ◌<◌, List, [], ◌∷◌, ◌++◌, Bytes, Option, none, some, ◌≡◌, refl, ◌∙◌, arith, ◌==◌,
  length, length-append, append-nil, In, In-append, All, inl, inr, ◌⊎◌, Bool-cases,
}
use stellarconduit_core.Prelude.HashMap
use stellarconduit_core.Transport.Chunks.{
  ChunkFrame, MessageReassembler, key, chunk, chunk_frame_header_size, max_message_size_bytes,
  receive_chunk,
}
use stellarconduit_core.Transport.Chunks.Delivery.{of_option, delivered, In-delivered}
use stellarconduit_core.Transport.Wire.{encode_chunk}
use stellarconduit_core.Transport.Wire.Codec.{IsFrame, decode_chunk-encode_chunk}
use stellarconduit_core.Transport.Ble.{BlePeripheral, ingest_chunk_bytes, inbox_capacity}

-- The frames arrive as bytes, each at its instant; `none` where the inbox is full.
pub ingest_all : BlePeripheral → List (ℕ × ChunkFrame) → Option BlePeripheral
ingest_all p [] = some p
ingest_all p ((now, c) ∷ cs) = elim (ingest_chunk_bytes p (encode_chunk c) now) [
  | none ↦ none
  | some (p', refused) ↦ ingest_all p' cs
]

-- The end after a frame that it has room for.
abbrev after : BlePeripheral → ℕ → ChunkFrame → BlePeripheral
after p now c = record p {
  reassembler = (receive_chunk p.reassembler c now).0;
  inbox = p.inbox ++ of_option (receive_chunk p.reassembler c now).1;
}

ingest_chunk_bytes-after :
    (p : BlePeripheral) (now : ℕ) (c : ChunkFrame)
    → IsFrame c
    → length p.inbox < inbox_capacity
    → ingest_chunk_bytes p (encode_chunk c) now ≡ some (after p now c, none)
unfolding ingest_chunk_bytes
ingest_chunk_bytes-after p now c f room =
    ground (arith, room, decode_chunk-encode_chunk c f, append-nil p.inbox)

ingest_all-cons :
    (p : BlePeripheral) (now : ℕ) (c : ChunkFrame) (cs : List (ℕ × ChunkFrame))
    → ingest_chunk_bytes p (encode_chunk c) now ≡ some (after p now c, none)
    → ingest_all p ((now, c) ∷ cs) ≡ ingest_all (after p now c) cs
unfolding ingest_all
ingest_all-cons p now c cs e = ground (arith, e)

length-of_option : (o : Option Bytes) → length (of_option o) ≤ 1
length-of_option none = omega arith
length-of_option (some b) = omega arith

delivered-cons :
    (r : MessageReassembler) (id now : ℕ) (c : ChunkFrame) (cs : List (ℕ × ChunkFrame)) (m : Bytes)
    → In m (delivered r id ((now, c) ∷ cs))
    → In m (of_option (receive_chunk r c now).1) ⊎ In m (delivered (receive_chunk r c now).0 id cs)
unfolding delivered
delivered-cons r id now c cs m i = elim (Bool-cases (c.message_id == id)) [
  | inr other ↦ inr (ground (arith, i, other))
  | inl same ↦
      (In-append m (of_option (receive_chunk r c now).1)
          (delivered (receive_chunk r c now).0 id cs)).0
        (ground (arith, i, same))
]

-- With room for a message of every frame, the inbox keeps what it has and takes what is delivered.
ingest_all-delivered :
    (cs : List (ℕ × ChunkFrame)) (p : BlePeripheral) (id : ℕ)
    → All (λ x. IsFrame x.1) cs
    → length p.inbox + length cs ≤ inbox_capacity
    → (p' : BlePeripheral) × (ingest_all p cs ≡ some p')
      × ((m : Bytes) → In m p.inbox ⊎ In m (delivered p.reassembler id cs) → In m p'.inbox)
unfolding ingest_all delivered
ingest_all-delivered [] p id fs room = (p, refl, λ m i. elim i [ inl a ↦ a | inr b ↦ absurd b ])
ingest_all-delivered ((now, c) ∷ cs) p id fs room =
    let out = of_option (receive_chunk p.reassembler c now).1 in
    let step = ingest_chunk_bytes-after p now c fs.0 (omega arith) in
    let (p', run, grows) = ingest_all-delivered cs (after p now c) id fs.1 (
      omega (
        arith,
        room,
        length-append p.inbox out,
        length-of_option (receive_chunk p.reassembler c now).1,
      )) in
    (
      p',
      ingest_all-cons p now c cs step ∙ run,
      λ m i. grows m (elim i [
        | inl a ↦ inl ((In-append m p.inbox out).1 (inl a))
        | inr b ↦ elim (delivered-cons p.reassembler id now c cs m b) [
          | inl o ↦ inl ((In-append m p.inbox out).1 (inr o))
          | inr d ↦ inr d
        ]
      ]),
    )

-- Where every frame of a message arrives as bytes at least once, in any order, repeated or among
-- frames of other messages, and nothing else under its id, the message ends in the inbox of the
-- receiving end. The inbox has room for as many messages as frames arrive.
pub In-ingest_all :
    (p : BlePeripheral) (mtu : ℕ) (message : Bytes) (id : ℕ) (cs : List (ℕ × ChunkFrame))
    → chunk_frame_header_size < mtu
    → 0 < length message
    → length message ≤ max_message_size_bytes
    → HashMap.get (key id) p.reassembler.buffers ≡ none
    → ((x : ℕ × ChunkFrame) → In x cs → x.1.message_id ≡ id → In x.1 (chunk mtu message id))
    → ((c : ChunkFrame) → In c (chunk mtu message id) → (now : ℕ) × In (now, c) cs)
    → All (λ x. IsFrame x.1) cs
    → length p.inbox + length cs ≤ inbox_capacity
    → (p' : BlePeripheral) × (ingest_all p cs ≡ some p') × In message p'.inbox
In-ingest_all p mtu message id cs roomy pos small idle only all fs room =
    let (p', run, grows) = ingest_all-delivered cs p id fs room in
    let arrived = In-delivered p.reassembler mtu message id cs roomy pos small idle only all in
    (p', run, grows message (inr arrived.0))
