-- ===== src/Transport/Chunks.antt =====
-- src/transport/unified.rs: messages cut into frames and put together again. Packets, offsets and
-- lengths are numbers; a cast to 32 or 16 bits is written out.
pub mod Cover
pub mod Marks
pub mod Buffers
pub mod Steps
pub mod Delivery
use stellarconduit_core.Prelude.{
  ℕ, zero, suc, ◌+◌, ◌-◌, ◌%◌, ◌^◌, List, [], ◌∷◌, Bytes, Bool, true, false, not, ◌||◌, Option,
  none, some, if◌then◌else◌, ◌==◌, ltb, leb, min, length, take, drop, retain, zeros,
}
use stellarconduit_core.Prelude.HashMap
use stellarconduit_core.Prelude.HashMap.{HashMap}

abbrev pub chunk_frame_header_size : ℕ
chunk_frame_header_size = 14

abbrev pub max_message_size_bytes : ℕ
max_message_size_bytes = 1048576

abbrev pub u32 : ℕ → ℕ
u32 n = n % 4294967296

abbrev pub u16 : ℕ → ℕ
u16 n = n % 65536

pub record ChunkFrame : Type 0 where
  pub message_id : ℕ
  pub total_length : ℕ
  pub offset : ℕ
  pub payload_size : ℕ
  pub payload : Bytes

-- The frame from `offset` to `end`.
abbrev pub frame : Bytes → ℕ → ℕ → ℕ → ChunkFrame
frame message id offset end = record {
  message_id = id;
  total_length = u32 (length message);
  offset = u32 offset;
  payload_size = u16 (end - offset);
  payload = take (end - offset) (drop offset message);
}

-- The `while` loop. A round advances by one byte at least, so the length of the message is fuel
-- enough.
unfoldable pub frames : ℕ → ℕ → Bytes → ℕ → ℕ → List ChunkFrame
frames zero capacity message id offset = []
frames (suc fuel) capacity message id offset =
    let end = min (offset + capacity) (length message) in
    let rest = frames fuel capacity message id end in
    if ltb offset (length message) then frame message id offset end ∷ rest else []

-- `id` is the random message id.
unfoldable pub chunk : ℕ → Bytes → ℕ → List ChunkFrame
unfolding frames
chunk mtu message id =
    if length message == 0
    then []
    else (if leb mtu chunk_frame_header_size
        then []
        else (if ltb max_message_size_bytes (length message)
            then []
            else (if min (mtu - chunk_frame_header_size) 65535 == 0
                then []
                else frames (length message) (min (mtu - chunk_frame_header_size) 65535) message id
                    0)))

pub record PartialMessageBuffer : Type 0 where
  pub total_length : ℕ
  pub data_bytes : Bytes
  pub received_map : List Bool
  pub received_bytes : ℕ
  pub last_updated : ℕ

pub record MessageReassembler : Type 0 where
  pub buffers : HashMap PartialMessageBuffer

unfoldable pub new : MessageReassembler
new = record { buffers = [] }

-- A message id as a key of the map.
abbrev pub key : ℕ → Bytes
key id = id ∷ []

abbrev pub falses : ℕ → List Bool
falses zero = []
falses (suc n) = false ∷ falses n

abbrev pub or_insert : Option PartialMessageBuffer → ℕ → ℕ → PartialMessageBuffer
or_insert (some b) total_length now = b
or_insert none total_length now = record {
  total_length = total_length;
  data_bytes = zeros total_length;
  received_map = falses total_length;
  received_bytes = 0;
  last_updated = now;
}

-- `xs[i] = x`, within the bounds.
unfoldable pub set_at : {A : Type 0} → ℕ → A → List A → List A
set_at i x [] = []
set_at zero x (y ∷ ys) = x ∷ ys
set_at (suc i) x (y ∷ ys) = y ∷ set_at i x ys

-- `map[i]`, within the bounds.
unfoldable pub is_set : ℕ → List Bool → Bool
is_set i [] = false
is_set zero (b ∷ bs) = b
is_set (suc i) (b ∷ bs) = is_set i bs

abbrev pub put : PartialMessageBuffer → ℕ → ℕ → PartialMessageBuffer
put b idx byte = record b {
  data_bytes = set_at idx byte b.data_bytes;
  received_map = set_at idx true b.received_map;
  received_bytes = if is_set idx b.received_map then b.received_bytes else b.received_bytes + 1;
}

-- The loop over the bytes of the payload.
unfoldable pub write : PartialMessageBuffer → ℕ → Bytes → PartialMessageBuffer
unfolding set_at is_set
write b idx [] = b
write b idx (byte ∷ bytes) = write (put b idx byte) (idx + 1) bytes

-- A buffer that took a chunk: the message if it is complete.
abbrev pub finish :
    MessageReassembler → ℕ → PartialMessageBuffer → MessageReassembler × Option Bytes
finish r id b =
    if b.received_bytes == b.total_length
    then (record { buffers = HashMap.remove (key id) r.buffers }, some b.data_bytes)
    else (record { buffers = HashMap.insert (key id) b r.buffers }, none)

abbrev pub is_valid : ChunkFrame → Bool
is_valid c = not (
    (c.total_length == 0)
    || ltb max_message_size_bytes c.total_length
    || not (c.payload_size == length c.payload)
    || leb (2 ^ 64) (c.offset + length c.payload)
    || leb c.total_length c.offset
    || ltb c.total_length (c.offset + length c.payload))

-- Where the lengths differ, the entry was there already.
unfoldable pub receive_chunk :
    MessageReassembler → ChunkFrame → ℕ → MessageReassembler × Option Bytes
unfolding write
receive_chunk r c now =
    if not (is_valid c)
    then (r, none)
    else let b = or_insert (HashMap.get (key c.message_id) r.buffers) c.total_length now in
      if b.total_length == c.total_length
      then finish r c.message_id (record (write b c.offset c.payload) { last_updated = now })
      else (r, none)

unfoldable pub cleanup_stale_buffers : MessageReassembler → ℕ → ℕ → MessageReassembler
cleanup_stale_buffers r timeout_ms now = record {
  buffers = retain (λ e. leb (now - e.1.last_updated) timeout_ms) r.buffers;
}

unfoldable pub in_flight_buffer_count : MessageReassembler → ℕ
in_flight_buffer_count r = length r.buffers
