-- ===== src/Transport/Wire.antt =====
-- The bytes of a frame on a link: src/transport/ble_transport.rs (`encode_chunk`, `decode_chunk`) and
-- the same layout in src/transport/wifi_transport.rs. Four little-endian numbers and the payload.
pub mod Codec
pub mod Frames
use stellarconduit_core.Prelude.{
  Bytes, ◌++◌, Option, none, some, if◌then◌else◌, ltb, ◌==◌, length, take, drop, to_le_bytes,
  from_le_bytes,
}
use stellarconduit_core.Transport.Chunks.{ChunkFrame}

unfoldable pub encode_chunk : ChunkFrame → Bytes
encode_chunk c =
    to_le_bytes 4 c.message_id
    ++ (to_le_bytes 4 c.total_length
        ++ (to_le_bytes 4 c.offset ++ (to_le_bytes 2 c.payload_size ++ c.payload)))

-- The fields of 14 bytes or more: the slices 0..4, 4..8, 8..12, 12..14 and 14.. of the buffer.
unfoldable pub fields : Bytes → ChunkFrame
fields raw = record {
  message_id = from_le_bytes (take 4 raw);
  total_length = from_le_bytes (take 4 (drop 4 raw));
  offset = from_le_bytes (take 4 (drop 8 raw));
  payload_size = from_le_bytes (take 2 (drop 12 raw));
  payload = drop 14 raw;
}

unfoldable pub decode_chunk : Bytes → Option ChunkFrame
unfolding fields
decode_chunk raw =
    if ltb (length raw) 14
    then none
    else (if length (fields raw).payload == (fields raw).payload_size
        then some (fields raw)
        else none)
