-- ===== src/Transport/Wire/Frames.antt =====
-- src/transport/unified.rs: the frames of the chunker one by one, each in the range of the wire.
use stellarconduit_core.Prelude.{
  ℕ, zero, suc, ◌+◌, ◌-◌, ◌≤◌, ◌<◌, [], ◌∷◌, Bytes, ◌≡◌, refl, arith, min, length,
}
use stellarconduit_core.Transport.Chunks.{frame, frames}
use stellarconduit_core.Transport.Chunks.Cover.{payload_length}
use stellarconduit_core.Transport.Wire.Codec.{IsFrame}

pub frame-IsFrame :
    (message : Bytes) (id offset end : ℕ)
    → id < 4294967296
    → end ≤ length message
    → end - offset ≤ 65535
    → IsFrame (frame message id offset end)
frame-IsFrame message id offset end small hi fits = record {
  id_range = small;
  total_range = omega arith;
  offset_range = omega arith;
  size_range = omega arith;
  sized = omega (arith, payload_length message offset end hi);
}

pub frames_end :
    (count capacity : ℕ) (message : Bytes) (id offset : ℕ)
    → length message ≤ offset
    → frames count capacity message id offset ≡ []
unfolding frames
frames_end zero capacity message id offset h = refl
frames_end (suc count) capacity message id offset h = ground arith

pub frames_more :
    (count capacity : ℕ) (message : Bytes) (id offset : ℕ)
    → offset < length message
    → frames (suc count) capacity message id offset
      ≡ frame message id offset (min (offset + capacity) (length message))
        ∷ frames count capacity message id (min (offset + capacity) (length message))
unfolding frames
frames_more count capacity message id offset h = ground arith
