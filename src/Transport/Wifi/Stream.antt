-- ===== src/Transport/Wifi/Stream.antt =====
-- src/transport/wifi_transport.rs: what frames become on the stream, and how they are read back.
use stellarconduit_core.Prelude.{
  ℕ, ◌+◌, ◌-◌, ◌≤◌, ◌<◌, List, [], ◌∷◌, ◌++◌, Bytes, true, none, some, ok, ◌≡◌, refl, ◌∙◌, arith,
  append_assoc, append-nil, length, length-append, take-append, drop-append, to_le_bytes,
  from_le_bytes,
}
use stellarconduit_core.Transport.Chunks.{ChunkFrame, u32}
use stellarconduit_core.Transport.Wire.{encode_chunk}
use stellarconduit_core.Transport.Wire.Codec.{length-encode_chunk}
use stellarconduit_core.Transport.Wifi.{
  TcpStream, write_all, read_exact, write_frame, write_frames, read_frame,
}

-- A frame on the stream: its length, then its bytes.
unfoldable pub framed : ChunkFrame → Bytes
framed c = to_le_bytes 4 (u32 (length (encode_chunk c))) ++ encode_chunk c

unfoldable pub wire : List ChunkFrame → Bytes
wire [] = []
wire (c ∷ cs) = framed c ++ wire cs

pub length-framed : (c : ChunkFrame) → length (framed c) ≡ 18 + length c.payload
unfolding framed to_le_bytes
length-framed c = omega (arith, length-encode_chunk c)

write_all-room :
    (s : TcpStream) (bytes : Bytes)
    → length bytes ≤ s.accepts
    → write_all s bytes
      ≡ (record s { outgoing = s.outgoing ++ bytes; accepts = s.accepts - length bytes }, true)
unfolding write_all
write_all-room s bytes h = ground arith

write_frame-room :
    (s : TcpStream) (c : ChunkFrame)
    → length (framed c) ≤ s.accepts
    → write_frame s (encode_chunk c) ≡ (
      record s { outgoing = s.outgoing ++ framed c; accepts = s.accepts - length (framed c) },
      none,
    )
unfolding write_frame framed to_le_bytes
write_frame-room s c h =
    let prefix = to_le_bytes 4 (u32 (length (encode_chunk c))) in
    let prefixed : TcpStream = record s {
      outgoing = s.outgoing ++ prefix;
      accepts = s.accepts - 4;
    } in
    rw
      (
        write_all-room s prefix (omega (arith, length-encode_chunk c)),
        write_all-room prefixed (encode_chunk c) (omega (arith, length-encode_chunk c)),
      )
      (ground (arith, append_assoc s.outgoing prefix (encode_chunk c), length-encode_chunk c))

four : (x : ℕ) → x < 65550 → from_le_bytes (to_le_bytes 4 (u32 x)) ≡ x
unfolding to_le_bytes from_le_bytes
four x h = omega arith

read_exact-append :
    (s : TcpStream) (xs ys : Bytes)
    → s.incoming ≡ xs ++ ys
    → read_exact s (length xs) ≡ (record s { incoming = ys }, some xs)
unfolding read_exact
read_exact-append s xs ys e =
    ground (arith, e, take-append xs ys, drop-append xs ys, length-append xs ys)

-- A frame with a payload of 16 bits is read back, and what follows it is left.
pub read_frame-framed :
    (s : TcpStream) (c : ChunkFrame) (rest : Bytes)
    → length c.payload < 65536
    → s.incoming ≡ framed c ++ rest
    → read_frame s ≡ (record s { incoming = rest }, ok (encode_chunk c))
unfolding read_frame framed read_exact encode_chunk to_le_bytes
read_frame-framed s c rest h e =
    let size = length (encode_chunk c) in
    let prefix = to_le_bytes 4 (u32 size) in
    let bound : size < 65550 = omega (arith, length-encode_chunk c) in
    let read : from_le_bytes prefix ≡ size = four size bound in
    let s' : TcpStream = record s { incoming = encode_chunk c ++ rest } in
    rw
      (
        read_exact-append s prefix (encode_chunk c ++ rest)
            (e ∙ append_assoc prefix (encode_chunk c) rest),
        read,
        read_exact-append s' (encode_chunk c) rest refl,
      )
      (ground (arith, length-encode_chunk c))

write_frames-cons :
    (s s' : TcpStream) (c : ChunkFrame) (cs : List ChunkFrame)
    → write_frame s (encode_chunk c) ≡ (s', none)
    → write_frames s (c ∷ cs) ≡ write_frames s' cs
unfolding write_frames
write_frames-cons s s' c cs e = ground (arith, e)

-- A stream with room takes all frames.
pub write_frames-room :
    (cs : List ChunkFrame) (s : TcpStream)
    → length (wire cs) ≤ s.accepts
    → write_frames s cs ≡ (
      record s { outgoing = s.outgoing ++ wire cs; accepts = s.accepts - length (wire cs) },
      none,
    )
unfolding write_frames wire
write_frames-room [] s h = ground (arith, append-nil s.outgoing)
write_frames-room (c ∷ cs) s h =
    let size = length (framed c) in
    let s' : TcpStream = record s {
      outgoing = s.outgoing ++ framed c;
      accepts = s.accepts - size;
    } in
    let parts = length-append (framed c) (wire cs) in
    write_frames-cons s s' c cs (write_frame-room s c (omega (arith, parts)))
    ∙ write_frames-room cs s' (omega (arith, parts))
    ∙ (ground (arith, append_assoc s.outgoing (framed c) (wire cs), parts))
