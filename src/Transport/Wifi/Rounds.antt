-- ===== src/Transport/Wifi/Rounds.antt =====
-- src/transport/wifi_transport.rs: the rounds of the loop that receives a message.
use stellarconduit_core.Prelude.{
  ℕ, zero, suc, ◌+◌, ◌-◌, ◌≤◌, ◌<◌, List, ◌∷◌, ◌++◌, Bytes, none, some, ok, ◌≡◌, refl, ap, subst,
  ◌∙◌, arith, append_assoc, ltb, min, length, inl, inr, Bool-cases, length-append,
}
use stellarconduit_core.Message.Encoding.{Encoding}
use stellarconduit_core.Transport.Chunks.{
  ChunkFrame, MessageReassembler, frame, frames, receive_chunk,
}
use stellarconduit_core.Transport.Chunks.Cover.{payload_length}
use stellarconduit_core.Transport.Chunks.Steps.{buffer}
use stellarconduit_core.Transport.Wire.{encode_chunk}
use stellarconduit_core.Transport.Wire.Frames.{frame-IsFrame, frames_end, frames_more}
use stellarconduit_core.Transport.Wire.Codec.{IsFrame, fields-encode_chunk, length-encode_chunk}
use stellarconduit_core.Transport.Wifi.{TcpStream, read_frame, recv_loop, decoded}
use stellarconduit_core.Transport.Wifi.Stream.{framed, wire, length-framed, read_frame-framed}
use stellarconduit_core.Transport.Wifi.InOrder.{Prefix, receive_chunk-Prefix, receive_chunk-last}

wire-cons :
    (c : ChunkFrame) (cs : List ChunkFrame) (rest : Bytes)
    → wire (c ∷ cs) ++ rest ≡ framed c ++ (wire cs ++ rest)
unfolding wire
wire-cons c cs rest = append_assoc (framed c) (wire cs) rest

module _ (e : Encoding) (clock : ℕ → ℕ) where
  -- A round of the loop that reads a frame.
  module _ (fuel : ℕ) (s s' : TcpStream) (r : MessageReassembler) (c : ChunkFrame) (f : IsFrame c)
      (read : read_frame s ≡ (s', ok (encode_chunk c))) where
    recv_loop-more :
        (receive_chunk r c (clock fuel)).1 ≡ none
        → recv_loop (suc fuel) e clock s r
          ≡ recv_loop fuel e clock s' (receive_chunk r c (clock fuel)).0
    unfolding recv_loop
    recv_loop-more h = ground (arith, read, h, fields-encode_chunk c f, length-encode_chunk c)

    recv_loop-done :
        (bytes : Bytes)
        → (receive_chunk r c (clock fuel)).1 ≡ some bytes
        → recv_loop (suc fuel) e clock s r
          ≡ some (record {
            stream = s';
            reassembler = (receive_chunk r c (clock fuel)).0;
            result = decoded (e.from_slice bytes);
          })
    unfolding recv_loop
    recv_loop-done bytes h = ground (arith, read, h, fields-encode_chunk c f, length-encode_chunk c)

  module _ (message : Bytes) (id capacity : ℕ) (small : length message ≤ 1048576)
      (id_range : id < 4294967296) (pos : 0 < capacity) (fits : capacity ≤ 65535) where
    payload_small :
        (offset end : ℕ)
        → end ≤ length message
        → end - offset ≤ 65535
        → length (frame message id offset end).payload < 65536
    payload_small offset end hi low = omega (arith, payload_length message offset end hi)

    -- The loop ends with the message, its buffer is freed, and what follows is left on the stream.
    abbrev pub Delivers : ℕ → TcpStream → MessageReassembler → Bytes → Type 0
    Delivers fuel s r rest =
        (r' : MessageReassembler) × (recv_loop fuel e clock s r
          ≡ some (record {
            stream = record s { incoming = rest };
            reassembler = r';
            result = decoded (e.from_slice message);
          }))
        × (buffer r' id ≡ none)

    pub recv_loop-frames :
        (count offset fuel : ℕ) (s : TcpStream) (r : MessageReassembler) (rest : Bytes)
        → Prefix message id offset r
        → offset < length message
        → length message ≤ offset + count
        → s.incoming ≡ wire (frames count capacity message id offset) ++ rest
        → length s.incoming < fuel
        → Delivers fuel s r rest
    unfolding wire
    recv_loop-frames zero offset fuel s r rest p lo enough e' h = absurd (omega arith)
    recv_loop-frames (suc count) offset zero s r rest p lo enough e' h = absurd (omega arith)
    recv_loop-frames (suc count) offset (suc fuel) s r rest p lo enough e' h =
        let end = min (offset + capacity) (length message) in
        let c = frame message id offset end in
        let later = frames count capacity message id end in
        let s' : TcpStream = record s { incoming = wire later ++ rest } in
        let f = frame-IsFrame message id offset end id_range (omega arith) (omega arith) in
        let split =
          e'
          ∙ ap (λ cs. wire cs ++ rest) (frames_more count capacity message id offset lo)
          ∙ wire-cons c later rest in
        let read =
          read_frame-framed s c (wire later ++ rest)
            (payload_small offset end (omega arith) (omega arith)) split in
        elim (Bool-cases (ltb end (length message))) [
          | inl more ↦
              let (p', silent) =
                receive_chunk-Prefix message id small offset end (clock fuel) r p (omega arith)
                  (omega arith) (omega arith) (ground arith) in
              let (r', loop, freed) =
                recv_loop-frames count end fuel s' (receive_chunk r c (clock fuel)).0 rest p'
                  (ground arith) (omega arith) refl
                  (omega (
                    arith,
                    h,
                    ap length split,
                    length-append (framed c) (wire later ++ rest),
                    length-framed c,
                  )) in
              (r', recv_loop-more fuel s s' r c f read silent ∙ loop, freed)
          | inr last ↦
              let at_end : end ≡ length message = ground arith in
              let (freed, out) =
                receive_chunk-last message id small offset end (clock fuel) r p (omega arith)
                  (omega arith) (omega arith) at_end in
              let left : wire later ++ rest ≡ rest =
                ap (λ cs. wire cs ++ rest)
                  (frames_end count capacity message id end (omega (arith, at_end))) in
              (
                (receive_chunk r c (clock fuel)).0,
                subst
                    (λ (i : Bytes).
                      recv_loop (suc fuel) e clock s r
                      ≡ some (record {
                        stream = record s { incoming = i };
                        reassembler = (receive_chunk r c (clock fuel)).0;
                        result = decoded (e.from_slice message);
                      }))
                    left (recv_loop-done fuel s s' r c f read message out),
                freed,
              )
        ]
