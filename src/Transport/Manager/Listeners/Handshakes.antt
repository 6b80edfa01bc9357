-- ===== src/Transport/Manager/Listeners/Handshakes.antt =====
-- src/transport/unified.rs: a central that connects is registered by the manager that listens.
use stellarconduit_core.Prelude.{
  ℕ, zero, suc, ◌+◌, ◌≤◌, ◌<◌, List, [], ◌∷◌, ◌++◌, map, Bytes, none, some, ◌≡◌, refl, ap, ◌∙◌,
  arith, ltb, min, length, inl, inr, Bool-cases,
}
use stellarconduit_core.Message.Encoding.{Encoding}
use stellarconduit_core.Peer.Identity
use stellarconduit_core.Peer.Identity.{PeerIdentity}
use stellarconduit_core.Transport.Chunks
use stellarconduit_core.Transport.Chunks.{
  ChunkFrame, MessageReassembler, frame, frames, chunk, receive_chunk, max_message_size_bytes,
}
use stellarconduit_core.Transport.Wire.{encode_chunk}
use stellarconduit_core.Transport.Wire.Frames.{frame-IsFrame, frames_end, frames_more}
use stellarconduit_core.Transport.Wire.Codec.{IsFrame, decode_chunk-encode_chunk}
use stellarconduit_core.Transport.Wifi.InOrder.{Prefix, receive_chunk-Prefix, receive_chunk-last}
use stellarconduit_core.Transport.Ble.{BlePeripheral, peripheral}
use stellarconduit_core.Transport.Manager.Listeners.{
  Listener, greeted, conn_capacity, on_message, on_data, listen,
}

module _ {Conn : Type 0} (e : Encoding) (boxed : BlePeripheral → Conn) (max_peers peer_count : ℕ)
    (clock : ℕ → ℕ) (free : peer_count < max_peers) where
  on_data-more :
      (s : Listener Conn) (c : ChunkFrame) (now : ℕ)
      → IsFrame c
      → (receive_chunk s.reassembler c now).1 ≡ none
      → on_data e boxed max_peers peer_count s (encode_chunk c) now
        ≡ some (record s { reassembler = (receive_chunk s.reassembler c now).0 })
  unfolding on_data
  on_data-more s c now f silent = ground (arith, free, decode_chunk-encode_chunk c f, silent)

  on_data-last :
      (s : Listener Conn) (c : ChunkFrame) (now : ℕ) (complete : Bytes)
      → IsFrame c
      → (receive_chunk s.reassembler c now).1 ≡ some complete
      → on_data e boxed max_peers peer_count s (encode_chunk c) now
        ≡ on_message e boxed
            (record s { reassembler = (receive_chunk s.reassembler c now).0 })
            complete
  unfolding on_data
  on_data-last s c now complete f out = ground (arith, free, decode_chunk-encode_chunk c f, out)

  listen-cons :
      (s s' : Listener Conn) (bytes : Bytes) (writes : List Bytes)
      → on_data e boxed max_peers peer_count s bytes (clock (length writes)) ≡ some s'
      → listen e boxed max_peers peer_count clock s (bytes ∷ writes)
        ≡ listen e boxed max_peers peer_count clock s' writes
  unfolding listen
  listen-cons s s' bytes writes h = ground (arith, h)

  listen-nil : (s : Listener Conn) → listen e boxed max_peers peer_count clock s [] ≡ some s
  unfolding listen
  listen-nil s = refl

  -- The listener after a central introduced itself.
  abbrev pub welcomed : Listener Conn → Bytes → Listener Conn
  welcomed s pubkey = record {
    reassembler = Chunks.new;
    channel = s.channel ++ (Identity.new pubkey, boxed (peripheral (Identity.new pubkey))) ∷ [];
  }

  on_message-welcomed :
      (s : Listener Conn) (r : MessageReassembler) (complete pubkey : Bytes)
      → greeted (e.from_slice complete) ≡ some pubkey
      → length s.channel < conn_capacity
      → on_message e boxed (record s { reassembler = r }) complete ≡ some (welcomed s pubkey)
  unfolding on_message
  on_message-welcomed s r complete pubkey h room = ground (arith, h, room)

  module _ (message pubkey : Bytes) (id capacity : ℕ) (small : length message ≤ 1048576)
      (id_range : id < 4294967296) (pos : 0 < capacity) (fits : capacity ≤ 65535)
      (greets : greeted (e.from_slice message) ≡ some pubkey) where
    pub listen-frames :
        (count offset : ℕ) (s : Listener Conn)
        → Prefix message id offset s.reassembler
        → offset < length message
        → length message ≤ offset + count
        → length s.channel < conn_capacity
        → listen e boxed max_peers peer_count clock s
            (map encode_chunk (frames count capacity message id offset))
          ≡ some (welcomed s pubkey)
    listen-frames zero offset s p lo enough room = absurd (omega arith)
    listen-frames (suc count) offset s p lo enough room =
        let end = min (offset + capacity) (length message) in
        let c = frame message id offset end in
        let later = map encode_chunk (frames count capacity message id end) in
        let now = clock (length later) in
        let r = (receive_chunk s.reassembler c now).0 in
        let f = frame-IsFrame message id offset end id_range (omega arith) (omega arith) in
        let split =
          ap (λ cs. listen e boxed max_peers peer_count clock s (map encode_chunk cs))
            (frames_more count capacity message id offset lo) in
        elim (Bool-cases (ltb end (length message))) [
          | inl more ↦
              let (p', silent) =
                receive_chunk-Prefix message id small offset end now s.reassembler p (omega arith)
                  (omega arith) (omega arith) (ground arith) in
              split
              ∙ listen-cons s (record s { reassembler = r }) (encode_chunk c) later
                  (on_data-more s c now f silent)
              ∙ listen-frames count end (record s { reassembler = r }) p' (ground arith)
                  (omega arith) room
          | inr last ↦
              let at_end : end ≡ length message = ground arith in
              let (freed, out) =
                receive_chunk-last message id small offset end now s.reassembler p (omega arith)
                  (omega arith) (omega arith) at_end in
              split
              ∙ listen-cons s (welcomed s pubkey) (encode_chunk c) later (
                  on_data-last s c now message f out
                  ∙ on_message-welcomed s r message pubkey greets room)
              ∙ ap
                  (λ cs.
                    listen e boxed max_peers peer_count clock (welcomed s pubkey)
                      (map encode_chunk cs))
                  (frames_end count capacity message id end (omega (arith, at_end)))
              ∙ listen-nil (welcomed s pubkey)
        ]
