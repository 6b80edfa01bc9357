-- ===== src/Transport/Wifi/Delivery.antt =====
-- src/transport/wifi_transport.rs: what `send` wrote, `recv` reads.
use stellarconduit_core.Prelude.{
  ℕ, suc, ◌≤◌, ◌<◌, [], ◌++◌, Bytes, true, none, some, ok, ◌≡◌, sym, ap, subst, ◌∙◌, arith, length,
}
use stellarconduit_core.Message.{ProtocolMessage}
use stellarconduit_core.Message.Encoding.{Encoding, EncodingLaws}
use stellarconduit_core.Transport.Chunks.{MessageReassembler, frames, chunk, max_message_size_bytes}
use stellarconduit_core.Transport.Chunks.Steps.{buffer, Pending}
use stellarconduit_core.Transport.Connection.{is_connected}
use stellarconduit_core.Transport.Wifi.{
  TcpStream, WifiDirectConnection, write_frames, recv, send, decoded, wifi_tcp_mtu,
}
use stellarconduit_core.Transport.Wifi.Stream.{wire, write_frames-room}
use stellarconduit_core.Transport.Wifi.InOrder.{Prefix, received}
use stellarconduit_core.Transport.Wifi.Rounds.{recv_loop-frames}

-- The bytes that a connection wrote.
abbrev pub sent : WifiDirectConnection → Bytes
sent c = elim c.stream [ none ↦ [] | some s ↦ s.outgoing ]

send-wire :
    (e : Encoding) (a : WifiDirectConnection) (out : TcpStream) (msg : ProtocolMessage)
    (bytes : Bytes) (id : ℕ)
    → is_connected a.state ≡ true
    → a.stream ≡ some out
    → e.to_vec msg ≡ some bytes
    → length (wire (chunk wifi_tcp_mtu bytes id)) ≤ out.accepts
    → ((send e a msg id).1 ≡ none)
      × (sent (send e a msg id).0 ≡ out.outgoing ++ wire (chunk wifi_tcp_mtu bytes id))
unfolding send
send-wire e a out msg bytes id on s t room =
    ground (arith, on, s, t, write_frames-room (chunk wifi_tcp_mtu bytes id) out room)

chunk-frames :
    (bytes : Bytes) (id : ℕ)
    → 0 < length bytes
    → length bytes ≤ max_message_size_bytes
    → chunk wifi_tcp_mtu bytes id ≡ frames (length bytes) 1434 bytes id 0
unfolding chunk
chunk-frames bytes id pos small = ground arith

recv-frames :
    (e : Encoding) (clock : ℕ → ℕ) (b : WifiDirectConnection) (inp : TcpStream) (bytes : Bytes)
    (id : ℕ) (rest : Bytes)
    → 0 < length bytes
    → length bytes ≤ max_message_size_bytes
    → id < 4294967296
    → is_connected b.state ≡ true
    → b.stream ≡ some inp
    → buffer b.reassembler id ≡ none
    → inp.incoming ≡ wire (chunk wifi_tcp_mtu bytes id) ++ rest
    → (r : MessageReassembler) × (recv e clock b
        ≡ some (
          record b { stream = some (record inp { incoming = rest }); reassembler = r },
          decoded (e.from_slice bytes),
        ))
      × (buffer r id ≡ none)
unfolding recv
recv-frames e clock b inp bytes id rest pos small range on s idle arrives =
    let start : Prefix bytes id 0 b.reassembler = record {
      pending = subst (Pending bytes) (sym idle) tt;
      reached = λ j h. absurd (omega arith);
      counted = subst (λ o. received o ≤ 0) (sym idle) (omega arith);
    } in
    let (r, loop, freed) =
      recv_loop-frames e clock bytes id 1434 small range (omega arith) (omega arith) (length bytes)
        0 (suc (length inp.incoming)) inp b.reassembler rest start pos (omega arith)
        (arrives ∙ ap (λ cs. wire cs ++ rest) (chunk-frames bytes id pos small)) (omega arith) in
    (r, ground (arith, on, s, loop), freed)

-- What a connection sends on a stream with room, another connection receives, whatever follows it on
-- the stream: the message as it was, after which the stream is at what follows and nothing of the
-- message is left in the reassembler. The encoded message is not empty and not too long.
pub recv-send :
    (e : Encoding) (clock : ℕ → ℕ) (a b : WifiDirectConnection) (out inp : TcpStream)
    (msg : ProtocolMessage) (bytes : Bytes) (id : ℕ) (rest : Bytes)
    → EncodingLaws e
    → is_connected a.state ≡ true
    → a.stream ≡ some out
    → out.outgoing ≡ []
    → e.to_vec msg ≡ some bytes
    → 0 < length bytes
    → length bytes ≤ max_message_size_bytes
    → id < 4294967296
    → length (wire (chunk wifi_tcp_mtu bytes id)) ≤ out.accepts
    → is_connected b.state ≡ true
    → b.stream ≡ some inp
    → buffer b.reassembler id ≡ none
    → inp.incoming ≡ sent (send e a msg id).0 ++ rest
    → ((send e a msg id).1 ≡ none)
      × ((r : MessageReassembler) × (recv e clock b
            ≡ some (
              record b { stream = some (record inp { incoming = rest }); reassembler = r },
              ok msg,
            ))
          × (buffer r id ≡ none))
recv-send e clock a b out inp msg bytes id rest laws on s fresh t pos small range room on' s' idle
      arrives =
    let (well, wrote) = send-wire e a out msg bytes id on s t room in
    let (r, got, freed) = recv-frames e clock b inp bytes id rest pos small range on' s' idle (
      arrives
      ∙ ap (λ w. w ++ rest) (wrote ∙ ap (λ o. o ++ wire (chunk wifi_tcp_mtu bytes id)) fresh)) in
    (well, (r, got ∙ (ground (arith, laws.round msg bytes t)), freed))

-- A message that is too long is answered as sent, and nothing of it is written.
pub send-too_long :
    (e : Encoding) (a : WifiDirectConnection) (out : TcpStream) (msg : ProtocolMessage)
    (bytes : Bytes) (id : ℕ)
    → is_connected a.state ≡ true
    → a.stream ≡ some out
    → e.to_vec msg ≡ some bytes
    → max_message_size_bytes < length bytes
    → ((send e a msg id).1 ≡ none) × (sent (send e a msg id).0 ≡ out.outgoing)
unfolding send chunk write_frames
send-too_long e a out msg bytes id on s t long = ground (arith, on, s, t)
