-- ===== src/Transport/Wifi.antt =====
-- src/transport/wifi_transport.rs: messages over a TCP stream. A stream is what is left to read, what
-- was written, and how many bytes it still takes before a write fails.
pub mod Stream
pub mod InOrder
pub mod Rounds
pub mod Delivery
pub mod Reconnect
use stellarconduit_core.Prelude.{
  ℕ, zero, suc, ◌+◌, ◌-◌, ◌*◌, List, [], ◌∷◌, ◌++◌, Bytes, Bool, true, false, not, ◌||◌, Option,
  none, some, Result, ok, err, if◌then◌else◌, ltb, leb, ◌==◌, length, take, drop, to_le_bytes,
  from_le_bytes,
}
use stellarconduit_core.Message.{ProtocolMessage}
use stellarconduit_core.Message.Encoding.{Encoding}
use stellarconduit_core.Peer.Identity.{PeerIdentity}
use stellarconduit_core.Transport.Chunks
use stellarconduit_core.Transport.Chunks.{ChunkFrame, MessageReassembler, u32, chunk, receive_chunk}
use stellarconduit_core.Transport.Wire.{encode_chunk, fields}
use stellarconduit_core.Transport.Connection.{
  TransportError, not_connected, connection_refused, broken_pipe, payload_too_large,
  ConnectionState, connected, disconnected, is_connected,
}

abbrev pub wifi_tcp_mtu : ℕ
wifi_tcp_mtu = 1448

abbrev pub reconnect_base_delay_ms : ℕ
reconnect_base_delay_ms = 100

abbrev pub max_reconnect_attempts : ℕ
max_reconnect_attempts = 5

pub record TcpStream : Type 0 where
  pub incoming : Bytes
  pub outgoing : Bytes
  pub accepts : ℕ

pub record WifiDirectConnection : Type 0 where
  pub remote_peer : PeerIdentity
  pub state : ConnectionState
  pub stream : Option TcpStream
  pub addr : Option Bytes
  pub reassembler : MessageReassembler

-- `connect_to`, where `answer` is the stream that `TcpStream::connect` opens.
unfoldable pub connect_to :
    PeerIdentity → Bytes → Option TcpStream → Result WifiDirectConnection TransportError
connect_to peer addr answer = elim answer [
  | none ↦ err connection_refused
  | some stream ↦ ok (record {
    remote_peer = peer;
    state = connected;
    stream = some stream;
    addr = some addr;
    reassembler = Chunks.new;
  })
]

unfoldable pub from_stream : TcpStream → PeerIdentity → WifiDirectConnection
from_stream stream peer = record {
  remote_peer = peer;
  state = connected;
  stream = some stream;
  addr = none;
  reassembler = Chunks.new;
}

-- `write_all`: the flag is false where the stream breaks, after the bytes that it took.
unfoldable pub write_all : TcpStream → Bytes → TcpStream × Bool
write_all s bytes =
    if leb (length bytes) s.accepts
    then (record s { outgoing = s.outgoing ++ bytes; accepts = s.accepts - length bytes }, true)
    else (record s { outgoing = s.outgoing ++ take s.accepts bytes; accepts = 0 }, false)

-- `read_exact`: nothing where the stream ends before.
unfoldable pub read_exact : TcpStream → ℕ → TcpStream × Option Bytes
read_exact s n =
    if leb n (length s.incoming)
    then (record s { incoming = drop n s.incoming }, some (take n s.incoming))
    else (record s { incoming = [] }, none)

unfoldable pub write_frame : TcpStream → Bytes → TcpStream × Option TransportError
write_frame s bytes =
    let (s', prefixed) = write_all s (to_le_bytes 4 (u32 (length bytes))) in
    if prefixed
    then (let (s'', written) = write_all s' bytes in
        (s'', if written then none else some broken_pipe))
    else (s', some broken_pipe)

abbrev body : TcpStream × Option Bytes → TcpStream × Result Bytes TransportError
body (s, none) = (s, err broken_pipe)
body (s, some bytes) = (s, ok bytes)

-- What follows the length of a frame.
abbrev pub read_body : TcpStream × Option Bytes → TcpStream × Result Bytes TransportError
read_body (s, none) = (s, err broken_pipe)
read_body (s, some prefix) =
    let n = from_le_bytes prefix in
    if n == 0 || ltb 4194304 n then (s, err payload_too_large) else body (read_exact s n)

unfoldable pub read_frame : TcpStream → TcpStream × Result Bytes TransportError
read_frame s = read_body (read_exact s 4)

-- The loop of `send` over the frames.
unfoldable pub write_frames : TcpStream → List ChunkFrame → TcpStream × Option TransportError
write_frames s [] = (s, none)
write_frames s (f ∷ fs) =
    let (s', refused) = write_frame s (encode_chunk f) in
    elim refused [ none ↦ write_frames s' fs | some e ↦ (s', some e) ]

-- `id` is the random id of the message.
unfoldable pub send :
    Encoding
    → WifiDirectConnection
    → ProtocolMessage
    → ℕ
    → WifiDirectConnection × Option TransportError
send e c msg id =
    if not (is_connected c.state) then (c, some not_connected) else elim (e.to_vec msg) [
      | none ↦ (c, some broken_pipe)
      | some bytes ↦ elim c.stream [
        | none ↦ (c, some not_connected)
        | some s ↦
            let (s', refused) = write_frames s (chunk wifi_tcp_mtu bytes id) in
            (record c { stream = some s' }, refused)
      ]
    ]

abbrev pub decoded : Option ProtocolMessage → Result ProtocolMessage TransportError
decoded none = err broken_pipe
decoded (some m) = ok m

-- The stream and the reassembler after a call of `recv`, and its result.
pub record Received : Type 0 where
  pub stream : TcpStream
  pub reassembler : MessageReassembler
  pub result : Result ProtocolMessage TransportError

-- The loop of `recv`: `none` is no result of the source, the fuel ran out. `clock` gives the instant
-- of a round by the rounds that are left.
unfoldable pub recv_loop : ℕ → Encoding → (ℕ → ℕ) → TcpStream → MessageReassembler → Option Received
recv_loop zero e clock s r = none
recv_loop (suc fuel) e clock s r =
    let (s', frame) = read_frame s in
    elim frame [
      | err x ↦ some (record { stream = s'; reassembler = r; result = err x })
      | ok raw ↦
          if ltb (length raw) 14
          then some (record { stream = s'; reassembler = r; result = err broken_pipe })
          else let (r', out) = receive_chunk r (fields raw) (clock fuel) in
            elim out [
              | none ↦ recv_loop fuel e clock s' r'
              | some bytes ↦
                  some (record {
                    stream = s';
                    reassembler = r';
                    result = decoded (e.from_slice bytes);
                  })
            ]
    ]

-- A round reads four bytes at least, so the bytes that are left are fuel enough.
unfoldable pub recv :
    Encoding
    → (ℕ → ℕ)
    → WifiDirectConnection
    → Option (WifiDirectConnection × Result ProtocolMessage TransportError)
recv e clock c = if not (is_connected c.state) then some (c, err not_connected) else elim c.stream [
  | none ↦ some (c, err not_connected)
  | some s ↦ elim (recv_loop (suc (length s.incoming)) e clock s c.reassembler) [
    | none ↦ none
    | some x ↦ some (record c { stream = some x.stream; reassembler = x.reassembler }, x.result)
  ]
]

unfoldable pub disconnect : WifiDirectConnection → WifiDirectConnection × Option TransportError
disconnect c = (record c { stream = none; state = disconnected }, none)

-- The attempts that are left, each after a pause that doubles; `connects` answers each by the number
-- left. The pauses are listed.
unfoldable pub attempts :
    ℕ
    → ℕ
    → (ℕ → Option TcpStream)
    → WifiDirectConnection
    → (WifiDirectConnection × Option TransportError) × List ℕ
attempts zero delay connects c = ((record c { state = disconnected }, some connection_refused), [])
attempts (suc left) delay connects c = elim (connects left) [
  | some s ↦ ((record c { stream = some s; state = connected }, none), delay ∷ [])
  | none ↦ let (r, pauses) = attempts left (delay * 2) connects c in (r, delay ∷ pauses)
]

unfoldable pub reconnect :
    (ℕ → Option TcpStream)
    → WifiDirectConnection
    → (WifiDirectConnection × Option TransportError) × List ℕ
reconnect connects c = elim c.addr [
  | none ↦ ((c, some not_connected), [])
  | some addr ↦ attempts max_reconnect_attempts reconnect_base_delay_ms connects c
]

unfoldable pub connect :
    (ℕ → Option TcpStream)
    → WifiDirectConnection
    → (WifiDirectConnection × Option TransportError) × List ℕ
connect connects c = if is_connected c.state then ((c, none), []) else reconnect connects c
