-- ===== src/Witness/Wires.antt =====
-- The theorems on transports at concrete inputs.
use stellarconduit_core.Prelude.{
  ℕ, [], ◌∷◌, ◌++◌, Bytes, Option, none, some, ok, ◌≡◌, refl, arith, ◌↔◌, ◌==◌, if◌then◌else◌,
  to_le_bytes,
}
use stellarconduit_core.Prelude.HashMap
use stellarconduit_core.Message.{
  ProtocolMessage, transaction, topology_update, sync_request, sync_response, handshake,
}
use stellarconduit_core.Message.Encoding.{Encoding, EncodingLaws}
use stellarconduit_core.Peer.Identity
use stellarconduit_core.Peer.Identity.{PeerIdentity}
use stellarconduit_core.Transport.Chunks
use stellarconduit_core.Transport.Chunks.{ChunkFrame, MessageReassembler, frame, chunk}
use stellarconduit_core.Transport.Chunks.Steps.{buffer}
use stellarconduit_core.Transport.Wire.{encode_chunk, decode_chunk}
use stellarconduit_core.Transport.Wire.Codec.{IsFrame, decode_chunk_iff}
use stellarconduit_core.Transport.Wifi.{
  TcpStream, WifiDirectConnection, from_stream, send, recv, reconnect,
}
use stellarconduit_core.Transport.Wifi.Delivery.{sent, recv-send}
use stellarconduit_core.Transport.Wifi.Stream.{framed, wire}
use stellarconduit_core.Transport.Wifi.Reconnect.{Settles, reconnect-Settles}
use stellarconduit_core.Witness.{alice, bob}

abbrev small_frame : ChunkFrame
small_frame = frame (7 ∷ 8 ∷ 9 ∷ []) 5 0 2

decode_chunk_iff_example :
    (decode_chunk (5 ∷ 0 ∷ 0 ∷ 0 ∷ 3 ∷ 0 ∷ 0 ∷ 0 ∷ 0 ∷ 0 ∷ 0 ∷ 0 ∷ 2 ∷ 0 ∷ 7 ∷ 8 ∷ [])
      ≡ some small_frame)
    ↔ (IsFrame small_frame
        × (encode_chunk small_frame
            ≡ 5 ∷ 0 ∷ 0 ∷ 0 ∷ 3 ∷ 0 ∷ 0 ∷ 0 ∷ 0 ∷ 0 ∷ 0 ∷ 0 ∷ 2 ∷ 0 ∷ 7 ∷ 8 ∷ []))
decode_chunk_iff_example =
    decode_chunk_iff (5 ∷ 0 ∷ 0 ∷ 0 ∷ 3 ∷ 0 ∷ 0 ∷ 0 ∷ 0 ∷ 0 ∷ 0 ∷ 0 ∷ 2 ∷ 0 ∷ 7 ∷ 8 ∷ [])
      small_frame (omega arith)

-- An encoding that knows only handshakes.
abbrev pub greetings : Encoding
greetings = record { to_vec = to; from_slice = from }
  where
    to : ProtocolMessage → Option Bytes
    to (handshake k) = some (1 ∷ k)
    to (transaction e) = none
    to (topology_update u) = none
    to (sync_request q) = none
    to (sync_response q) = none

    from : Bytes → Option ProtocolMessage
    from [] = none
    from (b ∷ k) = some (handshake k)

pub greetings-EncodingLaws : EncodingLaws greetings
greetings-EncodingLaws = record { round = round }
  where
    round :
        (m : ProtocolMessage) (bytes : Bytes)
        → greetings.to_vec m ≡ some bytes
        → greetings.from_slice bytes ≡ some m
    round (handshake k) bytes h = ground (arith, h)
    round (transaction e) bytes h = absurd (ground (arith, h))
    round (topology_update u) bytes h = absurd (ground (arith, h))
    round (sync_request q) bytes h = absurd (ground (arith, h))
    round (sync_response q) bytes h = absurd (ground (arith, h))

abbrev idle_stream : TcpStream
idle_stream = record { incoming = []; outgoing = []; accepts = 1000 }

abbrev link : WifiDirectConnection
unfolding from_stream Chunks.new Identity.new
link = from_stream idle_stream (Identity.new bob)

-- What Bob's end finds on its stream, with two bytes of a later message.
abbrev arriving : TcpStream
arriving = record idle_stream {
  incoming = sent (send greetings link (handshake alice) 5).0 ++ 9 ∷ 9 ∷ [];
}

recv-send_example :
    ((send greetings link (handshake alice) 5).1 ≡ none)
    × ((r : MessageReassembler) × (recv greetings (λ n. n) (record link { stream = some arriving })
          ≡ some (
            record link {
              stream = some (record arriving { incoming = 9 ∷ 9 ∷ [] });
              reassembler = r;
            },
            ok (handshake alice),
          ))
        × (buffer r 5 ≡ none))
unfolding from_stream Chunks.new Identity.new chunk wire framed encode_chunk buffer HashMap.get
    to_le_bytes
recv-send_example =
    recv-send greetings (λ n. n) link (record link { stream = some arriving }) idle_stream arriving
      (handshake alice) (1 ∷ alice) 5 (9 ∷ 9 ∷ []) greetings-EncodingLaws refl refl refl refl
      (omega arith) (omega arith) (omega arith) (omega arith) refl refl refl refl

-- The third attempt of five opens the stream.
abbrev openings : ℕ → Option TcpStream
openings k = if k == 2 then some idle_stream else none

reconnect-Settles_example :
    Settles 5 100 openings
      (record link { addr = some bob })
      (reconnect openings (record link { addr = some bob }))
unfolding from_stream Chunks.new Identity.new
reconnect-Settles_example = reconnect-Settles openings (record link { addr = some bob }) bob refl
