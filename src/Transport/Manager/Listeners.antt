-- ===== src/Transport/Manager/Listeners.antt =====
-- src/transport/unified.rs: the tasks that listen for incoming connections, one event at a time. The
-- end of a task, by a shutdown or a closed channel, is no event, and neither is the advertising.
pub mod Handshakes
pub mod Arrivals
use stellarconduit_core.Prelude.{
  ℕ, zero, suc, List, [], ◌∷◌, ◌++◌, Bytes, Bool, true, false, Option, none, some, if◌then◌else◌,
  leb, ltb, length,
}
use stellarconduit_core.Message.{
  ProtocolMessage, transaction, topology_update, sync_request, sync_response, handshake,
}
use stellarconduit_core.Message.Encoding.{Encoding}
use stellarconduit_core.Peer.Identity
use stellarconduit_core.Peer.Identity.{PeerIdentity}
use stellarconduit_core.Transport.Chunks
use stellarconduit_core.Transport.Chunks.{MessageReassembler, receive_chunk}
use stellarconduit_core.Transport.Wire.{decode_chunk}
use stellarconduit_core.Transport.Wifi.{TcpStream, WifiDirectConnection, from_stream}
use stellarconduit_core.Transport.Ble.{BlePeripheral, peripheral}
use stellarconduit_core.Transport.Manager.{Links, Manager}

-- The channel of connections holds 64.
abbrev pub conn_capacity : ℕ
conn_capacity = 64

-- A stream that was accepted, with the random key of its placeholder: the connections that are
-- delivered then.
unfoldable pub on_accept :
    ℕ
    → ℕ
    → Bytes
    → TcpStream
    → List (PeerIdentity × WifiDirectConnection)
    → List (PeerIdentity × WifiDirectConnection)
on_accept max_peers peer_count key stream delivered =
    if leb max_peers peer_count
    then delivered
    else delivered ++ (Identity.new key, from_stream stream (Identity.new key)) ∷ []

-- The Bluetooth task: its reassembler, and what stands in the channel.
pub record Listener (Conn : Type 0) : Type 0 where
  pub reassembler : MessageReassembler
  pub channel : List (PeerIdentity × Conn)

-- The key of the first message, if it is a handshake.
abbrev pub greeted : Option ProtocolMessage → Option Bytes
greeted none = none
greeted (some (handshake pubkey)) = some pubkey
greeted (some (transaction e)) = none
greeted (some (topology_update u)) = none
greeted (some (sync_request q)) = none
greeted (some (sync_response q)) = none

module _ {Conn : Type 0} (e : Encoding) (boxed : BlePeripheral → Conn) where
  -- A complete message: `none` where the channel is full and the task waits.
  unfoldable pub on_message : Listener Conn → Bytes → Option (Listener Conn)
  on_message s complete = elim (greeted (e.from_slice complete)) [
    | none ↦ some (record s { reassembler = Chunks.new })
    | some pubkey ↦
        let central_peer = Identity.new pubkey in
        if ltb (length s.channel) conn_capacity
        then some (record {
          reassembler = Chunks.new;
          channel = s.channel ++ (central_peer, boxed (peripheral central_peer)) ∷ [];
        })
        else none
  ]

  unfoldable pub on_data : ℕ → ℕ → Listener Conn → Bytes → ℕ → Option (Listener Conn)
  on_data max_peers peer_count s bytes now =
      if leb max_peers peer_count then some s else elim (decode_chunk bytes) [
        | none ↦ some s
        | some frame ↦
            let (r, out) = receive_chunk s.reassembler frame now in
            elim out [
              | none ↦ some (record s { reassembler = r })
              | some complete ↦ on_message (record s { reassembler = r }) complete
            ]
      ]

  -- Writes of which each comes at its instant, by the writes that are left.
  unfoldable pub listen : ℕ → ℕ → (ℕ → ℕ) → Listener Conn → List Bytes → Option (Listener Conn)
  listen max_peers peer_count clock s [] = some s
  listen max_peers peer_count clock s (bytes ∷ writes) =
      elim (on_data max_peers peer_count s bytes (clock (length writes))) [
        | none ↦ none
        | some s' ↦ listen max_peers peer_count clock s' writes
      ]

-- The channel that `start_ble_listener` leaves with the manager.
unfoldable pub start_ble_listener : (l : Links) → Manager l → Manager l × Listener l.Conn
start_ble_listener l m = (
  record m { ble_conn_rx = some (record { queue = []; is_closed = false }) },
  record { reassembler = Chunks.new; channel = [] },
)
