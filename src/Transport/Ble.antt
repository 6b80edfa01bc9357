-- ===== src/Transport/Ble.antt =====
-- src/transport/ble_transport.rs: the two ends of a Bluetooth link. What the platform does (scanning,
-- advertising, the characteristics) is not in the source; the frames that it is to write are listed.
pub mod Inbox
pub mod Mac
use stellarconduit_core.Prelude.{
  ℕ, ◌+◌, ◌-◌, List, [], ◌∷◌, ◌++◌, map, Bytes, Bool, true, false, not, Option, none, some, Result,
  ok, err, if◌then◌else◌, ltb, leb, length, zeros,
}
use Prim.Native.Nat.{bit_and, bit_or}
use stellarconduit_core.Message.{ProtocolMessage, handshake}
use stellarconduit_core.Message.Encoding.{Encoding}
use stellarconduit_core.Peer.Identity
use stellarconduit_core.Peer.Identity.{PeerIdentity}
use stellarconduit_core.Transport.Chunks
use stellarconduit_core.Transport.Chunks.{MessageReassembler, chunk, receive_chunk}
use stellarconduit_core.Transport.Wire.{encode_chunk, decode_chunk}
use stellarconduit_core.Transport.Connection.{
  TransportError, not_connected, broken_pipe, ConnectionState, connected, disconnected,
  is_connected,
}

abbrev pub ble_att_mtu : ℕ
ble_att_mtu = 244

-- `RandomMacProvider::generate` of six random bytes.
unfoldable pub generate : Bytes → Bytes
generate [] = []
generate (b ∷ bs) = bit_and (bit_or b 2) 254 ∷ bs

-- The channel of an inbox holds 64 messages.
abbrev pub inbox_capacity : ℕ
inbox_capacity = 64

pub record BlePeripheral : Type 0 where
  pub state : ConnectionState
  pub remote_peer : PeerIdentity
  pub reassembler : MessageReassembler
  pub inbox : List Bytes

pub record BleCentral : Type 0 where
  pub state : ConnectionState
  pub remote_peer : PeerIdentity
  pub local_peer : PeerIdentity
  pub inbox : List Bytes
  pub current_mac : Bytes
  pub last_rotation : ℕ
  pub rotation_interval : ℕ

unfoldable pub peripheral : PeerIdentity → BlePeripheral
peripheral peer = record {
  state = disconnected;
  remote_peer = peer;
  reassembler = Chunks.new;
  inbox = [];
}

-- `BleCentral::new`, with the random bytes of the address and the clock.
unfoldable pub central : PeerIdentity → Bytes → ℕ → BleCentral
central peer mac now = record {
  state = disconnected;
  remote_peer = peer;
  local_peer = Identity.new (zeros 32);
  inbox = [];
  current_mac = generate mac;
  last_rotation = now;
  rotation_interval = 900000;
}

unfoldable pub with_local_peer : BleCentral → PeerIdentity → BleCentral
with_local_peer c local = record c { local_peer = local }

unfoldable pub start_advertising : BlePeripheral → BlePeripheral
start_advertising p = record p { state = connected }

-- What a raw frame does to the reassembler: an error, or a message that is complete.
abbrev pub take_in :
    MessageReassembler → Bytes → ℕ → MessageReassembler × Result (Option Bytes) TransportError
take_in r raw now = elim (decode_chunk raw) [
  | none ↦ (r, err broken_pipe)
  | some c ↦ let (r', out) = receive_chunk r c now in (r', ok out)
]

-- A send to the inbox: `none` where it is full and the sender waits.
abbrev pub enqueue : List Bytes → Option Bytes → Option (List Bytes)
enqueue inbox none = some inbox
enqueue inbox (some bytes) =
    if ltb (length inbox) inbox_capacity then some (inbox ++ bytes ∷ []) else none

unfoldable pub ingest_chunk_bytes :
    BlePeripheral → Bytes → ℕ → Option (BlePeripheral × Option TransportError)
ingest_chunk_bytes p raw now =
    let (r, out) = take_in p.reassembler raw now in
    elim out [
      | err e ↦ some (record p { reassembler = r }, some e)
      | ok complete ↦ elim (enqueue p.inbox complete) [
        | none ↦ none
        | some inbox ↦ some (record p { reassembler = r; inbox = inbox }, none)
      ]
    ]

-- The reassembler of a central is its caller's.
unfoldable pub ingest_notification_bytes :
    BleCentral
    → Bytes
    → MessageReassembler
    → ℕ
    → Option (BleCentral × MessageReassembler × Option TransportError)
ingest_notification_bytes c raw r now =
    let (r', out) = take_in r raw now in
    elim out [
      | err e ↦ some (c, r', some e)
      | ok complete ↦ elim (enqueue c.inbox complete) [
        | none ↦ none
        | some inbox ↦ some (record c { inbox = inbox }, r', none)
      ]
    ]

-- The frames for the platform, and the answer of `send`.
unfoldable pub send :
    Encoding → ConnectionState → ProtocolMessage → ℕ → List Bytes × Option TransportError
send e state msg id =
    if not (is_connected state) then ([], some not_connected) else elim (e.to_vec msg) [
      | none ↦ ([], some broken_pipe)
      | some bytes ↦ (map encode_chunk (chunk ble_att_mtu bytes id), none)
    ]

unfoldable pub scan_and_connect :
    Encoding → BleCentral → ℕ → BleCentral × List Bytes × Option TransportError
scan_and_connect e c id = elim (e.to_vec (handshake c.local_peer.pubkey)) [
  | none ↦ (record c { state = connected }, [], some broken_pipe)
  | some bytes ↦
      (record c { state = connected }, map encode_chunk (chunk ble_att_mtu bytes id), none)
]

abbrev decoded : Option ProtocolMessage → Result ProtocolMessage TransportError
decoded none = err broken_pipe
decoded (some m) = ok m

-- What `recv` takes from an inbox: `none` where it waits for a message.
abbrev pub take_out :
    Encoding → List Bytes → Option (List Bytes × Result ProtocolMessage TransportError)
take_out e [] = none
take_out e (bytes ∷ inbox) = some (inbox, decoded (e.from_slice bytes))

unfoldable pub recv :
    Encoding → BlePeripheral → Option (BlePeripheral × Result ProtocolMessage TransportError)
recv e p =
    if not (is_connected p.state) then some (p, err not_connected) else elim (take_out e p.inbox) [
      | none ↦ none
      | some (inbox, result) ↦ some (record p { inbox = inbox }, result)
    ]

unfoldable pub disconnect : BlePeripheral → BlePeripheral × Option TransportError
disconnect p = (record p { state = disconnected }, none)

-- `mac` is the address that the provider generates.
unfoldable pub rotate_mac_if_due : BleCentral → ℕ → Bytes → BleCentral × Option Bytes
rotate_mac_if_due c now mac =
    if leb c.rotation_interval (now - c.last_rotation)
    then (record c { current_mac = mac; last_rotation = now }, some mac)
    else (c, none)
