-- ===== src/Transport/Manager/Listeners/Arrivals.antt =====
-- src/transport/unified.rs and ble_transport.rs: from a central that connects to the connections of the
-- manager that listens.
use stellarconduit_core.Prelude.{
  ℕ, ◌≤◌, ◌<◌, List, [], ◌∷◌, ◌++◌, map, Bytes, false, none, some, ◌≡◌, refl, sym, ap, subst, ◌∙◌,
  arith, length,
}
use stellarconduit_core.Prelude.HashMap
use stellarconduit_core.Prelude.HashMap.{get-insert_self}
use stellarconduit_core.Message.{ProtocolMessage, handshake}
use stellarconduit_core.Message.Encoding.{Encoding, EncodingLaws}
use stellarconduit_core.Peer.Identity
use stellarconduit_core.Peer.Identity.{PeerIdentity}
use stellarconduit_core.Transport.Chunks.{frames, chunk, max_message_size_bytes}
use stellarconduit_core.Transport.Chunks.Steps.{buffer, Pending}
use stellarconduit_core.Transport.Wire.{encode_chunk}
use stellarconduit_core.Transport.Wifi.InOrder.{Prefix, received}
use stellarconduit_core.Transport.Ble.{
  BlePeripheral, BleCentral, peripheral, scan_and_connect, send, ble_att_mtu,
}
use stellarconduit_core.Transport.Connection.{not_connected}
use stellarconduit_core.Transport.Manager.{Links, Manager, register_inbound}
use stellarconduit_core.Transport.Manager.Calls.{register_all, process_ble_incoming}
use stellarconduit_core.Transport.Manager.Listeners.{Listener, conn_capacity, listen}
use stellarconduit_core.Transport.Manager.Listeners.Handshakes.{welcomed, listen-frames}

chunk-frames :
    (bytes : Bytes) (id : ℕ)
    → 0 < length bytes
    → length bytes ≤ max_message_size_bytes
    → chunk ble_att_mtu bytes id ≡ frames (length bytes) 230 bytes id 0
unfolding chunk
chunk-frames bytes id pos small = ground arith

scan_and_connect-frames :
    (e : Encoding) (c : BleCentral) (id : ℕ) (bytes : Bytes)
    → e.to_vec (handshake c.local_peer.pubkey) ≡ some bytes
    → 0 < length bytes
    → length bytes ≤ max_message_size_bytes
    → (scan_and_connect e c id).1 ≡ map encode_chunk (frames (length bytes) 230 bytes id 0)
unfolding scan_and_connect
scan_and_connect-frames e c id bytes t pos small =
    ground (arith, t) ∙ ap (map encode_chunk) (chunk-frames bytes id pos small)

module _ (l : Links) where
  open l use {Conn}

  -- Of the connections that are registered, the last of a peer stays.
  get-register_all :
      (entries : List (PeerIdentity × Conn)) (m : Manager l) (peer : PeerIdentity) (conn : Conn)
      → HashMap.get peer.pubkey (register_all l m (entries ++ (peer, conn) ∷ [])).active_connections
        ≡ some conn
  unfolding register_all register_inbound
  get-register_all [] m peer conn = get-insert_self peer.pubkey conn m.active_connections
  get-register_all ((p, c) ∷ entries) m peer conn =
      get-register_all entries (register_inbound l m p c) peer conn

  -- A manager whose channel has what a listener put there.
  abbrev pub listening : Manager l → Listener Conn → Manager l
  listening m s = record m { ble_conn_rx = some (record { queue = s.channel; is_closed = false }) }

  -- The writes of a central that connects, arriving in order at a listener with room below the maximum
  -- of peers, make the manager that takes the channel of the listener hold a connection to the key
  -- that the central introduced itself with. That connection is not in the state of being connected, and
  -- refuses every message.
  pub get-process_ble_incoming :
      (e : Encoding) (boxed : BlePeripheral → Conn) (c : BleCentral) (bytes : Bytes) (id : ℕ)
      (s : Listener Conn) (m : Manager l) (peer_count : ℕ) (clock : ℕ → ℕ)
      → EncodingLaws e
      → e.to_vec (handshake c.local_peer.pubkey) ≡ some bytes
      → 0 < length bytes
      → length bytes ≤ max_message_size_bytes
      → id < 4294967296
      → buffer s.reassembler id ≡ none
      → length s.channel < conn_capacity
      → peer_count < m.max_peers
      → (s' : Listener Conn) × (listen e boxed m.max_peers peer_count clock s
            (scan_and_connect e c id).1
          ≡ some s')
        × (HashMap.get c.local_peer.pubkey
              (process_ble_incoming l (listening m s')).active_connections
            ≡ some (boxed (peripheral (Identity.new c.local_peer.pubkey))))
        × ((msg : ProtocolMessage) (new_id : ℕ)
            → send e (peripheral (Identity.new c.local_peer.pubkey)).state msg new_id
              ≡ ([], some not_connected))
  unfolding process_ble_incoming Identity.new peripheral send
  get-process_ble_incoming e boxed c bytes id s m peer_count clock laws t pos small range idle room
        free =
      let k = c.local_peer.pubkey in
      let start : Prefix bytes id 0 s.reassembler = record {
        pending = subst (Pending bytes) (sym idle) tt;
        reached = λ j h. absurd (omega arith);
        counted = subst (λ o. received o ≤ 0) (sym idle) (omega arith);
      } in
      (
        welcomed e boxed m.max_peers peer_count clock free s k,
        ap (listen e boxed m.max_peers peer_count clock s)
              (scan_and_connect-frames e c id bytes t pos small)
            ∙ listen-frames e boxed m.max_peers peer_count clock free bytes k id 230 small range
                (omega arith) (omega arith) (ground (arith, laws.round (handshake k) bytes t))
                (length bytes) 0 s start pos (omega arith) room,
        get-register_all s.channel _ (Identity.new k) (boxed (peripheral (Identity.new k))),
        λ msg new_id. refl,
      )
