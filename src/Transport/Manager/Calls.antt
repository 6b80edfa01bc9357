-- ===== src/Transport/Manager/Calls.antt =====
-- src/transport/unified.rs: the calls of the connection manager that follow its power state.
use stellarconduit_core.Prelude.{
  ℕ, ◌+◌, List, [], ◌∷◌, ◌++◌, Bytes, Bool, true, false, not, ◌&&◌, Option, none, some, Result, ok,
  err, if◌then◌else◌, retain,
}
use stellarconduit_core.Prelude.HashMap
use stellarconduit_core.Message.{ProtocolMessage, TopologyFlag, mac_rotated}
use stellarconduit_core.Peer.Identity.{PeerIdentity}
use stellarconduit_core.Power
use stellarconduit_core.Power.{
  PowerManager, PowerDecision, is_high, tick, record_incoming_transaction,
  record_outbound_transaction,
}
use stellarconduit_core.Transport.Ble.{BleCentral, rotate_mac_if_due}
use stellarconduit_core.Transport.Connection.{TransportError}
use stellarconduit_core.Transport.Manager.{
  Links, Manager, PendingMessage, PowerTickOutcome, Inbound, Moment, is_ble, is_broken_pipe,
  is_transaction, register_inbound, drop_link, update_link, ble_fallback, send_now,
}

module _ (l : Links) where
  open l use {Env, Conn}

  unfoldable pub register_all : Manager l → List (PeerIdentity × Conn) → Manager l
  register_all m [] = m
  register_all m ((peer, conn) ∷ entries) = register_all (register_inbound l m peer conn) entries

  abbrev pub drained : Inbound Conn → Option (Inbound Conn)
  drained rx = if rx.is_closed then none else some (record { queue = []; is_closed = false })

  abbrev pub take_incoming : Manager l → Option (Inbound Conn) → Manager l
  take_incoming m none = m
  take_incoming m (some rx) = register_all (record m { ble_conn_rx = drained rx }) rx.queue

  unfoldable pub process_ble_incoming : Manager l → Manager l
  process_ble_incoming m = take_incoming m m.ble_conn_rx

  -- The keys of the Bluetooth connections.
  abbrev pub ble_peers : Manager l → List Bytes
  ble_peers m = HashMap.keys (retain (λ e. is_ble (l.transport_type e.1)) m.active_connections)

  -- The loop of `notify_mac_rotated` over the keys.
  unfoldable pub disconnect_all : Env → Manager l → List Bytes → Env × Manager l
  disconnect_all env m [] = (env, m)
  disconnect_all env m (k ∷ ks) =
      let env' : Env = elim (HashMap.get k m.active_connections) [
        | none ↦ env
        | some conn ↦ l.disconnect env conn
      ] in
      disconnect_all env' (drop_link l m k) ks

  unfoldable pub notify_mac_rotated : Env → Manager l → Env × Manager l
  notify_mac_rotated env m = disconnect_all env m (ble_peers m)

  abbrev pub with_scanner : Manager l → BleCentral → Manager l
  with_scanner m c = record m { ble_central_scanner = some c }

  -- The check for a rotation of the address; the flag says whether there was one.
  abbrev pub after_rotation : Env → Manager l → BleCentral × Option Bytes → (Env × Manager l) × Bool
  after_rotation env m (c, none) = ((env, with_scanner m c), false)
  after_rotation env m (c, some new_mac) = (notify_mac_rotated env (with_scanner m c), true)

  abbrev pub rotate_with : Env → Manager l → Moment → Option BleCentral → (Env × Manager l) × Bool
  rotate_with env m t none = ((env, m), false)
  rotate_with env m t (some c) = after_rotation env m (rotate_mac_if_due c t.instant t.mac)

  unfoldable pub rotate : Env → Manager l → Moment → (Env × Manager l) × Bool
  rotate env m t = rotate_with env m t m.ble_central_scanner

  -- `?` after a send: an error ends the call, else it goes on.
  abbrev pub and_then :
      {A : Type 0}
      → (Env → Manager l → (Env × Manager l) × Result A TransportError)
      → (Env × Manager l) × Option TransportError
      → (Env × Manager l) × Result A TransportError
  and_then next ((env, m), none) = next env m
  and_then next ((env, m), some e) = ((env, m), err e)

  -- The loop over the pending messages: the first that fails ends it.
  unfoldable pub flush :
      List PendingMessage → Env → Manager l → ℕ → (Env × Manager l) × Result ℕ TransportError
  flush [] env m n = ((env, record m { pending_messages = [] }), ok n)
  flush (p ∷ ps) env m n =
      and_then (λ env' m'. flush ps env' m' (n + 1))
        (send_now l env (record m { pending_messages = ps }) p.peer p.message)

  abbrev pub flushed : Bool → Env → Manager l → (Env × Manager l) × Result ℕ TransportError
  flushed true env m = flush m.pending_messages env m 0
  flushed false env m = ((env, m), ok 0)

  abbrev pub outcome :
      PowerDecision
      → List TopologyFlag
      → (Env × Manager l) × Result ℕ TransportError
      → (Env × Manager l) × Result PowerTickOutcome TransportError
  outcome decision flags (s, err e) = (s, err e)
  outcome decision flags (s, ok n) = (
    s,
    ok (record {
      interface_state = decision.interface_state;
      topology_flags = flags;
      flushed_transactions = n;
    }),
  )

  unfoldable pub power_tick_at :
      Env → Manager l → Moment → (Env × Manager l) × Result PowerTickOutcome TransportError
  power_tick_at env m t =
      let m₁ = process_ble_incoming m in
      let (p, decision) = tick m₁.power_manager t.now in
      let ((env', m₂), rotated) = rotate env (record m₁ { power_manager = p }) t in
      let flags =
        if rotated then decision.topology_flags ++ mac_rotated ∷ [] else decision.topology_flags in
      outcome decision flags (flushed decision.wake_network env' m₂)

  abbrev pub record_outbound : Manager l → ℕ → Manager l
  record_outbound m now = record m {
    power_manager = (record_outbound_transaction m.power_manager now).0;
  }

  -- A transaction that has to wait for the radio.
  abbrev pub must_wait : Manager l → ProtocolMessage → ℕ → Bool
  must_wait m msg now =
      is_transaction msg
      && (not (is_high m.power_manager.mode)
          && not (Power.interface_state m.power_manager now).ble_enabled)

  abbrev pub send_awake :
      Env
      → Manager l
      → PeerIdentity
      → ProtocolMessage
      → ℕ
      → (Env × Manager l) × Option TransportError
  send_awake env m peer msg now =
      if must_wait m msg now
      then (
        (
          env,
          record (record_outbound m now) {
            pending_messages = m.pending_messages ++ record { peer = peer; message = msg } ∷ [];
          },
        ),
        none,
      )
      else send_now l env (record_outbound m now) peer msg

  abbrev pub send_after :
      PeerIdentity
      → ProtocolMessage
      → ℕ
      → (Env × Manager l) × Result PowerTickOutcome TransportError
      → (Env × Manager l) × Option TransportError
  send_after peer msg now ((env, m), err e) = ((env, m), some e)
  send_after peer msg now ((env, m), ok o) = send_awake env m peer msg now

  unfoldable pub send_to_at :
      Env
      → Manager l
      → PeerIdentity
      → ProtocolMessage
      → Moment
      → (Env × Manager l) × Option TransportError
  send_to_at env m peer msg t = send_after peer msg t.now (power_tick_at env m t)

  abbrev pub record_incoming : Manager l → ProtocolMessage → ℕ → Manager l
  record_incoming m msg now =
      if is_transaction msg
      then record m { power_manager = (record_incoming_transaction m.power_manager now).0 }
      else m

  abbrev pub Polled : Type 0
  Polled = (Env × Manager l) × Option (PeerIdentity × ProtocolMessage)

  -- What a connection answered, and what is done with the other keys next.
  abbrev pub answered :
      (Env → Manager l → Polled)
      → Manager l
      → Bytes
      → PeerIdentity
      → ℕ
      → Env × Conn × Option (Result ProtocolMessage TransportError)
      → Polled
  answered next m k peer now (env, conn, none) = next env (update_link l m k conn)
  answered next m k peer now (env, conn, some (ok msg)) =
      ((env, record_incoming (update_link l m k conn) msg now), some (peer, msg))
  answered next m k peer now (env, conn, some (err e)) =
      if is_broken_pipe e
      then (let ((env', m'), refused) = ble_fallback l env (drop_link l m k) peer in next env' m')
      else next env (update_link l m k conn)

  abbrev pub poll_on :
      (Env → Manager l → Polled) → Env → Manager l → Bytes → ℕ → Option Conn → Polled
  poll_on next env m k now none = next env m
  poll_on next env m k now (some conn) =
      answered next m k (l.remote_peer conn) now (l.recv env conn)

  -- The loop of `recv_any_at` over the keys.
  unfoldable pub poll : List Bytes → Env → Manager l → ℕ → Polled
  poll [] env m now = ((env, m), none)
  poll (k ∷ ks) env m now =
      poll_on (λ env' m'. poll ks env' m' now) env m k now (HashMap.get k m.active_connections)

  abbrev pub poll_after : ℕ → (Env × Manager l) × Result PowerTickOutcome TransportError → Polled
  poll_after now ((env, m), err e) = ((env, m), none)
  poll_after now ((env, m), ok o) =
      if not o.interface_state.ble_enabled && not o.interface_state.wifi_enabled
      then ((env, m), none)
      else poll (HashMap.keys m.active_connections) env m now

  unfoldable pub recv_any_at : Env → Manager l → Moment → Polled
  recv_any_at env m t = poll_after t.now (power_tick_at env m t)

  abbrev pub close_on : Env → Manager l → Bytes → Option Conn → (Env × Manager l) × Bool
  close_on env m pubkey none = ((env, m), false)
  close_on env m pubkey (some conn) = ((l.disconnect env conn, drop_link l m pubkey), true)

  unfoldable pub disconnect_peer : Env → Manager l → Bytes → (Env × Manager l) × Bool
  disconnect_peer env m pubkey = close_on env m pubkey (HashMap.get pubkey m.active_connections)

  -- Every connection is closed, in the order of the map.
  close_all : Env → HashMap.HashMap Conn → Env
  close_all env [] = env
  close_all env ((k, conn) ∷ conns) = close_all (l.disconnect env conn) conns

  unfoldable pub shutdown : Env → Manager l → Env × Manager l
  unfolding close_all
  shutdown env m = (
    close_all env m.active_connections,
    record m { is_shutdown = true; active_connections = []; peer_count = 0; pending_messages = [] },
  )
