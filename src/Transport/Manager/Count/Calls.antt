-- ===== src/Transport/Manager/Count/Calls.antt =====
-- src/transport/unified.rs: the calls that follow the power state keep the count of peers.
use stellarconduit_core.Prelude.{
  ℕ, ◌+◌, List, [], ◌∷◌, ◌++◌, not, ◌&&◌, if◌then◌else◌, Bytes, Bool, true, false, Option, none,
  some, Result, ok, err, refl, inl, inr, Bool-cases,
}
use stellarconduit_core.Prelude.HashMap
use stellarconduit_core.Prelude.HashMap.{
  Unique, insert-Unique, modify-Unique, remove-Unique, length-insert_new, length-insert_old,
  length-modify, length-remove,
}
use stellarconduit_core.Message.{ProtocolMessage, TopologyFlag, mac_rotated}
use stellarconduit_core.Peer.Identity.{PeerIdentity}
use stellarconduit_core.Power.{PowerDecision, tick}
use stellarconduit_core.Transport.Ble.{BleCentral}
use stellarconduit_core.Transport.Connection.{TransportError}
use stellarconduit_core.Transport.Manager.{
  Links, is_transaction, Manager, PendingMessage, Moment, is_broken_pipe, drop_link, ble_fallback,
  send_now, PowerTickOutcome,
}
use stellarconduit_core.Transport.Manager.Calls.{
  take_incoming, after_rotation, rotate_with, and_then, flushed, outcome, must_wait, send_awake,
  send_after, record_incoming, answered, Polled, poll_on, poll_after, close_on,
  process_ble_incoming, notify_mac_rotated, rotate, flush, power_tick_at, poll, shutdown,
}
use stellarconduit_core.Transport.Manager.Count.{
  IsCounted, drop_link-IsCounted, update_link-IsCounted, ble_fallback-IsCounted, send_now-IsCounted,
  same_links, take_incoming-IsCounted, disconnect_all-IsCounted,
}

module _ (l : Links) where
  open l use {Env, Conn}

  pub after_rotation-IsCounted :
      (env : Env) (m : Manager l) (r : BleCentral × Option Bytes)
      → IsCounted m
      → IsCounted (after_rotation l env m r).0.1
  unfolding notify_mac_rotated
  after_rotation-IsCounted env m (c, none) h = same_links l m _ h refl refl
  after_rotation-IsCounted env m (c, some mac) h =
      disconnect_all-IsCounted l _ env _ (same_links l m _ h refl refl)

  pub rotate_with-IsCounted :
      (env : Env) (m : Manager l) (t : Moment) (o : Option BleCentral)
      → IsCounted m
      → IsCounted (rotate_with l env m t o).0.1
  rotate_with-IsCounted env m t none h = h
  rotate_with-IsCounted env m t (some c) h = after_rotation-IsCounted env m _ h

  pub and_then-IsCounted :
      {A : Type 0} (next : Env → Manager l → (Env × Manager l) × Result A TransportError)
      (r : (Env × Manager l) × Option TransportError)
      → IsCounted r.0.1
      → ((env : Env) (m : Manager l) → IsCounted m → IsCounted (next env m).0.1)
      → IsCounted (and_then l next r).0.1
  and_then-IsCounted next ((env, m), none) h go = go env m h
  and_then-IsCounted next ((env, m), some e) h go = h

  pub flush-IsCounted :
      (ps : List PendingMessage) (env : Env) (m : Manager l) (n : ℕ)
      → IsCounted m
      → IsCounted (flush l ps env m n).0.1
  unfolding flush
  flush-IsCounted [] env m n h = same_links l m _ h refl refl
  flush-IsCounted (p ∷ ps) env m n h =
      let m' : Manager l = record m { pending_messages = ps } in
      and_then-IsCounted (λ env' m''. flush l ps env' m'' (n + 1))
        (send_now l env m' p.peer p.message)
        (send_now-IsCounted l env m' p.peer p.message (same_links l m m' h refl refl))
        (λ env' m'' h'. flush-IsCounted ps env' m'' (n + 1) h')

  pub flushed-IsCounted :
      (b : Bool) (env : Env) (m : Manager l) → IsCounted m → IsCounted (flushed l b env m).0.1
  flushed-IsCounted true env m h = flush-IsCounted m.pending_messages env m 0 h
  flushed-IsCounted false env m h = h

  pub outcome-IsCounted :
      (d : PowerDecision) (flags : List TopologyFlag)
      (r : (Env × Manager l) × Result ℕ TransportError)
      → IsCounted r.0.1
      → IsCounted (outcome l d flags r).0.1
  outcome-IsCounted d flags (s, err e) h = h
  outcome-IsCounted d flags (s, ok n) h = h

  pub power_tick_at-IsCounted :
      (env : Env) (m : Manager l) (t : Moment)
      → IsCounted m
      → IsCounted (power_tick_at l env m t).0.1
  unfolding power_tick_at rotate process_ble_incoming
  power_tick_at-IsCounted env m t h =
      let m₁ = take_incoming l m m.ble_conn_rx in
      let (p, decision) = tick m₁.power_manager t.now in
      let m₂ : Manager l = record m₁ { power_manager = p } in
      let h₂ = same_links l m₁ m₂ (take_incoming-IsCounted l m m.ble_conn_rx h) refl refl in
      let r = rotate_with l env m₂ t m₂.ble_central_scanner in
      let flags =
        if r.1 then decision.topology_flags ++ mac_rotated ∷ [] else decision.topology_flags in
      outcome-IsCounted decision flags (flushed l decision.wake_network r.0.0 r.0.1) (
        flushed-IsCounted decision.wake_network r.0.0 r.0.1
          (rotate_with-IsCounted env m₂ t m₂.ble_central_scanner h₂))

  pub send_awake-IsCounted :
      (env : Env) (m : Manager l) (peer : PeerIdentity) (msg : ProtocolMessage) (now : ℕ)
      → IsCounted m
      → IsCounted (send_awake l env m peer msg now).0.1
  send_awake-IsCounted env m peer msg now h = elim (Bool-cases (must_wait l m msg now)) [
    | inl waits ↦ rw waits (same_links l m _ h refl refl)
    | inr goes ↦ rw goes (send_now-IsCounted l env _ peer msg (same_links l m _ h refl refl))
  ]

  pub send_after-IsCounted :
      (peer : PeerIdentity) (msg : ProtocolMessage) (now : ℕ)
      (r : (Env × Manager l) × Result PowerTickOutcome TransportError)
      → IsCounted r.0.1
      → IsCounted (send_after l peer msg now r).0.1
  send_after-IsCounted peer msg now ((env, m), err e) h = h
  send_after-IsCounted peer msg now ((env, m), ok o) h = send_awake-IsCounted env m peer msg now h

  pub record_incoming-IsCounted :
      (m : Manager l) (msg : ProtocolMessage) (now : ℕ)
      → IsCounted m
      → IsCounted (record_incoming l m msg now)
  record_incoming-IsCounted m msg now h = elim (Bool-cases (is_transaction msg)) [
    | inl tx ↦ rw tx (same_links l m _ h refl refl)
    | inr other ↦ rw other h
  ]

  pub answered-IsCounted :
      (next : Env → Manager l → Polled l) (m : Manager l) (k : Bytes) (peer : PeerIdentity)
      (now : ℕ) (r : Env × Conn × Option (Result ProtocolMessage TransportError))
      → IsCounted m
      → ((env : Env) (m : Manager l) → IsCounted m → IsCounted (next env m).0.1)
      → IsCounted (answered l next m k peer now r).0.1
  answered-IsCounted next m k peer now (env, conn, none) h go =
      go env _ (update_link-IsCounted l m k conn h)
  answered-IsCounted next m k peer now (env, conn, some (ok msg)) h go =
      record_incoming-IsCounted _ msg now (update_link-IsCounted l m k conn h)
  answered-IsCounted next m k peer now (env, conn, some (err e)) h go =
      elim (Bool-cases (is_broken_pipe e)) [
        | inl broken ↦
            let back = ble_fallback l env (drop_link l m k) peer in
            let h' =
              ble_fallback-IsCounted l env (drop_link l m k) peer (drop_link-IsCounted l m k h) in
            rw broken (go back.0.0 back.0.1 h')
        | inr other ↦ rw other (go env _ (update_link-IsCounted l m k conn h))
      ]

  pub poll_on-IsCounted :
      (next : Env → Manager l → Polled l) (env : Env) (m : Manager l) (k : Bytes) (now : ℕ)
      (o : Option Conn)
      → IsCounted m
      → ((env : Env) (m : Manager l) → IsCounted m → IsCounted (next env m).0.1)
      → IsCounted (poll_on l next env m k now o).0.1
  poll_on-IsCounted next env m k now none h go = go env m h
  poll_on-IsCounted next env m k now (some conn) h go =
      answered-IsCounted next m k (l.remote_peer conn) now (l.recv env conn) h go

  pub poll-IsCounted :
      (ks : List Bytes) (env : Env) (m : Manager l) (now : ℕ)
      → IsCounted m
      → IsCounted (poll l ks env m now).0.1
  unfolding poll
  poll-IsCounted [] env m now h = h
  poll-IsCounted (k ∷ ks) env m now h =
      poll_on-IsCounted (λ env' m'. poll l ks env' m' now) env m k now
        (HashMap.get k m.active_connections) h (λ env' m' h'. poll-IsCounted ks env' m' now h')

  pub poll_after-IsCounted :
      (now : ℕ) (r : (Env × Manager l) × Result PowerTickOutcome TransportError)
      → IsCounted r.0.1
      → IsCounted (poll_after l now r).0.1
  poll_after-IsCounted now ((env, m), err e) h = h
  poll_after-IsCounted now ((env, m), ok o) h =
      elim (Bool-cases (not o.interface_state.ble_enabled && not o.interface_state.wifi_enabled)) [
        | inl off ↦ rw off h
        | inr on ↦ rw on (poll-IsCounted (HashMap.keys m.active_connections) env m now h)
      ]

  pub close_on-IsCounted :
      (env : Env) (m : Manager l) (k : Bytes) (o : Option Conn)
      → IsCounted m
      → IsCounted (close_on l env m k o).0.1
  close_on-IsCounted env m k none h = h
  close_on-IsCounted env m k (some conn) h = drop_link-IsCounted l m k h

  pub shutdown-IsCounted : (env : Env) (m : Manager l) → IsCounted (shutdown l env m).1
  unfolding shutdown
  shutdown-IsCounted env m = record { unique = tt; count = refl }
