-- ===== src/Transport/Manager/Waking.antt =====
-- src/transport/unified.rs: at the next wake barrier the messages that wait are sent, in order.
use stellarconduit_core.Prelude.{
  ℕ, ◌+◌, ◌<◌, ◌^◌, List, [], ◌∷◌, ◌++◌, true, Result, ok, err, ◌≡◌, sym, ap, subst, ◌∙◌, arith,
  length, if◌then◌else◌,
}
use stellarconduit_core.Message.{TopologyFlag, mac_rotated}
use stellarconduit_core.Power.{
  PowerManager, PowerDecision, synchronized_low_power, tick, next_awake_barrier,
}
use stellarconduit_core.Power.Cycle.{tick-next_awake_barrier}
use stellarconduit_core.Transport.Connection.{TransportError}
use stellarconduit_core.Transport.Manager.{Links, Manager, Moment, PendingMessage, PowerTickOutcome}
use stellarconduit_core.Transport.Manager.Calls.{
  take_incoming, process_ble_incoming, rotate, rotate_with, flush, flushed, outcome, power_tick_at,
}
use stellarconduit_core.Transport.Manager.Keeps.{take_incoming-Keeps, rotate_with-Keeps}
use stellarconduit_core.Transport.Manager.Log.{LinksLaws, rotate_with-log}
use stellarconduit_core.Transport.Manager.Flush.{texts, queued, Flushes, flush-Flushes}

module _ (l : Links) (laws : LinksLaws l) where
  open l use {Env, Conn}
  open laws use {log}

  -- All messages were sent in order and counted, and none waits; or a send failed: its message is lost,
  -- those before it were sent and those after it wait.
  abbrev pub Woken :
      Env → Manager l → (Env × Manager l) × Result PowerTickOutcome TransportError → Type 0
  Woken env m ((env', m'), ok o) =
      (log env' ≡ log env ++ queued m)
      × (m'.pending_messages ≡ [])
      × (o.flushed_transactions ≡ length m.pending_messages)
  Woken env m ((env', m'), err e) =
      (done : List PendingMessage) × (lost : PendingMessage) × (m.pending_messages
        ≡ done ++ lost ∷ m'.pending_messages)
      × (log env' ≡ log env ++ texts done)

  outcome-Woken :
      (env env' : Env) (m m' : Manager l) (d : PowerDecision) (flags : List TopologyFlag)
      (r : (Env × Manager l) × Result ℕ TransportError)
      → log env' ≡ log env
      → m'.pending_messages ≡ m.pending_messages
      → Flushes l laws m'.pending_messages env' 0 r
      → Woken env m (outcome l d flags r)
  outcome-Woken env env' m m' d flags (s, ok n) a b (h, k, c) = (
    h ∙ ap (λ w. w ++ queued m') a ∙ ap (λ ps. log env ++ texts ps) b,
    k,
    omega (arith, c, ap (length {A = PendingMessage}) b),
  )
  outcome-Woken env env' m m' d flags (s, err e) a b (done, lost, h, k) =
      (done, lost, sym b ∙ h, k ∙ ap (λ w. w ++ texts done) a)

  -- While the device sleeps and knows of a transaction that waits, a tick at the next wake barrier, five
  -- seconds away at most, sends the waiting messages in order. If a send fails the rest waits on.
  pub power_tick_at-Woken :
      (env : Env) (m : Manager l) (now : ℕ) (t : Moment)
      → now + 5000 < 2 ^ 64
      → m.power_manager.mode ≡ synchronized_low_power
      → m.power_manager.pending_outbound_transaction ≡ true
      → t.now ≡ next_awake_barrier now
      → Woken env m (power_tick_at l env m t)
  unfolding power_tick_at rotate process_ble_incoming
  power_tick_at-Woken env m now t small asleep waits at =
      let m₁ = take_incoming l m m.ble_conn_rx in
      let k₁ = take_incoming-Keeps l m m.ble_conn_rx in
      let (p, decision) = tick m₁.power_manager t.now in
      let woken : decision.wake_network ≡ true =
        subst (λ (x : PowerManager). (tick x t.now).1.wake_network ≡ true) (sym k₁.power)
          (subst (λ n. (tick m.power_manager n).1.wake_network ≡ true) (sym at)
            (tick-next_awake_barrier m.power_manager now small asleep waits).2) in
      let m₂ : Manager l = record m₁ { power_manager = p } in
      let r = rotate_with l env m₂ t m₂.ble_central_scanner in
      let k₂ = rotate_with-Keeps l env m₂ t m₂.ble_central_scanner in
      let flags =
        if r.1 then decision.topology_flags ++ mac_rotated ∷ [] else decision.topology_flags in
      subst (λ b. Woken env m (outcome l decision flags (flushed l b r.0.0 r.0.1))) (sym woken)
        (outcome-Woken env r.0.0 m r.0.1 decision flags
          (flush l r.0.1.pending_messages r.0.0 r.0.1 0)
          (rotate_with-log l laws env m₂ t m₂.ble_central_scanner) (k₂.pending ∙ k₁.pending)
          (flush-Flushes l laws r.0.1.pending_messages r.0.0 r.0.1 0))
