-- ===== src/Transport/Manager/Delays.antt =====
-- src/transport/unified.rs: when the messages that wait are sent.
use stellarconduit_core.Prelude.{
  ℕ, ◌+◌, List, [], ◌∷◌, ◌++◌, Bool, true, false, Option, none, some, Result, ok, err, ◌≡◌, refl,
  sym, ap, subst, ◌∙◌, arith, if◌then◌else◌,
}
use stellarconduit_core.Message.{TopologyFlag, mac_rotated}
use stellarconduit_core.Power.{PowerManager, PowerDecision, tick}
use stellarconduit_core.Transport.Connection.{TransportError}
use stellarconduit_core.Transport.Manager.{Links, Manager, Moment, PendingMessage, send_now}
use stellarconduit_core.Transport.Manager.Calls.{
  take_incoming, process_ble_incoming, rotate, rotate_with, flush, flushed, outcome, power_tick_at,
  and_then,
}
use stellarconduit_core.Transport.Manager.Keeps.{
  take_incoming-Keeps, rotate_with-Keeps, send_now-Keeps,
}

-- The power state knows of no transaction that waits.
abbrev pub IsQuiet : PowerManager → Type 0
IsQuiet p = p.pending_outbound_transaction ≡ false

tick-IsQuiet :
    (p : PowerManager) (now : ℕ)
    → IsQuiet p
    → IsQuiet (tick p now).0 × ((tick p now).1.wake_network ≡ false)
unfolding tick
tick-IsQuiet p now h = ground arith

-- Waking for a transaction that waits forgets that it waits.
tick-woken :
    (p : PowerManager) (now : ℕ) → (tick p now).1.wake_network ≡ true → IsQuiet (tick p now).0
unfolding tick
tick-woken p now h = ground (arith, h)

module _ (l : Links) where
  open l use {Env, Conn}

  -- The messages that wait stay, and the power state stays quiet.
  abbrev Stays : Manager l → Manager l → Type 0
  Stays m m' = (m'.pending_messages ≡ m.pending_messages) × IsQuiet m'.power_manager

  outcome_state :
      (d : PowerDecision) (flags : List TopologyFlag)
      (r : (Env × Manager l) × Result ℕ TransportError)
      → (outcome l d flags r).0 ≡ r.0
  outcome_state d flags (s, ok n) = refl
  outcome_state d flags (s, err e) = refl

  power_tick_at-Stays :
      (env : Env) (m : Manager l) (t : Moment)
      → IsQuiet m.power_manager
      → Stays m (power_tick_at l env m t).0.1
  unfolding power_tick_at rotate process_ble_incoming
  power_tick_at-Stays env m t h =
      let m₁ = take_incoming l m m.ble_conn_rx in
      let k₁ = take_incoming-Keeps l m m.ble_conn_rx in
      let (quiet, asleep) =
        tick-IsQuiet m₁.power_manager t.now
          (ap (λ (p : PowerManager). p.pending_outbound_transaction) k₁.power ∙ h) in
      let (p, decision) = tick m₁.power_manager t.now in
      let m₂ : Manager l = record m₁ { power_manager = p } in
      let r = rotate_with l env m₂ t m₂.ble_central_scanner in
      let k₂ = rotate_with-Keeps l env m₂ t m₂.ble_central_scanner in
      let flags =
        if r.1 then decision.topology_flags ++ mac_rotated ∷ [] else decision.topology_flags in
      let same =
        outcome_state decision flags (flushed l decision.wake_network r.0.0 r.0.1)
        ∙ ap (λ b. (flushed l b r.0.0 r.0.1).0) asleep in
      subst (λ (s : Env × Manager l). Stays m s.1) (sym same)
        (
          k₂.pending ∙ k₁.pending,
          ap (λ (p : PowerManager). p.pending_outbound_transaction) k₂.power ∙ quiet,
        )

  -- Ticks one after the other.
  pub ticks : Env → Manager l → List Moment → Env × Manager l
  ticks env m [] = (env, m)
  ticks env m (t ∷ ts) = let s = (power_tick_at l env m t).0 in ticks s.0 s.1 ts

  ticks-Stays :
      (ts : List Moment) (env : Env) (m : Manager l)
      → IsQuiet m.power_manager
      → (ticks env m ts).1.pending_messages ≡ m.pending_messages
  unfolding ticks
  ticks-Stays [] env m h = refl
  ticks-Stays (t ∷ ts) env m h =
      let (same, quiet) = power_tick_at-Stays env m t h in ticks-Stays ts _ _ quiet ∙ same

  and_then-IsQuiet :
      {A : Type 0} (next : Env → Manager l → (Env × Manager l) × Result A TransportError)
      (r : (Env × Manager l) × Option TransportError)
      → IsQuiet r.0.1.power_manager
      → ((env : Env) (m : Manager l)
          → IsQuiet m.power_manager
          → IsQuiet (next env m).0.1.power_manager)
      → IsQuiet (and_then l next r).0.1.power_manager
  and_then-IsQuiet next ((env, m), none) h go = go env m h
  and_then-IsQuiet next ((env, m), some e) h go = h

  flush-IsQuiet :
      (ps : List PendingMessage) (env : Env) (m : Manager l) (n : ℕ)
      → IsQuiet m.power_manager
      → IsQuiet (flush l ps env m n).0.1.power_manager
  unfolding flush
  flush-IsQuiet [] env m n h = h
  flush-IsQuiet (p ∷ ps) env m n h =
      let m' : Manager l = record m { pending_messages = ps } in
      let k = send_now-Keeps l env m' p.peer p.message in
      and_then-IsQuiet (λ env' m''. flush l ps env' m'' (n + 1))
        (send_now l env m' p.peer p.message)
        (ap (λ (x : PowerManager). x.pending_outbound_transaction) k.power ∙ h)
        (λ env' m'' h'. flush-IsQuiet ps env' m'' (n + 1) h')

  flushed-IsQuiet :
      (b : Bool) (env : Env) (m : Manager l) (d : PowerDecision) (flags : List TopologyFlag)
      (e : TransportError)
      → (b ≡ true → IsQuiet m.power_manager)
      → (outcome l d flags (flushed l b env m)).1 ≡ err e
      → IsQuiet (outcome l d flags (flushed l b env m)).0.1.power_manager
  flushed-IsQuiet true env m d flags e h failed =
      subst (λ (s : Env × Manager l). IsQuiet s.1.power_manager)
        (sym (outcome_state d flags (flush l m.pending_messages env m 0)))
        (flush-IsQuiet m.pending_messages env m 0 (h refl))
  flushed-IsQuiet false env m d flags e h failed = absurd (ground (arith, failed))

  power_tick_at-IsQuiet :
      (env : Env) (m : Manager l) (t : Moment) (e : TransportError)
      → (power_tick_at l env m t).1 ≡ err e
      → IsQuiet (power_tick_at l env m t).0.1.power_manager
  unfolding power_tick_at rotate process_ble_incoming
  power_tick_at-IsQuiet env m t e =
      let m₁ = take_incoming l m m.ble_conn_rx in
      let (p, decision) = tick m₁.power_manager t.now in
      let m₂ : Manager l = record m₁ { power_manager = p } in
      let r = rotate_with l env m₂ t m₂.ble_central_scanner in
      let k₂ = rotate_with-Keeps l env m₂ t m₂.ble_central_scanner in
      let flags =
        if r.1 then decision.topology_flags ++ mac_rotated ∷ [] else decision.topology_flags in
      flushed-IsQuiet decision.wake_network r.0.0 r.0.1 decision flags e (λ woken.
        ap (λ (x : PowerManager). x.pending_outbound_transaction) k₂.power
        ∙ tick-woken m₁.power_manager t.now woken)

  -- Where a tick fails, the messages that wait after it stay through any further ticks, at whatever
  -- times: no tick sends them.
  pub ticks-power_tick_at :
      (env : Env) (m : Manager l) (t : Moment) (e : TransportError) (ts : List Moment)
      → (power_tick_at l env m t).1 ≡ err e
      → let s = (power_tick_at l env m t).0 in
        (ticks s.0 s.1 ts).1.pending_messages ≡ s.1.pending_messages
  ticks-power_tick_at env m t e ts failed =
      let s = (power_tick_at l env m t).0 in
      ticks-Stays ts s.0 s.1 (power_tick_at-IsQuiet env m t e failed)
