-- ===== src/Power/Cycle.antt =====
-- src/transport/power.rs: sleeping and waking over sequences of calls.
use stellarconduit_core.Prelude.{
  ℕ, ◌+◌, ◌-◌, ◌≤◌, ◌<◌, ◌^◌, List, [], ◌∷◌, Bool, true, false, ◌≡◌, refl, arith,
}
use stellarconduit_core.Power.{
  PowerState, active, low_power, deep_sleep, PowerManager, synchronized_low_power,
  idle_sleep_timeout, new, set_state, advance_clock, tick, record_incoming_transaction,
  record_outbound_transaction, is_high, is_awake_window, next_awake_barrier, awake,
}

pub data Call : Type 0 where
  sets_state : PowerState → Call
  advances : Call
  ticks incoming outbound : Call

pub step : PowerManager → ℕ × Call → PowerManager
step p (now, sets_state s) = (set_state p s).0
step p (now, advances) = advance_clock p now
step p (now, ticks) = (tick p now).0
step p (now, incoming) = (record_incoming_transaction p now).0
step p (now, outbound) = (record_outbound_transaction p now).0

pub run : PowerManager → List (ℕ × Call) → PowerManager
run p [] = p
run p (c ∷ cs) = run (step p c) cs

abbrev pub is_active : PowerState → Bool
is_active active = true
is_active low_power = false
is_active deep_sleep = false

-- The legacy mode agrees with the state.
abbrev pub IsCoherent : PowerManager → Type 0
IsCoherent p = is_high p.mode ≡ is_active p.state

tick-IsCoherent : (p : PowerManager) (now : ℕ) → IsCoherent p → IsCoherent (tick p now).0
unfolding tick
tick-IsCoherent p now h = ground arith

step-IsCoherent : (p : PowerManager) (c : ℕ × Call) → IsCoherent p → IsCoherent (step p c)
unfolding step set_state advance_clock record_incoming_transaction record_outbound_transaction
step-IsCoherent p (now, sets_state active) h = refl
step-IsCoherent p (now, sets_state low_power) h = refl
step-IsCoherent p (now, sets_state deep_sleep) h = refl
step-IsCoherent p (now, advances) h = h
step-IsCoherent p (now, ticks) h = tick-IsCoherent p now h
step-IsCoherent p (now, incoming) h = ground arith
step-IsCoherent p (now, outbound) h = ground arith

run-IsCoherent : (p : PowerManager) (cs : List (ℕ × Call)) → IsCoherent p → IsCoherent (run p cs)
unfolding run
run-IsCoherent p [] h = h
run-IsCoherent p (c ∷ cs) h = run-IsCoherent (step p c) cs (step-IsCoherent p c h)

-- After any calls on a new manager, the legacy mode is high power exactly when the state is active.
pub run-new-IsCoherent : (now : ℕ) (cs : List (ℕ × Call)) → IsCoherent (run (new now) cs)
unfolding new
run-new-IsCoherent now cs = run-IsCoherent (new now) cs refl

barrier_bounds :
    (now : ℕ)
    → now + 5000 < 2 ^ 64
    → (now < next_awake_barrier now)
      × (next_awake_barrier now ≤ now + 5000)
      × (is_awake_window (next_awake_barrier now) ≡ true)
unfolding next_awake_barrier is_awake_window
barrier_bounds now h = ground arith

-- A transaction that waits while the device sleeps is flushed by a tick at the next wake barrier, which
-- comes within five seconds: the network is woken, with both radios on and nothing left waiting.
pub tick-next_awake_barrier :
    (p : PowerManager) (now : ℕ)
    → now + 5000 < 2 ^ 64
    → p.mode ≡ synchronized_low_power
    → p.pending_outbound_transaction ≡ true
    → let barrier = next_awake_barrier now in
      (now < barrier)
      × (barrier ≤ now + 5000)
      × ((tick p barrier).1.wake_network ≡ true)
      × ((tick p barrier).1.interface_state ≡ awake)
      × ((tick p barrier).0.pending_outbound_transaction ≡ false)
      × ((tick p barrier).0.state ≡ active)
unfolding tick
tick-next_awake_barrier p now h m w =
    let (after, soon, window) = barrier_bounds now h in
    (after, soon, ground arith, ground arith, ground arith, ground arith)

-- A device that slept, was set active and is still idle falls asleep again without announcing it.
pub tick-set_state_silent :
    (p : PowerManager) (now : ℕ)
    → p.sleep_flag_emitted ≡ true
    → idle_sleep_timeout ≤ now - p.last_incoming_activity_at
    → p.pending_outbound_transaction ≡ false
    → ((tick (set_state p active).0 now).0.mode ≡ synchronized_low_power)
      × ((tick (set_state p active).0 now).1.topology_flags ≡ [])
unfolding tick set_state
tick-set_state_silent p now e i w = ground arith
