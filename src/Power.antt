-- ===== src/Power.antt =====
-- src/transport/power.rs: the power state of the device. A `Duration` is a number of milliseconds
-- since some start.
pub mod Cycle
use stellarconduit_core.Prelude.{
  ℕ, ◌+◌, ◌-◌, ◌*◌, ◌/◌, ◌%◌, List, [], ◌∷◌, ◌++◌, Bool, true, false, not, Option, none, some,
  if◌then◌else◌, ltb, leb, ◌&&◌, ◌||◌, zeros, u64,
}
use stellarconduit_core.Message.{
  TopologyFlag, go_to_sleep, low_power_mode, deep_sleep_pending, TopologyUpdate,
}

abbrev pub idle_sleep_timeout : ℕ
idle_sleep_timeout = 300000

abbrev pub synchronized_wake_interval : ℕ
synchronized_wake_interval = 5000

abbrev pub synchronized_wake_window : ℕ
synchronized_wake_window = 500

abbrev low_power_ble_on_ms : ℕ
low_power_ble_on_ms = 200

abbrev low_power_ble_period_ms : ℕ
low_power_ble_period_ms = 10000

abbrev deep_sleep_ble_on_ms : ℕ
deep_sleep_ble_on_ms = 200

abbrev deep_sleep_ble_period_ms : ℕ
deep_sleep_ble_period_ms = 60000

pub data PowerState : Type 0 where
  active low_power deep_sleep : PowerState

pub data PowerMode : Type 0 where
  high_power synchronized_low_power : PowerMode

pub record InterfacePowerState : Type 0 where
  pub ble_enabled : Bool
  pub wifi_enabled : Bool

abbrev pub awake : InterfacePowerState
awake = record { ble_enabled = true; wifi_enabled = true }

abbrev pub sleeping : InterfacePowerState
sleeping = record { ble_enabled = false; wifi_enabled = false }

pub record PowerDecision : Type 0 where
  pub interface_state : InterfacePowerState
  pub topology_flags : List TopologyFlag
  pub wake_network : Bool

pub record PowerManager : Type 0 where
  pub state : PowerState
  pub mode : PowerMode
  pub last_incoming_activity_at : ℕ
  pub pending_outbound_transaction : Bool
  pub sleep_flag_emitted : Bool
  pub now_ms : ℕ

unfoldable pub new : ℕ → PowerManager
new now = record {
  state = active;
  mode = high_power;
  last_incoming_activity_at = now;
  pending_outbound_transaction = false;
  sleep_flag_emitted = false;
  now_ms = now;
}

abbrev round_interval : PowerState → ℕ
round_interval active = 500
round_interval low_power = 5000
round_interval deep_sleep = 60000

unfoldable pub recommended_round_interval : PowerManager → ℕ
recommended_round_interval p = round_interval p.state

abbrev mode_of : PowerState → PowerMode
mode_of active = high_power
mode_of low_power = synchronized_low_power
mode_of deep_sleep = synchronized_low_power

abbrev announcement : List TopologyFlag → TopologyUpdate
announcement flags = record {
  origin_pubkey = zeros 32;
  directly_connected_peers = [];
  hops_to_relay = 0;
  topology_flags = flags;
}

abbrev announce : PowerState → Option TopologyUpdate
announce active = none
announce low_power = some (announcement (low_power_mode ∷ []))
announce deep_sleep = some (announcement (deep_sleep_pending ∷ []))

unfoldable pub set_state : PowerManager → PowerState → PowerManager × Option TopologyUpdate
set_state p state = (record p { state = state; mode = mode_of state }, announce state)

abbrev duty : PowerState → ℕ → Bool
duty active now_ms = true
duty low_power now_ms = ltb (now_ms % low_power_ble_period_ms) low_power_ble_on_ms
duty deep_sleep now_ms = ltb (now_ms % deep_sleep_ble_period_ms) deep_sleep_ble_on_ms

unfoldable pub should_advertise_ble : PowerManager → Bool
should_advertise_ble p = duty p.state p.now_ms

unfoldable pub advance_clock : PowerManager → ℕ → PowerManager
advance_clock p now_ms = record p { now_ms = now_ms }

abbrev pub is_high : PowerMode → Bool
is_high high_power = true
is_high synchronized_low_power = false

unfoldable pub is_awake_window : ℕ → Bool
is_awake_window now = ltb (now % synchronized_wake_interval) synchronized_wake_window

unfoldable pub interface_state : PowerManager → ℕ → InterfacePowerState
unfolding is_awake_window
interface_state p now = if is_high p.mode || is_awake_window now then awake else sleeping

-- The cast to `u64` drops the high bits.
unfoldable pub next_awake_barrier : ℕ → ℕ
next_awake_barrier now = u64 ((now / synchronized_wake_interval + 1) * synchronized_wake_interval)

-- The three parts of `tick`: falling asleep, the flag, and waking for a pending transaction.
fall_asleep : PowerManager → ℕ → PowerManager
fall_asleep p now =
    if leb idle_sleep_timeout (now - p.last_incoming_activity_at) && is_high p.mode
    then record p { mode = synchronized_low_power; state = low_power }
    else p

emit_flag : PowerManager → PowerManager × List TopologyFlag
emit_flag p =
    if not (is_high p.mode) && not p.sleep_flag_emitted
    then (record p { sleep_flag_emitted = true }, go_to_sleep ∷ [])
    else (p, [])

wakes : PowerManager → ℕ → Bool
unfolding is_awake_window
wakes p now = not (is_high p.mode) && (p.pending_outbound_transaction && is_awake_window now)

wake_up : PowerManager → ℕ → PowerManager
wake_up p now = record p {
  mode = high_power;
  state = active;
  pending_outbound_transaction = false;
  last_incoming_activity_at = now;
  sleep_flag_emitted = false;
}

unfoldable pub tick : PowerManager → ℕ → PowerManager × PowerDecision
unfolding fall_asleep emit_flag wakes wake_up interface_state
tick p now =
    let p₁ = fall_asleep (record p { now_ms = now }) now in
    let (p₂, flags) = emit_flag p₁ in
    let wake_network = wakes p₂ now in
    let p₃ = if wake_network then wake_up p₂ now else p₂ in
    (
      p₃,
      record {
        interface_state = interface_state p₃ now;
        topology_flags = flags;
        wake_network = wake_network;
      },
    )

unfoldable pub record_incoming_transaction : PowerManager → ℕ → PowerManager × PowerDecision
unfolding tick
record_incoming_transaction p now =
    tick
      (record p {
        last_incoming_activity_at = now;
        pending_outbound_transaction = false;
        sleep_flag_emitted = false;
        mode = high_power;
        state = active;
      })
      now

unfoldable pub record_outbound_transaction : PowerManager → ℕ → PowerManager × PowerDecision
unfolding tick is_awake_window
record_outbound_transaction p now =
    let (p', decision) = tick p now in
    if not (is_high p'.mode) && not (is_awake_window now)
    then (
      record p' { pending_outbound_transaction = true },
      record decision { interface_state = sleeping },
    )
    else (
      record p' {
        last_incoming_activity_at = now;
        sleep_flag_emitted = false;
        mode = high_power;
        state = active;
      },
      record decision { interface_state = awake },
    )
