-- ===== src/Gossip/Round.antt =====
-- src/gossip/round.rs: when the next gossip round is due. Instants and durations are milliseconds,
-- and the clock is the argument `now`.
pub mod Pace
use stellarconduit_core.Prelude.{
  ℕ, ◌-◌, ◌≤◌, ◌<◌, Bool, true, false, Option, none, some, ◌≡◌, if◌then◌else◌, leb, arith, ◌+◌,
}
use stellarconduit_core.Power.{PowerManager, recommended_round_interval}

abbrev pub active_round_interval_ms : ℕ
active_round_interval_ms = 500

abbrev pub idle_round_interval_ms : ℕ
idle_round_interval_ms = 5000

abbrev pub idle_timeout_ms : ℕ
idle_timeout_ms = 30000

-- A power manager is shared; `none` also where its lock is poisoned.
pub record GossipScheduler : Type 0 where
  pub last_round_time : ℕ
  pub last_active_msg_time : ℕ
  pub power_manager : Option PowerManager

unfoldable pub new : ℕ → GossipScheduler
new now = record { last_round_time = now; last_active_msg_time = now; power_manager = none }

unfoldable pub with_power_manager : PowerManager → ℕ → GossipScheduler
with_power_manager pm now = record {
  last_round_time = now;
  last_active_msg_time = now;
  power_manager = some pm;
}

unfoldable pub record_activity : GossipScheduler → ℕ → GossipScheduler
record_activity s now = record s { last_active_msg_time = now }

unfoldable pub is_idle : GossipScheduler → ℕ → Bool
is_idle s now = leb idle_timeout_ms (now - s.last_active_msg_time)

unfoldable pub current_interval : GossipScheduler → ℕ → ℕ
unfolding is_idle
current_interval s now = elim s.power_manager [
  | some pm ↦ recommended_round_interval pm
  | none ↦ if is_idle s now then idle_round_interval_ms else active_round_interval_ms
]

unfoldable pub is_time_for_round : GossipScheduler → ℕ → Bool
unfolding current_interval
is_time_for_round s now = leb (current_interval s now) (now - s.last_round_time)

unfoldable pub round_executed : GossipScheduler → ℕ → GossipScheduler
round_executed s now = record s { last_round_time = now }

-- `checked_sub` fails before the first instant, and the time then stays.
unfoldable pub advance_time : GossipScheduler → ℕ → GossipScheduler
advance_time s by = record s {
  last_round_time = if leb by s.last_round_time then s.last_round_time - by else s.last_round_time;
  last_active_msg_time =
      if leb by s.last_active_msg_time then s.last_active_msg_time - by else s.last_active_msg_time;
}
