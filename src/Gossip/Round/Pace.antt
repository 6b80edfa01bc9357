-- ===== src/Gossip/Round/Pace.antt =====
-- src/gossip/round.rs: the distance between two rounds.
use stellarconduit_core.Prelude.{
  ℕ, ◌+◌, ◌≤◌, List, [], ◌∷◌, true, ◌≡◌, arith, if◌then◌else◌, Bool-cases, inl, inr,
}
use stellarconduit_core.Power.{recommended_round_interval}
use stellarconduit_core.Gossip.Round.{
  GossipScheduler, is_time_for_round, current_interval, round_executed,
}

-- The timer branch of the gossip loop: each instant at which it wakes, and the rounds that it fires.
pub rounds : GossipScheduler → List ℕ → List ℕ
rounds s [] = []
rounds s (now ∷ times) =
    let fired = now ∷ rounds (round_executed s now) times in
    let waited = rounds s times in if is_time_for_round s now then fired else waited

-- Each instant is at least `gap` after the one before, the first after `last`.
abbrev pub Spaced : ℕ → ℕ → List ℕ → Type 0
Spaced gap last [] = Unit {0}
Spaced gap last (t ∷ ts) = (last + gap ≤ t) × Spaced gap t ts

current_interval-le : (s : GossipScheduler) (now : ℕ) → 500 ≤ current_interval s now
unfolding current_interval recommended_round_interval
current_interval-le s now = ground arith

due-le :
    (s : GossipScheduler) (now : ℕ) → is_time_for_round s now ≡ true → s.last_round_time + 500 ≤ now
unfolding is_time_for_round
due-le s now h = ground (arith, current_interval-le s now)

-- Whenever the loop wakes, in whatever power state and idle or not, two rounds are half a second
-- apart at least.
pub rounds-Spaced :
    (s : GossipScheduler) (times : List ℕ) → Spaced 500 s.last_round_time (rounds s times)
unfolding rounds round_executed
rounds-Spaced s [] = tt
rounds-Spaced s (now ∷ times) = elim (Bool-cases (is_time_for_round s now)) [
  | inl e ↦ rw e (due-le s now e, rounds-Spaced (round_executed s now) times)
  | inr e ↦ rw e (rounds-Spaced s times)
]
