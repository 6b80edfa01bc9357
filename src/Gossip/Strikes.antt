-- ===== src/Gossip/Strikes.antt =====
-- src/gossip/strike_tracker.rs: signature failures of each peer in a sliding window. An `Instant`
-- is a number of milliseconds, and the clock is the argument `now`.
pub mod History
pub mod Window
use stellarconduit_core.Prelude.{
  ℕ, ◌-◌, List, [], ◌∷◌, ◌++◌, Bytes, Bool, true, false, not, Option, none, some, leb, ltb, length,
  retain,
}
use stellarconduit_core.Prelude.HashMap
use stellarconduit_core.Prelude.HashMap.{HashMap, map_values}

pub record StrikeTracker : Type 0 where
  pub failures : HashMap (List ℕ)
  pub window_duration : ℕ
  pub max_strikes : ℕ

unfoldable pub new : StrikeTracker
new = record { failures = []; window_duration = 600000; max_strikes = 3 }

-- The failures that the window still covers. `duration_since` is 0 for a later instant, as `-` is.
abbrev pub live : ℕ → ℕ → List ℕ → List ℕ
live window now = retain (λ t. leb (now - t) window)

abbrev pub or_default : Option (List ℕ) → List ℕ
or_default none = []
or_default (some ts) = ts

-- Whether the peer should be banned. A peer is given by its public key.
unfoldable pub record_failure : StrikeTracker → Bytes → ℕ → StrikeTracker × Bool
record_failure s peer now =
    let kept = live s.window_duration now (or_default (HashMap.get peer s.failures)) ++ now ∷ [] in
    (record s { failures = HashMap.insert peer kept s.failures }, ltb s.max_strikes (length kept))

unfoldable pub clear_peer : StrikeTracker → Bytes → StrikeTracker
clear_peer s peer = record s { failures = HashMap.remove peer s.failures }

unfoldable pub get_strike_count : StrikeTracker → Bytes → ℕ → ℕ
get_strike_count s peer now =
    length (live s.window_duration now (or_default (HashMap.get peer s.failures)))

abbrev pub is_empty : List ℕ → Bool
is_empty [] = true
is_empty (t ∷ ts) = false

unfoldable pub cleanup : StrikeTracker → ℕ → StrikeTracker
cleanup s now = record s {
  failures = retain (λ e. not (is_empty e.1)) (map_values (live s.window_duration now) s.failures);
}
