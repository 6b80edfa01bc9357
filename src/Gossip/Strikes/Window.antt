-- ===== src/Gossip/Strikes/Window.antt =====
-- src/gossip/strike_tracker.rs: the tracker against the full history of failures. What it prunes
-- is never missed.
use stellarconduit_core.Prelude.{
  ℕ, List, [], ◌∷◌, Bytes, ◌≡◌, refl, ap, ◌∙◌, leb, arith, length, length-append,
}
use stellarconduit_core.Prelude.HashMap
use stellarconduit_core.Prelude.HashMap.{
  HashMap, map_values, Unique, get-insert, get-remove, get-retain, get-map_values, kept,
  insert-Unique, remove-Unique, retain-Unique, map_values-Unique,
}
use stellarconduit_core.Gossip.Strikes.{new, live, get_strike_count, record_failure}
use stellarconduit_core.Gossip.Strikes.History.{
  Event, run, history, times, Ordered, stored, Tracks, run-Tracks, run-window, run-max,
}

-- The failures of the last ten minutes in the full history.
abbrev pub recent : Bytes → ℕ → List (ℕ × Event) → List ℕ
recent k now es = live 600000 now (times k (history [] es))

new_window : new.window_duration ≡ 600000
unfolding new
new_window = refl

new_max : new.max_strikes ≡ 3
unfolding new
new_max = refl

new-Tracks : Tracks 600000 new [] 0
unfolding new HashMap.get
new-Tracks = record { window = refl; unique = tt; same = λ k now h. refl }

-- Over any failures, clearings and cleanups with a clock that does not run backwards, the count of a
-- peer's strikes is the number of its failures of the last ten minutes since it was last cleared.
get_strike_count-run :
    (es : List (ℕ × Event)) (k : Bytes) (now : ℕ)
    → Ordered 0 es now
    → get_strike_count (run new es) k now ≡ length (recent k now es)
unfolding get_strike_count
get_strike_count-run es k now o =
    rw (run-window new es ∙ new_window)
      (ap length (run-Tracks 600000 new [] 0 now es k new-Tracks o))

-- After such a history a further failure asks for a ban exactly when it is at least the fourth of
-- the peer in the last ten minutes.
pub record_failure-run :
    (es : List (ℕ × Event)) (k : Bytes) (now : ℕ)
    → Ordered 0 es now
    → (record_failure (run new es) k now).1 ≡ leb 3 (length (recent k now es))
unfolding record_failure
record_failure-run es k now o = ground (
  arith,
  run-window new es,
  run-max new es,
  new_window,
  new_max,
  run-Tracks 600000 new [] 0 now es k new-Tracks o,
  length-append (live (run new es).window_duration now (stored (run new es) k)) (now ∷ []),
)
