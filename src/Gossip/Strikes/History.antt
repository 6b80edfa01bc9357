-- ===== src/Gossip/Strikes/History.antt =====
-- src/gossip/strike_tracker.rs: any sequence of failures, clearings and cleanups, and the full
-- history of failures that the tracker is compared with.
use mathlib.Core.Option
use stellarconduit_core.Prelude.{
  ℕ, ◌-◌, ◌≤◌, List, [], ◌∷◌, ◌++◌, Bytes, not, Option, none, some, ◌≡◌, refl, ap, sym, ◌∙◌, leb,
  arith, retain, retain-append, if◌then◌else◌, bytes_eq, bytes_eq_iff, Bool-cases, inl, inr,
  append-nil,
}
use stellarconduit_core.Prelude.HashMap
use stellarconduit_core.Prelude.HashMap.{
  HashMap, map_values, Unique, get-insert, get-remove, get-retain, get-map_values, kept,
  insert-Unique, remove-Unique, retain-Unique, map_values-Unique,
}
use stellarconduit_core.Gossip.Strikes.{
  StrikeTracker, live, or_default, record_failure, clear_peer, cleanup, is_empty,
}

pub data Event : Type 0 where
  fails clears : Bytes → Event
  cleans : Event

step : StrikeTracker → ℕ × Event → StrikeTracker
step s (now, fails k) = (record_failure s k now).0
step s (now, clears k) = clear_peer s k
step s (now, cleans) = cleanup s now

pub run : StrikeTracker → List (ℕ × Event) → StrikeTracker
run s [] = s
run s (e ∷ es) = run (step s e) es

-- Every failure so far, but for those of a peer that were cleared. Nothing is pruned.
abbrev note : List (Bytes × ℕ) → ℕ × Event → List (Bytes × ℕ)
note h (now, fails k) = h ++ (k, now) ∷ []
note h (now, clears k) = retain (λ x. not (bytes_eq x.0 k)) h
note h (now, cleans) = h

abbrev pub history : List (Bytes × ℕ) → List (ℕ × Event) → List (Bytes × ℕ)
history h [] = h
history h (e ∷ es) = history (note h e) es

abbrev pub times : Bytes → List (Bytes × ℕ) → List ℕ
times k [] = []
times k ((j, t) ∷ h) = let rest = times k h in if bytes_eq j k then t ∷ rest else rest

-- The clock does not run backwards, up to `now`.
abbrev pub Ordered : ℕ → List (ℕ × Event) → ℕ → Type 0
Ordered last [] now = last ≤ now
Ordered last (e ∷ es) now = (last ≤ e.0) × Ordered e.0 es now

abbrev pub stored : StrikeTracker → Bytes → List ℕ
stored s k = or_default (HashMap.get k s.failures)

pub record Tracks (w : ℕ) (s : StrikeTracker) (h : List (Bytes × ℕ)) (last : ℕ) : Type 0 where
  pub window : s.window_duration ≡ w
  pub unique : Unique s.failures
  pub same : (k : Bytes) (now : ℕ) → last ≤ now → live w now (stored s k) ≡ live w now (times k h)

live-live : (w t now : ℕ) (ts : List ℕ) → t ≤ now → live w now (live w t ts) ≡ live w now ts
live-live w t now [] h = refl
live-live w t now (x ∷ ts) h = ground (arith, live-live w t now ts h)

times-append : (k : Bytes) (h g : List (Bytes × ℕ)) → times k (h ++ g) ≡ times k h ++ times k g
times-append k [] g = refl
times-append k ((j, t) ∷ h) g = ground (arith, times-append k h g)

times-clear :
    (k j : Bytes) (h : List (Bytes × ℕ))
    → times j (retain (λ x. not (bytes_eq x.0 k)) h) ≡ (if bytes_eq k j then [] else times j h)
times-clear k j [] = ground arith
times-clear k j ((i, t) ∷ h) =
    ground (arith, bytes_eq_iff k j, bytes_eq_iff i k, bytes_eq_iff i j, times-clear k j h)

stored-record_failure :
    (s : StrikeTracker) (k j : Bytes) (now : ℕ)
    → stored (record_failure s k now).0 j
      ≡ (if bytes_eq k j then live s.window_duration now (stored s k) ++ now ∷ [] else stored s j)
unfolding record_failure
stored-record_failure s k j now =
    ground (arith, get-insert k j (live s.window_duration now (stored s k) ++ now ∷ []) s.failures)

or_default-kept :
    (w now : ℕ) (k : Bytes) (o : Option (List ℕ))
    → or_default (kept (λ e. not (is_empty e.1)) k (Option.map (live w now) o))
      ≡ live w now (or_default o)
or_default-kept w now k none = refl
or_default-kept w now k (some ts) = ground arith

stored-cleanup :
    (s : StrikeTracker) (k : Bytes) (now : ℕ)
    → Unique s.failures
    → stored (cleanup s now) k ≡ live s.window_duration now (stored s k)
unfolding cleanup
stored-cleanup s k now u =
    let f = live s.window_duration now in
    ap or_default (get-retain _ k (map_values f s.failures) (map_values-Unique f s.failures u))
    ∙ ap (λ o. or_default (kept (λ e. not (is_empty e.1)) k o)) (get-map_values f k s.failures)
    ∙ or_default-kept s.window_duration now k (HashMap.get k s.failures)

fails-split :
    (w : ℕ) (s : StrikeTracker) (h : List (Bytes × ℕ)) (last t : ℕ) (k j : Bytes) (now : ℕ)
    → Tracks w s h last
    → last ≤ t
    → t ≤ now
    → live w now
        (if bytes_eq k j then live s.window_duration t (stored s k) ++ t ∷ [] else stored s j)
      ≡ live w now (times j h ++ times j ((k, t) ∷ []))
fails-split w s h last t k j now T a b = elim (Bool-cases (bytes_eq k j)) [
  | inl e ↦ rw (
    e,
    ← (bytes_eq_iff k j).0 e,
    T.window,
    retain-append (λ x. leb (now - x) w) (live w t (stored s k)) (t ∷ []),
    retain-append (λ x. leb (now - x) w) (times k h) (t ∷ []),
    live-live w t now (stored s k) b,
    T.same k now (omega arith),
  )
  | inr e ↦ rw (e, append-nil (times j h)) (T.same j now (omega arith))
]

fails-same :
    (w : ℕ) (s : StrikeTracker) (h : List (Bytes × ℕ)) (last t : ℕ) (k j : Bytes) (now : ℕ)
    → Tracks w s h last
    → last ≤ t
    → t ≤ now
    → live w now (stored (record_failure s k t).0 j) ≡ live w now (times j (h ++ (k, t) ∷ []))
fails-same w s h last t k j now T a b =
    ap (live w now) (stored-record_failure s k j t)
    ∙ fails-split w s h last t k j now T a b
    ∙ sym (ap (live w now) (times-append j h ((k, t) ∷ [])))

clears-same :
    (w : ℕ) (s : StrikeTracker) (h : List (Bytes × ℕ)) (last : ℕ) (k j : Bytes) (now : ℕ)
    → Tracks w s h last
    → last ≤ now
    → live w now (stored (clear_peer s k) j)
      ≡ live w now (times j (retain (λ x. not (bytes_eq x.0 k)) h))
unfolding clear_peer
clears-same w s h last k j now T a =
    ground (arith, get-remove k j s.failures, times-clear k j h, T.same j now a)

cleans-same :
    (w : ℕ) (s : StrikeTracker) (h : List (Bytes × ℕ)) (last t : ℕ) (j : Bytes) (now : ℕ)
    → Tracks w s h last
    → last ≤ t
    → t ≤ now
    → live w now (stored (cleanup s t) j) ≡ live w now (times j h)
cleans-same w s h last t j now T a b = ground (
  arith,
  T.window,
  stored-cleanup s j t T.unique,
  live-live w t now (stored s j) b,
  T.same j now (omega arith),
)

step-Tracks :
    (w : ℕ) (s : StrikeTracker) (h : List (Bytes × ℕ)) (last : ℕ) (e : ℕ × Event)
    → Tracks w s h last
    → last ≤ e.0
    → Tracks w (step s e) (note h e) e.0
unfolding step record_failure clear_peer cleanup
step-Tracks w s h last (t, fails k) T a = record {
  window = T.window;
  unique = insert-Unique k _ s.failures T.unique;
  same = λ j now b. fails-same w s h last t k j now T a b;
}
step-Tracks w s h last (t, clears k) T a = record {
  window = T.window;
  unique = remove-Unique k s.failures T.unique;
  same = λ j now b. clears-same w s h last k j now T (omega arith);
}
step-Tracks w s h last (t, cleans) T a = record {
  window = T.window;
  unique = retain-Unique _ _ (map_values-Unique _ s.failures T.unique);
  same = λ j now b. cleans-same w s h last t j now T a b;
}

pub run-Tracks :
    (w : ℕ) (s : StrikeTracker) (h : List (Bytes × ℕ)) (last now : ℕ) (es : List (ℕ × Event))
    (k : Bytes)
    → Tracks w s h last
    → Ordered last es now
    → live w now (stored (run s es) k) ≡ live w now (times k (history h es))
unfolding run
run-Tracks w s h last now [] k T o = T.same k now o
run-Tracks w s h last now (e ∷ es) k T o =
    run-Tracks w (step s e) (note h e) e.0 now es k (step-Tracks w s h last e T o.0) o.1

pub run-window :
    (s : StrikeTracker) (es : List (ℕ × Event)) → (run s es).window_duration ≡ s.window_duration
unfolding run step record_failure clear_peer cleanup
run-window s [] = refl
run-window s ((t, fails k) ∷ es) = run-window (record_failure s k t).0 es
run-window s ((t, clears k) ∷ es) = run-window (clear_peer s k) es
run-window s ((t, cleans) ∷ es) = run-window (cleanup s t) es

pub run-max : (s : StrikeTracker) (es : List (ℕ × Event)) → (run s es).max_strikes ≡ s.max_strikes
unfolding run step record_failure clear_peer cleanup
run-max s [] = refl
run-max s ((t, fails k) ∷ es) = run-max (record_failure s k t).0 es
run-max s ((t, clears k) ∷ es) = run-max (clear_peer s k) es
run-max s ((t, cleans) ∷ es) = run-max (cleanup s t) es
