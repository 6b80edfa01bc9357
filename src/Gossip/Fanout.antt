-- ===== src/Gossip/Fanout.antt =====
-- src/gossip/fanout.rs: how many peers a round sends to, and which. The logarithm of an `f64` and
-- the random choice (the crate rand) are parameters.
use stellarconduit_core.Prelude.{
  In, ℕ, ◌≤◌, min, max, List, [], ◌∷◌, Bool, true, false, Option, none, some, ◌≡◌, if◌then◌else◌,
  leb, ltb, ◌==◌, ◌&&◌, length, arith,
}

abbrev pub min_fanout : ℕ
min_fanout = 2

abbrev pub max_fanout : ℕ
max_fanout = 6

abbrev pub fallback_fanout : ℕ
fallback_fanout = 3

pub record FanoutCalculator : Type 0 where
  pub min_fanout : ℕ
  pub max_fanout : ℕ

unfoldable pub new : FanoutCalculator
new = record { min_fanout = min_fanout; max_fanout = max_fanout }

abbrev is_none : Option ℕ → Bool
is_none none = true
is_none (some n) = false

-- `Ord::clamp`, for `lo <= hi`.
abbrev clamp : ℕ → ℕ → ℕ → ℕ
clamp lo hi n = if ltb n lo then lo else if ltb hi n then hi else n

-- `(n as f64).ln().ceil() as usize` is the parameter `ln_ceil`.
module _ (ln_ceil : ℕ → ℕ) where
  abbrev target : Option ℕ → ℕ → ℕ
  target (some estimated_size) active = ln_ceil (max estimated_size 1)
  target none active = active

  unfoldable pub calculate : FanoutCalculator → ℕ → Option ℕ → ℕ
  calculate f active mesh_estimated_size =
      if leb active f.min_fanout
      then active
      else if is_none mesh_estimated_size && ltb f.max_fanout active
      then min fallback_fanout active
      else min (clamp f.min_fanout f.max_fanout (target mesh_estimated_size active)) active

  unfoldable pub calculate_target : FanoutCalculator → ℕ → ℕ
  unfolding calculate
  calculate_target f active = calculate f active none

  -- The standard fanout never exceeds the active connections nor 6, and is at least 2, or all of the
  -- connections where these are fewer.
  pub calculate-new_bounds :
      (active : ℕ) (size : Option ℕ)
      → (calculate new active size ≤ min active 6) × (min active 2 ≤ calculate new active size)
  unfolding calculate new
  calculate-new_bounds active size = ground arith

-- What `choose_multiple` picks: as a parameter, a function of the slice and the amount.
abbrev pub Choice : Type 0 → Type 0
Choice A = ℕ → List A → List A

-- Documented of it: that many items of the slice.
pub record Chooses {A : Type 0} (choose : Choice A) : Type 0 where
  pub amount : (n : ℕ) (xs : List A) → n ≤ length xs → length (choose n xs) ≡ n
  pub In-choose : (n : ℕ) (xs : List A) (x : A) → In x (choose n xs) → In x xs

module _ {A : Type 0} (choose : Choice A) where
  -- `select_random_peers`, and the method `select_random`.
  unfoldable pub select_random : List A → ℕ → List A
  select_random [] f = []
  select_random (p ∷ ps) f = if f == 0 then [] else choose (min f (length (p ∷ ps))) (p ∷ ps)

  -- The selection has `f` of the peers, or all of them where they are fewer.
  pub length-select_random :
      (laws : Chooses choose) (peers : List A) (f : ℕ)
      → length (select_random peers f) ≡ min f (length peers)
  unfolding select_random
  length-select_random laws [] f = ground arith
  length-select_random laws (p ∷ ps) f =
      ground (arith, laws.amount (min f (length (p ∷ ps))) (p ∷ ps) (ground arith))

  pub In-select_random :
      (laws : Chooses choose) (peers : List A) (f : ℕ) (x : A)
      → In x (select_random peers f)
      → In x peers
  unfolding select_random
  In-select_random laws [] f x m = m
  In-select_random laws (p ∷ ps) f x m =
      ground (arith, laws.In-choose (min f (length (p ∷ ps))) (p ∷ ps) x)
