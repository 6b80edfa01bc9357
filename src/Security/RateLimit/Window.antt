-- ===== src/Security/RateLimit/Window.antt =====
-- src/security/rate_limit.rs: how many messages of a peer pass in any stretch of time.
use stellarconduit_core.Prelude.{
  ℕ, ◌+◌, ◌*◌, ◌≤◌, List, [], ◌∷◌, Bytes, Bool, true, false, Option, none, some, ◌≡◌, refl, arith,
  ◌⊎◌, if◌then◌else◌, leb, ltb, ◌&&◌, bytes_eq, bytes_eq_iff, bytes_eq_refl, Bool-cases, inl, inr,
}
use stellarconduit_core.Prelude.HashMap
use stellarconduit_core.Prelude.HashMap.{get-insert}
use stellarconduit_core.Metrics.{Metrics}
use stellarconduit_core.Security.RateLimit.{
  new, PeerBucket, RateLimiter, or_insert, roll, check_and_record,
}

-- The clock of the calls does not run backwards.
abbrev pub Ordered : ℕ → List (ℕ × Bytes) → Type 0
Ordered last [] = Unit {0}
Ordered last (e ∷ es) = (last ≤ e.0) × Ordered e.0 es

-- 1 for a message of `k` that passes at a time in `[t, t + w)`.
abbrev hit : Bool → Bytes → ℕ → ℕ → ℕ × Bytes → ℕ
hit passed k t w e = if passed && bytes_eq e.1 k && leb t e.0 && ltb e.0 (t + w) then 1 else 0

-- How many messages of `k` pass at times in `[t, t + window_ms)`.
pub passed : RateLimiter → Bytes → ℕ → List (ℕ × Bytes) → ℕ
passed l k t [] = 0
passed l k t (e ∷ es) =
    hit (check_and_record l e.1 e.0).1 k t l.window_ms e
    + passed (check_and_record l e.1 e.0).0 k t es

bucket : RateLimiter → Bytes → Option PeerBucket
bucket l k = HashMap.get k l.buckets

same_limits :
    (l : RateLimiter) (j : Bytes) (now : ℕ)
    → ((check_and_record l j now).0.capacity ≡ l.capacity)
      × ((check_and_record l j now).0.window_ms ≡ l.window_ms)
unfolding check_and_record
same_limits l j now = ground arith

-- A call of another peer leaves the bucket alone.
bucket-other :
    (l : RateLimiter) (j k : Bytes) (now : ℕ)
    → bytes_eq j k ≡ false
    → bucket (check_and_record l j now).0 k ≡ bucket l k
unfolding check_and_record bucket
bucket-other l j k now h =
    let b = roll l.window_ms (or_insert (HashMap.get j l.buckets) now) now in
    ground (
      arith,
      get-insert j k b l.buckets,
      get-insert j k (record b { count = b.count + 1 }) l.buckets,
    )

-- The bucket that a call sees, and what it leaves: one more in the bucket exactly where it passes.
bucket-same :
    (l : RateLimiter) (k : Bytes) (now : ℕ)
    → let b = roll l.window_ms (or_insert (bucket l k) now) now in
      ((leb l.capacity b.count ≡ true)
        × ((check_and_record l k now).1 ≡ false)
        × (bucket (check_and_record l k now).0 k ≡ some b))
      ⊎ ((leb l.capacity b.count ≡ false)
          × ((check_and_record l k now).1 ≡ true)
          × (bucket (check_and_record l k now).0 k ≡ some (record b { count = b.count + 1 })))
unfolding check_and_record bucket
bucket-same l k now =
    let b = roll l.window_ms (or_insert (HashMap.get k l.buckets) now) now in
    ground (
      arith,
      get-insert k k b l.buckets,
      get-insert k k (record b { count = b.count + 1 }) l.buckets,
      bytes_eq_refl k,
    )

-- Nothing passes in the stretch once it is over.
passed_over :
    (es : List (ℕ × Bytes)) (l : RateLimiter) (k : Bytes) (t now : ℕ)
    → Ordered now es
    → t + l.window_ms ≤ now
    → passed l k t es ≡ 0
unfolding passed
passed_over [] l k t now o h = refl
passed_over (e ∷ es) l k t now o h =
    let l' = (check_and_record l e.1 e.0).0 in
    ground (arith, same_limits l e.1 e.0, passed_over es l' k t e.0)

-- The bucket of a peer is no fuller than the capacity, and its window has begun.
abbrev IsGood : ℕ → ℕ → Option PeerBucket → Type 0
IsGood capacity now none = Unit {0}
IsGood capacity now (some b) = (b.count ≤ capacity) × (b.window_start_ms ≤ now)

check_and_record-IsGood :
    (l : RateLimiter) (j k : Bytes) (last now : ℕ)
    → last ≤ now
    → IsGood l.capacity last (bucket l k)
    → IsGood l.capacity now (bucket (check_and_record l j now).0 k)
check_and_record-IsGood l j k last now h g = elim (Bool-cases (bytes_eq j k)) [
  | inl e ↦ ground (arith, bytes_eq_iff j k, bucket-same l k now)
  | inr e ↦ ground (arith, bucket-other l j k now e)
]

-- In a window that began in the stretch, the bucket counts what passes.
passed_inside :
    (es : List (ℕ × Bytes)) (l : RateLimiter) (k : Bytes) (t now : ℕ) (b : PeerBucket)
    → Ordered now es
    → bucket l k ≡ some b
    → t ≤ b.window_start_ms
    → IsGood l.capacity now (some b)
    → passed l k t es + b.count ≤ l.capacity
unfolding passed
passed_inside [] l k t now b o e s g = omega (arith, g.0)
passed_inside ((u, j) ∷ es) l k t now b o e s g = elim (Bool-cases (leb (t + l.window_ms) u)) [
  | inl over ↦ ground (arith, passed_over ((u, j) ∷ es) l k t u)
  | inr open_still ↦ elim (Bool-cases (bytes_eq j k)) [
    | inl same ↦
        let l' = (check_and_record l k u).0 in
        ground (
          arith,
          bytes_eq_iff j k,
          bucket-same l k u,
          same_limits l k u,
          passed_inside es l' k t u b,
          passed_inside es l' k t u (record b { count = b.count + 1 }),
        )
    | inr other ↦
        let l' = (check_and_record l j u).0 in
        ground (arith, bucket-other l j k u other, same_limits l j u, passed_inside es l' k t u b)
  ]
]

-- In the window that is open when the stretch begins, and in the one that may follow.
passed_open :
    (es : List (ℕ × Bytes)) (l : RateLimiter) (k : Bytes) (t now : ℕ) (b : PeerBucket)
    → Ordered now es
    → bucket l k ≡ some b
    → t ≤ now
    → IsGood l.capacity now (some b)
    → passed l k t es + b.count ≤ l.capacity + l.capacity
unfolding passed
passed_open [] l k t now b o e s g = omega (arith, g.0)
passed_open ((u, j) ∷ es) l k t now b o e s g = elim (Bool-cases (bytes_eq j k)) [
  | inl same ↦
      let l' = (check_and_record l k u).0 in
      let fresh : PeerBucket = record { count = 0; window_start_ms = u } in
      ground (
        arith,
        bytes_eq_iff j k,
        bucket-same l k u,
        same_limits l k u,
        passed_inside es l' k t u fresh,
        passed_inside es l' k t u (record fresh { count = 1 }),
        passed_open es l' k t u b,
        passed_open es l' k t u (record b { count = b.count + 1 }),
      )
  | inr other ↦
      let l' = (check_and_record l j u).0 in
      ground (arith, bucket-other l j k u other, same_limits l j u, passed_open es l' k t u b)
]

passed_any :
    (es : List (ℕ × Bytes)) (l : RateLimiter) (k : Bytes) (t now : ℕ)
    → Ordered now es
    → IsGood l.capacity now (bucket l k)
    → passed l k t es ≤ l.capacity + l.capacity
unfolding passed
passed_any [] l k t now o g = omega arith
passed_any ((u, j) ∷ es) l k t now o g = elim (Bool-cases (bytes_eq j k)) [
  | inl same ↦
      let l' = (check_and_record l k u).0 in
      let b = roll l.window_ms (or_insert (bucket l k) u) u in
      ground (
        arith,
        bytes_eq_iff j k,
        bucket-same l k u,
        same_limits l k u,
        check_and_record-IsGood l k k now u,
        passed_open es l' k t u b,
        passed_open es l' k t u (record b { count = b.count + 1 }),
        passed_any es l' k t u,
      )
  | inr other ↦
      let l' = (check_and_record l j u).0 in
      ground (arith, check_and_record-IsGood l j k now u, same_limits l j u, passed_any es l' k t u)
]

bucket-new :
    (capacity window_ms : ℕ) (m : Metrics) (k : Bytes) → bucket (new capacity window_ms m) k ≡ none
unfolding new bucket HashMap.get
bucket-new capacity window_ms m k = refl

-- Over any calls with a clock that does not run backwards, no more messages of a peer pass within
-- a stretch of the window's length, wherever it begins, than twice the capacity.
pub passed-new-le :
    (capacity window_ms : ℕ) (m : Metrics) (k : Bytes) (t : ℕ) (es : List (ℕ × Bytes))
    → Ordered 0 es
    → passed (new capacity window_ms m) k t es ≤ 2 * capacity
unfolding new
passed-new-le capacity window_ms m k t es o =
    omega (arith, passed_any es (new capacity window_ms m) k t 0 o new-IsGood)
  where
    new-IsGood : IsGood capacity 0 (bucket (new capacity window_ms m) k)
    new-IsGood = rw (bucket-new capacity window_ms m k) tt
