-- ===== src/Security/RateLimit.antt =====
-- src/security/rate_limit.rs: the limiter of messages per peer. The clock, in milliseconds, is
-- an argument.
pub mod Window
use stellarconduit_core.Prelude.{
  ℕ, ◌+◌, ◌-◌, [], Bytes, Bool, true, false, Option, none, some, if◌then◌else◌, leb,
}
use stellarconduit_core.Prelude.HashMap
use stellarconduit_core.Prelude.HashMap.{HashMap}
use stellarconduit_core.Metrics.{Metrics, fetch_add}

pub record PeerBucket : Type 0 where
  pub count : ℕ
  pub window_start_ms : ℕ

pub record RateLimiter : Type 0 where
  pub capacity : ℕ
  pub window_ms : ℕ
  pub buckets : HashMap PeerBucket
  pub metrics : Metrics

unfoldable pub new : ℕ → ℕ → Metrics → RateLimiter
new capacity window_ms metrics = record {
  capacity = capacity;
  window_ms = window_ms;
  buckets = [];
  metrics = metrics;
}

-- `entry(*peer).or_insert(..)`.
abbrev pub or_insert : Option PeerBucket → ℕ → PeerBucket
or_insert none now = record { count = 0; window_start_ms = now }
or_insert (some b) now = b

-- A new window where the old one is over.
abbrev pub roll : ℕ → PeerBucket → ℕ → PeerBucket
roll window_ms b now =
    if leb window_ms (now - b.window_start_ms)
    then record { count = 0; window_start_ms = now }
    else b

unfoldable pub check_and_record : RateLimiter → Bytes → ℕ → RateLimiter × Bool
check_and_record l peer now =
    let bucket = roll l.window_ms (or_insert (HashMap.get peer l.buckets) now) now in
    if leb l.capacity bucket.count
    then (
      record l {
        buckets = HashMap.insert peer bucket l.buckets;
        metrics = record l.metrics {
          messages_rate_limited = fetch_add l.metrics.messages_rate_limited 1;
          peer_violations_recorded = fetch_add l.metrics.peer_violations_recorded 1;
        };
      },
      false,
    )
    else (
      record l {
        buckets = HashMap.insert peer (record bucket { count = bucket.count + 1 }) l.buckets;
      },
      true,
    )
