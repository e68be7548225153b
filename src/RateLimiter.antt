-- ===== src/RateLimiter.antt =====
-- src/relay/ratelimit.rs: the limiter of events per key in fixed windows. Instants and the window
-- are nanoseconds; a call is given the time that it reads.
pub mod Window
mod Examples
use ilink_hub.Base.{
  ℕ, ◌+◌, ◌-◌, ◌*◌, ◌^◌, Text, List, [], ◌∷◌, Option, none, some, Bool, true, false, ltb, leb, not,
  if◌then◌else◌, get_or, length,
}
use ilink_hub.Base.Map.{Map, lookup, insert, retain}

pub record Bucket : Type 0 where
  pub count : ℕ
  pub window_start : ℕ

pub record RateLimiter : Type 0 where
  pub buckets : Map Bucket
  pub max_events : ℕ
  pub window : ℕ

abbrev pub new : ℕ → ℕ → RateLimiter
new max_events window_secs = record {
  buckets = [];
  max_events = max_events;
  window = window_secs * 10 ^ 9;
}

abbrev pub opened : ℕ → Bucket
opened now = record { count = 0; window_start = now }

-- `now.duration_since(window_start) >= window`; the difference saturates.
abbrev pub is_over : ℕ → ℕ → Bucket → Bool
is_over window now b = leb window (now - b.window_start)

-- The bucket of a key, made or reset as the call does.
unfoldable pub current : ℕ → Text → RateLimiter → Bucket
current now key r =
    let b = get_or (lookup key r.buckets) (opened now) in
    if is_over r.window now b then opened now else b

abbrev pub count_one : Bucket → Bucket
count_one b = record b { count = b.count + 1 }

-- The eviction of stale keys.
unfoldable pub evict : ℕ → ℕ → Map Bucket → Map Bucket
evict window now m = if ltb 10000 (length m) then retain (λ b. not (is_over window now b)) m else m

unfoldable pub allow : ℕ → Text → RateLimiter → RateLimiter × Bool
allow now key r =
    let b = current now key r in
    if leb r.max_events b.count
    then (record r { buckets = insert key b r.buckets }, false)
    else (record r { buckets = evict r.window now (insert key (count_one b) r.buckets) }, true)
