-- ===== src/RateLimiter/Window.antt =====
-- What the limiter of src/relay/ratelimit.rs grants to a key.
use ilink_hub.Base.{
  ℕ, ◌+◌, ◌-◌, ◌<◌, ◌≤◌, ◌≡◌, refl, ◌∙◌, Text, text_eq, text_eq_refl, List, [], ◌∷◌, none, some,
  Bool, true, false, ltb, not, arith, if◌then◌else◌, length, All, min, Bool-cases, inl, inr,
}
use ilink_hub.Base.Map.{Map, lookup, insert, keep_if, lookup-insert, lookup-retain}
use ilink_hub.RateLimiter.{Bucket, RateLimiter, opened, is_over, current, count_one, evict, allow}

-- The events of a key that count at a time.
abbrev pub used : ℕ → Text → RateLimiter → ℕ
used now key r = elim (lookup key r.buckets) [
  | none ↦ 0
  | some b ↦ if is_over r.window now b then 0 else b.count
]

-- Eviction takes away only buckets whose window is over.
lookup-evict :
    (window now : ℕ) (key : Text) (m : Map Bucket)
    → lookup key (evict window now m) ≡ (
        if ltb 10000 (length m)
        then keep_if (λ b. not (is_over window now b)) (lookup key m)
        else lookup key m)
unfolding evict
lookup-evict window now key m =
    ground (arith, lookup-retain (λ b. not (is_over window now b)) key m)

-- A call for one key, evictions included, never changes what counts for another key at that time
-- or later.
pub allow-used_other :
    (now later : ℕ) (key other : Text) (r : RateLimiter)
    → text_eq key other ≡ false
    → now ≤ later
    → used later other (allow now key r).0 ≡ used later other r
unfolding allow
allow-used_other now later key other r apart order =
    let b = current now key r in
    ground (
      arith,
      apart,
      order,
      lookup-insert key other b r.buckets,
      lookup-insert key other (count_one b) r.buckets,
      lookup-evict r.window now other (insert key (count_one b) r.buckets),
    )

-- The number of granted calls among those of one key at the times of a list.
unfoldable pub granted : Text → List ℕ → RateLimiter → ℕ
granted key [] r = 0
granted key (t ∷ ts) r = let (r', ok) = allow t key r in (if ok then 1 else 0) + granted key ts r'

allow-bucket :
    (t : ℕ) (key : Text) (b : Bucket) (r : RateLimiter)
    → lookup key r.buckets ≡ some b
    → t - b.window_start < r.window
    → ((allow t key r).1 ≡ ltb b.count r.max_events)
      × ((allow t key r).0.max_events ≡ r.max_events)
      × ((allow t key r).0.window ≡ r.window)
      × (lookup key (allow t key r).0.buckets
          ≡ some (if ltb b.count r.max_events then count_one b else b))
unfolding allow current
allow-bucket t key b r held inside = ground (
  arith,
  held,
  inside,
  text_eq_refl key,
  lookup-insert key key b r.buckets,
  lookup-insert key key (count_one b) r.buckets,
  lookup-evict r.window t key (insert key (count_one b) r.buckets),
)

granted-bucket :
    (key : Text) (ts : List ℕ) (w : ℕ) (b : Bucket) (r : RateLimiter)
    → r.window ≡ w
    → lookup key r.buckets ≡ some b
    → b.count ≤ r.max_events
    → All (λ t. t - b.window_start < w) ts
    → granted key ts r ≡ min (length ts) (r.max_events - b.count)
unfolding granted
granted-bucket key [] w b r same held below inside = omega arith
granted-bucket key (t ∷ ts) w b r same held below (first, rest) =
    let (answer, cap, span, stored) = allow-bucket t key b r held (omega arith) in
    elim (Bool-cases (ltb b.count r.max_events)) [
      | inl room ↦
          let next =
            granted-bucket key ts w (count_one b) (allow t key r).0 (span ∙ same)
              (stored ∙ rw room refl) (ground (arith, cap, room)) rest in
          ground (arith, answer, cap, room, next)
      | inr full ↦
          let next =
            granted-bucket key ts w b (allow t key r).0 (span ∙ same) (stored ∙ rw full refl)
              (ground (arith, cap, below)) rest in
          ground (arith, answer, cap, full, below, next)
    ]

-- Whether no window of a key runs at a time.
abbrev pub is_unused : ℕ → Text → RateLimiter → Bool
is_unused now key r = elim (lookup key r.buckets) [ none ↦ true | some b ↦ is_over r.window now b ]

allow-opened :
    (now : ℕ) (key : Text) (r : RateLimiter)
    → is_unused now key r ≡ true
    → 0 < r.window
    → ((allow now key r).1 ≡ ltb 0 r.max_events)
      × ((allow now key r).0.max_events ≡ r.max_events)
      × ((allow now key r).0.window ≡ r.window)
      × (lookup key (allow now key r).0.buckets
          ≡ some (if ltb 0 r.max_events then count_one (opened now) else opened now))
unfolding allow current
allow-opened now key r fresh spans = ground (
  arith,
  fresh,
  spans,
  text_eq_refl key,
  lookup-insert key key (opened now) r.buckets,
  lookup-insert key key (count_one (opened now)) r.buckets,
  lookup-evict r.window now key (insert key (count_one (opened now)) r.buckets),
)

-- Where the window of a limiter is not empty and none runs for a key, a call opens one: of that
-- call and any calls for the key that fall in this window, in whatever order they read the clock,
-- as many are granted as there are, but no more than `max_events`.
pub granted_window :
    (now : ℕ) (key : Text) (ts : List ℕ) (r : RateLimiter)
    → is_unused now key r ≡ true
    → 0 < r.window
    → All (λ t. t - now < r.window) ts
    → granted key (now ∷ ts) r ≡ min (length ts + 1) r.max_events
unfolding granted
granted_window now key ts r fresh spans inside =
    let (answer, cap, span, stored) = allow-opened now key r fresh spans in
    elim (Bool-cases (ltb 0 r.max_events)) [
      | inl room ↦
          let next =
            granted-bucket key ts r.window (count_one (opened now)) (allow now key r).0 span
              (stored ∙ rw room refl) (ground (arith, cap, room)) inside in
          ground (arith, answer, cap, room, next)
      | inr full ↦
          let next =
            granted-bucket key ts r.window (opened now) (allow now key r).0 span
              (stored ∙ rw full refl) (omega arith) inside in
          ground (arith, answer, cap, full, next)
    ]
