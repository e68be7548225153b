-- ===== src/RateLimiter/Examples.antt =====
-- The limiter of src/relay/ratelimit.rs with two events in a minute.
use ilink_hub.Base.{◌≡◌, refl, codes, [], ◌∷◌, arith}
use ilink_hub.Base.Map.{lookup}
use ilink_hub.RateLimiter.{RateLimiter, new}
use ilink_hub.RateLimiter.Window.{granted, granted_window}

abbrev limiter : RateLimiter
limiter = new 2 60

granted_window_example : granted (codes "a") (7 ∷ 8 ∷ 9 ∷ []) limiter ≡ 2
unfolding lookup
granted_window_example =
    granted_window 7 (codes "a") (8 ∷ 9 ∷ []) limiter refl (omega arith)
      (omega arith, (omega arith, tt))
