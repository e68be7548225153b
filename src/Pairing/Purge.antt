-- ===== src/Pairing/Purge.antt =====
-- What `purge_expired` of src/hub/pairing.rs leaves, and the sessions that the calls can build.
use ilink_hub.Base.{ℕ, ◌≤◌, ◌≡◌, Text, ltb, not, length, arith, ◌+◌}
use ilink_hub.Base.Map.{lookup, lookup-retain, keep_if, length-retain-le}
use ilink_hub.Pairing.{PairingRegistry, elapsed, confirmed_ttl, should_evict, purge_expired}

pub lookup-purge_expired :
    (now : ℕ) (code : Text) (r : PairingRegistry)
    → (lookup code (purge_expired now r).sessions
        ≡ keep_if (λ s. not (should_evict now s)) (lookup code r.sessions))
      × (lookup code (purge_expired now r).confirmed_sessions
          ≡ keep_if (λ e. ltb (elapsed now e.1) confirmed_ttl) (lookup code r.confirmed_sessions))
unfolding purge_expired
lookup-purge_expired now code r =
    (lookup-retain _ code r.sessions, lookup-retain _ code r.confirmed_sessions)

unfoldable pub size : PairingRegistry → ℕ
size r = length r.sessions + length r.confirmed_sessions

pub size-purge_expired-le : (now : ℕ) (r : PairingRegistry) → size (purge_expired now r) ≤ size r
unfolding purge_expired size
size-purge_expired-le now r = omega (
  arith,
  length-retain-le (λ s. not (should_evict now s)) r.sessions,
  length-retain-le (λ e. ltb (elapsed now e.1) confirmed_ttl) r.confirmed_sessions,
)
