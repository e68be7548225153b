-- ===== src/Pairing.antt =====
-- src/hub/pairing.rs: pairing sessions from the QR code to the claimed token. Instants are
-- nanoseconds. Each call is given the clock readings that it makes, the random code or CSRF token
-- that it draws, and returns the new registry.
mod Session
pub mod Purge
pub mod Confirm
pub mod Claim
pub mod Compare
pub mod Lifecycle
pub mod Sessions
pub mod Runs
pub mod Roundtrip
mod Examples
use ilink_hub.Base.{
  ℕ, suc, ◌+◌, ◌-◌, ◌*◌, ◌^◌, Text, codes, text_eq, List, [], ◌∷◌, ◌++◌, Option, none, some, Bool,
  true, false, ltb, leb, ◌==◌, not, is_some, if◌then◌else◌, length,
}
use ilink_hub.Base.Map.{Map, lookup, contains_key, insert, remove, modify, retain}
use ilink_hub.Base.Utf8.{as_bytes}
pub use Session.{
  seconds, pairing_ttl, scanned_ttl, confirmed_ttl, vtoken_claim_window, PairingStatus, status_eq,
  PairingSession, elapsed, scan_timed_out, public_status, status_str, csrf_matches, wait, scanned,
  confirmed, expired,
}
unfoldable pub use Session.{
  is_expired, should_evict, new_session, scan, gather, constant_time_eq, confirmed_as,
}

abbrev pub max_pairing_sessions : ℕ
max_pairing_sessions = 1024

pub data PairingError : Type 0 where
  not_found session_expired already_confirmed not_scanned csrf_mismatch too_many_sessions
        name_collision :
      PairingError

pub data Result {ℓ} (A : Type ℓ) : Type ℓ where
  ok : A → Result A
  err : PairingError → Result A

-- `sessions`, and `confirmed_sessions` with the time of confirmation.
pub record PairingRegistry : Type 0 where
  pub sessions : Map PairingSession
  pub confirmed_sessions : Map (PairingSession × ℕ)

-- The readings of one call: for `purge_expired`, for its own tests, and for what it stores.
pub record Clock : Type 0 where
  pub at_purge : ℕ
  pub at_check : ℕ
  pub at_store : ℕ

unfoldable pub purge_expired : ℕ → PairingRegistry → PairingRegistry
purge_expired now r = record {
  sessions = retain (λ s. not (should_evict now s)) r.sessions;
  confirmed_sessions = retain (λ e. ltb (elapsed now e.1) confirmed_ttl) r.confirmed_sessions;
}

-- `uuid` is the drawn identifier.
unfoldable pub create : Clock → Text → PairingRegistry → PairingRegistry × Result Text
create t uuid r =
    let p = purge_expired t.at_purge r in
    let code = codes "pair_" ++ uuid in
    if leb max_pairing_sessions (length p.sessions + length p.confirmed_sessions)
    then (p, err too_many_sessions)
    else (record p { sessions = insert code (new_session code t.at_store) p.sessions }, ok code)

unfoldable pub get : Text → PairingRegistry → Option PairingSession
get code r = elim (lookup code r.sessions) [
  | some s ↦ some s
  | none ↦ elim (lookup code r.confirmed_sessions) [ none ↦ none | some (s, _) ↦ some s ]
]

abbrev pub Claim : Type 0
Claim = Option (PairingSession × Option Text)

-- The arm for a confirmed session.
unfoldable pub claim_confirmed :
    ℕ → Text → PairingSession → ℕ → PairingRegistry → PairingRegistry × Claim
claim_confirmed now code s confirmed_at r = elim s.vtoken [
  | none ↦ (r, some (s, none))
  | some token ↦
      let cleared = record s { vtoken = none } in
      if ltb (elapsed now confirmed_at) vtoken_claim_window then (r, some (s, some token)) else (
        record r { confirmed_sessions = insert code (cleared, confirmed_at) r.confirmed_sessions },
        some (cleared, none),
      )
]

unfoldable pub claim_confirmed_vtoken : Clock → Text → PairingRegistry → PairingRegistry × Claim
claim_confirmed_vtoken t code r =
    let p = purge_expired t.at_purge r in
    elim (lookup code p.confirmed_sessions) [
      | some (s, confirmed_at) ↦ claim_confirmed t.at_check code s confirmed_at p
      | none ↦ elim (lookup code p.sessions) [ none ↦ (p, none) | some s ↦ (p, some (s, none)) ]
    ]

unfoldable pub mark_scanned : Clock → Text → Text → PairingRegistry → PairingRegistry × Bool
mark_scanned t csrf code r =
    let p = purge_expired t.at_purge r in
    elim (lookup code p.sessions) [
      | none ↦ (p, false)
      | some s ↦
          if is_expired t.at_check s
          then (
            record p { sessions = insert code (record s { status = expired }) p.sessions },
            false,
          )
          else (record p { sessions = insert code (scan t.at_store csrf s) p.sessions }, true)
    ]

-- The checks that `pre_check_confirm` and `confirm` make on a session, in their order.
unfoldable pub check_session : ℕ → Text → PairingSession → Result (Unit {0})
check_session now header s =
    if is_expired now s
    then err session_expired
    else if status_eq s.status confirmed
    then err already_confirmed
    else if not (csrf_matches s.csrf header)
    then err csrf_mismatch
    else if not (status_eq s.status scanned)
    then err not_scanned
    else ok tt

unfoldable pub pre_check_confirm :
    Clock → Text → Text → PairingRegistry → PairingRegistry × Result (Unit {0})
pre_check_confirm t code header r =
    let p = purge_expired t.at_purge r in
    if contains_key code p.confirmed_sessions
    then (p, err already_confirmed)
    else elim (lookup code p.sessions) [
      | none ↦ (p, err not_found)
      | some s ↦ (p, check_session t.at_check header s)
    ]

-- `confirm` takes the session out first, so a refusal after that leaves it out.
unfoldable pub confirm :
    Clock
    → Text
    → Text
    → Option Text
    → Text
    → Text
    → PairingRegistry
    → PairingRegistry × Result (Unit {0})
confirm t code name label vtoken header r =
    let p = purge_expired t.at_purge r in
    if contains_key code p.confirmed_sessions
    then (p, err already_confirmed)
    else elim (lookup code p.sessions) [
      | none ↦ (p, err not_found)
      | some s ↦
          let taken = record p { sessions = remove code p.sessions } in
          elim (check_session t.at_check header s) [
            | err e ↦ (taken, err e)
            | ok _ ↦ (
              record taken {
                confirmed_sessions =
                    insert code (confirmed_as name label vtoken s, t.at_store)
                      taken.confirmed_sessions;
              },
              ok tt,
            )
          ]
    ]

unfoldable pub remove_confirmed : Text → PairingRegistry → PairingRegistry
remove_confirmed code r = record r { confirmed_sessions = remove code r.confirmed_sessions }
