-- ===== src/Pairing/Confirm.antt =====
-- When `confirm` of src/hub/pairing.rs succeeds, and what it leaves behind.
use ilink_hub.Base.{
  ℕ, ◌≡◌, ◌↔◌, ◌≢◌, Text, text_eq_refl, Option, none, some, false, ltb, if◌then◌else◌, arith,
  Option-cases, inl, inr,
}
use ilink_hub.Base.Map.{lookup, contains_key, lookup-remove, lookup-insert_self}
use ilink_hub.Pairing.{
  PairingSession, PairingRegistry, scanned, PairingError, already_confirmed, not_found, ok, err,
  Clock, elapsed, confirmed_ttl, is_expired, purge_expired, check_session, pre_check_confirm,
  confirm, confirmed_as,
}
use ilink_hub.Pairing.Compare.{csrf_matches_iff}
use ilink_hub.Pairing.Purge.{lookup-purge_expired}

-- A session that may be confirmed: live, scanned, and bound to the presented token.
abbrev pub Confirmable : ℕ → Text → PairingSession → Type 0
Confirmable now header s =
    (is_expired now s ≡ false) × (s.status ≡ scanned) × (s.csrf ≡ some header)

check_session_iff :
    (now : ℕ) (header : Text) (s : PairingSession)
    → (check_session now header s ≡ ok tt) ↔ Confirmable now header s
unfolding check_session
check_session_iff now header s = (
  λ h. ground (arith, csrf_matches_iff s.csrf header),
  λ h. ground (arith, csrf_matches_iff s.csrf header),
)

-- `confirm` answers as `pre_check_confirm` does at the same readings.
pub confirm-pre_check_confirm :
    (t : Clock) (code name : Text) (label : Option Text) (vtoken header : Text)
    (r : PairingRegistry)
    → (confirm t code name label vtoken header r).1 ≡ (pre_check_confirm t code header r).1
unfolding confirm pre_check_confirm
confirm-pre_check_confirm t code name label vtoken header r = ground arith

-- `confirm` succeeds exactly if, after the purge, the code has no confirmed session and names a
-- live, scanned session whose token is the header.
pub confirm_ok_iff :
    (t : Clock) (code name : Text) (label : Option Text) (vtoken header : Text)
    (r : PairingRegistry)
    → ((confirm t code name label vtoken header r).1 ≡ ok tt) ↔ (
        (contains_key code (purge_expired t.at_purge r).confirmed_sessions ≡ false)
        × ((s : PairingSession) × (lookup code (purge_expired t.at_purge r).sessions ≡ some s)
            × Confirmable t.at_check header s))
unfolding confirm
confirm_ok_iff t code name label vtoken header r = (forth, back)
  where
    p : PairingRegistry
    p = purge_expired t.at_purge r

    forth :
        (confirm t code name label vtoken header r).1 ≡ ok tt
        → (contains_key code p.confirmed_sessions ≡ false)
          × ((s : PairingSession) × (lookup code p.sessions ≡ some s)
              × Confirmable t.at_check header s)
    forth h = elim (Option-cases (lookup code p.sessions)) [
      | inl e ↦ absurd (ground arith)
      | inr (s, e) ↦
          (ground arith, (s, e, (check_session_iff t.at_check header s).0 (ground arith)))
    ]

    back :
        (contains_key code p.confirmed_sessions ≡ false)
          × ((s : PairingSession) × (lookup code p.sessions ≡ some s)
              × Confirmable t.at_check header s)
        → (confirm t code name label vtoken header r).1 ≡ ok tt
    back (fresh, (s, e, h)) =
        let passed = (check_session_iff t.at_check header s).1 h in ground arith

-- A confirmation moves the session to the confirmed ones, with the token of the client and
-- without its CSRF token, and drops it from the open ones.
pub confirm-get :
    (t : Clock) (code name : Text) (label : Option Text) (vtoken header : Text)
    (r : PairingRegistry)
    → (confirm t code name label vtoken header r).1 ≡ ok tt
    → (s : PairingSession) × (lookup code
          (confirm t code name label vtoken header r).0.confirmed_sessions
        ≡ some (confirmed_as name label vtoken s, t.at_store))
      × (lookup code (confirm t code name label vtoken header r).0.sessions ≡ none)
unfolding confirm
confirm-get t code name label vtoken header r h =
    let p : PairingRegistry = purge_expired t.at_purge r in
    elim (Option-cases (lookup code p.sessions)) [
      | inl e ↦ absurd (ground arith)
      | inr (s, e) ↦
          let put =
            lookup-insert_self code (confirmed_as name label vtoken s, t.at_store)
              p.confirmed_sessions in
          let gone = lookup-remove code code p.sessions in
          (s, ground (arith, text_eq_refl code), ground (arith, text_eq_refl code))
    ]

second_confirm :
    (u : Clock) (code name : Text) (label : Option Text) (vtoken header : Text)
    (q : PairingRegistry) (s : PairingSession) (at : ℕ)
    → lookup code q.confirmed_sessions ≡ some (s, at)
    → lookup code q.sessions ≡ none
    → (confirm u code name label vtoken header q).1
      ≡ (if ltb (elapsed u.at_purge at) confirmed_ttl then err already_confirmed else err not_found)
unfolding confirm
second_confirm u code name label vtoken header q s at kept gone =
    let (open_left, done_left) = lookup-purge_expired u.at_purge code q in ground arith

-- The `confirm` of a code that follows a successful one, with whatever token, is refused: as
-- already confirmed while the confirmed session is kept, and as unknown after that.
pub confirm_twice :
    (t u : Clock) (code name name' : Text) (label label' : Option Text)
    (vtoken vtoken' header header' : Text) (r : PairingRegistry)
    → (confirm t code name label vtoken header r).1 ≡ ok tt
    → (confirm u code name' label' vtoken' header' (confirm t code name label vtoken header r).0).1
      ≡ (if ltb (elapsed u.at_purge t.at_store) confirmed_ttl
          then err already_confirmed
          else err not_found)
confirm_twice t u code name name' label label' vtoken vtoken' header header' r h =
    let (s, kept, gone) = confirm-get t code name label vtoken header r h in
    second (confirm t code name label vtoken header r).0 s kept gone
  where
    second :
        (q : PairingRegistry) (s : PairingSession)
        → lookup code q.confirmed_sessions ≡ some (confirmed_as name label vtoken s, t.at_store)
        → lookup code q.sessions ≡ none
        → (confirm u code name' label' vtoken' header' q).1 ≡ (
            if ltb (elapsed u.at_purge t.at_store) confirmed_ttl
            then err already_confirmed
            else err not_found)
    second q s kept gone =
        second_confirm u code name' label' vtoken' header' q _ t.at_store kept gone

-- A `confirm` that is refused, but not as already confirmed, leaves the code without an open
-- session, also where only the presented token was wrong, and confirms nothing.
pub confirm_refused-lookup :
    (t : Clock) (code name : Text) (label : Option Text) (vtoken header : Text)
    (r : PairingRegistry) (e : PairingError)
    → (confirm t code name label vtoken header r).1 ≡ err e
    → e ≢ already_confirmed
    → (lookup code (confirm t code name label vtoken header r).0.sessions ≡ none)
      × ((confirm t code name label vtoken header r).0.confirmed_sessions
          ≡ (purge_expired t.at_purge r).confirmed_sessions)
unfolding confirm
confirm_refused-lookup t code name label vtoken header r e h other =
    let p : PairingRegistry = purge_expired t.at_purge r in
    let gone = lookup-remove code code p.sessions in ground (arith, text_eq_refl code)
