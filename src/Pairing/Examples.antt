-- ===== src/Pairing/Examples.antt =====
-- The pairing sessions of src/hub/pairing.rs at concrete calls.
use ilink_hub.Base.{
  ℕ, ◌≤◌, ◌<◌, ◌≡◌, ◌↔◌, refl, Text, codes, text_eq, List, [], ◌∷◌, none, some, true, false, arith,
}
use ilink_hub.Base.Map.{lookup, insert, retain, contains_key}
use ilink_hub.Base.Entries.{Entries-insert}
use ilink_hub.Base.Utf8.{as_bytes}
use ilink_hub.Pairing.{
  seconds, PairingSession, PairingRegistry, scanned, confirmed, expired, already_confirmed,
  csrf_mismatch, not_scanned, ok, err, Clock, elapsed, confirmed_ttl, vtoken_claim_window,
  max_pairing_sessions, constant_time_eq, purge_expired, should_evict, is_expired, create,
  mark_scanned, check_session, gather, confirm, claim_confirmed_vtoken,
}
use ilink_hub.Pairing.Confirm.{Confirmable, confirm_ok_iff, confirm_twice, confirm_refused-lookup}
use ilink_hub.Pairing.Claim.{claim_iff}
use ilink_hub.Pairing.Purge.{size}
use ilink_hub.Pairing.Lifecycle.{Call, creates, scans, confirms, claims, run, run-size}
use ilink_hub.Pairing.Sessions.{IsValid, IsOpen}
use ilink_hub.Pairing.Runs.{run-IsValid}
use ilink_hub.Pairing.Roundtrip.{pair_code, pairing_roundtrip, mark_scanned_after_timeout}

abbrev second : ℕ → Clock
second n = record { at_purge = seconds n; at_check = seconds n; at_store = seconds n }

abbrev code : Text
code = codes "pair_1"

abbrev scanned_session : PairingSession
scanned_session = record {
  code = code;
  created_at = 0;
  scanned_at = some (seconds 10);
  status = scanned;
  vtoken = none;
  client_name = none;
  client_label = none;
  csrf = some (codes "t0");
}

abbrev expired_session : PairingSession
expired_session = record scanned_session { status = expired }

abbrev holding : PairingSession → PairingRegistry
holding s = record { sessions = (code, s) ∷ []; confirmed_sessions = [] }

abbrev nothing_yet : PairingRegistry
nothing_yet = record { sessions = []; confirmed_sessions = [] }

abbrev done_session : PairingSession
done_session = record scanned_session {
  csrf = none;
  status = confirmed;
  vtoken = some (codes "vhub_1");
  client_name = some (codes "mac");
}

abbrev confirmed_registry : PairingRegistry
confirmed_registry = record {
  sessions = [];
  confirmed_sessions = (code, (done_session, seconds 20)) ∷ [];
}

confirm_ok :
    (confirm
      (second 20)
      code
      (codes "mac")
      none
      (codes "vhub_1")
      (codes "t0")
      (holding scanned_session)).1
    ≡ ok tt
unfolding confirm purge_expired retain should_evict check_session is_expired constant_time_eq lookup
    text_eq as_bytes gather
confirm_ok = refl

confirm_wrong :
    (confirm
      (second 20)
      code
      (codes "mac")
      none
      (codes "vhub_1")
      (codes "t1")
      (holding scanned_session)).1
    ≡ err csrf_mismatch
unfolding confirm purge_expired retain should_evict check_session is_expired constant_time_eq lookup
    text_eq as_bytes gather
confirm_wrong = refl

nothing_yet-IsValid : IsValid nothing_yet
unfolding lookup
nothing_yet-IsValid = record { open_sessions = λ k v e. cc; done_sessions = λ k v e. cc }

expired-IsValid : IsValid (holding expired_session)
unfolding lookup insert
expired-IsValid = record {
  open_sessions =
      Entries-insert (λ code s. IsOpen s) code expired_session [] (refl, refl) (λ k v e. cc);
  done_sessions = λ k v e. cc;
}

confirm_ok_iff_example :
    ((confirm
        (second 20)
        code
        (codes "mac")
        none
        (codes "vhub_1")
        (codes "t0")
        (holding scanned_session)).1
      ≡ ok tt)
    ↔ ((contains_key code (purge_expired (seconds 20) (holding scanned_session)).confirmed_sessions
          ≡ false)
        × ((s : PairingSession) × (lookup code
                (purge_expired (seconds 20) (holding scanned_session)).sessions
              ≡ some s)
            × Confirmable (seconds 20) (codes "t0") s))
confirm_ok_iff_example =
    confirm_ok_iff (second 20) code (codes "mac") none (codes "vhub_1") (codes "t0")
      (holding scanned_session)

confirm_twice_example :
    (confirm
      (second 30)
      code
      (codes "pc")
      none
      (codes "vhub_2")
      (codes "t0")
      (confirm
        (second 20)
        code
        (codes "mac")
        none
        (codes "vhub_1")
        (codes "t0")
        (holding scanned_session)).0).1
    ≡ err already_confirmed
confirm_twice_example =
    confirm_twice (second 20) (second 30) code (codes "mac") (codes "pc") none none (codes "vhub_1")
      (codes "vhub_2") (codes "t0") (codes "t0") (holding scanned_session) confirm_ok

confirm_refused-lookup_example :
    (lookup code
        (confirm
          (second 20)
          code
          (codes "mac")
          none
          (codes "vhub_1")
          (codes "t1")
          (holding scanned_session)).0.sessions
      ≡ none)
    × ((confirm
          (second 20)
          code
          (codes "mac")
          none
          (codes "vhub_1")
          (codes "t1")
          (holding scanned_session)).0.confirmed_sessions
        ≡ (purge_expired (seconds 20) (holding scanned_session)).confirmed_sessions)
confirm_refused-lookup_example =
    confirm_refused-lookup (second 20) code (codes "mac") none (codes "vhub_1") (codes "t1")
      (holding scanned_session) csrf_mismatch confirm_wrong (λ e. cc)

claim_iff_example :
    ((claim_confirmed_vtoken (second 30) code confirmed_registry).1
      ≡ some (done_session, some (codes "vhub_1")))
    ↔ ((at : ℕ) × (lookup code confirmed_registry.confirmed_sessions ≡ some (done_session, at))
        × (done_session.vtoken ≡ some (codes "vhub_1"))
        × (elapsed (seconds 30) at < confirmed_ttl)
        × (elapsed (seconds 30) at < vtoken_claim_window))
claim_iff_example = claim_iff (second 30) code (codes "vhub_1") done_session confirmed_registry

abbrev calls : List Call
calls =
    creates (second 0) (codes "2")
    ∷ scans (second 5) (codes "t2") (codes "pair_2")
    ∷ confirms (second 9) (codes "pair_2") (codes "mac") none (codes "vhub_2") (codes "t2")
    ∷ claims (second 12) (codes "pair_2")
    ∷ []

run-size_example : size (run nothing_yet calls) ≤ max_pairing_sessions
unfolding size
run-size_example = run-size calls nothing_yet (omega arith)

run-IsValid_example : IsValid (run nothing_yet calls)
run-IsValid_example = run-IsValid calls nothing_yet nothing_yet-IsValid

expired_refused :
    (confirm
      (second 20)
      code
      (codes "mac")
      none
      (codes "vhub_1")
      (codes "t0")
      (holding expired_session)).1
    ≡ err not_scanned
unfolding confirm purge_expired retain should_evict check_session is_expired constant_time_eq lookup
    text_eq as_bytes gather
expired_refused = refl

created_ok : (create (second 0) (codes "1") nothing_yet).1 ≡ ok (pair_code (codes "1"))
unfolding create purge_expired retain
created_ok = refl

pairing_roundtrip_example :
    let code = pair_code (codes "1") in
    let scanned_registry =
      (mark_scanned
        (second 10)
        (codes "t0")
        code
        (create (second 0) (codes "1") nothing_yet).0).0 in
    let confirmed_registry =
      (confirm
        (second 20)
        code
        (codes "mac")
        none
        (codes "vhub_1")
        (codes "t0")
        scanned_registry).0 in
    (s : PairingSession) × ((claim_confirmed_vtoken (second 30) code confirmed_registry).1
      ≡ some (s, some (codes "vhub_1")))
unfolding lookup
pairing_roundtrip_example =
    pairing_roundtrip (second 0) (second 10) (second 20) (second 30) (codes "1") (codes "t0")
      (codes "mac") none (codes "vhub_1") nothing_yet created_ok refl (omega arith) (omega arith)
      (omega arith) (omega arith) (omega arith) (omega arith)

-- The scan time limit passes between the two readings of the first call.
abbrev slow : Clock
slow = record { at_purge = seconds 70; at_check = seconds 71; at_store = seconds 71 }

mark_scanned_after_timeout_example :
    ((mark_scanned slow (codes "t1") code (holding scanned_session)).1 ≡ false)
    × ((mark_scanned
          (second 80)
          (codes "t2")
          code
          (mark_scanned slow (codes "t1") code (holding scanned_session)).0).1
        ≡ true)
unfolding lookup text_eq should_evict is_expired
mark_scanned_after_timeout_example =
    mark_scanned_after_timeout slow (second 80) (codes "t1") (codes "t2") code scanned_session
      (holding scanned_session) refl refl refl (omega arith) (omega arith)
