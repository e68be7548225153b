-- ===== src/Pairing/Lifecycle.antt =====
-- The states that the calls of src/hub/pairing.rs can reach.
use ilink_hub.Base.{
  ◌≤◌, Text, codes, List, [], ◌∷◌, ◌++◌, Option, none, arith, Option-cases, inl, inr,
}
use ilink_hub.Base.Map.{lookup, length-insert, length-remove-le, length-remove-lt}
use ilink_hub.Pairing.{
  PairingRegistry, expired, Clock, max_pairing_sessions, purge_expired, new_session, create, scan,
  mark_scanned, confirm, confirmed_as, claim_confirmed, claim_confirmed_vtoken, remove_confirmed,
  pre_check_confirm,
}
use ilink_hub.Pairing.Purge.{size, size-purge_expired-le}

pub data Call : Type 0 where
  creates : Clock → Text → Call
  scans : Clock → Text → Text → Call
  checks : Clock → Text → Text → Call
  confirms : Clock → Text → Text → Option Text → Text → Text → Call
  claims : Clock → Text → Call
  removes : Text → Call

unfoldable pub step : PairingRegistry → Call → PairingRegistry
step r (creates t uuid) = (create t uuid r).0
step r (scans t csrf code) = (mark_scanned t csrf code r).0
step r (checks t code header) = (pre_check_confirm t code header r).0
step r (confirms t code name label vtoken header) = (confirm t code name label vtoken header r).0
step r (claims t code) = (claim_confirmed_vtoken t code r).0
step r (removes code) = remove_confirmed code r

unfoldable pub run : PairingRegistry → List Call → PairingRegistry
run r [] = r
run r (c ∷ cs) = run (step r c) cs

create-size :
    (t : Clock) (uuid : Text) (r : PairingRegistry)
    → size r ≤ max_pairing_sessions
    → size (create t uuid r).0 ≤ max_pairing_sessions
unfolding create size
create-size t uuid r h =
    let p : PairingRegistry = purge_expired t.at_purge r in
    let code : Text = codes "pair_" ++ uuid in
    ground (
      arith,
      size-purge_expired-le t.at_purge r,
      length-insert code (new_session code t.at_store) p.sessions,
    )

mark_scanned-size :
    (t : Clock) (csrf code : Text) (r : PairingRegistry)
    → size (mark_scanned t csrf code r).0 ≤ size r
unfolding mark_scanned size
mark_scanned-size t csrf code r =
    let p : PairingRegistry = purge_expired t.at_purge r in
    elim (Option-cases (lookup code p.sessions)) [
      | inl e ↦ ground (arith, size-purge_expired-le t.at_purge r)
      | inr (s, e) ↦ ground (
        arith,
        size-purge_expired-le t.at_purge r,
        length-insert code (record s { status = expired }) p.sessions,
        length-insert code (scan t.at_store csrf s) p.sessions,
      )
    ]

confirm-size :
    (t : Clock) (code name : Text) (label : Option Text) (vtoken header : Text)
    (r : PairingRegistry)
    → size (confirm t code name label vtoken header r).0 ≤ size r
unfolding confirm size
confirm-size t code name label vtoken header r =
    let p : PairingRegistry = purge_expired t.at_purge r in
    elim (Option-cases (lookup code p.sessions)) [
      | inl e ↦ ground (arith, size-purge_expired-le t.at_purge r)
      | inr (s, e) ↦ ground (
        arith,
        size-purge_expired-le t.at_purge r,
        length-remove-lt code p.sessions,
        length-insert code (confirmed_as name label vtoken s, t.at_store) p.confirmed_sessions,
      )
    ]

claim-size :
    (t : Clock) (code : Text) (r : PairingRegistry)
    → size (claim_confirmed_vtoken t code r).0 ≤ size r
unfolding claim_confirmed_vtoken claim_confirmed size
claim-size t code r =
    let p : PairingRegistry = purge_expired t.at_purge r in
    elim (Option-cases (lookup code p.confirmed_sessions)) [
      | inl e ↦ ground (arith, size-purge_expired-le t.at_purge r)
      | inr ((s, at), e) ↦ ground (
        arith,
        size-purge_expired-le t.at_purge r,
        length-insert code (record s { vtoken = none }, at) p.confirmed_sessions,
      )
    ]

remove_confirmed-size :
    (code : Text) (r : PairingRegistry) → size (remove_confirmed code r) ≤ size r
unfolding remove_confirmed size
remove_confirmed-size code r = omega (arith, length-remove-le code r.confirmed_sessions)

check-size :
    (t : Clock) (code header : Text) (r : PairingRegistry)
    → size (pre_check_confirm t code header r).0 ≤ size r
unfolding pre_check_confirm
check-size t code header r = ground (arith, size-purge_expired-le t.at_purge r)

-- No sequence of calls makes the open and confirmed sessions together exceed the cap of 1024, if
-- they do not exceed it at the start.
pub run-size :
    (cs : List Call) (r : PairingRegistry)
    → size r ≤ max_pairing_sessions
    → size (run r cs) ≤ max_pairing_sessions
unfolding run step
run-size [] r h = h
run-size (creates t uuid ∷ cs) r h = run-size cs _ (create-size t uuid r h)
run-size (scans t csrf code ∷ cs) r h =
    run-size cs (mark_scanned t csrf code r).0 (omega (arith, mark_scanned-size t csrf code r))
run-size (checks t code header ∷ cs) r h =
    run-size cs (pre_check_confirm t code header r).0 (omega (arith, check-size t code header r))
run-size (confirms t code name label vtoken header ∷ cs) r h =
    run-size cs (confirm t code name label vtoken header r).0
      (omega (arith, confirm-size t code name label vtoken header r))
run-size (claims t code ∷ cs) r h =
    run-size cs (claim_confirmed_vtoken t code r).0 (omega (arith, claim-size t code r))
run-size (removes code ∷ cs) r h =
    run-size cs (remove_confirmed code r) (omega (arith, remove_confirmed-size code r))
