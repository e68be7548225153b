-- ===== src/Pairing/Runs.antt =====
-- The shape of sessions over any sequence of the calls of src/hub/pairing.rs.
use ilink_hub.Base.{
  ℕ, ◌≡◌, ap, refl, Text, List, [], ◌∷◌, Option, some, ltb, arith, Option-cases, Bool-cases, inl,
  inr,
}
use ilink_hub.Base.Map.{lookup}
use ilink_hub.Base.Entries.{Entries-insert, Entries-remove}
use ilink_hub.Pairing.{
  PairingSession, PairingRegistry, PairingStatus, wait, scanned, confirmed, expired, Clock, err,
  not_scanned, csrf_matches, elapsed, vtoken_claim_window, purge_expired, is_expired, check_session,
  confirm, claim_confirmed, claim_confirmed_vtoken, remove_confirmed, pre_check_confirm,
}
use ilink_hub.Pairing.Purge.{lookup-purge_expired}
use ilink_hub.Pairing.Lifecycle.{Call, creates, scans, checks, confirms, claims, removes, step, run}
use ilink_hub.Pairing.Sessions.{
  OpenAs, IsDone, IsValid, purge_expired-IsValid, create-IsValid, mark_scanned-IsValid,
  confirm-IsValid,
}

claim-IsValid :
    (t : Clock) (code : Text) (r : PairingRegistry)
    → IsValid r
    → IsValid (claim_confirmed_vtoken t code r).0
unfolding claim_confirmed_vtoken claim_confirmed
claim-IsValid t code r v =
    let p : PairingRegistry = purge_expired t.at_purge r in
    let q = purge_expired-IsValid t.at_purge r v in
    elim (Option-cases (lookup code p.confirmed_sessions)) [
      | inl e ↦
          rw (e, claim_confirmed_vtoken)
            (elim (Option-cases (lookup code p.sessions)) [
              | inl e' ↦ rw (e', claim_confirmed_vtoken) q
              | inr (s, e') ↦ rw (e', claim_confirmed_vtoken) q
            ])
      | inr ((s, at), e) ↦
          let shape = q.done_sessions code (s, at) e in
          elim (Option-cases s.vtoken) [
            | inl e' ↦ rw (e, e', claim_confirmed_vtoken) q
            | inr (token, e') ↦
                elim (Bool-cases (ltb (elapsed t.at_check at) vtoken_claim_window)) [
                  | inl early ↦ rw (e, e', early, claim_confirmed_vtoken) q
                  | inr late ↦
                      rw (e, e', late, claim_confirmed_vtoken)
                        (record {
                          open_sessions = q.open_sessions;
                          done_sessions =
                              Entries-insert (λ code e. IsDone e.0) code _ p.confirmed_sessions
                                shape q.done_sessions;
                        })
                ]
          ]
    ]

check-IsValid :
    (t : Clock) (code header : Text) (r : PairingRegistry)
    → IsValid r
    → IsValid (pre_check_confirm t code header r).0
unfolding pre_check_confirm
check-IsValid t code header r v =
    let same : (pre_check_confirm t code header r).0 ≡ purge_expired t.at_purge r = ground arith in
    rw same (purge_expired-IsValid t.at_purge r v)

step-IsValid : (c : Call) (r : PairingRegistry) → IsValid r → IsValid (step r c)
unfolding step remove_confirmed
step-IsValid (creates t uuid) r v = create-IsValid t uuid r v
step-IsValid (scans t csrf code) r v = mark_scanned-IsValid t csrf code r v
step-IsValid (checks t code header) r v = check-IsValid t code header r v
step-IsValid (confirms t code name label vtoken header) r v =
    confirm-IsValid t code name label vtoken header r v
step-IsValid (claims t code) r v = claim-IsValid t code r v
step-IsValid (removes code) r v = record {
  open_sessions = v.open_sessions;
  done_sessions = Entries-remove (λ code e. IsDone e.0) code r.confirmed_sessions v.done_sessions;
}

-- In every registry that calls build from a valid one: an open session has neither CSRF token nor
-- scan time while it waits, and both once it is scanned; marked as expired, it has a CSRF token if
-- it has a scan time. No open session holds a client token or is marked confirmed; confirmed
-- sessions are marked so, have used up their CSRF token and name a client.
pub run-IsValid : (cs : List Call) (r : PairingRegistry) → IsValid r → IsValid (run r cs)
unfolding run
run-IsValid [] r v = v
run-IsValid (c ∷ cs) r v = run-IsValid cs (step r c) (step-IsValid c r v)

not_scanned_as :
    (st : PairingStatus) (now : ℕ) (header : Text) (s : PairingSession)
    → OpenAs st (record s { status = st })
    → check_session now header (record s { status = st }) ≡ err not_scanned
    → st ≡ expired
unfolding check_session is_expired
not_scanned_as wait now header s h e = absurd (ground (arith, ap (λ o. csrf_matches o header) h.0))
not_scanned_as scanned now header s h e = absurd (ground arith)
not_scanned_as expired now header s h e = refl
not_scanned_as confirmed now header s h e = absurd h

-- In a valid registry `confirm` answers that a session was not scanned only for one that
-- `mark_scanned` has marked expired: a session that was never scanned fails the CSRF check first.
pub confirm_not_scanned :
    (t : Clock) (code name : Text) (label : Option Text) (vtoken header : Text)
    (r : PairingRegistry)
    → IsValid r
    → (confirm t code name label vtoken header r).1 ≡ err not_scanned
    → (s : PairingSession) × (lookup code r.sessions ≡ some s) × (s.status ≡ expired)
unfolding confirm
confirm_not_scanned t code name label vtoken header r v h =
    let p : PairingRegistry = purge_expired t.at_purge r in
    elim (Option-cases (lookup code p.sessions)) [
      | inl e ↦ absurd (ground arith)
      | inr (s, e) ↦
          let q = purge_expired-IsValid t.at_purge r v in
          (
            s,
            ground (arith, (lookup-purge_expired t.at_purge code r).0),
            not_scanned_as s.status t.at_check header s (q.open_sessions code s e) (ground arith),
          )
    ]
