-- ===== src/Pairing/Sessions.antt =====
-- What the sessions of src/hub/pairing.rs look like in every registry that the calls can build.
use ilink_hub.Base.{
  ℕ, ◌≡◌, ◌⊎◌, ◌||◌, not, refl, Text, codes, ◌++◌, Option, none, true, leb, is_some, arith,
  Option-cases, Bool-cases, length, ◌+◌, inl, inr,
}
use ilink_hub.Base.Map.{lookup, remove, contains_key}
use ilink_hub.Base.Entries.{Entries, Entries-insert, Entries-remove, Entries-retain}
use ilink_hub.Pairing.{
  PairingSession, PairingRegistry, PairingStatus, wait, scanned, confirmed, expired, Clock, Result,
  ok, err, PairingError, max_pairing_sessions, purge_expired, new_session, create, scan,
  mark_scanned, is_expired, check_session, confirm, confirmed_as,
}

-- An open session is never marked as confirmed. It has neither CSRF token nor scan time while it
-- waits, and both once it is scanned; marked as expired, it has a CSRF token if it has a scan time.
abbrev pub OpenAs : PairingStatus → PairingSession → Type 0
OpenAs wait s = (s.csrf ≡ none) × (s.scanned_at ≡ none) × (s.vtoken ≡ none)
OpenAs scanned s = (is_some s.csrf ≡ true) × (is_some s.scanned_at ≡ true) × (s.vtoken ≡ none)
OpenAs expired s = ((not (is_some s.scanned_at) || is_some s.csrf) ≡ true) × (s.vtoken ≡ none)
OpenAs confirmed s = ⊥

abbrev pub IsOpen : PairingSession → Type 0
IsOpen s = OpenAs s.status s

-- A confirmed session names its client, and its CSRF token is used up.
abbrev pub IsDone : PairingSession → Type 0
IsDone s = (s.status ≡ confirmed) × (s.csrf ≡ none) × (is_some s.client_name ≡ true)

pub record IsValid (r : PairingRegistry) : Type 0 where
  pub open_sessions : Entries (λ code s. IsOpen s) r.sessions
  pub done_sessions : Entries (λ code e. IsDone e.0) r.confirmed_sessions

pub purge_expired-IsValid :
    (now : ℕ) (r : PairingRegistry) → IsValid r → IsValid (purge_expired now r)
unfolding purge_expired
purge_expired-IsValid now r v = record {
  open_sessions = Entries-retain _ _ r.sessions v.open_sessions;
  done_sessions = Entries-retain _ _ r.confirmed_sessions v.done_sessions;
}

pub create-IsValid :
    (t : Clock) (uuid : Text) (r : PairingRegistry) → IsValid r → IsValid (create t uuid r).0
unfolding create new_session
create-IsValid t uuid r v =
    let p : PairingRegistry = purge_expired t.at_purge r in
    let q = purge_expired-IsValid t.at_purge r v in
    let code : Text = codes "pair_" ++ uuid in
    elim (Bool-cases (leb max_pairing_sessions (length p.sessions + length p.confirmed_sessions))) [
      | inl full ↦ rw full q
      | inr room ↦ rw room (record {
        open_sessions =
            Entries-insert (λ code s. IsOpen s) code (new_session code t.at_store) p.sessions
              (refl, refl, refl) q.open_sessions;
        done_sessions = q.done_sessions;
      })
    ]

scan_as :
    (st : PairingStatus) (now : ℕ) (csrf : Text) (s : PairingSession)
    → OpenAs st (record s { status = st })
    → IsOpen (scan now csrf (record s { status = st }))
unfolding scan
scan_as wait now csrf s h = ground arith
scan_as scanned now csrf s h = ground arith
scan_as expired now csrf s h = ground arith
scan_as confirmed now csrf s h = absurd h

scan-IsOpen : (now : ℕ) (csrf : Text) (s : PairingSession) → IsOpen s → IsOpen (scan now csrf s)
scan-IsOpen now csrf s h = scan_as s.status now csrf s h

expire_as :
    (st : PairingStatus) (s : PairingSession)
    → OpenAs st (record s { status = st })
    → IsOpen (record s { status = expired })
expire_as wait s h = ground arith
expire_as scanned s h = ground arith
expire_as expired s h = h
expire_as confirmed s h = absurd h

pub mark_scanned-IsValid :
    (t : Clock) (csrf code : Text) (r : PairingRegistry)
    → IsValid r
    → IsValid (mark_scanned t csrf code r).0
unfolding mark_scanned
mark_scanned-IsValid t csrf code r v =
    let p : PairingRegistry = purge_expired t.at_purge r in
    let q = purge_expired-IsValid t.at_purge r v in
    elim (Option-cases (lookup code p.sessions)) [
      | inl e ↦ rw (e, mark_scanned) q
      | inr (s, e) ↦
          let shape = q.open_sessions code s e in
          elim (Bool-cases (is_expired t.at_check s)) [
            | inl late ↦
                rw (e, late, mark_scanned)
                  (record {
                    open_sessions =
                        Entries-insert (λ code s. IsOpen s) code (record s { status = expired })
                          p.sessions (expire_as s.status s shape) q.open_sessions;
                    done_sessions = q.done_sessions;
                  })
            | inr live ↦
                rw (e, live, mark_scanned)
                  (record {
                    open_sessions =
                        Entries-insert (λ code s. IsOpen s) code (scan t.at_store csrf s) p.sessions
                          (scan-IsOpen t.at_store csrf s shape) q.open_sessions;
                    done_sessions = q.done_sessions;
                  })
          ]
    ]

Result-cases : (x : Result (Unit {0})) → ((e : PairingError) × (x ≡ err e)) ⊎ (x ≡ ok tt)
Result-cases (err e) = inl (e, refl)
Result-cases (ok tt) = inr refl

pub confirm-IsValid :
    (t : Clock) (code name : Text) (label : Option Text) (vtoken header : Text)
    (r : PairingRegistry)
    → IsValid r
    → IsValid (confirm t code name label vtoken header r).0
unfolding confirm confirmed_as
confirm-IsValid t code name label vtoken header r v =
    let p : PairingRegistry = purge_expired t.at_purge r in
    let q = purge_expired-IsValid t.at_purge r v in
    let taken : Entries (λ code s. IsOpen s) (remove code p.sessions) =
      Entries-remove (λ code s. IsOpen s) code p.sessions q.open_sessions in
    elim (Bool-cases (contains_key code p.confirmed_sessions)) [
      | inl known ↦ rw (known) q
      | inr new ↦ elim (Option-cases (lookup code p.sessions)) [
        | inl e ↦ rw (new, e, confirm) q
        | inr (s, e) ↦ elim (Result-cases (check_session t.at_check header s)) [
          | inl (why, refused) ↦
              rw (new, e, refused, confirm)
                (record { open_sessions = taken; done_sessions = q.done_sessions })
          | inr passed ↦
              rw (new, e, passed, confirm)
                (record {
                  open_sessions = taken;
                  done_sessions =
                      Entries-insert (λ code e. IsDone e.0) code _ p.confirmed_sessions
                        (refl, refl, refl) q.done_sessions;
                })
        ]
      ]
    ]
