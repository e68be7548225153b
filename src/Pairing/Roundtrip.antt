-- ===== src/Pairing/Roundtrip.antt =====
-- The whole pairing of src/hub/pairing.rs: create, scan, confirm and claim in time.
use ilink_hub.Base.{
  ℕ, ◌≤◌, ◌<◌, ◌≡◌, refl, Text, codes, ◌++◌, Option, none, some, true, false, arith,
}
use ilink_hub.Base.Map.{lookup, lookup-insert_self}
use ilink_hub.Pairing.{
  PairingSession, PairingRegistry, scanned, expired, ok, Clock, elapsed, pairing_ttl, scanned_ttl,
  confirmed_ttl, vtoken_claim_window, is_expired, should_evict, purge_expired, new_session, create,
  scan, mark_scanned, confirm, claim_confirmed_vtoken,
}
use ilink_hub.Pairing.Purge.{lookup-purge_expired}
use ilink_hub.Pairing.Confirm.{confirm_ok_iff}
use ilink_hub.Pairing.Claim.{confirm-claim}

-- The code that `create` makes of the drawn identifier.
abbrev pub pair_code : Text → Text
pair_code uuid = codes "pair_" ++ uuid

create-lookup :
    (t : Clock) (uuid : Text) (r : PairingRegistry)
    → (create t uuid r).1 ≡ ok (pair_code uuid)
    → (lookup (pair_code uuid) (create t uuid r).0.sessions
        ≡ some (new_session (pair_code uuid) t.at_store))
      × ((create t uuid r).0.confirmed_sessions ≡ (purge_expired t.at_purge r).confirmed_sessions)
unfolding create
create-lookup t uuid r h =
    let p : PairingRegistry = purge_expired t.at_purge r in
    let put =
      lookup-insert_self (pair_code uuid) (new_session (pair_code uuid) t.at_store) p.sessions in
    ground arith

waiting_live :
    (now : ℕ) (code : Text) (created : ℕ)
    → elapsed now created ≤ pairing_ttl
    → should_evict now (new_session code created) ≡ false
unfolding should_evict new_session
waiting_live now code created h = ground arith

-- A waiting session that is scanned in time becomes scanned.
mark_scanned-lookup :
    (t : Clock) (csrf code : Text) (r : PairingRegistry) (created : ℕ)
    → lookup code r.sessions ≡ some (new_session code created)
    → lookup code r.confirmed_sessions ≡ none
    → elapsed t.at_purge created ≤ pairing_ttl
    → elapsed t.at_check created ≤ pairing_ttl
    → (lookup code (mark_scanned t csrf code r).0.sessions
        ≡ some (record (new_session code created) {
          scanned_at = some t.at_store;
          status = scanned;
          csrf = some csrf;
        }))
      × (lookup code (mark_scanned t csrf code r).0.confirmed_sessions ≡ none)
unfolding mark_scanned new_session is_expired scan
mark_scanned-lookup t csrf code r created found fresh kept soon =
    let p : PairingRegistry = purge_expired t.at_purge r in
    let (left, left') = lookup-purge_expired t.at_purge code r in
    let live : should_evict t.at_purge (new_session code created) ≡ false =
      waiting_live t.at_purge code created kept in
    let put =
      lookup-insert_self code (scan t.at_store csrf (new_session code created)) p.sessions in
    ground arith

confirm_in_time :
    (t : Clock) (code name : Text) (label : Option Text) (vtoken csrf : Text) (r : PairingRegistry)
    (s : PairingSession) (scan_time : ℕ)
    → lookup code r.sessions
      ≡ some (record s { scanned_at = some scan_time; status = scanned; csrf = some csrf })
    → lookup code r.confirmed_sessions ≡ none
    → elapsed t.at_purge scan_time ≤ scanned_ttl
    → elapsed t.at_check scan_time ≤ scanned_ttl
    → (confirm t code name label vtoken csrf r).1 ≡ ok tt
unfolding is_expired should_evict
confirm_in_time t code name label vtoken csrf r s scan_time found fresh kept soon =
    let s' : PairingSession = record s {
      scanned_at = some scan_time;
      status = scanned;
      csrf = some csrf;
    } in
    let (left, left') = lookup-purge_expired t.at_purge code r in
    (confirm_ok_iff t code name label vtoken csrf r).1
      (ground arith, (s', ground arith, (ground arith, refl, refl)))

-- A code that is created, scanned within 600 s, confirmed with its CSRF token within 60 s of the
-- scan and claimed within 120 s of the confirmation gives its client the confirmed token.
pub pairing_roundtrip :
    (t u v w : Clock) (uuid csrf name : Text) (label : Option Text) (vtoken : Text)
    (r : PairingRegistry)
    → (create t uuid r).1 ≡ ok (pair_code uuid)
    → lookup (pair_code uuid) r.confirmed_sessions ≡ none
    → elapsed u.at_purge t.at_store ≤ pairing_ttl
    → elapsed u.at_check t.at_store ≤ pairing_ttl
    → elapsed v.at_purge u.at_store ≤ scanned_ttl
    → elapsed v.at_check u.at_store ≤ scanned_ttl
    → elapsed w.at_purge v.at_store < confirmed_ttl
    → elapsed w.at_check v.at_store < vtoken_claim_window
    → let code = pair_code uuid in
      let scanned_registry = (mark_scanned u csrf code (create t uuid r).0).0 in
      let confirmed_registry = (confirm v code name label vtoken csrf scanned_registry).0 in
      (s : PairingSession) × ((claim_confirmed_vtoken w code confirmed_registry).1
        ≡ some (s, some vtoken))
pairing_roundtrip t u v w uuid csrf name label vtoken r made fresh a b c d e f =
    let code = pair_code uuid in
    let (opened, same) = create-lookup t uuid r made in
    let none_done : lookup code (create t uuid r).0.confirmed_sessions ≡ none =
      ground (arith, (lookup-purge_expired t.at_purge code r).1) in
    let (held, still) =
      mark_scanned-lookup u csrf code (create t uuid r).0 t.at_store opened none_done a b in
    let passed =
      confirm_in_time v code name label vtoken csrf (mark_scanned u csrf code (create t uuid r).0).0
        (new_session code t.at_store) u.at_store held still c d in
    let (s, claimed, _) = confirm-claim v w w code name label vtoken csrf _ passed e f e f in
    (s, claimed)

mark_scanned-timeout :
    (t : Clock) (csrf code : Text) (s : PairingSession) (r : PairingRegistry)
    → lookup code r.sessions ≡ some s
    → should_evict t.at_purge s ≡ false
    → is_expired t.at_check s ≡ true
    → ((mark_scanned t csrf code r).1 ≡ false)
      × (lookup code (mark_scanned t csrf code r).0.sessions ≡ some (record s { status = expired }))
unfolding mark_scanned
mark_scanned-timeout t csrf code s r found kept late =
    let p : PairingRegistry = purge_expired t.at_purge r in
    let left = (lookup-purge_expired t.at_purge code r).0 in
    let put = lookup-insert_self code (record s { status = expired }) p.sessions in ground arith

mark_scanned_marked :
    (t : Clock) (csrf code : Text) (s : PairingSession) (r : PairingRegistry)
    → lookup code r.sessions ≡ some (record s { status = expired })
    → elapsed t.at_purge s.created_at ≤ pairing_ttl
    → elapsed t.at_check s.created_at ≤ pairing_ttl
    → (mark_scanned t csrf code r).1 ≡ true
unfolding mark_scanned is_expired should_evict
mark_scanned_marked t csrf code s r found a b =
    let left = (lookup-purge_expired t.at_purge code r).0 in ground arith

-- A session that times out between the purge and the test of one `mark_scanned` is refused by
-- that call; a later call that comes while the code is younger than the pairing limit accepts
-- the timed-out session as scanned.
pub mark_scanned_after_timeout :
    (t u : Clock) (csrf csrf' code : Text) (s : PairingSession) (r : PairingRegistry)
    → lookup code r.sessions ≡ some s
    → should_evict t.at_purge s ≡ false
    → is_expired t.at_check s ≡ true
    → elapsed u.at_purge s.created_at ≤ pairing_ttl
    → elapsed u.at_check s.created_at ≤ pairing_ttl
    → ((mark_scanned t csrf code r).1 ≡ false)
      × ((mark_scanned u csrf' code (mark_scanned t csrf code r).0).1 ≡ true)
mark_scanned_after_timeout t u csrf csrf' code s r found kept late a b =
    let (refused, marked) = mark_scanned-timeout t csrf code s r found kept late in
    (refused, mark_scanned_marked u csrf' code s (mark_scanned t csrf code r).0 marked a b)
