-- ===== src/Pairing/Claim.antt =====
-- The claim window of src/hub/pairing.rs: when a confirmed session gives out its token.
use ilink_hub.Base.{ℕ, ◌≡◌, ◌↔◌, ◌≢◌, ◌<◌, ◌≤◌, refl, Text, Option, none, some, arith}
use ilink_hub.Base.Map.{lookup, lookup-insert_self}
use ilink_hub.Pairing.{
  PairingSession, PairingRegistry, ok, Clock, elapsed, confirmed_ttl, vtoken_claim_window,
  purge_expired, confirm, confirmed_as, claim_confirmed, claim_confirmed_vtoken,
}
use ilink_hub.Pairing.Purge.{lookup-purge_expired}
use ilink_hub.Pairing.Confirm.{confirm-get}

-- A claim returns a token exactly if the code has a confirmed session that survives the purge,
-- still holds that token, and was confirmed less than the claim window ago.
pub claim_iff :
    (t : Clock) (code token : Text) (s : PairingSession) (r : PairingRegistry)
    → ((claim_confirmed_vtoken t code r).1 ≡ some (s, some token)) ↔ (
        (at : ℕ) × (lookup code r.confirmed_sessions ≡ some (s, at))
        × (s.vtoken ≡ some token)
        × (elapsed t.at_purge at < confirmed_ttl)
        × (elapsed t.at_check at < vtoken_claim_window))
unfolding claim_confirmed_vtoken claim_confirmed
claim_iff t code token s r = (forth (lookup code r.confirmed_sessions) refl, back)
  where
    forth :
        (o : Option (PairingSession × ℕ))
        → lookup code r.confirmed_sessions ≡ o
        → (claim_confirmed_vtoken t code r).1 ≡ some (s, some token)
        → (at : ℕ) × (lookup code r.confirmed_sessions ≡ some (s, at))
          × (s.vtoken ≡ some token)
          × (elapsed t.at_purge at < confirmed_ttl)
          × (elapsed t.at_check at < vtoken_claim_window)
    forth none e h = absurd (ground (arith, (lookup-purge_expired t.at_purge code r).1))
    forth (some (s', at)) e h =
        let left = (lookup-purge_expired t.at_purge code r).1 in
        (at, ground arith, ground arith, ground arith, ground arith)

    back :
        ((at : ℕ) × (lookup code r.confirmed_sessions ≡ some (s, at))
          × (s.vtoken ≡ some token)
          × (elapsed t.at_purge at < confirmed_ttl)
          × (elapsed t.at_check at < vtoken_claim_window))
        → (claim_confirmed_vtoken t code r).1 ≡ some (s, some token)
    back (at, found, held, kept, soon) =
        let left = (lookup-purge_expired t.at_purge code r).1 in ground arith

claim_early-lookup :
    (t : Clock) (code token : Text) (s : PairingSession) (at : ℕ) (r : PairingRegistry)
    → lookup code r.confirmed_sessions ≡ some (s, at)
    → s.vtoken ≡ some token
    → elapsed t.at_purge at < confirmed_ttl
    → elapsed t.at_check at < vtoken_claim_window
    → lookup code (claim_confirmed_vtoken t code r).0.confirmed_sessions ≡ some (s, at)
unfolding claim_confirmed_vtoken claim_confirmed
claim_early-lookup t code token s at r found held kept soon =
    let left = (lookup-purge_expired t.at_purge code r).1 in ground arith

claim_late-lookup :
    (t : Clock) (code : Text) (s : PairingSession) (at : ℕ) (r : PairingRegistry)
    → lookup code r.confirmed_sessions ≡ some (s, at)
    → vtoken_claim_window ≤ elapsed t.at_check at
    → (s' : PairingSession) (at' : ℕ)
    → lookup code (claim_confirmed_vtoken t code r).0.confirmed_sessions ≡ some (s', at')
    → s'.vtoken ≡ none
unfolding claim_confirmed_vtoken claim_confirmed
claim_late-lookup t code s at r found late s' at' after =
    let left = (lookup-purge_expired t.at_purge code r).1 in
    let put =
      lookup-insert_self code (record s { vtoken = none }, at)
        (purge_expired t.at_purge r).confirmed_sessions in
    ground arith

confirmed_as-vtoken :
    (name : Text) (label : Option Text) (vtoken : Text) (s : PairingSession)
    → (confirmed_as name label vtoken s).vtoken ≡ some vtoken
unfolding confirmed_as
confirmed_as-vtoken name label vtoken s = refl

-- After a claim that comes when the window of a confirmed code is over, the next claim of the code
-- returns no token, whatever its clock.
pub claim_late :
    (t u : Clock) (code token : Text) (s s' : PairingSession) (at : ℕ) (r : PairingRegistry)
    → lookup code r.confirmed_sessions ≡ some (s, at)
    → vtoken_claim_window ≤ elapsed t.at_check at
    → (claim_confirmed_vtoken u code (claim_confirmed_vtoken t code r).0).1 ≢ some (s', some token)
claim_late t u code token s s' at r found late h =
    let (at', found', held, _, _) =
      (claim_iff u code token s' (claim_confirmed_vtoken t code r).0).0 h in
    let cleared = claim_late-lookup t code s at r found late s' at' found' in cc

-- Two claims that follow a successful confirmation, both within the claim window and before the
-- confirmed session is purged, return the confirmed token, the second one as well as the first.
pub confirm-claim :
    (t u v : Clock) (code name : Text) (label : Option Text) (vtoken header : Text)
    (r : PairingRegistry)
    → (confirm t code name label vtoken header r).1 ≡ ok tt
    → elapsed u.at_purge t.at_store < confirmed_ttl
    → elapsed u.at_check t.at_store < vtoken_claim_window
    → elapsed v.at_purge t.at_store < confirmed_ttl
    → elapsed v.at_check t.at_store < vtoken_claim_window
    → let q = (confirm t code name label vtoken header r).0 in
      (s : PairingSession) × ((claim_confirmed_vtoken u code q).1 ≡ some (s, some vtoken))
      × ((claim_confirmed_vtoken v code (claim_confirmed_vtoken u code q).0).1
          ≡ some (s, some vtoken))
confirm-claim t u v code name label vtoken header r h u_kept u_soon v_kept v_soon =
    let q : PairingRegistry = (confirm t code name label vtoken header r).0 in
    let (s, found, _) = confirm-get t code name label vtoken header r h in
    let s' : PairingSession = confirmed_as name label vtoken s in
    let held : s'.vtoken ≡ some vtoken = confirmed_as-vtoken name label vtoken s in
    let again = claim_early-lookup u code vtoken s' t.at_store q found held u_kept u_soon in
    (
      s',
      (claim_iff u code vtoken s' q).1 (t.at_store, found, held, u_kept, u_soon),
      (claim_iff v code vtoken s' (claim_confirmed_vtoken u code q).0).1
          (t.at_store, again, held, v_kept, v_soon),
    )
