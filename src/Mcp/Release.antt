-- ===== src/Mcp/Release.antt =====
-- What the release after a call leaves of the target's rights.
use ilink_hub.Base.{
  ℕ, Text, List, [], ◌∷◌, map, true, false, ◌&&◌, Option, none, some, ◌≡◌, refl, ◌∙◌, arith,
  if◌then◌else◌, not, is_some, text_eq, text_eq_iff, Bool-cases, Option-cases, inl, inr,
}
use ilink_hub.Base.Rows.{find-delete_other, find-delete_same}
use ilink_hub.Base.Order.{contains}
use ilink_hub.Store.{Store, BackendSession, backend_key}
use ilink_hub.Store.Sessions.{
  get_backend_session, list_backend_sessions, delete_backend_session, get_active_session_row,
  set_active_session_with_depth, delete_active_session_if_name,
}
use ilink_hub.Store.Keys.{text_eq_trans, text_eq_comm}
use ilink_hub.Store.Listing.{listed, listed-list_backend_sessions}
use ilink_hub.Mcp.Grant.{
  no_fails, prev_active, pre_sessions, drop_row, restore_row, drop_new, reclaim, release_a2a_grant,
}

other_name :
    (vctx target gone name : Text) (r : BackendSession)
    → text_eq gone name ≡ false
    → backend_key vctx target name r ≡ true
    → backend_key vctx target gone r ≡ false
unfolding backend_key
other_name vctx target gone name r d e =
    ground (arith, text_eq_trans r.session_name name gone, text_eq_comm gone name)

delete_backend_session-get :
    (vctx target gone name : Text) (s : Store)
    → get_backend_session vctx target name (delete_backend_session vctx target gone s).0
      ≡ (if text_eq gone name then none else get_backend_session vctx target name s)
unfolding get_backend_session delete_backend_session
delete_backend_session-get vctx target gone name s = elim (Bool-cases (text_eq gone name)) [
  | inl same ↦ ground (
    arith,
    text_eq_iff gone name,
    find-delete_same (backend_key vctx target name) s.backend_sessions,
  )
  | inr other ↦ ground (
    arith,
    find-delete_other (backend_key vctx target name) (backend_key vctx target gone)
        (λ r e. other_name vctx target gone name r other e) s.backend_sessions,
  )
]

drop_new-get :
    (vctx target name : Text) (pre : List Text) (rows : List (Text × Text)) (s : Store)
    → get_backend_session vctx target name (drop_new (λ n. false) vctx target pre rows s) ≡ (
        if not (contains name pre) && listed name rows
        then none
        else get_backend_session vctx target name s)
unfolding drop_new listed
drop_new-get vctx target name pre [] s = ground (arith, Bool-cases (contains name pre))
drop_new-get vctx target name pre ((k, id) ∷ rows) s = elim (Bool-cases (contains k pre)) [
  | inl kept ↦ ground (arith, drop_new-get vctx target name pre rows s, text_eq_iff k name)
  | inr new ↦ ground (
    arith,
    drop_new-get vctx target name pre rows (delete_backend_session vctx target k s).0,
    delete_backend_session-get vctx target k name s,
    text_eq_iff k name,
    Bool-cases (listed name rows),
    Bool-cases (contains name pre),
  )
]

drop_row-get_backend_session :
    (vctx target key : Text) (s : Store)
    → (drop_row false vctx target key s).backend_sessions ≡ s.backend_sessions
unfolding drop_row delete_active_session_if_name
drop_row-get_backend_session vctx target key s = refl

restore_row-get_backend_session :
    (now stamp : ℕ) (vctx target : Text) (prev : Option (Text × ℕ)) (s : Store)
    → (restore_row false false now stamp vctx target prev s).backend_sessions ≡ s.backend_sessions
unfolding restore_row set_active_session_with_depth
restore_row-get_backend_session now stamp vctx target none s =
    ground (arith, Option-cases (get_active_session_row vctx target s))
restore_row-get_backend_session now stamp vctx target (some (name, depth)) s =
    ground (arith, Option-cases (get_active_session_row vctx target s))

get_backend_session-same :
    (vctx target name : Text) (s t : Store)
    → s.backend_sessions ≡ t.backend_sessions
    → get_backend_session vctx target name s ≡ get_backend_session vctx target name t
unfolding get_backend_session
get_backend_session-same vctx target name s t e = rw e

reclaimed-get_backend_session :
    (vctx target name : Text) (pre : List Text) (s : Store)
    → get_backend_session vctx target name (reclaim false (λ n. false) vctx target (some pre) s)
      ≡ (if contains name pre then get_backend_session vctx target name s else none)
unfolding reclaim
reclaimed-get_backend_session vctx target name pre s = ground (
  arith,
  drop_new-get vctx target name pre (list_backend_sessions vctx target s) s,
  listed-list_backend_sessions vctx target name s,
  Option-cases (get_backend_session vctx target name s),
  Bool-cases (contains name pre),
)

contains-map :
    (name : Text) (rows : List (Text × Text))
    → contains name (map (λ r. r.0) rows) ≡ listed name rows
unfolding contains listed
contains-map name [] = refl
contains-map name (r ∷ rows) = ground (arith, contains-map name rows)

-- A call whose statements all succeed, released on any later store: a backend session of the pair
-- is left as it then is exactly if the pair had one of its name when the call began; every other
-- session of the pair is gone, whatever was stored during the call.
pub release_a2a_grant-get_backend_session :
    (now stamp : ℕ) (vctx target key name : Text) (before s : Store)
    → get_backend_session vctx target name (
        release_a2a_grant no_fails now stamp vctx target key
          (prev_active false vctx target before)
          (pre_sessions false vctx target before)
          s)
      ≡ (if is_some (get_backend_session vctx target name before)
          then get_backend_session vctx target name s
          else none)
unfolding release_a2a_grant pre_sessions
release_a2a_grant-get_backend_session now stamp vctx target key name before s =
    let prev = prev_active false vctx target before in
    let dropped = drop_row false vctx target key s in
    let restored = restore_row false false now stamp vctx target prev dropped in
    let pre = map (λ r. r.0) (list_backend_sessions vctx target before) in
    let same = get_backend_session-same vctx target name restored s (
      restore_row-get_backend_session now stamp vctx target prev dropped
      ∙ drop_row-get_backend_session vctx target key s) in
    ground (
      arith,
      reclaimed-get_backend_session vctx target name pre restored,
      contains-map name (list_backend_sessions vctx target before),
      listed-list_backend_sessions vctx target name before,
    )
