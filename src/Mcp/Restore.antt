-- ===== src/Mcp/Restore.antt =====
-- What the release after a call leaves of the target's grant.
use ilink_hub.Base.{
  ℕ, ◌<◌, Text, List, [], ◌∷◌, true, false, Option, none, some, ◌≡◌, refl, ap, ◌∙◌, arith,
  if◌then◌else◌, text_eq, text_eq_refl, Bool-cases, Option-cases, inl, inr,
}
use ilink_hub.Base.Rows.{any, find, delete, any-find, find-upsert}
use ilink_hub.Base.Order.{contains}
use ilink_hub.Store.{Store, ActiveSession, active_key, grant_expires_at}
use ilink_hub.Store.Sessions.{
  list_backend_sessions, delete_backend_session, get_active_session_row,
  set_active_session_with_depth, delete_active_session_if_name, active_key_named, row_of, depth_u8,
}
use ilink_hub.Store.Context.{vtoken_owns_vctx, owns, live_key}
use ilink_hub.Store.Grants.{set_active_session_with_depth-live}
use ilink_hub.Mcp.Grant.{
  no_fails, prev_active, drop_row, restore_row, drop_new, reclaim, release_a2a_grant,
}

-- Primary key: the table has one row of the pair at most.
abbrev pub Single : Text → Text → List ActiveSession → Type 0
Single vctx vtoken [] = Unit
Single vctx vtoken (r ∷ rs) =
    (active_key vctx vtoken r ≡ true → any (active_key vctx vtoken) rs ≡ false)
    × Single vctx vtoken rs

-- The row of the pair without one of the given name.
abbrev pub unless_named : Text → Option ActiveSession → Option ActiveSession
unless_named key none = none
unless_named key (some r) = if text_eq r.session_name key then none else some r

find-delete_named :
    (vctx target key : Text) (rs : List ActiveSession)
    → Single vctx target rs
    → find (active_key vctx target) (delete (active_key_named vctx target key) rs)
      ≡ unless_named key (find (active_key vctx target) rs)
unfolding find delete active_key_named
find-delete_named vctx target key [] single = refl
find-delete_named vctx target key (r ∷ rs) single = ground (
  arith,
  find-delete_named vctx target key rs single.1,
  Bool-cases (active_key vctx target r),
  Bool-cases (text_eq r.session_name key),
  any-find (active_key vctx target) rs,
  Option-cases (find (active_key vctx target) rs),
)

drop_row-get_active_session_row :
    (vctx target key : Text) (s : Store)
    → Single vctx target s.active_sessions
    → get_active_session_row vctx target (drop_row false vctx target key s)
      ≡ row_of (unless_named key (find (active_key vctx target) s.active_sessions))
unfolding get_active_session_row drop_row delete_active_session_if_name
drop_row-get_active_session_row vctx target key s single =
    ap row_of (find-delete_named vctx target key s.active_sessions single)

set_active_session-get_active_session_row :
    (now stamp : ℕ) (vctx target name : Text) (depth : ℕ) (s : Store)
    → get_active_session_row vctx target
        (set_active_session_with_depth now stamp vctx target name depth s)
      ≡ some (name, depth_u8 depth)
unfolding get_active_session_row set_active_session_with_depth active_key
set_active_session-get_active_session_row now stamp vctx target name depth s =
    ap row_of (
      find-upsert (active_key vctx target) _ _ (rw (text_eq_refl vctx, text_eq_refl target))
        (λ r e. e) s.active_sessions)
    ∙ ground (arith, Option-cases (find (active_key vctx target) s.active_sessions))

drop_new-active_sessions :
    (vctx target : Text) (pre : List Text) (rows : List (Text × Text)) (s : Store)
    → (drop_new (λ n. false) vctx target pre rows s).active_sessions ≡ s.active_sessions
unfolding drop_new delete_backend_session
drop_new-active_sessions vctx target pre [] s = refl
drop_new-active_sessions vctx target pre ((k, id) ∷ rows) s = elim (Bool-cases (contains k pre)) [
  | inl kept ↦ ground (arith, drop_new-active_sessions vctx target pre rows s)
  | inr new ↦ ground (
    arith,
    drop_new-active_sessions vctx target pre rows (delete_backend_session vctx target k s).0,
  )
]

reclaim-active_sessions :
    (vctx target : Text) (pre : Option (List Text)) (s : Store)
    → (reclaim false (λ n. false) vctx target pre s).active_sessions ≡ s.active_sessions
unfolding reclaim
reclaim-active_sessions vctx target none s = refl
reclaim-active_sessions vctx target (some pre) s =
    drop_new-active_sessions vctx target pre (list_backend_sessions vctx target s) s

row-depth_u8 :
    (vctx target : Text) (row : Text × ℕ) (s : Store)
    → get_active_session_row vctx target s ≡ some row
    → depth_u8 row.1 ≡ row.1
unfolding get_active_session_row
row-depth_u8 vctx target row s e =
    ground (arith, Option-cases (find (active_key vctx target) s.active_sessions))

restore_row-get_active_session_row :
    (now stamp : ℕ) (vctx target : Text) (before s : Store)
    → get_active_session_row vctx target
        (restore_row false false now stamp vctx target (prev_active false vctx target before) s)
      ≡ elim (get_active_session_row vctx target s) [
        | some row ↦ some row
        | none ↦ get_active_session_row vctx target before
      ]
unfolding restore_row prev_active
restore_row-get_active_session_row now stamp vctx target before s =
    elim (Option-cases (get_active_session_row vctx target s)) [
      | inr (row, there) ↦ ground arith
      | inl gone ↦ elim (Option-cases (get_active_session_row vctx target before)) [
        | inl never ↦ ground arith
        | inr (row, was) ↦ ground (
          arith,
          row-depth_u8 vctx target row before was,
          set_active_session-get_active_session_row now stamp vctx target row.0 row.1 s,
        )
      ]
    ]

get_active_session_row-same :
    (vctx target : Text) (s t : Store)
    → s.active_sessions ≡ t.active_sessions
    → get_active_session_row vctx target s ≡ get_active_session_row vctx target t
unfolding get_active_session_row
get_active_session_row-same vctx target s t e = rw e

named_row :
    (vctx target key : Text) (before s : Store)
    → elim (row_of (unless_named key (find (active_key vctx target) s.active_sessions)))
        as (λ _. Option (Text × ℕ)) [
          | some row ↦ some row
          | none ↦ get_active_session_row vctx target before
        ]
      ≡ elim (get_active_session_row vctx target s) [
        | none ↦ get_active_session_row vctx target before
        | some row ↦
            if text_eq row.0 key then get_active_session_row vctx target before else some row
      ]
unfolding get_active_session_row
named_row vctx target key before s =
    ground (arith, Option-cases (find (active_key vctx target) s.active_sessions))

-- A call whose snapshot was read, and whose release meets no failure, on any later store with one
-- row of the pair at most: the row of the pair keeps its session name and its depth as they then
-- stand, unless the row is the call's own or there is none. Then it has the session name and the
-- depth of the row that the pair had when the call began, and there is none if there was none.
pub release_a2a_grant-get_active_session_row :
    (now stamp : ℕ) (vctx target key : Text) (pre : Option (List Text)) (before s : Store)
    → Single vctx target s.active_sessions
    → get_active_session_row vctx target (
        release_a2a_grant no_fails now stamp vctx target key
          (prev_active false vctx target before)
          pre
          s)
      ≡ elim (get_active_session_row vctx target s) [
        | none ↦ get_active_session_row vctx target before
        | some row ↦
            if text_eq row.0 key then get_active_session_row vctx target before else some row
      ]
unfolding release_a2a_grant
release_a2a_grant-get_active_session_row now stamp vctx target key pre before s single =
    let prev = prev_active false vctx target before in
    let dropped = drop_row false vctx target key s in
    let restored = restore_row false false now stamp vctx target prev dropped in
    get_active_session_row-same vctx target (reclaim false (λ n. false) vctx target pre restored)
      restored (reclaim-active_sessions vctx target pre restored)
    ∙ restore_row-get_active_session_row now stamp vctx target before dropped
    ∙ ap
        (λ (o : Option (Text × ℕ)). elim o as (λ _. Option (Text × ℕ)) [
          | some row ↦ some row
          | none ↦ get_active_session_row vctx target before
        ])
        (drop_row-get_active_session_row vctx target key s single)
    ∙ named_row vctx target key before s

restored_live :
    (later now stamp : ℕ) (vctx target : Text) (before s : Store) (row : Text × ℕ)
    → get_active_session_row vctx target s ≡ none
    → get_active_session_row vctx target before ≡ some row
    → later < grant_expires_at now s
    → any
        (live_key later vctx target)
        (restore_row false false now stamp vctx target
          (prev_active false vctx target before)
          s).active_sessions
      ≡ true
unfolding restore_row prev_active
restored_live later now stamp vctx target before s row gone had soon =
    ground (arith, set_active_session_with_depth-live later now stamp vctx target row.0 row.1 s)

owns_live :
    (later : ℕ) (vctx target : Text) (s : Store)
    → any (live_key later vctx target) s.active_sessions ≡ true
    → vtoken_owns_vctx later vctx target s ≡ true
unfolding vtoken_owns_vctx owns
owns_live later vctx target s e = rw e

-- A call whose snapshot was read, and whose release meets no failure, on any later store that has
-- no row of the pair but the call's own: if the pair had a row when the call began, whether or not
-- it had expired, the target owns the conversation after the release until `grant_ttl_secs` after
-- the clock reading of the release.
pub release_a2a_grant-vtoken_owns_vctx :
    (later now stamp : ℕ) (vctx target key : Text) (pre : Option (List Text)) (before s : Store)
    → Single vctx target s.active_sessions
    → unless_named key (find (active_key vctx target) s.active_sessions) ≡ none
    → (row : Text × ℕ) → get_active_session_row vctx target before ≡ some row
    → later < grant_expires_at now s
    → vtoken_owns_vctx later vctx target (
        release_a2a_grant no_fails now stamp vctx target key
          (prev_active false vctx target before)
          pre
          s)
      ≡ true
unfolding release_a2a_grant drop_row delete_active_session_if_name grant_expires_at
release_a2a_grant-vtoken_owns_vctx later now stamp vctx target key pre before s single own row had
      soon =
    let dropped = drop_row false vctx target key s in
    let gone : get_active_session_row vctx target dropped ≡ none =
      drop_row-get_active_session_row vctx target key s single ∙ ap row_of own in
    let restored =
      restore_row false false now stamp vctx target (prev_active false vctx target before)
        dropped in
    let live : any (live_key later vctx target) restored.active_sessions ≡ true =
      restored_live later now stamp vctx target before dropped row gone had soon in
    owns_live later vctx target (reclaim false (λ n. false) vctx target pre restored) (
      ap (any (live_key later vctx target)) (reclaim-active_sessions vctx target pre restored)
      ∙ live)
