-- ===== src/Store/Conversations.antt =====
-- Virtual contexts: one for each conversation, which is stable while its real token changes.
use mathlib.Core.Path.{subst}
use ilink_hub.Base.{
  Text, List, Bool, true, false, ◌&&◌, ◌⊎◌, Option, none, some, ◌≡◌, ap, ◌∙◌, arith, if◌then◌else◌,
  not, get_or, text_eq, text_eq_iff, text_eq_refl, is_empty, Bool-cases, Option-cases, inl, inr,
}
use ilink_hub.Base.Rows.{any, find, find-append_one, find-append_miss, find-holds, any-find}
use ilink_hub.Store.{Store, ContextToken, by_vctx}
use ilink_hub.Store.Context.{
  DatabaseKind, upserts, conv_key, by_peer, find_or_create_vctx, upsert_context, select_or_insert,
  insert_or_ignore, insert_context, set_real_ctx, full_of, resolve_context_token_full,
  find_vctx_for_scope,
}
use ilink_hub.Store.Distinct.{
  Distinct, Distinct-update, Distinct-append, found_row, find-update_vctx, update_row, row_vctx,
  scope_row,
}

-- The table after `find_or_create_vctx` gave `v` for the scope `key`.
abbrev Holds : Text → Text → Text → Store → Store → Type 0
Holds v key real s s' =
    ((w : Text)
      → resolve_context_token_full w s'
        ≡ (if text_eq v w then some (real, key) else resolve_context_token_full w s))
    × Distinct s'.context_tokens

set_real_ctx-Holds :
    (key real : Text) (s : Store) (c : ContextToken)
    → Distinct s.context_tokens
    → find (by_peer key) s.context_tokens ≡ some c
    → Holds c.vctx key real s (set_real_ctx (by_vctx c.vctx) real s)
unfolding resolve_context_token_full set_real_ctx by_peer
set_real_ctx-Holds key real s c d e =
    let row = found_row key s.context_tokens c d e in
    let scope =
      (text_eq_iff c.peer_user_id key).0 (find-holds (by_peer key) s.context_tokens c e) in
    (
      λ w. find-update_vctx c.vctx w real s.context_tokens ∙ rw (row, scope),
      Distinct-update (by_vctx c.vctx) real s.context_tokens d,
    )

insert_context-Holds :
    (v key real : Text) (s : Store)
    → Distinct s.context_tokens
    → any (by_vctx v) s.context_tokens ≡ false
    → (is_empty key ≡ false → any (by_peer key) s.context_tokens ≡ false)
    → Holds v key real s
        (insert_context (record { vctx = v; real_ctx = real; peer_user_id = key }) s)
unfolding resolve_context_token_full insert_context by_vctx
insert_context-Holds v key real s d fresh unused =
    let new : ContextToken = record { vctx = v; real_ctx = real; peer_user_id = key } in
    (
      λ w. elim (Bool-cases (text_eq v w)) [
        | inl same ↦
            let taken : any (by_vctx w) s.context_tokens ≡ false =
              rw (← (text_eq_iff v w).0 same) fresh in
            let row = find-append_one (by_vctx w) s.context_tokens new taken in ground (arith, row)
        | inr other ↦
            rw other (ap full_of (find-append_miss (by_vctx w) s.context_tokens new other))
      ],
      Distinct-append s.context_tokens new d fresh unused,
    )

-- What either path gives for a scope.
abbrev Answers : Text → Text → Text → Store → Option (Store × Text) → Type 0
Answers candidate key real s answer =
    (s' : Store) × (v : Text) × (answer ≡ some (s', v))
    × (v ≡ (if is_empty key then candidate else get_or (find_vctx_for_scope key s) candidate))
    × Holds v key real s s'

module _ (candidate key real : Text) (s : Store) (d : Distinct s.context_tokens)
    (fresh : any (by_vctx candidate) s.context_tokens ≡ false) where
  abbrev inserted : ContextToken
  inserted = record { vctx = candidate; real_ctx = real; peer_user_id = key }

  insert_context-answers :
      find (by_peer key) s.context_tokens ≡ none
      → Holds candidate key real s (insert_context inserted s)
  insert_context-answers e =
      insert_context-Holds candidate key real s d fresh
        (λ n. any-find (by_peer key) s.context_tokens ∙ rw e)

  same_update :
      (c : ContextToken)
      → is_empty key ≡ false
      → find (by_peer key) s.context_tokens ≡ some c
      → set_real_ctx (by_peer key) real s ≡ set_real_ctx (by_vctx c.vctx) real s
  unfolding set_real_ctx
  same_update c n old =
      ap (λ (cs : List ContextToken). record s { context_tokens = cs })
        (update_row key real s.context_tokens c d n old)

  inserted_row : find (by_vctx candidate) (insert_context inserted s).context_tokens ≡ some inserted
  unfolding by_vctx insert_context
  inserted_row =
      find-append_one (by_vctx candidate) s.context_tokens inserted fresh
      ∙ rw (text_eq_refl candidate)

  upsert_context_lem :
      is_empty key ≡ false → Answers candidate key real s (upsert_context candidate key real s)
  unfolding upsert_context find_vctx_for_scope
  upsert_context_lem n = elim (Option-cases (find (by_peer key) s.context_tokens)) [
    | inl new ↦ (
      insert_context inserted s,
      candidate,
      ground arith,
      ground arith,
      insert_context-answers new,
    )
    | inr (c, old) ↦ (
      set_real_ctx (by_peer key) real s,
      c.vctx,
      ground arith,
      ground arith,
      rw (same_update c n old) (set_real_ctx-Holds key real s c d old),
    )
  ]

  absent : insert_or_ignore candidate key real s ≡ insert_context inserted s
  unfolding insert_or_ignore
  absent = rw fresh

  inserted_peer :
      find (by_peer key) s.context_tokens ≡ none
      → find (by_peer key) (insert_context inserted s).context_tokens ≡ some inserted
  unfolding insert_context by_peer
  inserted_peer new =
      find-append_one (by_peer key) s.context_tokens inserted
        (any-find (by_peer key) s.context_tokens ∙ rw new)
      ∙ rw (text_eq_refl key)

  select_or_insert_lem : Answers candidate key real s (some (select_or_insert candidate key real s))
  unfolding select_or_insert find_vctx_for_scope
  select_or_insert_lem = elim (Bool-cases (is_empty key)) [
    | inl anonymous ↦ (
      insert_context inserted s,
      candidate,
      ground (arith, absent, inserted_row),
      ground arith,
      insert_context-Holds candidate key real s d fresh (λ n. absurd (ground arith)),
    )
    | inr named ↦ elim (Option-cases (find (by_peer key) s.context_tokens)) [
      | inl new ↦ (
        insert_context inserted s,
        candidate,
        ground (arith, absent, inserted_peer new),
        ground arith,
        insert_context-answers new,
      )
      | inr (c, old) ↦ (
        set_real_ctx (by_vctx c.vctx) real s,
        c.vctx,
        ground arith,
        ground arith,
        set_real_ctx-Holds key real s c d old,
      )
    ]
  ]

find_vctx-resolve :
    (v key real : Text) (s : Store)
    → Distinct s.context_tokens
    → is_empty key ≡ false
    → resolve_context_token_full v s ≡ some (real, key)
    → find_vctx_for_scope key s ≡ some v
unfolding find_vctx_for_scope resolve_context_token_full
find_vctx-resolve v key real s d n e = elim (Option-cases (find (by_vctx v) s.context_tokens)) [
  | inl nothing ↦ absurd (ground arith)
  | inr (c, found) ↦
      let peer : c.peer_user_id ≡ key = ground arith in
      let context : c.vctx ≡ v = (text_eq_iff c.vctx v).0 (row_vctx v s.context_tokens c found) in
      let row = scope_row v s.context_tokens c d (rw peer n) found in ground arith
]

found_again :
    (key v real : Text) (s s' : Store)
    → Holds v key real s s'
    → (is_empty key ≡ true) ⊎ (find_vctx_for_scope key s' ≡ some v)
found_again key v real s s' (resolves, d) = elim (Bool-cases (is_empty key)) [
  | inl anonymous ↦ inl anonymous
  | inr named ↦ inr (find_vctx-resolve v key real s' d named (resolves v ∙ rw (text_eq_refl v)))
]

-- On tables whose keys are distinct and with a fresh candidate, `find_or_create_vctx` answers on
-- every database and with or without the index: with the candidate where the conversation has no
-- scope, and else with the context that the scope has, or the candidate if it has none. A scope
-- then leads to the answer. The answer stands for the given real token and the scope, every other
-- context stands for what it stood for, and the keys are still distinct.
pub find_or_create_vctx_lem :
    (kind : DatabaseKind) (missing_index : Bool) (candidate peer_user_id : Text)
    (group_id : Option Text) (real : Text) (s : Store)
    → Distinct s.context_tokens
    → any (by_vctx candidate) s.context_tokens ≡ false
    → (s' : Store) × (v : Text) × (find_or_create_vctx kind missing_index candidate peer_user_id
          group_id real s
        ≡ some (s', v))
      × (v ≡ (
          if is_empty (conv_key peer_user_id group_id)
          then candidate
          else get_or (find_vctx_for_scope (conv_key peer_user_id group_id) s) candidate))
      × ((is_empty (conv_key peer_user_id group_id) ≡ true)
          ⊎ (find_vctx_for_scope (conv_key peer_user_id group_id) s' ≡ some v))
      × ((w : Text)
          → resolve_context_token_full w s' ≡ (
              if text_eq v w
              then some (real, conv_key peer_user_id group_id)
              else resolve_context_token_full w s))
      × Distinct s'.context_tokens
unfolding find_or_create_vctx
find_or_create_vctx_lem kind missing_index candidate peer_user_id group_id real s d fresh =
    let key = conv_key peer_user_id group_id in
    elim (Bool-cases (not (is_empty key) && upserts kind && not missing_index)) [
      | inl direct ↦
          let (s', v, e, scope, holds) =
            upsert_context_lem candidate key real s d fresh (ground arith) in
          (s', v, rw direct e, scope, found_again key v real s s' holds, holds.0, holds.1)
      | inr steps ↦
          let (s', v, e, scope, holds) = select_or_insert_lem candidate key real s d fresh in
          (s', v, rw steps e, scope, found_again key v real s s' holds, holds.0, holds.1)
    ]

pub find_or_create_vctx-Distinct :
    (kind : DatabaseKind) (missing : Bool) (candidate peer_user_id : Text) (group_id : Option Text)
    (real : Text) (s : Store)
    → Distinct s.context_tokens
    → any (by_vctx candidate) s.context_tokens ≡ false
    → (t : Store) → (v : Text)
    → find_or_create_vctx kind missing candidate peer_user_id group_id real s ≡ some (t, v)
    → Distinct t.context_tokens
      × (resolve_context_token_full v t ≡ some (real, conv_key peer_user_id group_id))
find_or_create_vctx-Distinct kind missing candidate peer_user_id group_id real s d fresh t v e =
    let (t', v', e', _, _, resolves, d') =
      find_or_create_vctx_lem kind missing candidate peer_user_id group_id real s d fresh in
    let st : t' ≡ t = cc in
    let sv : v' ≡ v = cc in
    let known : resolve_context_token_full v' t' ≡ some (real, conv_key peer_user_id group_id) =
      resolves v' ∙ rw (text_eq_refl v') in
    (subst (λ (x : Store). Distinct x.context_tokens) st d', ground arith)

-- A later message of the conversation finds the same virtual context, whatever candidate,
-- database or real token comes with it, and gives it the new real token. The tables have distinct
-- keys, the candidates are fresh and the conversation has a scope.
pub find_or_create_vctx-stable :
    (kind kind' : DatabaseKind) (missing missing' : Bool) (candidate candidate' : Text)
    (peer_user_id : Text) (group_id : Option Text) (real real' : Text) (s : Store)
    → Distinct s.context_tokens
    → any (by_vctx candidate) s.context_tokens ≡ false
    → is_empty (conv_key peer_user_id group_id) ≡ false
    → (t : Store) → (v : Text)
    → find_or_create_vctx kind missing candidate peer_user_id group_id real s ≡ some (t, v)
    → any (by_vctx candidate') t.context_tokens ≡ false
    → (u : Store) × (find_or_create_vctx kind' missing' candidate' peer_user_id group_id real' t
        ≡ some (u, v))
      × (resolve_context_token_full v u ≡ some (real', conv_key peer_user_id group_id))
find_or_create_vctx-stable kind kind' missing missing' candidate candidate' peer_user_id group_id
      real real' s d fresh named t v first fresh' =
    let key = conv_key peer_user_id group_id in
    let (d', known) =
      find_or_create_vctx-Distinct kind missing candidate peer_user_id group_id real s d fresh t v
        first in
    let (u, w, e, scope, _, resolves, _) =
      find_or_create_vctx_lem kind' missing' candidate' peer_user_id group_id real' t d' fresh' in
    let same : w ≡ v = scope ∙ rw (named, find_vctx-resolve v key real t d' named known) in
    (u, rw (← same) e, rw (← same) (resolves w ∙ rw (text_eq_refl w)))
