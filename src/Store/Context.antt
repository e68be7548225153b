-- ===== src/Store/Context.antt =====
-- src/store/context.rs: virtual conversation contexts, and which client owns one.
use ilink_hub.Base.{
  ℕ, Text, codes, [], ◌∷◌, ◌++◌, Bool, true, false, ◌&&◌, ◌||◌, Option, none, some, if◌then◌else◌,
  ltb, not, get_or, text_eq, is_empty,
}
use ilink_hub.Base.Rows.{any, find, find_last, update}
use ilink_hub.Store.{
  Store, ActiveSession, BackendSession, ContextToken, active_key, backend_pair, by_vctx,
}
use ilink_hub.Store.Sessions.{default_session, active_name}

pub data DatabaseKind : Type 0 where
  sqlite : DatabaseKind
  postgres : DatabaseKind
  my_sql : DatabaseKind

unfoldable pub group_key : Text → Text
group_key g = codes "group:" ++ g

unfoldable pub peer_key : Text → Text
peer_key p = codes "peer:" ++ p

abbrev dm_key : Text → Text
dm_key peer_user_id = if is_empty peer_user_id then [] else peer_key peer_user_id

-- The key of a conversation: of its group, else of its user, else empty.
unfoldable pub conv_key : Text → Option Text → Text
unfolding group_key peer_key
conv_key peer_user_id none = dm_key peer_user_id
conv_key peer_user_id (some g) = if is_empty g then dm_key peer_user_id else group_key g

unfoldable pub by_peer : Text → ContextToken → Bool
by_peer peer_user_id c = text_eq c.peer_user_id peer_user_id

abbrev pub upserts : DatabaseKind → Bool
upserts sqlite = true
upserts postgres = true
upserts my_sql = false

unfoldable pub insert_context : ContextToken → Store → Store
insert_context c s = record s { context_tokens = s.context_tokens ++ c ∷ [] }

-- The update of both paths: the real token of the rows that a test selects.
unfoldable pub set_real_ctx : (ContextToken → Bool) → Text → Store → Store
set_real_ctx p real_ctx s = record s {
  context_tokens = update p (λ c. record c { real_ctx = real_ctx }) s.context_tokens;
}

-- `INSERT ... ON CONFLICT (peer_user_id) DO UPDATE SET real_ctx ... RETURNING vctx`; `none` is the
-- violation of the primary key.
unfoldable pub upsert_context : Text → Text → Text → Store → Option (Store × Text)
upsert_context candidate key real_ctx s = elim (find (by_peer key) s.context_tokens) [
  | some c ↦ some (set_real_ctx (by_peer key) real_ctx s, c.vctx)
  | none ↦
      if any (by_vctx candidate) s.context_tokens
      then none
      else some (
        insert_context (record { vctx = candidate; real_ctx = real_ctx; peer_user_id = key }) s,
        candidate,
      )
]

-- `INSERT ... ON CONFLICT (vctx) DO NOTHING`.
unfoldable pub insert_or_ignore : Text → Text → Text → Store → Store
insert_or_ignore candidate key real_ctx s =
    if any (by_vctx candidate) s.context_tokens
    then s
    else insert_context (record { vctx = candidate; real_ctx = real_ctx; peer_user_id = key }) s

abbrev vctx_of : Option ContextToken → Option Text
vctx_of none = none
vctx_of (some c) = some c.vctx

-- The path of two steps: select, then update the row found or insert one and read it back.
unfoldable pub select_or_insert : Text → Text → Text → Store → Store × Text
select_or_insert candidate key real_ctx s =
    let s' = insert_or_ignore candidate key real_ctx s in
    if is_empty key
    then (s', get_or (vctx_of (find (by_vctx candidate) s'.context_tokens)) candidate)
    else elim (find (by_peer key) s.context_tokens) [
      | some c ↦ (set_real_ctx (by_vctx c.vctx) real_ctx s, c.vctx)
      | none ↦ (s', get_or (vctx_of (find (by_peer key) s'.context_tokens)) candidate)
    ]

-- `candidate` is `vctx_` with a fresh UUID, and `missing_index` the answer of the database that
-- the index of version 7 is not there.
unfoldable pub find_or_create_vctx :
    DatabaseKind → Bool → Text → Text → Option Text → Text → Store → Option (Store × Text)
find_or_create_vctx kind missing_index candidate peer_user_id group_id real_ctx s =
    let key = conv_key peer_user_id group_id in
    if not (is_empty key) && upserts kind && not missing_index
    then upsert_context candidate key real_ctx s
    else some (select_or_insert candidate key real_ctx s)

abbrev real_of : Option ContextToken → Option Text
real_of none = none
real_of (some c) = some c.real_ctx

unfoldable pub resolve_context_token : Text → Store → Option Text
resolve_context_token vctx s = real_of (find (by_vctx vctx) s.context_tokens)

abbrev pub full_of : Option ContextToken → Option (Text × Text)
full_of none = none
full_of (some c) = some (c.real_ctx, c.peer_user_id)

unfoldable pub resolve_context_token_full : Text → Store → Option (Text × Text)
resolve_context_token_full vctx s = full_of (find (by_vctx vctx) s.context_tokens)

unfoldable pub find_vctx_for_scope : Text → Store → Option Text
find_vctx_for_scope scope s = vctx_of (find (by_peer scope) s.context_tokens)

abbrev holder_of : Option BackendSession → Option Text
holder_of none = none
holder_of (some r) = some r.vtoken

-- The order of SQLite: the row inserted last.
unfoldable pub find_vtoken_for_session : Text → Text → Store → Option Text
find_vtoken_for_session vctx session_name s =
    holder_of (
      find_last (λ r. text_eq r.vctx vctx && text_eq r.session_name session_name)
        s.backend_sessions)

unfoldable pub live_key : ℕ → Text → Text → ActiveSession → Bool
unfolding active_key
live_key now vctx vtoken r = active_key vctx vtoken r && ltb now r.expires_at

-- The test of ownership that both queries hold.
unfoldable pub owns : ℕ → Text → Text → Store → Bool
unfolding live_key backend_pair
owns now vctx vtoken s =
    any (live_key now vctx vtoken) s.active_sessions
    || any (backend_pair vctx vtoken) s.backend_sessions

-- The real token, the scope and the session name.
unfoldable pub resolve_send_context : ℕ → Text → Text → Store → Option (Text × Text × Text)
resolve_send_context now vctx vtoken s = elim (find (by_vctx vctx) s.context_tokens) [
  | none ↦ none
  | some c ↦
      if owns now vctx vtoken s
      then some (
        c.real_ctx,
        c.peer_user_id,
        get_or (active_name (find (live_key now vctx vtoken) s.active_sessions)) default_session,
      )
      else none
]

unfoldable pub vtoken_owns_vctx : ℕ → Text → Text → Store → Bool
unfolding owns
vtoken_owns_vctx now vctx vtoken s = owns now vctx vtoken s
