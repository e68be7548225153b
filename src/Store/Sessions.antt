-- ===== src/Store/Sessions.antt =====
-- src/store/sessions.rs: named backend sessions, and the grants of active sessions.
use ilink_hub.Base.{
  ℕ, Text, codes, List, [], ◌∷◌, map, Bool, ◌&&◌, Option, none, some, if◌then◌else◌, ltb, leb,
  get_or, text_eq, is_empty,
}
use ilink_hub.Base.Rows.{any, find, select, delete, upsert}
use ilink_hub.Base.Strings.{trim}
use ilink_hub.Base.Order.{text_le, sort_by}
use ilink_hub.Store.{
  Store, ActiveSession, BackendSession, ContextToken, active_key, backend_key, backend_pair,
  grant_expires_at, by_vctx,
}

abbrev pub default_session : Text
default_session = codes "default"

-- A name that is not empty, or "default".
abbrev pub name_or_default : Option Text → Text
name_or_default none = default_session
name_or_default (some name) = if is_empty name then default_session else name

unfoldable pub set_backend_session : Text → Text → Text → Text → Store → Store
unfolding backend_key
set_backend_session vctx vtoken session_name backend_session_id s = record s {
  backend_sessions =
      upsert (backend_key vctx vtoken session_name)
        (λ r. record r { backend_session_id = backend_session_id })
        (record {
          vctx = vctx;
          vtoken = vtoken;
          session_name = session_name;
          backend_session_id = backend_session_id;
          last_usage_json = none;
        })
        s.backend_sessions;
}

unfoldable pub set_backend_session_usage : Text → Text → Text → Text → Store → Store
unfolding backend_key
set_backend_session_usage vctx vtoken session_name usage_json s = record s {
  backend_sessions =
      upsert (backend_key vctx vtoken session_name)
        (λ r. record r { last_usage_json = some usage_json })
        (record {
          vctx = vctx;
          vtoken = vtoken;
          session_name = session_name;
          backend_session_id = [];
          last_usage_json = some usage_json;
        })
        s.backend_sessions;
}

abbrev session_id_of : Option BackendSession → Option Text
session_id_of none = none
session_id_of (some r) = some r.backend_session_id

unfoldable pub get_backend_session : Text → Text → Text → Store → Option Text
get_backend_session vctx vtoken session_name s =
    session_id_of (find (backend_key vctx vtoken session_name) s.backend_sessions)

-- The names and ids, ordered by name.
unfoldable pub list_backend_sessions : Text → Text → Store → List (Text × Text)
list_backend_sessions vctx vtoken s =
    map (λ r. (r.session_name, r.backend_session_id))
      (sort_by (λ (a b : BackendSession). text_le a.session_name b.session_name)
        (select (backend_pair vctx vtoken) s.backend_sessions))

unfoldable pub delete_backend_session : Text → Text → Text → Store → Store × Bool
delete_backend_session vctx vtoken session_name s = (
  record s { backend_sessions = delete (backend_key vctx vtoken session_name) s.backend_sessions },
  any (backend_key vctx vtoken session_name) s.backend_sessions,
)

abbrev pub active_name : Option ActiveSession → Option Text
active_name none = none
active_name (some r) = some r.session_name

-- `filter(|s| !s.trim().is_empty())`.
abbrev pub not_blank : Option Text → Option Text
not_blank none = none
not_blank (some t) = if is_empty (trim t) then none else some t

-- The query takes an empty name as it is.
unfoldable pub get_hub_ext_single : Text → Text → Store → Text × Option Text
unfolding get_backend_session
get_hub_ext_single vctx vtoken s =
    let name =
      get_or (active_name (find (active_key vctx vtoken) s.active_sessions)) default_session in
    (name, not_blank (get_backend_session vctx vtoken name s))

unfoldable pub get_active_session_name : Text → Text → Store → Text
get_active_session_name vctx vtoken s =
    name_or_default (active_name (find (active_key vctx vtoken) s.active_sessions))

unfoldable pub set_active_session_name : ℕ → ℕ → Text → Text → Text → Store → Store
unfolding active_key
set_active_session_name now stamp vctx vtoken session_name s = record s {
  active_sessions =
      upsert (active_key vctx vtoken)
        (λ r. record r {
          session_name = session_name;
          expires_at = grant_expires_at now s;
          updated_at = stamp;
        })
        (record {
          vctx = vctx;
          vtoken = vtoken;
          session_name = session_name;
          a2a_depth = 0;
          expires_at = grant_expires_at now s;
          updated_at = stamp;
        })
        s.active_sessions;
}

unfoldable pub set_active_session_with_depth : ℕ → ℕ → Text → Text → Text → ℕ → Store → Store
unfolding active_key
set_active_session_with_depth now stamp vctx vtoken session_name a2a_depth s = record s {
  active_sessions =
      upsert (active_key vctx vtoken)
        (λ r. record r {
          session_name = session_name;
          a2a_depth = a2a_depth;
          expires_at = grant_expires_at now s;
          updated_at = stamp;
        })
        (record {
          vctx = vctx;
          vtoken = vtoken;
          session_name = session_name;
          a2a_depth = a2a_depth;
          expires_at = grant_expires_at now s;
          updated_at = stamp;
        })
        s.active_sessions;
}

-- `u8::try_from(depth.max(0)).unwrap_or(u8::MAX)`.
abbrev pub depth_u8 : ℕ → ℕ
depth_u8 depth = if leb depth 255 then depth else 255

abbrev pub row_of : Option ActiveSession → Option (Text × ℕ)
row_of none = none
row_of (some r) = some (r.session_name, depth_u8 r.a2a_depth)

unfoldable pub get_active_session_row : Text → Text → Store → Option (Text × ℕ)
get_active_session_row vctx vtoken s = row_of (find (active_key vctx vtoken) s.active_sessions)

unfoldable pub active_key_named : Text → Text → Text → ActiveSession → Bool
unfolding active_key
active_key_named vctx vtoken session_name r =
    active_key vctx vtoken r && text_eq r.session_name session_name

unfoldable pub delete_active_session_if_name : Text → Text → Text → Store → Store × Bool
unfolding active_key_named
delete_active_session_if_name vctx vtoken session_name s = (
  record s {
    active_sessions = delete (active_key_named vctx vtoken session_name) s.active_sessions;
  },
  any (active_key_named vctx vtoken session_name) s.active_sessions,
)

-- One transaction of three statements.
unfoldable pub revoke_authorizations_for_vtoken : Text → Store → Store
revoke_authorizations_for_vtoken vtoken s = record s {
  routing_states = delete (λ r. text_eq r.active_vtoken vtoken) s.routing_states;
  active_sessions = delete (λ r. text_eq r.vtoken vtoken) s.active_sessions;
  backend_sessions = delete (λ r. text_eq r.vtoken vtoken) s.backend_sessions;
}

pub record ActiveCtxInfo : Type 0 where
  pub vctx : Text
  pub real_ctx : Text
  pub peer_user_id : Text
  pub a2a_depth : ℕ

-- The rows that the query joins: unexpired grants of the client with a known conversation.
unfoldable pub active_ctx : ℕ → Text → List ContextToken → ActiveSession → Option ActiveCtxInfo
active_ctx now vtoken tokens r =
    if text_eq r.vtoken vtoken && ltb now r.expires_at
    then elim (find (by_vctx r.vctx) tokens) [
      | none ↦ none
      | some c ↦ some (record {
        vctx = r.vctx;
        real_ctx = c.real_ctx;
        peer_user_id = c.peer_user_id;
        a2a_depth = depth_u8 r.a2a_depth;
      })
    ]
    else none

-- The row that is ordered first of two: the later one, and of two as late the one found first.
abbrev later : Option (ℕ × ActiveCtxInfo) → Option (ℕ × ActiveCtxInfo) → Option (ℕ × ActiveCtxInfo)
later none b = b
later (some a) none = some a
later (some (t, a)) (some (u, b)) = if ltb t u then some (u, b) else some (t, a)

abbrev stamped : ℕ → Option ActiveCtxInfo → Option (ℕ × ActiveCtxInfo)
stamped t none = none
stamped t (some i) = some (t, i)

unfoldable pub newest :
    (ActiveSession → Option ActiveCtxInfo) → List ActiveSession → Option (ℕ × ActiveCtxInfo)
newest info [] = none
newest info (r ∷ rs) = later (stamped r.updated_at (info r)) (newest info rs)

abbrev unstamped : Option (ℕ × ActiveCtxInfo) → Option ActiveCtxInfo
unstamped none = none
unstamped (some (t, i)) = some i

unfoldable pub get_active_ctx_for_vtoken : ℕ → Text → Store → Option ActiveCtxInfo
unfolding active_ctx newest
get_active_ctx_for_vtoken now vtoken s =
    unstamped (newest (active_ctx now vtoken s.context_tokens) s.active_sessions)
