-- ===== src/Store.antt =====
-- src/store/: the tables of the database, as the SQL of each operation changes them. An operation
-- here is its statement carried out; the driver, which may also refuse it with no change, is the
-- caller's concern. `now` and `stamp` are the clock readings of an operation in seconds: the
-- hub's, and the database's CURRENT_TIMESTAMP.
pub mod Sessions
pub mod Context
pub mod Clients
pub mod Keys
pub mod Grants
pub mod Listing
pub mod Distinct
pub mod Conversations
mod Routes
pub mod Messages
mod Examples
use ilink_hub.Base.{
  ℕ, ◌+◌, ◌-◌, ◌^◌, min, Text, List, Bool, ◌&&◌, Option, none, some, if◌then◌else◌, ltb, leb,
  text_eq,
}

-- Table active_sessions, primary key (vctx, vtoken).
pub record ActiveSession : Type 0 where
  pub vctx : Text
  pub vtoken : Text
  pub session_name : Text
  pub a2a_depth : ℕ
  pub expires_at : ℕ
  pub updated_at : ℕ

-- Table backend_sessions_v2, primary key (vctx, vtoken, session_name).
pub record BackendSession : Type 0 where
  pub vctx : Text
  pub vtoken : Text
  pub session_name : Text
  pub backend_session_id : Text
  pub last_usage_json : Option Text

-- Table context_token_map, primary key vctx; peer_user_id is unique where it is not empty.
pub record ContextToken : Type 0 where
  pub vctx : Text
  pub real_ctx : Text
  pub peer_user_id : Text

-- Table routing_state, primary key from_user.
pub record RoutingState : Type 0 where
  pub from_user : Text
  pub active_vtoken : Text

-- Table clients, primary key vtoken; name is unique.
pub record ClientRow : Type 0 where
  pub vtoken : Text
  pub name : Text
  pub label : Option Text
  pub last_seen : Option ℕ
  pub persona_name : Option Text
  pub persona_emoji : Option Text
  pub description : Option Text

pub record Store : Type 0 where
  pub active_sessions : List ActiveSession
  pub backend_sessions : List BackendSession
  pub context_tokens : List ContextToken
  pub routing_states : List RoutingState
  pub clients : List ClientRow
  pub grant_ttl_secs : ℕ

abbrev pub i64_max : ℕ
i64_max = 2 ^ 63 - 1

-- The time since the epoch; `none` is a clock before it.
unfoldable pub now_epoch_secs : Option ℕ → ℕ
now_epoch_secs none = 0
now_epoch_secs (some secs) = min secs i64_max

-- `i64::saturating_add` of two values that are not negative.
unfoldable pub grant_expires_at : ℕ → Store → ℕ
grant_expires_at now s = min (now + min s.grant_ttl_secs i64_max) i64_max

-- The tests of the primary keys.
unfoldable pub active_key : Text → Text → ActiveSession → Bool
active_key vctx vtoken r = text_eq r.vctx vctx && text_eq r.vtoken vtoken

unfoldable pub backend_key : Text → Text → Text → BackendSession → Bool
backend_key vctx vtoken session_name r =
    text_eq r.vctx vctx && text_eq r.vtoken vtoken && text_eq r.session_name session_name

unfoldable pub backend_pair : Text → Text → BackendSession → Bool
backend_pair vctx vtoken r = text_eq r.vctx vctx && text_eq r.vtoken vtoken

unfoldable pub by_vctx : Text → ContextToken → Bool
by_vctx vctx c = text_eq c.vctx vctx
