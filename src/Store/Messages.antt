-- ===== src/Store/Messages.antt =====
-- src/store/messages.rs: the message history, as far as the search of a quoted message reads it.
-- The column `id`, which no operation here reads, is left out. `stamp` is CURRENT_TIMESTAMP in
-- seconds. Where SQL leaves the order of rows open, the row inserted first comes first.
use ilink_hub.Base.{
  ℕ, ◌+◌, ◌-◌, Text, codes, List, [], ◌∷◌, ◌++◌, map, Bool, false, ◌&&◌, Option, none, some,
  text_eq, get_or, ltb, leb, is_some, if◌then◌else◌,
}
use ilink_hub.Base.Int.{ℤ, pos, negsuc, int_eq}
use ilink_hub.Base.Strings.{strip_prefix}
use ilink_hub.Base.Rows.{find, select}

-- Table messages.
pub record Message : Type 0 where
  pub vctx : Text
  pub vtoken : Option Text
  pub session_name : Text
  pub peer_user_id : Text
  pub role : Text
  pub content : Text
  pub ilink_msg_id : Option ℤ
  pub created_at : ℕ

unfoldable pub save_message_with_msg_id :
    ℕ → Text → Option Text → Text → Text → Text → Text → Option ℤ → List Message → List Message
save_message_with_msg_id stamp vctx vtoken session_name peer_user_id role content ilink_msg_id
      rows =
    rows
    ++ record {
      vctx = vctx;
      vtoken = vtoken;
      session_name = session_name;
      peer_user_id = peer_user_id;
      role = role;
      content = content;
      ilink_msg_id = ilink_msg_id;
      created_at = stamp;
    }
      ∷ []

unfoldable pub save_message :
    ℕ → Text → Option Text → Text → Text → Text → Text → List Message → List Message
unfolding save_message_with_msg_id
save_message stamp vctx vtoken session_name peer_user_id role content rows =
    save_message_with_msg_id stamp vctx vtoken session_name peer_user_id role content none rows

-- A column that is NULL equals nothing.
abbrev pub id_is : ℤ → Option ℤ → Bool
id_is id none = false
id_is id (some n) = int_eq n id

unfoldable pub by_msg_id : Text → ℤ → Message → Bool
by_msg_id peer_user_id ilink_msg_id m =
    text_eq m.peer_user_id peer_user_id
    && text_eq m.role (codes "assistant")
    && id_is ilink_msg_id m.ilink_msg_id

abbrev pub author_of : Option Message → Option (Text × Option Text)
author_of none = none
author_of (some m) = some (get_or m.vtoken [], some m.session_name)

-- The token and the session of the row.
unfoldable pub find_assistant_message_by_msg_id :
    Text → ℤ → List Message → Option (Text × Option Text)
find_assistant_message_by_msg_id peer_user_id ilink_msg_id rows =
    author_of (find (by_msg_id peer_user_id ilink_msg_id) rows)

unfoldable pub by_assistant : Text → Message → Bool
by_assistant peer_user_id m =
    text_eq m.peer_user_id peer_user_id && text_eq m.role (codes "assistant")

-- The seconds between two instants, of which the first may lie before 1970.
unfoldable pub distance : ℤ → ℕ → ℕ
distance (pos r) t = if leb r t then t - r else r - t
distance (negsuc r) t = t + r + 1

-- `ORDER BY ABS(created_at - ref) ASC LIMIT 1`.
unfoldable pub closest : ℤ → List Message → Option Message
closest ref [] = none
closest ref (m ∷ ms) = elim (closest ref ms) [
  | none ↦ some m
  | some b ↦ if ltb (distance ref b.created_at) (distance ref m.created_at) then some b else some m
]

unfoldable pub find_assistant_message_by_timestamp :
    Text → ℤ → ℕ → List Message → Option (Text × Option Text)
find_assistant_message_by_timestamp peer_user_id ref_unix_secs window_secs rows = author_of (
    closest ref_unix_secs (
      select
        (λ m. by_assistant peer_user_id m && leb (distance ref_unix_secs m.created_at) window_secs)
        rows))

-- `ORDER BY created_at DESC LIMIT 1`.
unfoldable pub latest : List Message → Option Message
latest [] = none
latest (m ∷ ms) = elim (latest ms) [
  | none ↦ some m
  | some b ↦ if ltb m.created_at b.created_at then some b else some m
]

abbrev pub ascii_lower : ℕ → ℕ
ascii_lower c = if leb b'A' c && leb c b'Z' then c + 32 else c

-- `LIKE 'prefix%'` with the wildcards of the prefix escaped: SQLite ignores the case of ASCII
-- letters.
unfoldable pub starts_like : Text → Text → Bool
starts_like prefix content =
    is_some (strip_prefix (map ascii_lower prefix) (map ascii_lower content))

unfoldable pub find_assistant_message_by_content :
    Text → Text → List Message → Option (Text × Option Text)
find_assistant_message_by_content peer_user_id content_prefix rows = author_of (
    latest (select (λ m. by_assistant peer_user_id m && starts_like content_prefix m.content) rows))
