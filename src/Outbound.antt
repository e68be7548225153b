-- ===== src/Outbound.antt =====
-- src/ilink/types.rs: the messages that the hub sends. `null` stands for the default of
-- `serde_json::Value`. A call is given what it draws: the identifier of the `uuid` crate, the
-- milliseconds since 1970 and the value of the static `COUNTER`.
pub mod Ids
pub mod Replies
use ilink_hub.Base.{
  ℕ, ◌+◌, ◌*◌, ◌%◌, ◌^◌, Text, codes, is_empty, List, [], ◌∷◌, ◌++◌, Option, none, some, Bool, true,
  false, ◌||◌, ◌==◌, not, if◌then◌else◌,
}
use ilink_hub.Base.Int.{ℤ, pos, negsuc, as_i64}
use ilink_hub.Message.{TextItem, ImageItem, FileItem, MessageItem, WeixinMessage, default_message}

abbrev pub msg_type_text : ℤ
msg_type_text = pos 1

abbrev pub msg_type_image : ℤ
msg_type_image = pos 2

abbrev pub msg_type_file : ℤ
msg_type_file = pos 4

abbrev pub finish : ℤ
finish = pos 2

pub record Draws : Type 0 where
  pub uuid : Text
  pub millis : ℕ
  pub counter : ℕ

-- The new value of `COUNTER` is `(counter + 1) % 2 ^ 64`.
unfoldable pub new_outbound_msg_id : ℕ → ℕ → ℤ
new_outbound_msg_id millis counter = as_i64 ((millis * 1000000 + counter % 1000000) % 2 ^ 64)

unfoldable pub new_client_id : Text → Text
new_client_id uuid = codes "ilink-hub:" ++ uuid

abbrev pub or_set {ℓ} : {A : Type ℓ} → Option A → A → Option A
or_set none a = some a
or_set (some b) a = some b

-- A client id that is missing or empty is replaced.
abbrev pub client_id_or : Option Text → Text → Option Text
client_id_or none fresh = some fresh
client_id_or (some id) fresh = if is_empty id then some fresh else some id

-- `!matches!(item_type, Some(TEXT) | None)`.
abbrev pub is_media : Option ℤ → Bool
is_media none = false
is_media (some (pos n)) = not (n == 1)
is_media (some (negsuc n)) = true

module _ {J : Type 0} where
  unfoldable pub first_item_type : WeixinMessage J → Option ℤ
  first_item_type msg = elim msg.item_list [
    | none ↦ none
    | some items ↦ elim items [ [] ↦ none | x ∷ xs ↦ x.item_type ]
  ]

  unfoldable pub has_content : WeixinMessage J → Bool
  has_content msg = elim msg.item_list [
    | none ↦ false
    | some items ↦ elim items [ [] ↦ false | x ∷ xs ↦ true ]
  ]

  abbrev pub any_media : List (MessageItem J) → Bool
  any_media [] = false
  any_media (x ∷ xs) = is_media x.item_type || any_media xs

  unfoldable pub has_media_content : WeixinMessage J → Bool
  has_media_content msg = elim msg.item_list [ none ↦ false | some items ↦ any_media items ]

  unfoldable pub ensure_outbound : Draws → WeixinMessage J → WeixinMessage J
  unfolding new_client_id
  ensure_outbound d msg = record msg {
    from_user_id = some [];
    message_type = or_set msg.message_type (pos 2);
    message_state = or_set msg.message_state finish;
    client_id = client_id_or msg.client_id (new_client_id d.uuid);
    message_id = or_set msg.message_id (new_outbound_msg_id d.millis d.counter);
  }

  -- `MessageItem::default()`.
  abbrev pub default_item : J → MessageItem J
  default_item null = record {
    item_type = none;
    text_item = none;
    voice_item = none;
    image_item = none;
    file_item = none;
    video_item = none;
    extra = null;
  }

  -- What the three builders have in common.
  abbrev pub reply : Draws → Text → MessageItem J → WeixinMessage J
  reply d context_token item = ensure_outbound d (record default_message {
    context_token = some context_token;
    message_type = some (pos 2);
    message_state = some finish;
    from_user_id = some [];
    client_id = some (new_client_id d.uuid);
    item_list = some (item ∷ []);
  })

  unfoldable pub build_text_reply : J → Draws → Text → Text → WeixinMessage J
  unfolding ensure_outbound new_client_id
  build_text_reply null d context_token text = reply d context_token (record (default_item null) {
    item_type = some msg_type_text;
    text_item = some (record { text = some text });
  })

  unfoldable pub build_image_reply : J → Draws → Text → Text → WeixinMessage J
  unfolding ensure_outbound new_client_id
  build_image_reply null d context_token media_id =
      reply d context_token (record (default_item null) {
        item_type = some msg_type_image;
        image_item = some (record {
          media = none;
          thumb_media = none;
          mid_size = none;
          thumb_size = none;
          cdn_url = none;
          md5 = none;
          media_id = some media_id;
        });
      })

  unfoldable pub build_file_reply : J → Draws → Text → Text → Option Text → WeixinMessage J
  unfolding ensure_outbound new_client_id
  build_file_reply null d context_token media_id file_name =
      reply d context_token (record (default_item null) {
        item_type = some msg_type_file;
        file_item = some (record {
          file_name = file_name;
          cdn_url = none;
          file_size = none;
          md5 = none;
          media_id = some media_id;
        });
      })
