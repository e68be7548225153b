-- ===== src/Message.antt =====
-- src/ilink/types.rs: the message type of both protocols. `J` stands for `serde_json::Value`, which
-- the code passes on.
use ilink_hub.Base.{Text, List, [], ◌∷◌, Option, none, some}
use ilink_hub.Base.Int.{ℤ}

pub record TextItem : Type 0 where
  pub text : Option Text

pub record VoiceItem : Type 0 where
  pub text : Option Text

pub record CdnMedia : Type 0 where
  pub encrypt_query_param : Option Text
  pub aes_key : Option Text
  pub encrypt_type : Option ℤ
  pub full_url : Option Text

pub record ImageItem : Type 0 where
  pub media : Option CdnMedia
  pub thumb_media : Option CdnMedia
  pub mid_size : Option ℤ
  pub thumb_size : Option ℤ
  pub cdn_url : Option Text
  pub md5 : Option Text
  pub media_id : Option Text

pub record FileItem : Type 0 where
  pub file_name : Option Text
  pub cdn_url : Option Text
  pub file_size : Option ℤ
  pub md5 : Option Text
  pub media_id : Option Text

pub record VideoItem : Type 0 where
  pub cdn_url : Option Text
  pub duration_ms : Option ℤ
  pub md5 : Option Text
  pub media_id : Option Text

pub record MessageItem (J : Type 0) : Type 0 where
  pub item_type : Option ℤ
  pub text_item : Option TextItem
  pub voice_item : Option VoiceItem
  pub image_item : Option ImageItem
  pub file_item : Option FileItem
  pub video_item : Option VideoItem
  pub extra : J

pub record HubExt (J : Type 0) : Type 0 where
  pub session_id : Option Text
  pub session_name : Option Text
  pub cli_session_id : Option Text
  pub a2a_call_id : Option Text
  pub a2a_depth : Option ℤ
  pub usage : Option J

pub record WeixinMessage (J : Type 0) : Type 0 where
  pub seq : Option ℤ
  pub message_id : Option ℤ
  pub from_user_id : Option Text
  pub to_user_id : Option Text
  pub client_id : Option Text
  pub create_time_ms : Option ℤ
  pub update_time_ms : Option ℤ
  pub session_id : Option Text
  pub group_id : Option Text
  pub message_type : Option ℤ
  pub message_state : Option ℤ
  pub item_list : Option (List (MessageItem J))
  pub context_token : Option Text
  pub ilink_hub_ext : Option (HubExt J)

-- `WeixinMessage::default()`.
abbrev pub default_message : {J : Type 0} → WeixinMessage J
default_message = record {
  seq = none;
  message_id = none;
  from_user_id = none;
  to_user_id = none;
  client_id = none;
  create_time_ms = none;
  update_time_ms = none;
  session_id = none;
  group_id = none;
  message_type = none;
  message_state = none;
  item_list = none;
  context_token = none;
  ilink_hub_ext = none;
}

module _ {J : Type 0} where
  item_text : MessageItem J → Option Text
  item_text item = elim item.text_item [ none ↦ none | some t ↦ t.text ]

  item_voice : MessageItem J → Option Text
  item_voice item = elim item.voice_item [ none ↦ none | some v ↦ v.text ]

  -- `find_map` over the items.
  unfoldable pub find_map : (MessageItem J → Option Text) → List (MessageItem J) → Option Text
  find_map f [] = none
  find_map f (x ∷ xs) = let rest = find_map f xs in elim (f x) [ none ↦ rest | some t ↦ some t ]

  -- The text of the first text item, or else of the first voice item.
  unfoldable pub text : WeixinMessage J → Option Text
  unfolding find_map item_text item_voice
  text msg = elim msg.item_list [
    | none ↦ none
    | some items ↦ elim (find_map item_text items) [
      | none ↦ find_map item_voice items
      | some t ↦ some t
    ]
  ]
