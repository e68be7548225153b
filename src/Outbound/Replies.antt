-- ===== src/Outbound/Replies.antt =====
-- The messages that src/ilink/types.rs builds.
use ilink_hub.Base.{◌≡◌, refl, Text, is_empty, Option, none, some, true, false, arith}
use ilink_hub.Base.Int.{pos}
use ilink_hub.Message.{WeixinMessage, text, find_map}
use ilink_hub.Outbound.{
  Draws, finish, new_outbound_msg_id, new_client_id, or_set, client_id_or, ensure_outbound,
  has_content, has_media_content, build_text_reply, build_image_reply, build_file_reply,
}

or_set_twice {ℓ} : {A : Type ℓ} (o : Option A) (a b : A) → or_set (or_set o a) b ≡ or_set o a
or_set_twice none a b = refl
or_set_twice (some c) a b = refl

client_id_or_twice :
    (o : Option Text) (a b : Text)
    → is_empty a ≡ false
    → client_id_or (client_id_or o a) b ≡ client_id_or o a
client_id_or_twice o a b h = ground (arith, h)

module _ {J : Type 0} where
  -- A second `ensure_outbound` changes nothing, whatever it draws: the ids of the first call stay.
  pub ensure_outbound-idempotent :
      (d d' : Draws) (msg : WeixinMessage J)
      → ensure_outbound d' (ensure_outbound d msg) ≡ ensure_outbound d msg
  unfolding ensure_outbound is_empty new_client_id
  ensure_outbound-idempotent d d' msg =
      rw
        (
          or_set_twice msg.message_type (pos 2) (pos 2),
          or_set_twice msg.message_state finish finish,
          or_set_twice msg.message_id (new_outbound_msg_id d.millis d.counter)
              (new_outbound_msg_id d'.millis d'.counter),
          client_id_or_twice msg.client_id (new_client_id d.uuid) (new_client_id d'.uuid) refl,
        )
        refl

  -- A text reply is read back as its text and holds no media; an image or a file reply holds media
  -- and no text; all three have content and an id.
  pub build_replies_lem :
      (null : J) (d : Draws) (context_token body media_id : Text) (file_name : Option Text)
      → let reply = build_text_reply null d context_token body in
        let image = build_image_reply null d context_token media_id in
        let file = build_file_reply null d context_token media_id file_name in
        ((text reply ≡ some body) × (text image ≡ none) × (text file ≡ none))
        × ((has_media_content reply ≡ false)
            × (has_media_content image ≡ true)
            × (has_media_content file ≡ true))
        × ((has_content reply ≡ true) × (has_content image ≡ true) × (has_content file ≡ true))
  unfolding build_text_reply build_image_reply build_file_reply text find_map has_media_content
      has_content
  build_replies_lem null d context_token body media_id file_name =
      ((refl, refl, refl), (refl, refl, refl), (refl, refl, refl))
