-- ===== src/QuoteRoute/Searches.antt =====
-- src/hub/quote_route.rs and src/hub/dispatch/quote.rs: the origin of a quoted message by the time and
-- by the content of the message.
use ilink_hub.Base.{
  ℕ, zero, suc, ◌+◌, ◌-◌, ◌/◌, Text, codes, List, [], ◌∷◌, Bool, Option, none, some, ◌==◌, ◌||◌,
  if◌then◌else◌, is_empty,
}
use ilink_hub.Base.Int.{ℤ, pos, negsuc}
use ilink_hub.Base.Strings.{trim}
use ilink_hub.Message.{WeixinMessage, MessageItem}
use ilink_hub.Registry.{ClientRegistry}
use ilink_hub.Store.Messages.{
  Message, find_assistant_message_by_timestamp, find_assistant_message_by_content,
}
use ilink_hub.QuoteRoute.{QuoteOrigin}
use ilink_hub.QuoteRoute.Quoted.{Json, get_in, derive_peer_scope, origin_of}
use ilink_hub.QuoteRoute.Fallback.{collect_quoted}

-- The division of `i64` rounds towards zero.
unfoldable pub secs_of : ℤ → ℤ
secs_of (pos ms) = pos (ms / 1000)
secs_of (negsuc ms) = let secs = (ms + 1) / 1000 in if secs == 0 then pos 0 else negsuc (secs - 1)

unfoldable pub take_chars : ℕ → Text → Text
take_chars zero t = []
take_chars (suc n) [] = []
take_chars (suc n) (c ∷ cs) = c ∷ take_chars n cs

unfoldable pub content_prefix : Text → Text
content_prefix quoted_text = take_chars 48 (trim quoted_text)

module _ {J : Type 0} (json : Json J) where
  abbrev pub integer_of : Option J → Option ℤ
  integer_of none = none
  integer_of (some v) = json.as_i64 v

  unfoldable pub item_time : MessageItem J → Option ℤ
  item_time item =
      let message_item =
        get_in json (codes "message_item") (json.get (codes "ref_msg") item.extra) in
      integer_of (get_in json (codes "create_time_ms") message_item)

  unfoldable pub first_time : List (MessageItem J) → Option ℤ
  first_time [] = none
  first_time (x ∷ xs) =
      let rest = first_time xs in elim (item_time x) [ none ↦ rest | some ms ↦ some ms ]

  unfoldable pub collect_quoted_timestamp : WeixinMessage J → Option ℤ
  collect_quoted_timestamp msg = elim msg.item_list [ none ↦ none | some items ↦ first_time items ]

  -- Within 10 seconds. `fails` tells whether the query fails or is out of time.
  unfoldable pub resolve_quote_from_timestamp :
      Bool → List Message → ClientRegistry → WeixinMessage J → Option QuoteOrigin
  resolve_quote_from_timestamp fails rows registry msg = elim (collect_quoted_timestamp msg) [
    | none ↦ none
    | some ref_ms ↦ elim (derive_peer_scope msg) [
      | none ↦ none
      | some peer_user_id ↦
          if fails
          then none
          else origin_of registry
              (find_assistant_message_by_timestamp peer_user_id (secs_of ref_ms) 10 rows)
    ]
  ]

  unfoldable pub resolve_quote_from_db :
      Bool → List Message → ClientRegistry → WeixinMessage J → Option QuoteOrigin
  resolve_quote_from_db fails rows registry msg = elim (collect_quoted json msg) [
    | none ↦ none
    | some (quoted_text, ref_ms) ↦ elim (derive_peer_scope msg) [
      | none ↦ none
      | some peer_user_id ↦
          let prefix = content_prefix quoted_text in
          if is_empty prefix || is_empty (trim prefix)
          then none
          else if fails
          then none
          else origin_of registry (find_assistant_message_by_content peer_user_id prefix rows)
    ]
  ]
