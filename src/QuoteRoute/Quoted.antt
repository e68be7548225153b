-- ===== src/QuoteRoute/Quoted.antt =====
-- src/hub/quote_route.rs and src/hub/dispatch/quote.rs: the message that a user quotes, found by
-- its id. `Json` is what the code calls of `serde_json::Value`.
use ilink_hub.Base.{
  ℕ, ◌-◌, ◌^◌, Text, codes, List, [], ◌∷◌, ◌++◌, Bool, Option, none, some, ltb, leb, ◌==◌,
  if◌then◌else◌, get_or, is_empty,
}
use ilink_hub.Base.Int.{ℤ, pos, negsuc}
use ilink_hub.Base.Order.{parse_digits, drop_plus, parse_nonempty}
use ilink_hub.Base.Strings.{trim}
use ilink_hub.Message.{WeixinMessage, MessageItem, find_map}
use ilink_hub.Registry.{ClientInfo, ClientRegistry, get_by_vtoken}
use ilink_hub.Store.Messages.{Message, find_assistant_message_by_msg_id}
use ilink_hub.QuoteRoute.{QuoteOrigin, client}

abbrev pub i64_of : Option ℕ → Option ℤ
i64_of none = none
i64_of (some n) = if ltb n (2 ^ 63) then some (pos n) else none

abbrev pub neg_i64_of : Option ℕ → Option ℤ
neg_i64_of none = none
neg_i64_of (some n) =
    if n == 0 then some (pos 0) else if leb n (2 ^ 63) then some (negsuc (n - 1)) else none

-- `str::parse::<i64>().ok()`.
unfoldable pub parse_i64 : Text → Option ℤ
unfolding parse_digits
parse_i64 [] = none
parse_i64 (c ∷ cs) =
    if c == b'-'
    then neg_i64_of (parse_nonempty cs)
    else i64_of (parse_nonempty (drop_plus (c ∷ cs)))

-- `get` answers none on a value that is no object, `as_str` on one that is no string, and `as_i64`
-- on one that is no integer of that type.
pub record Json (J : Type 0) : Type 0 where
  pub get : Text → J → Option J
  pub as_str : J → Option Text
  pub as_i64 : J → Option ℤ

abbrev pub not_blank : Option Text → Option Text
not_blank none = none
not_blank (some id) = if is_empty (trim id) then none else some id

abbrev pub parse_id : Option Text → Option ℤ
parse_id none = none
parse_id (some raw) = parse_i64 (trim raw)

-- A client that is not registered any more goes by its token.
abbrev pub client_origin : Text → Option Text → Option ClientInfo → QuoteOrigin
client_origin vtoken session_name none = client vtoken vtoken none session_name
client_origin vtoken session_name (some c) = client vtoken c.name c.label session_name

abbrev pub origin_of : ClientRegistry → Option (Text × Option Text) → Option QuoteOrigin
origin_of registry none = none
origin_of registry (some (vtoken, session_name)) =
    if is_empty vtoken
    then none
    else some (client_origin vtoken session_name (get_by_vtoken vtoken registry))

module _ {J : Type 0} where
  -- None where the sender and the group are missing or empty.
  unfoldable pub derive_peer_scope : WeixinMessage J → Option Text
  derive_peer_scope msg =
      let group_id = get_or msg.group_id [] in
      let from_user_id = get_or msg.from_user_id [] in
      if is_empty group_id
      then if is_empty from_user_id then none else some (codes "peer:" ++ from_user_id)
      else some (codes "group:" ++ group_id)

  module _ (json : Json J) where
    abbrev pub get_in : Text → Option J → Option J
    get_in key none = none
    get_in key (some v) = json.get key v

    abbrev pub string_of : Option J → Option Text
    string_of none = none
    string_of (some v) = json.as_str v

    unfoldable pub item_msg_id : MessageItem J → Option Text
    item_msg_id item =
        let message_item = get_in (codes "message_item") (json.get (codes "ref_msg") item.extra) in
        not_blank (string_of (get_in (codes "msg_id") message_item))

    unfoldable pub collect_quoted_msg_id : WeixinMessage J → Option Text
    collect_quoted_msg_id msg = elim msg.item_list [
      | none ↦ none
      | some items ↦ find_map item_msg_id items
    ]

    -- `fails` tells whether the query fails or is out of time.
    unfoldable pub resolve_quote_from_msg_id :
        Bool → List Message → ClientRegistry → WeixinMessage J → Option QuoteOrigin
    resolve_quote_from_msg_id fails rows registry msg =
        elim (parse_id (collect_quoted_msg_id msg)) [
          | none ↦ none
          | some ilink_msg_id ↦ elim (derive_peer_scope msg) [
            | none ↦ none
            | some peer_user_id ↦
                if fails
                then none
                else origin_of registry
                    (find_assistant_message_by_msg_id peer_user_id ilink_msg_id rows)
          ]
        ]
