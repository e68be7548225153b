-- ===== src/QuoteRoute/Fallback.antt =====
-- src/hub/quote_route.rs and src/hub/dispatch/quote.rs: the origin of a quoted message by the footer
-- in its text.
use ilink_hub.Base.{
  Text, codes, List, [], ◌∷◌, Bool, Option, none, some, ◌||◌, if◌then◌else◌, is_some,
}
use ilink_hub.Base.Int.{ℤ}
use ilink_hub.Base.Strings.{strip_prefix}
use ilink_hub.Message.{WeixinMessage, MessageItem}
use ilink_hub.Registry.{ClientInfo, ClientRegistry, get_by_name, get_by_vtoken}
use ilink_hub.Store.{Store}
use ilink_hub.Store.Context.{find_vctx_for_scope, find_vtoken_for_session}
use ilink_hub.QuoteRoute.{QuoteOrigin, client}
use ilink_hub.QuoteRoute.Footer.{parse_footer_from_quoted_text}
use ilink_hub.QuoteRoute.Quoted.{
  Json, get_in, string_of, not_blank, derive_peer_scope, client_origin,
}

abbrev pub with_time : Option ℤ → Option Text → Option (Text × Option ℤ)
with_time ref_ms none = none
with_time ref_ms (some text) = some (text, ref_ms)

abbrev pub footer_of : Option (Text × Option ℤ) → Option (Text × Option Text)
footer_of none = none
footer_of (some (text, ref_ms)) = parse_footer_from_quoted_text text

-- What the footer shows as the name is a session if it looks like one.
unfoldable pub session_key : Text → Option Text → Option Text
session_key name session_name =
    if is_some (strip_prefix (codes "at-") name) || is_some (strip_prefix (codes "session-") name)
    then some name
    else session_name

-- A client of this name.
abbrev pub named_origin : Option Text → ClientInfo → QuoteOrigin
named_origin session_name c = client c.vtoken c.name c.label session_name

-- The owner of a session of the conversation. `fails` tells whether the query fails or is out of
-- time.
unfoldable pub origin_of_session : Bool → Text → Text → Store → ClientRegistry → Option QuoteOrigin
origin_of_session fails vctx session s registry =
    if fails then none else elim (find_vtoken_for_session vctx session s) [
      | none ↦ none
      | some vtoken ↦ some (client_origin vtoken (some session) (get_by_vtoken vtoken registry))
    ]

unfoldable pub origin_of_scope :
    Bool → Bool → Text → Option Text → Store → ClientRegistry → Option QuoteOrigin
origin_of_scope fails_scope fails_session session scope s registry = elim scope [
  | none ↦ none
  | some key ↦ if fails_scope then none else elim (find_vctx_for_scope key s) [
    | none ↦ none
    | some vctx ↦ origin_of_session fails_session vctx session s registry
  ]
]

module _ {J : Type 0} (json : Json J) where
  unfoldable pub item_quote : MessageItem J → Option (Text × Option ℤ)
  item_quote item =
      let message_item =
        get_in json (codes "message_item") (json.get (codes "ref_msg") item.extra) in
      let text_item = get_in json (codes "text_item") message_item in
      with_time
        (elim (get_in json (codes "create_time_ms") message_item) [
          | none ↦ none
          | some v ↦ json.as_i64 v
        ])
        (not_blank (string_of json (get_in json (codes "text") text_item)))

  unfoldable pub first_quote : List (MessageItem J) → Option (Text × Option ℤ)
  first_quote [] = none
  first_quote (x ∷ xs) =
      let rest = first_quote xs in elim (item_quote x) [ none ↦ rest | some q ↦ some q ]

  unfoldable pub collect_quoted : WeixinMessage J → Option (Text × Option ℤ)
  collect_quoted msg = elim msg.item_list [ none ↦ none | some items ↦ first_quote items ]

  unfoldable pub footer_from_user_quote : WeixinMessage J → Option (Text × Option Text)
  footer_from_user_quote msg = footer_of (collect_quoted msg)

  -- By the name first, then by the session.
  unfoldable pub resolve_quote_from_footer :
      Bool → Bool → Store → ClientRegistry → WeixinMessage J → Option QuoteOrigin
  resolve_quote_from_footer fails_scope fails_session s registry msg =
      elim (footer_from_user_quote msg) [
        | none ↦ none
        | some (name, session_name) ↦ elim (get_by_name name registry) [
          | some c ↦ some (named_origin session_name c)
          | none ↦ elim (session_key name session_name) [
            | none ↦ none
            | some session ↦
                origin_of_scope fails_scope fails_session session (derive_peer_scope msg) s registry
          ]
        ]
      ]
