-- ===== src/QuoteRoute/Examples.antt =====
-- Quoted replies at concrete messages.
use ilink_hub.Base.{
  ◌≡◌, refl, codes, is_empty, ◌++◌, ◌∷◌, [], none, some, ℕ, Text, true, text_eq, ◌==◌, ◌&&◌, false,
  if◌then◌else◌,
}
use ilink_hub.Base.Int.{pos}
use ilink_hub.Base.Order.{parse_digits}
use ilink_hub.Outbound.{default_item}
use ilink_hub.Registry.{empty, get_by_name}
use ilink_hub.Bot.Auth.{extract_vtoken}
use ilink_hub.Bot.History.{save_history}
use ilink_hub.Bot.Examples.{
  digest, hash, claude, header, world, message, hub, counted, out, saved, hi_sent,
}
use ilink_hub.Base.Rows.{find}
use ilink_hub.Store.Messages.{find_assistant_message_by_msg_id}
use ilink_hub.QuoteRoute.Quoted.{
  Json, parse_i64, derive_peer_scope, item_msg_id, collect_quoted_msg_id,
}
use ilink_hub.QuoteRoute.Replies.{sendmessage-quoted}
use ilink_hub.OriginLabel.{with_footer, format_outbound_footer, shown_session}
use ilink_hub.OriginLabel.Footer.{recovered}
use ilink_hub.OriginLabel.Examples.{name, session, name-IsPiece, no_session, shown-IsPiece}
use ilink_hub.QuoteRoute.Fallback.{
  collect_quoted, first_quote, item_quote, named_origin, resolve_quote_from_footer,
}
use ilink_hub.QuoteRoute.Footers.{format_outbound_footer-resolved}
use ilink_hub.Message.{WeixinMessage, default_message, text, find_map}
use ilink_hub.Command.{help}
use ilink_hub.Router.{Router, forward_to, hub_internal, new, set_route, get_route, command_of}
use ilink_hub.Base.Map.{lookup}
use ilink_hub.Base.Strings.{strip_prefix, trim, trim_start, trim_end, is_whitespace}
use ilink_hub.QuoteRoute.Footer.{
  parse_footer_from_quoted_text, ruler, em_dash, dot_separator, footer_line, after_last, split_text,
  read_parts, last_session, is_session,
}
use ilink_hub.Acl.{no_acl}
use ilink_hub.Dispatch.{View, routed, is_echo, mention_of, decide}

-- A new footer with a label, an old one, and a message without one.
new_footer :
    parse_footer_from_quoted_text (
      codes "body"
      ++ ruler
      ++ codes "mac"
      ++ dot_separator
      ++ codes "office"
      ++ dot_separator
      ++ codes "session-1")
    ≡ some (codes "mac", some (codes "session-1"))
unfolding parse_footer_from_quoted_text footer_line after_last split_text read_parts last_session
    is_session strip_prefix trim trim_start trim_end is_whitespace is_empty
new_footer = refl

old_footer :
    parse_footer_from_quoted_text
      (codes "body" ++ b'\n' ∷ em_dash ∷ b' ' ∷ codes "mac" ++ dot_separator ++ codes "at-1")
    ≡ some (codes "mac", some (codes "at-1"))
unfolding parse_footer_from_quoted_text footer_line after_last split_text read_parts last_session
    is_session strip_prefix trim trim_start trim_end is_whitespace is_empty
old_footer = refl

no_footer : parse_footer_from_quoted_text (codes "plain message") ≡ none
unfolding parse_footer_from_quoted_text footer_line after_last split_text strip_prefix trim
    trim_start trim_end is_whitespace is_empty
no_footer = refl

-- A document is a number: 1 holds 2 as `ref_msg`, 2 holds 3 as `message_item`, 3 holds 4 as
-- `msg_id`, and 4 is a string.
abbrev document : Json ℕ
document = record {
  get = λ key n.
      if n == 1 && text_eq key (codes "ref_msg")
      then some 2
      else if n == 2 && text_eq key (codes "message_item")
      then some 3
      else if n == 3 && text_eq key (codes "msg_id")
      then some 4
      else none;
  as_str = λ n. if n == 4 then some (codes "1000001") else none;
  as_i64 = λ n. none;
}

abbrev quoting : WeixinMessage ℕ
quoting = record default_message {
  from_user_id = some (codes "anna");
  item_list = some (default_item 1 ∷ []);
}

abbrev router : Router
router = set_route (new none) (codes "anna") (codes "other")

quoting_id : collect_quoted_msg_id document quoting ≡ some (codes "1000001")
unfolding collect_quoted_msg_id item_msg_id find_map text_eq is_empty trim trim_start trim_end
    is_whitespace
quoting_id = refl

quoting_number : parse_i64 (trim (codes "1000001")) ≡ some (pos 1000001)
unfolding parse_i64 parse_digits trim trim_start trim_end is_whitespace
quoting_number = refl

quoting_scope : derive_peer_scope quoting ≡ some (codes "peer:anna")
unfolding derive_peer_scope is_empty
quoting_scope = refl

quoting_plain : command_of (codes "now") quoting ≡ none
unfolding command_of text find_map
quoting_plain = refl

quoting_user : is_echo quoting ≡ false
unfolding is_echo
quoting_user = refl

nobody_mentioned : mention_of no_acl empty quoting ≡ none
unfolding mention_of text find_map
nobody_mentioned = refl

no_history : find_assistant_message_by_msg_id (codes "peer:anna") (pos 1000001) [] ≡ none
unfolding find_assistant_message_by_msg_id find
no_history = refl

-- The client has left in the meantime.
abbrev view : View
view = record {
  acl = no_acl;
  registry = empty;
  router = router;
  store = hub.store;
  messages = save_history false 7 (some saved) [] ++ [];
  fails_id = false;
  fails_time = true;
  fails_content = true;
  fails_scope = true;
  fails_session = true;
}

sendmessage-quoted_example :
    (extract_vtoken digest (some header) ≡ some hash)
    × (decide document (codes "now") view quoting
        ≡ routed (elim (get_route router (codes "anna")) [
          | none ↦ hub_internal help
          | some other ↦ forward_to hash (some (codes "default"))
        ]))
sendmessage-quoted_example =
    sendmessage-quoted document digest world (some header) (some message) hub counted out saved []
      [] view (codes "now") (codes "1000001") 7 quoting (pos 1000001) (λ bytes. refl) hi_sent refl
      no_history quoting_id quoting_number quoting_scope quoting_user nobody_mentioned quoting_plain
      refl refl

-- Only the text is quoted: 1 holds 2 as `ref_msg`, 2 holds 3 as `message_item`, 3 holds 4 as
-- `text_item`, and 4 holds the string 5 as `text`.
abbrev shown_text : Text
shown_text = with_footer (codes "done") (format_outbound_footer name none (some session))

abbrev text_document : Json ℕ
text_document = record {
  get = λ key n.
      if n == 1 && text_eq key (codes "ref_msg")
      then some 2
      else if n == 2 && text_eq key (codes "message_item")
      then some 3
      else if n == 3 && text_eq key (codes "text_item")
      then some 4
      else if n == 4 && text_eq key (codes "text")
      then some 5
      else none;
  as_str = λ n. if n == 5 then some shown_text else none;
  as_i64 = λ n. none;
}

quoting_text : collect_quoted text_document quoting ≡ some (shown_text, none)
unfolding collect_quoted first_quote item_quote text_eq is_empty trim trim_start trim_end
    is_whitespace format_outbound_footer with_footer shown_session
quoting_text = refl

claude_known : get_by_name name hub.registry ≡ some claude
unfolding get_by_name lookup text_eq
claude_known = refl

format_outbound_footer-resolved_example :
    resolve_quote_from_footer text_document true true hub.store hub.registry quoting
    ≡ some (named_origin (recovered (shown_session (some session))) claude)
format_outbound_footer-resolved_example =
    format_outbound_footer-resolved text_document true true hub.store hub.registry quoting
      (codes "done") name (some session) none claude name-IsPiece no_session shown-IsPiece
      claude_known quoting_text
