-- ===== src/QuoteRoute/Footers.antt =====
-- A quoted reply of a backend, from the footer that src/hub/outbound_label.rs wrote to the origin
-- that src/hub/dispatch/quote.rs reads from it.
use ilink_hub.Base.{Text, Bool, false, Option, none, some, ◌≡◌, ◌∙◌, ap, arith, is_empty}
use ilink_hub.Base.Int.{ℤ}
use ilink_hub.Base.Strings.{trim}
use ilink_hub.Message.{WeixinMessage}
use ilink_hub.Registry.{ClientInfo, ClientRegistry, get_by_name, get_by_vtoken}
use ilink_hub.Store.{Store}
use ilink_hub.Store.Context.{find_vctx_for_scope, find_vtoken_for_session}
use ilink_hub.OriginLabel.{
  with_footer, format_outbound_footer, shown_session, apply_persona_and_footer,
}
use ilink_hub.OriginLabel.Footer.{
  IsPiece, recovered, parse_footer-format_outbound_footer, parse_footer-apply_persona_and_footer,
}
use ilink_hub.QuoteRoute.Footer.{parse_footer_from_quoted_text, is_session}
use ilink_hub.QuoteRoute.Quoted.{Json, derive_peer_scope, client_origin}
use ilink_hub.QuoteRoute.Fallback.{
  named_origin, session_key, origin_of_scope, origin_of_session, collect_quoted, footer_of,
  footer_from_user_quote, resolve_quote_from_footer,
}

module _ {J : Type 0} (json : Json J) where
  footer-quoted :
      (msg : WeixinMessage J) (text : Text) (ref_ms : Option ℤ)
      → collect_quoted json msg ≡ some (text, ref_ms)
      → footer_from_user_quote json msg ≡ parse_footer_from_quoted_text text
  unfolding footer_from_user_quote
  footer-quoted msg text ref_ms e = ap footer_of e

  resolve-named :
      (fails_scope fails_session : Bool) (s : Store) (registry : ClientRegistry)
      (msg : WeixinMessage J) (name : Text) (session : Option Text) (c : ClientInfo)
      → footer_from_user_quote json msg ≡ some (name, session)
      → get_by_name name registry ≡ some c
      → resolve_quote_from_footer json fails_scope fails_session s registry msg
        ≡ some (named_origin session c)
  unfolding resolve_quote_from_footer
  resolve-named fails_scope fails_session s registry msg name session c footer known = ground arith

  -- A user quotes the text of a reply by a client with no persona and no label, which is still
  -- registered under its name: the footer leads to this client and to the session that it shows,
  -- if its name starts with `at-` or `session-`, whatever the store holds and whether or not its
  -- queries fail. Both names are trimmed, not blank and have no line break or middle dot, and the
  -- client's name does not start like a session.
  pub format_outbound_footer-resolved :
      (fails_scope fails_session : Bool) (s : Store) (registry : ClientRegistry)
      (msg : WeixinMessage J) (t name : Text) (session : Option Text) (ref_ms : Option ℤ)
      (c : ClientInfo)
      → IsPiece name
      → is_session name ≡ false
      → ((shown : Text) → shown_session session ≡ some shown → IsPiece shown)
      → get_by_name name registry ≡ some c
      → collect_quoted json msg
        ≡ some (with_footer t (format_outbound_footer name none session), ref_ms)
      → resolve_quote_from_footer json fails_scope fails_session s registry msg
        ≡ some (named_origin (recovered (shown_session session)) c)
  format_outbound_footer-resolved fails_scope fails_session s registry msg t name session ref_ms c p
        n pieces known quoted =
      resolve-named fails_scope fails_session s registry msg name
        (recovered (shown_session session)) c
        (footer-quoted msg (with_footer t (format_outbound_footer name none session)) ref_ms quoted
          ∙ parse_footer-format_outbound_footer t name session p n pieces)
        known

  resolve-session :
      (s : Store) (registry : ClientRegistry) (msg : WeixinMessage J)
      (name scope vctx vtoken : Text) (session : Option Text)
      → footer_from_user_quote json msg ≡ some (name, session)
      → get_by_name name registry ≡ none
      → session_key name session ≡ some name
      → derive_peer_scope msg ≡ some scope
      → find_vctx_for_scope scope s ≡ some vctx
      → find_vtoken_for_session vctx name s ≡ some vtoken
      → resolve_quote_from_footer json false false s registry msg
        ≡ some (client_origin vtoken (some name) (get_by_vtoken vtoken registry))
  unfolding resolve_quote_from_footer origin_of_scope origin_of_session
  resolve-session s registry msg name scope vctx vtoken session footer nobody key scoped found
        owner =
      ground arith

  -- A user quotes the text of a reply by a client with a persona, whose footer shows the session
  -- alone: where no client is named so, and the session looks like one, it leads to the owner of
  -- the session in the user's conversation. The queries succeed in time; the session shown is
  -- trimmed, not blank and has no line break or middle dot.
  persona_footer-resolved :
      (s : Store) (registry : ClientRegistry) (msg : WeixinMessage J) (persona : Text)
      (emoji label : Option Text) (name t shown scope vctx vtoken : Text) (session : Option Text)
      (ref_ms : Option ℤ)
      → is_empty (trim persona) ≡ false
      → shown_session session ≡ some shown
      → IsPiece shown
      → get_by_name shown registry ≡ none
      → session_key shown (recovered (some shown)) ≡ some shown
      → derive_peer_scope msg ≡ some scope
      → find_vctx_for_scope scope s ≡ some vctx
      → find_vtoken_for_session vctx shown s ≡ some vtoken
      → collect_quoted json msg
        ≡ some (apply_persona_and_footer (some persona) emoji name label session t, ref_ms)
      → resolve_quote_from_footer json false false s registry msg
        ≡ some (client_origin vtoken (some shown) (get_by_vtoken vtoken registry))
  persona_footer-resolved s registry msg persona emoji label name t shown scope vctx vtoken session
        ref_ms full showing piece nobody key scoped found owner quoted =
      resolve-session s registry msg shown scope vctx vtoken (recovered (some shown))
        (footer-quoted msg (apply_persona_and_footer (some persona) emoji name label session t)
            ref_ms quoted
          ∙ parse_footer-apply_persona_and_footer persona emoji label session name t shown full
              showing piece)
        nobody key scoped found owner
