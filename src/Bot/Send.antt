-- ===== src/Bot/Send.antt =====
-- src/server/routes/bot.rs: `sendmessage`, a backend's message to the user.
use ilink_hub.Base.{
  ℕ, ◌+◌, ◌/◌, Text, List, [], Bool, true, false, ◌&&◌, ◌||◌, Option, none, some, if◌then◌else◌,
  ltb, not, is_some, get_or, is_empty, length,
}
use ilink_hub.Base.Int.{ℤ, pos, negsuc}
use ilink_hub.Base.Strings.{trim}
use ilink_hub.Message.{WeixinMessage, HubExt, text}
use ilink_hub.Outbound.{Draws, ensure_outbound, has_media_content}
use ilink_hub.OriginLabel.{
  should_append_outbound_origin_label, apply_persona_and_footer_to_first_text_item, trimmed,
}
use ilink_hub.Registry.{ClientInfo, get_by_vtoken, online_clients}
use ilink_hub.Mcp.{resolve}
use ilink_hub.Store.{Store}
use ilink_hub.Store.Sessions.{set_backend_session, set_backend_session_usage}
use ilink_hub.Store.Context.{resolve_send_context}
use ilink_hub.Hub.{HubState}
use ilink_hub.Bot.Auth.{extract_vtoken}

-- Whole seconds of a wait in milliseconds, at least one.
unfoldable pub retry_after_secs : ℕ → ℕ
retry_after_secs millis = let secs = (millis + 999) / 1000 in if ltb secs 1 then 1 else secs

-- The answers with an error, each with its code in `ret`.
pub data SendError : Type 0 where
  missing_authorization : SendError
  unknown_vtoken : SendError
  rate_limited : ℕ → SendError
  missing_context_token : SendError
  not_authorized : SendError
  resolution_error : SendError

unfoldable pub ret_of : SendError → ℕ
ret_of missing_authorization = 401
ret_of unknown_vtoken = 401
ret_of (rate_limited secs) = 429
ret_of missing_context_token = 400
ret_of not_authorized = 403
ret_of resolution_error = 500

-- A row for the message history.
pub record Saved : Type 0 where
  pub vctx : Text
  pub vtoken : Text
  pub session_name : Text
  pub peer_user_id : Text
  pub content : Text
  pub ilink_msg_id : Option ℤ

-- How the handler ends: with an error; with success and nothing sent, after the reply to a call or
-- for a message without content, which are answered differently; or by sending a message to
-- the upstream service, with the row that it gives to the history.
pub data Outcome (J : Type 0) : Type 0 where
  failed : SendError → Outcome J
  accepted : Outcome J
  persisted : Outcome J
  sent : WeixinMessage J → Option Saved → Outcome J

-- What a request meets outside the hub's own state: the rate limiter's answer, with the wait in
-- milliseconds where it refuses; the clock; which calls of the store fail or time out; the random
-- draws; the label setting; and `serde_json::to_string`.
pub record World (J : Type 0) : Type 0 where
  pub denied : Option ℕ
  pub now : ℕ
  pub fails_resolve : Bool
  pub fails_session : Bool
  pub fails_usage : Bool
  pub draws : Draws
  pub origin_label : Option Text
  pub to_json : J → Option Text

abbrev pub recipient : Option Text → Text → Option Text
recipient none peer_user_id = if is_empty peer_user_id then none else some peer_user_id
recipient (some user) peer_user_id = some user

abbrev pub is_blank : Option Text → Bool
is_blank none = true
is_blank (some t) = is_empty (trim t)

abbrev pub is_finish : Option ℤ → Bool
is_finish none = true
is_finish (some (pos n)) = if ltb n 2 then false else not (ltb 2 n)
is_finish (some (negsuc n)) = false

module _ {J : Type 0} where
  unfoldable pub count_error : HubState J → HubState J
  count_error h = record h {
    metrics = record h.metrics { sendmessage_errors = h.metrics.sendmessage_errors + 1 };
  }

  unfoldable pub count_request : HubState J → HubState J
  count_request h = record h {
    metrics = record h.metrics { sendmessage_total = h.metrics.sendmessage_total + 1 };
  }

  -- The session that the backend echoes, else the one of the database.
  unfoldable pub reply_session : WeixinMessage J → Text → Text
  reply_session msg db_session_name = elim msg.ilink_hub_ext [
    | none ↦ db_session_name
    | some ext ↦ get_or (trimmed ext.session_name) db_session_name
  ]

  -- `cli_session_id` becomes the id of the session.
  unfoldable pub persist_session : Bool → Text → Text → Text → HubExt J → Store → Store
  persist_session fails vctx vtoken session ext s = elim (trimmed ext.cli_session_id) [
    | none ↦ s
    | some id ↦ if fails then s else set_backend_session vctx vtoken session id s
  ]

  unfoldable pub persist_usage :
      Bool → (J → Option Text) → Text → Text → Text → HubExt J → Store → Store
  persist_usage fails to_json vctx vtoken session ext s = elim ext.usage [
    | none ↦ s
    | some usage ↦ elim (to_json usage) [
      | none ↦ s
      | some json ↦ if fails then s else set_backend_session_usage vctx vtoken session json s
    ]
  ]

  -- The reply of an agent to another one goes to the waiting call.
  unfoldable pub answer_call : Text → Option Text → HubState J → HubState J
  answer_call call_id none h = h
  answer_call call_id (some reply) h =
      if is_empty call_id || is_empty reply
      then h
      else record h { a2a_waiter = (resolve call_id reply h.a2a_waiter).0 }

  -- The effects of the extension, and whether the message answers a call.
  unfoldable pub read_extension :
      World J → Text → Text → Text → WeixinMessage J → HubState J → HubState J × Bool
  read_extension w vctx vtoken session msg h = elim msg.ilink_hub_ext [
    | none ↦ (h, false)
    | some ext ↦
        let s =
          persist_usage w.fails_usage w.to_json vctx vtoken session ext
            (persist_session w.fails_session vctx vtoken session ext h.store) in
        let h' : HubState J = record h { store = s } in
        elim ext.a2a_call_id [
          | none ↦ (h', false)
          | some call_id ↦ (answer_call call_id (text msg) h', true)
        ]
  ]

  -- The message as the upstream service takes it.
  unfoldable pub outbound : Draws → Text → Text → WeixinMessage J → WeixinMessage J
  outbound draws real_ctx peer_user_id msg = ensure_outbound draws (record msg {
    ilink_hub_ext = none;
    context_token = some real_ctx;
    to_user_id = recipient msg.to_user_id peer_user_id;
  })

  abbrev labelled : Option ClientInfo → Text → WeixinMessage J → WeixinMessage J
  labelled none session msg = msg
  labelled (some c) session msg =
      apply_persona_and_footer_to_first_text_item c.persona_name c.persona_emoji c.name c.label
        (some session) msg

  unfoldable pub with_label :
      Option Text → Text → Text → HubState J → WeixinMessage J → WeixinMessage J
  with_label origin_label vtoken session h msg =
      if should_append_outbound_origin_label (length (online_clients h.registry)) origin_label
      then labelled (get_by_vtoken vtoken h.registry) session msg
      else msg

  -- The row of a finished message with a text.
  unfoldable pub history : Text → Text → Text → Text → WeixinMessage J → Option Saved
  history vctx vtoken session peer_user_id msg =
      if is_finish msg.message_state
      then elim (text msg) [
        | none ↦ none
        | some content ↦ some (record {
          vctx = vctx;
          vtoken = vtoken;
          session_name = session;
          peer_user_id = peer_user_id;
          content = content;
          ilink_msg_id = msg.message_id;
        })
      ]
      else none

  -- The handler from the resolved context on.
  unfoldable pub deliver :
      World J
      → Text
      → Text
      → Text × Text × Text
      → WeixinMessage J
      → HubState J
      → HubState J × Outcome J
  deliver w vctx vtoken (real_ctx, peer_user_id, db_session_name) msg h =
      let session = reply_session msg db_session_name in
      let (h', is_a2a_reply) = read_extension w vctx vtoken session msg h in
      let out = outbound w.draws real_ctx peer_user_id msg in
      let shown = with_label w.origin_label vtoken session h' out in
      (
        h',
        if is_a2a_reply
            then accepted
            else if is_blank (text out) && not (has_media_content out)
            then persisted
            else sent shown (history vctx vtoken session peer_user_id shown),
      )

  -- The handler from the registered client on.
  unfoldable pub send_as :
      World J → Text → Option (WeixinMessage J) → HubState J → HubState J × Outcome J
  send_as w vtoken none h = (h, failed missing_context_token)
  send_as w vtoken (some msg) h =
      let vctx = get_or msg.context_token [] in
      if is_empty vctx
      then (h, failed missing_context_token)
      else if w.fails_resolve
      then (h, failed resolution_error)
      else elim (resolve_send_context w.now vctx vtoken h.store) [
        | none ↦ (h, failed not_authorized)
        | some context ↦ deliver w vctx vtoken context msg h
      ]

  unfoldable pub send_checked :
      World J → Text → Option (WeixinMessage J) → HubState J → HubState J × Outcome J
  send_checked w vtoken msg h =
      if is_some (get_by_vtoken vtoken h.registry)
      then elim w.denied [
        | some millis ↦ (count_error h, failed (rate_limited (retry_after_secs millis)))
        | none ↦ send_as w vtoken msg h
      ]
      else (count_error h, failed unknown_vtoken)

  unfoldable pub sendmessage :
      (List ℕ → List ℕ)
      → World J
      → Option Text
      → Option (WeixinMessage J)
      → HubState J
      → HubState J × Outcome J
  sendmessage sha256 w authorization msg h = elim (extract_vtoken sha256 authorization) [
    | none ↦ (count_error (count_request h), failed missing_authorization)
    | some vtoken ↦ send_checked w vtoken msg (count_request h)
  ]
