-- ===== src/Mcp/Call.antt =====
-- src/mcp/tools.rs and router.rs: the tool `call_agent`, up to its wait and from the end of it.
use ilink_hub.Base.{
  ℕ, Text, codes, List, [], ◌∷◌, ◌++◌, Bool, Option, none, some, if◌then◌else◌, leb, get_or,
}
use ilink_hub.Base.Int.{pos}
use ilink_hub.Message.{WeixinMessage, HubExt, default_message}
use ilink_hub.Outbound.{default_item}
use ilink_hub.Registry.{ClientInfo, get_by_vtoken, get_by_alias_in}
use ilink_hub.Acl.{allows_a2a}
use ilink_hub.Store.{Store}
use ilink_hub.Store.Sessions.{get_active_ctx_for_vtoken}
use ilink_hub.Hub.{HubState, push_to_queue, build_hub_ext_for_vctx}
use ilink_hub.Mcp.{A2aWaiter, register, cancel, drop_receiver, received, reply, waiting, closed}
use ilink_hub.Mcp.Grant.{
  ReleaseFails, max_a2a_depth, grant_key, prev_active, pre_sessions, target_depth, lend,
  release_a2a_grant,
}

pub record CallAgentParams : Type 0 where
  pub target_name : Text
  pub message : Text
  pub session : Option Text

pub record CallAgentContext : Type 0 where
  pub caller_vtoken : Text
  pub vctx : Text
  pub real_ctx : Text
  pub peer_user_id : Text
  pub a2a_depth : ℕ

-- The errors of the tool, and those of the request that calls it.
pub data CallError : Type 0 where
  agent_not_found : Text → CallError
  not_allowed : Text → Text → CallError
  disconnected : Text → CallError
  no_reply : Text → CallError
  call_rate_limited : ℕ → CallError
  store_error : CallError
  no_conversation : CallError
  too_deep : CallError

-- A text for the user of the conversation.
pub record Notice : Type 0 where
  pub real_ctx : Text
  pub to_user_id : Text
  pub text : Text

-- Name and persona of an agent.
pub record Speaker : Type 0 where
  pub name : Text
  pub persona_name : Option Text
  pub persona_emoji : Option Text

abbrev pub speaker_of : Option ClientInfo → Speaker
speaker_of none = record { name = codes "unknown"; persona_name = none; persona_emoji = none }
speaker_of (some c) = record {
  name = c.name;
  persona_name = c.persona_name;
  persona_emoji = c.persona_emoji;
}

abbrev handle_of : Text → Option Text → Option Text → Text
handle_of backend_name none none = backend_name
handle_of backend_name none (some name) = name
handle_of backend_name (some emoji) none = backend_name
handle_of backend_name (some emoji) (some name) = emoji ++ b' ' ∷ name

unfoldable pub persona_handle : Speaker → Text
persona_handle s = handle_of s.name s.persona_emoji s.persona_name

unfoldable pub build_display_text : Text → Speaker → Text
unfolding persona_handle
build_display_text text sender = persona_handle sender ++ b'\n' ∷ text

-- "@handle", a line break and the text, under the sender's header.
unfoldable pub mention_notice : CallAgentContext → Speaker → Speaker → Text → Notice
unfolding build_display_text
mention_notice ctx sender addressed text = record {
  real_ctx = ctx.real_ctx;
  to_user_id = ctx.peer_user_id;
  text = build_display_text (b'@' ∷ persona_handle addressed ++ b'\n' ∷ text) sender;
}

pub record PendingCall : Type 0 where
  pub call_id : Text
  pub target_vtoken : Text
  pub target : Speaker
  pub caller : Speaker
  pub reply_session : Text
  pub prev_active : Option (Text × ℕ)
  pub pre_sessions : Option (List Text)

-- Which calls of the store fail before the wait.
pub record BeginFails : Type 0 where
  pub row : Bool
  pub list : Bool
  pub lend : Bool
  pub extension : Bool

pub data Begun (J : Type 0) : Type 0 where
  refused : CallError → Begun J
  begun : HubState J → PendingCall → Notice → Begun J

-- The end of a call: its error, or the reply with the session that it is part of.
pub data Ended : Type 0 where
  ended_error : CallError → Ended
  ended_reply : Text → Text → Ended

module _ {J : Type 0} where
  -- The extension of the message to the target.
  unfoldable pub build_hub_ext_for_a2a : Bool → Text → Text → Text → Text → ℕ → Store → HubExt J
  build_hub_ext_for_a2a fails vctx target session_name call_id depth s =
      record (build_hub_ext_for_vctx fails vctx target (some session_name) s) {
        a2a_call_id = some call_id;
        a2a_depth = some (pos depth);
      }

  unfoldable pub build_synthetic_message : J → Text → Text → Text → HubExt J → WeixinMessage J
  build_synthetic_message null vctx peer_user_id text ext = record default_message {
    context_token = some vctx;
    from_user_id = some peer_user_id;
    message_type = some (pos 1);
    item_list = some (
        record (default_item null) {
          item_type = some (pos 1);
          text_item = some (record { text = some text });
        }
        ∷ []);
    ilink_hub_ext = some ext;
  }

  -- Steps 4 to 8 for a call that is allowed.
  unfoldable pub begin_allowed :
      J
      → BeginFails
      → Text
      → ℕ
      → ℕ
      → CallAgentContext
      → CallAgentParams
      → ClientInfo
      → Speaker
      → HubState J
      → Begun J
  begin_allowed null fails call_id now stamp ctx params target caller h =
      let key = grant_key call_id in
      let session = get_or params.session key in
      let prev = prev_active fails.row ctx.vctx target.vtoken h.store in
      let pre = pre_sessions fails.list ctx.vctx target.vtoken h.store in
      let depth = target_depth ctx.a2a_depth in
      let s = lend fails.lend now stamp ctx.vctx target.vtoken key depth h.store in
      let ext =
        build_hub_ext_for_a2a fails.extension ctx.vctx target.vtoken session call_id depth s in
      let message = build_synthetic_message null ctx.vctx ctx.peer_user_id params.message ext in
      begun
        (push_to_queue target.vtoken message
          (record h { store = s; a2a_waiter = register call_id h.a2a_waiter }))
        (record {
          call_id = call_id;
          target_vtoken = target.vtoken;
          target = speaker_of (some target);
          caller = caller;
          reply_session = session;
          prev_active = prev;
          pre_sessions = pre;
        })
        (mention_notice ctx caller (speaker_of (some target)) params.message)

  unfoldable pub begin_call :
      J → BeginFails → Text → ℕ → ℕ → CallAgentContext → CallAgentParams → HubState J → Begun J
  begin_call null fails call_id now stamp ctx params h =
      elim (get_by_alias_in params.target_name none h.registry) [
        | none ↦ refused (agent_not_found params.target_name)
        | some target ↦
            let caller = speaker_of (get_by_vtoken ctx.caller_vtoken h.registry) in
            if allows_a2a h.a2a_acl caller.name target.name
            then begin_allowed null fails call_id now stamp ctx params target caller h
            else refused (not_allowed caller.name target.name)
      ]

  -- The arm `call_agent` of `handle_tools_call`, with the answer of the rate limiter in seconds
  -- and the fault of the store.
  unfoldable pub handle_call_agent :
      J
      → Option ℕ
      → Bool
      → BeginFails
      → Text
      → ℕ
      → ℕ
      → Text
      → CallAgentParams
      → HubState J
      → Begun J
  handle_call_agent null denied fails_ctx fails call_id now stamp caller_vtoken params h =
      elim denied [
        | some secs ↦ refused (call_rate_limited secs)
        | none ↦
            if fails_ctx
            then refused store_error
            else elim (get_active_ctx_for_vtoken now caller_vtoken h.store) [
              | none ↦ refused no_conversation
              | some info ↦
                  if leb max_a2a_depth info.a2a_depth
                  then refused too_deep
                  else begin_call null fails call_id now stamp
                      (record {
                        caller_vtoken = caller_vtoken;
                        vctx = info.vctx;
                        real_ctx = info.real_ctx;
                        peer_user_id = info.peer_user_id;
                        a2a_depth = info.a2a_depth;
                      })
                      params h
            ]
      ]

  -- The rights that the call lent are taken back on every way out.
  unfoldable pub release_call :
      ReleaseFails → ℕ → ℕ → CallAgentContext → PendingCall → A2aWaiter → HubState J → HubState J
  release_call fails now stamp ctx call w h = record h {
    a2a_waiter = w;
    store =
        release_a2a_grant fails now stamp ctx.vctx call.target_vtoken (grant_key call.call_id)
          call.prev_active call.pre_sessions h.store;
  }

  -- The wait ends with the reply, with a closed channel, or by the timeout while the channel is
  -- open.
  unfoldable pub end_call :
      ReleaseFails
      → ℕ
      → ℕ
      → CallAgentContext
      → PendingCall
      → HubState J
      → HubState J × Ended × Option Notice
  end_call fails now stamp ctx call h =
      let id = call.call_id in
      let over = drop_receiver id h.a2a_waiter in
      elim (received id h.a2a_waiter) [
        | reply text ↦ (
          release_call fails now stamp ctx call over h,
          ended_reply text call.reply_session,
          some (mention_notice ctx call.target call.caller text),
        )
        | closed ↦ (
          release_call fails now stamp ctx call (cancel id over) h,
          ended_error (disconnected call.target.name),
          none,
        )
        | waiting ↦ (
          release_call fails now stamp ctx call (cancel id over) h,
          ended_error (no_reply call.target.name),
          none,
        )
      ]
