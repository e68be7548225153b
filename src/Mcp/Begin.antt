-- ===== src/Mcp/Begin.antt =====
-- What a call that begins has passed, and what it leaves behind.
use ilink_hub.Base.{
  ℕ, ◌<◌, Text, Bool, true, false, ◌||◌, Option, none, some, ◌≡◌, ap, ◌∙◌, arith, if◌then◌else◌,
  ltb, leb, text_eq_refl, Bool-cases, Option-cases, inl, inr,
}
use ilink_hub.Base.Map.{lookup-insert}
use ilink_hub.Base.Rows.{any}
use ilink_hub.Registry.{ClientInfo, get_by_vtoken, get_by_alias_in}
use ilink_hub.Acl.{allows_a2a}
use ilink_hub.Store.{Store, grant_expires_at, backend_pair}
use ilink_hub.Store.Sessions.{get_active_ctx_for_vtoken, ActiveCtxInfo}
use ilink_hub.Store.Context.{vtoken_owns_vctx}
use ilink_hub.Store.Grants.{set_active_session_with_depth-vtoken_owns_vctx}
use ilink_hub.Hub.{HubState, push_to_queue}
use ilink_hub.Mcp.{A2aWaiter, register, received, waiting}
use ilink_hub.Mcp.Grant.{lend, target_depth, max_a2a_depth, grant_key}
use ilink_hub.Mcp.Call.{
  CallAgentParams, CallAgentContext, PendingCall, BeginFails, begun, Notice, Speaker, speaker_of,
  begin_allowed, begin_call, handle_call_agent,
}

lend-owns :
    (fails : Bool) (later now stamp : ℕ) (vctx target key : Text) (depth : ℕ) (s t : Store)
    → t ≡ lend fails now stamp vctx target key depth s
    → vtoken_owns_vctx later vctx target t ≡ (
        if fails
        then vtoken_owns_vctx later vctx target s
        else (ltb later (grant_expires_at now s)
            || any (backend_pair vctx target) s.backend_sessions))
unfolding lend
lend-owns true later now stamp vctx target key depth s t e =
    ap (vtoken_owns_vctx later vctx target) e
lend-owns false later now stamp vctx target key depth s t e =
    ap (vtoken_owns_vctx later vctx target) e
    ∙ set_active_session_with_depth-vtoken_owns_vctx later now stamp vctx target key depth s

register-received : (id : Text) (w v : A2aWaiter) → v ≡ register id w → received id v ≡ waiting
unfolding received register
register-received id w v e =
    ap (received id) e
    ∙ ground (
      arith,
      text_eq_refl id,
      lookup-insert id id tt w.pending,
      lookup-insert id id none w.receivers,
    )

module _ {J : Type 0} where
  begin_allowed-begun :
      (null : J) (fails : BeginFails) (id : Text) (now stamp : ℕ) (ctx : CallAgentContext)
      (params : CallAgentParams) (target : ClientInfo) (caller : Speaker) (h h' : HubState J)
      (call : PendingCall) (notice : Notice)
      → begin_allowed null fails id now stamp ctx params target caller h ≡ begun h' call notice
      → (call.caller ≡ caller)
        × (call.target_vtoken ≡ target.vtoken)
        × (call.target ≡ speaker_of (some target))
        × (h'.store
            ≡ lend fails.lend now stamp ctx.vctx target.vtoken
                (grant_key id)
                (target_depth ctx.a2a_depth)
                h.store)
        × (h'.a2a_waiter ≡ register id h.a2a_waiter)
  unfolding begin_allowed push_to_queue
  begin_allowed-begun null fails id now stamp ctx params target caller h h' call notice e =
      ground arith

  begin_call-begun :
      (null : J) (fails : BeginFails) (id : Text) (now stamp : ℕ) (ctx : CallAgentContext)
      (params : CallAgentParams) (h h' : HubState J) (call : PendingCall) (notice : Notice)
      → begin_call null fails id now stamp ctx params h ≡ begun h' call notice
      → (target : ClientInfo) × (get_by_alias_in params.target_name none h.registry ≡ some target)
        × (call.target_vtoken ≡ target.vtoken)
        × (call.target ≡ speaker_of (some target))
        × (call.caller ≡ speaker_of (get_by_vtoken ctx.caller_vtoken h.registry))
        × (allows_a2a h.a2a_acl
              (speaker_of (get_by_vtoken ctx.caller_vtoken h.registry)).name
              target.name
            ≡ true)
        × (h'.store
            ≡ lend fails.lend now stamp ctx.vctx target.vtoken
                (grant_key id)
                (target_depth ctx.a2a_depth)
                h.store)
        × (h'.a2a_waiter ≡ register id h.a2a_waiter)
  unfolding begin_call
  begin_call-begun null fails id now stamp ctx params h h' call notice e =
      elim (Option-cases (get_by_alias_in params.target_name none h.registry)) [
        | inl unknown ↦ absurd (ground arith)
        | inr (target, found) ↦
            let caller = speaker_of (get_by_vtoken ctx.caller_vtoken h.registry) in
            elim (Bool-cases (allows_a2a h.a2a_acl caller.name target.name)) [
              | inr forbidden ↦ absurd (ground arith)
              | inl allowed ↦
                  let (same, token, speaker, store, waiter) =
                    begin_allowed-begun null fails id now stamp ctx params target caller h h' call
                      notice (ground arith) in
                  (target, found, token, speaker, same, allowed, store, waiter)
            ]
      ]

  -- A call that begins has found a conversation of the client with the caller's token at a depth
  -- below `max_a2a_depth`, and a client under the name asked for; these two are the caller and the
  -- target of the call, and the allowlist lets the one call the other. The call waits for a reply.
  -- If the store took its grant, the target owns the conversation until that grant expires, and
  -- after that by a backend session only; if not, the target owns it as it did before.
  pub handle_call_agent-begun :
      (null : J) (denied : Option ℕ) (fails_ctx : Bool) (fails : BeginFails) (id : Text)
      (now stamp later : ℕ) (caller_vtoken : Text) (params : CallAgentParams) (h h' : HubState J)
      (call : PendingCall) (notice : Notice)
      → handle_call_agent null denied fails_ctx fails id now stamp caller_vtoken params h
        ≡ begun h' call notice
      → (info : ActiveCtxInfo) × (get_active_ctx_for_vtoken now caller_vtoken h.store ≡ some info)
        × (info.a2a_depth < max_a2a_depth)
        × (target : ClientInfo) × (get_by_alias_in params.target_name none h.registry ≡ some target)
        × (call.target_vtoken ≡ target.vtoken)
        × (call.target ≡ speaker_of (some target))
        × (call.caller ≡ speaker_of (get_by_vtoken caller_vtoken h.registry))
        × (allows_a2a h.a2a_acl
              (speaker_of (get_by_vtoken caller_vtoken h.registry)).name
              target.name
            ≡ true)
        × (vtoken_owns_vctx later info.vctx target.vtoken h'.store ≡ (
            if fails.lend
            then vtoken_owns_vctx later info.vctx target.vtoken h.store
            else (ltb later (grant_expires_at now h.store)
                || any (backend_pair info.vctx target.vtoken) h.store.backend_sessions)))
        × (received id h'.a2a_waiter ≡ waiting)
  unfolding handle_call_agent
  handle_call_agent-begun null denied fails_ctx fails id now stamp later caller_vtoken params h h'
        call notice e =
      elim (Option-cases denied) [
        | inr (secs, limited) ↦ absurd (ground arith)
        | inl free ↦ elim (Bool-cases fails_ctx) [
          | inl broken ↦ absurd (ground arith)
          | inr read ↦ elim (Option-cases (get_active_ctx_for_vtoken now caller_vtoken h.store)) [
            | inl nothing ↦ absurd (ground arith)
            | inr (info, found) ↦ elim (Bool-cases (leb max_a2a_depth info.a2a_depth)) [
              | inl deep ↦ absurd (ground arith)
              | inr shallow ↦
                  let ctx : CallAgentContext = record {
                    caller_vtoken = caller_vtoken;
                    vctx = info.vctx;
                    real_ctx = info.real_ctx;
                    peer_user_id = info.peer_user_id;
                    a2a_depth = info.a2a_depth;
                  } in
                  let (target, named, token, speaker, same, allowed, store, waiter) =
                    begin_call-begun null fails id now stamp ctx params h h' call notice
                      (ground arith) in
                  (
                    info,
                    found,
                    ground arith,
                    target,
                    named,
                    token,
                    speaker,
                    same,
                    allowed,
                    lend-owns fails.lend later now stamp info.vctx target.vtoken (grant_key id)
                        (target_depth info.a2a_depth) h.store h'.store store,
                    register-received id h.a2a_waiter h'.a2a_waiter waiter,
                  )
            ]
          ]
        ]
      ]
