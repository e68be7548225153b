-- ===== src/Bot/Sending.antt =====
-- What reaches the upstream service, and for whom.
use ilink_hub.Base.{
  ℕ, Text, codes, List, [], ◌++◌, Bool, true, false, Option, none, some, ◌≡◌, ◌≢◌, refl, sym, ap,
  ◌∙◌, arith, is_some, get_or, is_empty, text_eq_refl, Bool-cases, Option-cases, inl, inr,
}
use ilink_hub.Message.{WeixinMessage}
use ilink_hub.Registry.{get_by_vtoken}
use ilink_hub.Store.{Store, by_vctx}
use ilink_hub.Base.Rows.{any}
use ilink_hub.Store.Sessions.{revoke_authorizations_for_vtoken}
use ilink_hub.Store.Distinct.{Distinct}
use ilink_hub.Store.Conversations.{find_or_create_vctx-Distinct}
use ilink_hub.Store.Context.{
  DatabaseKind, find_or_create_vctx, peer_key, resolve_send_context, vtoken_owns_vctx,
  resolve_context_token,
}
use ilink_hub.Store.Grants.{revoke_authorizations-resolve_send_context}
use ilink_hub.Hub.{HubState, Metrics}
use ilink_hub.Bot.Auth.{extract_vtoken}
use ilink_hub.Bot.Send.{
  World, failed, sent, Saved, SendError, unknown_vtoken, rate_limited, missing_context_token,
  not_authorized, resolution_error, retry_after_secs, count_error, count_request, send_as,
  send_checked, sendmessage,
}
use ilink_hub.Bot.Access.{
  conv_key-peer, scope_of, recipient_key, peer_key-ne, call_of, send_as-sent,
}

module _ {J : Type 0} where
  pub sendmessage-send_as :
      (sha256 : List ℕ → List ℕ) (w : World J) (authorization : Option Text)
      (msg : Option (WeixinMessage J)) (h h' : HubState J) (out : WeixinMessage J)
      (saved : Option Saved)
      → sendmessage sha256 w authorization msg h ≡ (h', sent out saved)
      → (vtoken : Text) × (extract_vtoken sha256 authorization ≡ some vtoken)
        × (is_some (get_by_vtoken vtoken h.registry) ≡ true)
        × (w.denied ≡ none)
        × (send_as w vtoken msg (count_request h) ≡ (h', sent out saved))
  unfolding sendmessage send_checked count_request
  sendmessage-send_as sha256 w authorization msg h h' out saved e =
      elim (Option-cases (extract_vtoken sha256 authorization)) [
        | inl nobody ↦ absurd (ground arith)
        | inr (vtoken, known) ↦ elim (Bool-cases (is_some (get_by_vtoken vtoken h.registry))) [
          | inr stranger ↦ absurd (ground arith)
          | inl registered ↦ elim (Option-cases w.denied) [
            | inr (millis, refused) ↦ absurd (ground arith)
            | inl free ↦ (vtoken, known, registered, free, ground arith)
          ]
        ]
      ]

  -- Whenever `sendmessage` sends a message upstream, the request named a registered client that
  -- the rate limiter let pass and a conversation that this client owns at that time; the message
  -- carries the real token of that conversation and no extension of the hub, and it was no answer
  -- to the call of an agent.
  pub sendmessage-sent :
      (sha256 : List ℕ → List ℕ) (w : World J) (authorization : Option Text)
      (msg : Option (WeixinMessage J)) (h h' : HubState J) (out : WeixinMessage J)
      (saved : Option Saved)
      → sendmessage sha256 w authorization msg h ≡ (h', sent out saved)
      → (vtoken : Text) × (m : WeixinMessage J) × (extract_vtoken sha256 authorization
          ≡ some vtoken)
        × (msg ≡ some m)
        × (is_some (get_by_vtoken vtoken h.registry) ≡ true)
        × (w.denied ≡ none)
        × (vtoken_owns_vctx w.now (get_or m.context_token []) vtoken h.store ≡ true)
        × (resolve_context_token (get_or m.context_token []) h.store ≡ out.context_token)
        × (out.ilink_hub_ext ≡ none)
        × (call_of m ≡ none)
  unfolding count_request
  sendmessage-sent sha256 w authorization msg h h' out saved e =
      let (vtoken, known, registered, free, as_client) =
        sendmessage-send_as sha256 w authorization msg h h' out saved e in
      let (m, given, allowed) =
        send_as-sent w vtoken msg (count_request h) h' out saved as_client in
      (
        vtoken, m, known, given, registered, free, allowed.owner, allowed.real, allowed.bare,
        allowed.call,
      )

  -- A message that names no recipient is sent to the scope of its conversation. For a
  -- conversation that `find_or_create_vctx` made for a single user this is the user's id behind
  -- `peer:`, which is not the id.
  pub sendmessage-to_user_id :
      (sha256 : List ℕ → List ℕ) (w : World J) (authorization : Option Text) (m : WeixinMessage J)
      (h h' : HubState J) (out : WeixinMessage J) (saved : Option Saved) (kind : DatabaseKind)
      (missing : Bool) (candidate user real v : Text) (before : Store)
      → Distinct before.context_tokens
      → any (by_vctx candidate) before.context_tokens ≡ false
      → is_empty user ≡ false
      → find_or_create_vctx kind missing candidate user none real before ≡ some (h.store, v)
      → m.context_token ≡ some v
      → m.to_user_id ≡ none
      → sendmessage sha256 w authorization (some m) h ≡ (h', sent out saved)
      → (out.to_user_id ≡ some (codes "peer:" ++ user)) × (out.to_user_id ≢ some user)
  unfolding count_request peer_key
  sendmessage-to_user_id sha256 w authorization m h h' out saved kind missing candidate user real v
        before d fresh full made token nobody e =
      let (vtoken, _, _, _, as_client) =
        sendmessage-send_as sha256 w authorization (some m) h h' out saved e in
      let (m', given, allowed) =
        send_as-sent w vtoken (some m) (count_request h) h' out saved as_client in
      let (_, known) =
        find_or_create_vctx-Distinct kind missing candidate user none real before d fresh h.store v
          made in
      let same : m' ≡ m = cc in
      let context : get_or m'.context_token [] ≡ v = rw (same, token) in
      let scoped : allowed.scope ≡ peer_key user =
        scope_of out.context_token real allowed.scope (peer_key user) (
          sym (rw context at allowed.full)
          ∙ known
          ∙ ap (λ (k : Text). some (real, k)) (conv_key-peer user full)) in
      let addressed : out.to_user_id ≡ some (peer_key user) =
        allowed.to_user ∙ rw (same, nobody, scoped) (recipient_key user) in
      (addressed, λ plain. peer_key-ne user (ground arith))

  send_as-refused :
      (w : World J) (vtoken : Text) (msg : Option (WeixinMessage J)) (h : HubState J)
      → ((vctx : Text) → resolve_send_context w.now vctx vtoken h.store ≡ none)
      → (error : SendError) × (send_as w vtoken msg h ≡ (h, failed error))
  unfolding send_as
  send_as-refused w vtoken none h refused = (missing_context_token, refl)
  send_as-refused w vtoken (some m) h refused =
      elim (Bool-cases (is_empty (get_or m.context_token []))) [
        | inl blank ↦ (missing_context_token, ground arith)
        | inr given ↦ elim (Bool-cases w.fails_resolve) [
          | inl fails ↦ (resolution_error, ground arith)
          | inr works ↦ (not_authorized, ground (arith, refused (get_or m.context_token [])))
        ]
      ]

  -- The hub after the rights of a client were revoked in its store.
  abbrev pub revoked : Text → HubState J → HubState J
  revoked vtoken h = record h { store = revoke_authorizations_for_vtoken vtoken h.store }

  -- A client whose rights were revoked sends nothing: its request fails, and changes nothing but
  -- the counters.
  pub revoke_authorizations-sendmessage :
      (sha256 : List ℕ → List ℕ) (w : World J) (authorization : Option Text)
      (msg : Option (WeixinMessage J)) (h : HubState J) (vtoken : Text)
      → extract_vtoken sha256 authorization ≡ some vtoken
      → (error : SendError) × (m : Metrics) × (sendmessage sha256 w authorization msg
            (revoked vtoken h)
          ≡ (record (revoked vtoken h) { metrics = m }, failed error))
  unfolding sendmessage send_checked count_request count_error
  revoke_authorizations-sendmessage sha256 w authorization msg h vtoken known =
      elim (Bool-cases (is_some (get_by_vtoken vtoken h.registry))) [
        | inr stranger ↦ (unknown_vtoken, (count_error (count_request h)).metrics, ground arith)
        | inl registered ↦ elim (Option-cases w.denied) [
          | inr (millis, denied) ↦ (
            rate_limited (retry_after_secs millis),
            (count_error (count_request h)).metrics,
            ground arith,
          )
          | inl free ↦
              let (error, refused) =
                send_as-refused w vtoken msg (count_request (revoked vtoken h)) (λ vctx.
                  revoke_authorizations-resolve_send_context w.now vctx vtoken vtoken h.store
                  ∙ rw (text_eq_refl vtoken)) in
              (error, (count_request h).metrics, ground arith)
        ]
      ]
