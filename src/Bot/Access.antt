-- ===== src/Bot/Access.antt =====
-- The message that a handled request gives, and what the request met.
use ilink_hub.Base.{
  ℕ, Text, codes, [], Bool, true, false, ◌&&◌, Option, none, some, ◌≡◌, ◌≢◌, refl, sym, ap, ◌∙◌,
  arith, if◌then◌else◌, not, is_some, get_or, is_empty, length, length-append, Bool-cases,
  Option-cases, inl, inr,
}
use ilink_hub.Message.{WeixinMessage, text}
use ilink_hub.Outbound.{Draws, ensure_outbound, has_media_content}
use ilink_hub.OriginLabel.{apply_persona_and_footer_to_first_text_item, on_first_text}
use ilink_hub.Registry.{get_by_vtoken}
use ilink_hub.Store.{Store, by_vctx}
use ilink_hub.Base.Rows.{find}
use ilink_hub.Store.Context.{
  conv_key, peer_key, resolve_send_context, resolve_context_token_full, vtoken_owns_vctx, owns,
  resolve_context_token,
}
use ilink_hub.Hub.{HubState}
use ilink_hub.Bot.Send.{
  World, accepted, persisted, sent, Saved, reply_session, read_extension, outbound, is_blank,
  with_label, deliver, send_as, recipient,
}

pub conv_key-peer : (user : Text) → is_empty user ≡ false → conv_key user none ≡ peer_key user
unfolding conv_key
conv_key-peer user e = rw e

abbrev pub with_scope : Text → Option Text → Option (Text × Text)
with_scope scope none = none
with_scope scope (some real) = some (real, scope)

pub scope_of :
    (token : Option Text) (real scope key : Text)
    → with_scope scope token ≡ some (real, key)
    → scope ≡ key
scope_of none real scope key e = absurd (cc)
scope_of (some r) real scope key e = ground arith

pub recipient_key : (user : Text) → recipient none (peer_key user) ≡ some (peer_key user)
unfolding peer_key is_empty
recipient_key user = refl

pub peer_key-ne : (user : Text) → peer_key user ≢ user
unfolding peer_key
peer_key-ne user e =
    absurd (omega (arith, ap (λ (t : Text). length t) e, length-append (codes "peer:") user))

pub no_call : (o : Option Text) → is_some o ≡ false → o ≡ none
no_call none e = refl
no_call (some t) e = absurd (cc)

pub resolved-owner :
    (now : ℕ) (vctx vtoken : Text) (s : Store) (real peer name : Text)
    → resolve_send_context now vctx vtoken s ≡ some (real, peer, name)
    → (vtoken_owns_vctx now vctx vtoken s ≡ true)
      × (resolve_context_token vctx s ≡ some real)
      × (resolve_context_token_full vctx s ≡ some (real, peer))
unfolding resolve_send_context vtoken_owns_vctx resolve_context_token resolve_context_token_full
resolved-owner now vctx vtoken s real peer name e = ground (
  arith,
  Option-cases (find (by_vctx vctx) s.context_tokens),
  Bool-cases (owns now vctx vtoken s),
)

module _ {J : Type 0} where
  -- What a label does not touch.
  pub with_label-context_token :
      (origin : Option Text) (vtoken session : Text) (h : HubState J) (msg : WeixinMessage J)
      → ((with_label origin vtoken session h msg).context_token ≡ msg.context_token)
        × ((with_label origin vtoken session h msg).ilink_hub_ext ≡ msg.ilink_hub_ext)
        × ((with_label origin vtoken session h msg).to_user_id ≡ msg.to_user_id)
  unfolding with_label apply_persona_and_footer_to_first_text_item on_first_text
  with_label-context_token origin vtoken session h msg =
      elim (Option-cases (get_by_vtoken vtoken h.registry)) [
        | inl missing ↦ ground arith
        | inr (c, known) ↦ ground (arith, Option-cases msg.item_list)
      ]

  pub outbound-context_token :
      (draws : Draws) (real peer : Text) (msg : WeixinMessage J)
      → ((outbound draws real peer msg).context_token ≡ some real)
        × ((outbound draws real peer msg).ilink_hub_ext ≡ none)
        × ((outbound draws real peer msg).to_user_id ≡ recipient msg.to_user_id peer)
  unfolding outbound ensure_outbound
  outbound-context_token draws real peer msg = (refl, refl, refl)

  -- Whether the message answers the call of an agent.
  abbrev pub call_of : WeixinMessage J → Option Text
  call_of msg = elim msg.ilink_hub_ext [ none ↦ none | some ext ↦ ext.a2a_call_id ]

  pub read_extension-call :
      (w : World J) (vctx vtoken session : Text) (msg : WeixinMessage J) (h : HubState J)
      → (read_extension w vctx vtoken session msg h).1 ≡ is_some (call_of msg)
  unfolding read_extension
  read_extension-call w vctx vtoken session msg h = elim (Option-cases msg.ilink_hub_ext) [
    | inl bare ↦ ground arith
    | inr (ext, given) ↦ ground (arith, Option-cases ext.a2a_call_id)
  ]

  pub sent_case :
      (b c : Bool) (out out' : WeixinMessage J) (saved saved' : Option Saved)
      → (if b then accepted else if c then persisted else sent out saved) ≡ sent out' saved'
      → (b ≡ false) × (out ≡ out') × (saved ≡ saved')
  sent_case b c out out' saved saved' e = elim (Bool-cases b) [
    | inl quiet ↦ absurd (ground arith)
    | inr loud ↦ elim (Bool-cases c) [ inl blank ↦ absurd (ground arith) | inr full ↦ ground arith ]
  ]

  pub deliver-sent :
      (w : World J) (vctx vtoken real peer name : Text) (msg : WeixinMessage J) (h h' : HubState J)
      (out : WeixinMessage J) (saved : Option Saved)
      → deliver w vctx vtoken (real, peer, name) msg h ≡ (h', sent out saved)
      → (out.context_token ≡ some real)
        × (out.ilink_hub_ext ≡ none)
        × (out.to_user_id ≡ recipient msg.to_user_id peer)
        × (call_of msg ≡ none)
  unfolding deliver
  deliver-sent w vctx vtoken real peer name msg h h' out saved e =
      let session = reply_session msg name in
      let read = read_extension w vctx vtoken session msg h in
      let out' = outbound w.draws real peer msg in
      let shown = with_label w.origin_label vtoken session read.0 out' in
      let (quiet, same, _) =
        sent_case read.1 (is_blank (text out') && not (has_media_content out')) shown out _ saved
          (ap (λ p. p.1) e) in
      let call = read_extension-call w vctx vtoken session msg h in
      let label = with_label-context_token w.origin_label vtoken session read.0 out' in
      let plain = outbound-context_token w.draws real peer msg in
      (
        ap (λ (m : WeixinMessage J). m.context_token) (sym same) ∙ label.0 ∙ plain.0,
        ap (λ (m : WeixinMessage J). m.ilink_hub_ext) (sym same) ∙ label.1 ∙ plain.1,
        ap (λ (m : WeixinMessage J). m.to_user_id) (sym same) ∙ label.2 ∙ plain.2,
        no_call (call_of msg) (ground (arith, Bool-cases read.1)),
      )

  -- What a request meets that leads to a message of its own.
  pub record Allowed (w : World J) (vtoken : Text) (m : WeixinMessage J) (h : HubState J)
      (out : WeixinMessage J) : Type 0 where
    pub call : call_of m ≡ none
    pub owner : vtoken_owns_vctx w.now (get_or m.context_token []) vtoken h.store ≡ true
    pub real : resolve_context_token (get_or m.context_token []) h.store ≡ out.context_token
    pub bare : out.ilink_hub_ext ≡ none
    pub scope : Text
    pub full :
        resolve_context_token_full (get_or m.context_token []) h.store
        ≡ with_scope scope out.context_token
    pub to_user : out.to_user_id ≡ recipient m.to_user_id scope

  pub send_as-sent :
      (w : World J) (vtoken : Text) (msg : Option (WeixinMessage J)) (h h' : HubState J)
      (out : WeixinMessage J) (saved : Option Saved)
      → send_as w vtoken msg h ≡ (h', sent out saved)
      → (m : WeixinMessage J) × (msg ≡ some m) × Allowed w vtoken m h out
  unfolding send_as
  send_as-sent w vtoken none h h' out saved e = absurd (ground arith)
  send_as-sent w vtoken (some m) h h' out saved e =
      elim (Bool-cases (is_empty (get_or m.context_token []))) [
        | inl blank ↦ absurd (ground arith)
        | inr given ↦ elim (Bool-cases w.fails_resolve) [
          | inl fails ↦ absurd (ground arith)
          | inr works ↦
              elim (Option-cases
                (resolve_send_context w.now (get_or m.context_token []) vtoken h.store)) [
                  | inl refused ↦ absurd (ground arith)
                  | inr ((real, peer, name), found) ↦
                      let delivered : deliver w (get_or m.context_token []) vtoken
                            (real, peer, name) m h
                          ≡ (h', sent out saved) =
                        ground arith in
                      let (token, bare, to_user, call) =
                        deliver-sent w (get_or m.context_token []) vtoken real peer name m h h' out
                          saved delivered in
                      let (owner, known, full) =
                        resolved-owner w.now (get_or m.context_token []) vtoken h.store real peer
                          name found in
                      (
                        m,
                        refl,
                        record {
                          call = call;
                          owner = owner;
                          real = known ∙ sym token;
                          bare = bare;
                          scope = peer;
                          full = full ∙ rw token;
                          to_user = to_user;
                        },
                      )
                ]
        ]
      ]
