-- ===== src/Bot/History.antt =====
-- src/server/routes/bot.rs: the row that `sendmessage` gives to the message history.
use ilink_hub.Base.{
  ℕ, Text, codes, List, [], ◌∷◌, ◌++◌, Bool, true, false, ◌&&◌, Option, none, some, ◌≡◌, refl, sym,
  ap, ◌∙◌, arith, if◌then◌else◌, not, get_or, is_empty, text_eq_refl, Bool-cases, Option-cases, inl,
  inr, length,
}
use ilink_hub.Base.Int.{ℤ, int_eq_refl}
use ilink_hub.Base.Rows.{find, find-append, find-append_kept}
use ilink_hub.Base.Utf8.{as_bytes}
use ilink_hub.VtokenHash.{hash_vtoken, hex_lower}
use ilink_hub.Message.{WeixinMessage, text}
use ilink_hub.Outbound.{has_media_content}
use ilink_hub.Store.Context.{resolve_send_context}
use ilink_hub.Store.Messages.{
  Message, save_message_with_msg_id, by_msg_id, author_of, find_assistant_message_by_msg_id,
}
use ilink_hub.Hub.{HubState}
use ilink_hub.Bot.Auth.{extract_vtoken, is_valid_vtoken, bearer}
use ilink_hub.Bot.Send.{
  World, sent, Saved, reply_session, read_extension, outbound, is_blank, with_label, history,
  deliver, send_as, sendmessage, count_request, is_finish,
}
use ilink_hub.Bot.Access.{sent_case}
use ilink_hub.Bot.Sending.{sendmessage-send_as}

-- The task that a handled message spawns, at the time `stamp`. `lost` tells that there is no permit for it or that the
-- insertion fails; the counter of lost rows is left out.
unfoldable pub save_history : Bool → ℕ → Option Saved → List Message → List Message
save_history lost stamp none rows = rows
save_history lost stamp (some r) rows =
    if lost
    then rows
    else save_message_with_msg_id stamp r.vctx (some r.vtoken) r.session_name r.peer_user_id
        (codes "assistant") r.content r.ilink_msg_id rows

abbrev row_of : ℕ → Saved → Message
row_of stamp r = record {
  vctx = r.vctx;
  vtoken = some r.vtoken;
  session_name = r.session_name;
  peer_user_id = r.peer_user_id;
  role = codes "assistant";
  content = r.content;
  ilink_msg_id = r.ilink_msg_id;
  created_at = stamp;
}

row_of-found :
    (stamp : ℕ) (r : Saved) (id : ℤ)
    → r.ilink_msg_id ≡ some id
    → by_msg_id r.peer_user_id id (row_of stamp r) ≡ true
unfolding by_msg_id
row_of-found stamp r id e =
    rw (e, text_eq_refl r.peer_user_id, text_eq_refl (codes "assistant")) (int_eq_refl id)

nobody-found : (o : Option Message) → author_of o ≡ none → o ≡ none
nobody-found none e = refl
nobody-found (some m) e = absurd (cc)

-- A saved row is found by its id, unless an older one of its conversation has this id.
pub save_history-find :
    (stamp : ℕ) (r : Saved) (id : ℤ) (earlier later : List Message)
    → r.ilink_msg_id ≡ some id
    → find_assistant_message_by_msg_id r.peer_user_id id earlier ≡ none
    → find_assistant_message_by_msg_id r.peer_user_id id
        (save_history false stamp (some r) earlier ++ later)
      ≡ some (r.vtoken, some r.session_name)
unfolding save_history save_message_with_msg_id find_assistant_message_by_msg_id
save_history-find stamp r id earlier later e fresh =
    let p = by_msg_id r.peer_user_id id in
    let last : find p (earlier ++ row_of stamp r ∷ []) ≡ some (row_of stamp r) =
      find-append p earlier (row_of stamp r) (nobody-found (find p earlier) fresh)
      ∙ rw (row_of-found stamp r id e) in
    ap author_of (find-append_kept p (earlier ++ row_of stamp r ∷ []) later (row_of stamp r) last)

hex_lower-full : (bytes : List ℕ) → length bytes ≡ 32 → is_empty (hex_lower bytes) ≡ false
unfolding hex_lower is_empty
hex_lower-full [] e = absurd (omega (arith, e))
hex_lower-full (b ∷ bs) e = refl

-- The digest of 32 bytes prints to a text that is not empty.
hash_vtoken-full :
    (sha256 : List ℕ → List ℕ) (plain : Text)
    → length (sha256 (as_bytes plain)) ≡ 32
    → is_empty (hash_vtoken sha256 plain) ≡ false
unfolding hash_vtoken
hash_vtoken-full sha256 plain e = hex_lower-full (sha256 (as_bytes plain)) e

pub extract_vtoken-full :
    (sha256 : List ℕ → List ℕ) (authorization : Option Text) (vtoken : Text)
    → ((bytes : List ℕ) → length (sha256 bytes) ≡ 32)
    → extract_vtoken sha256 authorization ≡ some vtoken
    → is_empty vtoken ≡ false
unfolding extract_vtoken
extract_vtoken-full sha256 authorization vtoken digest e =
    elim (Option-cases (bearer authorization)) [
      | inl missing ↦ absurd (ground arith)
      | inr (s, given) ↦
          ground
            (arith, hash_vtoken-full sha256 s (digest (as_bytes s)), Bool-cases (is_valid_vtoken s))
    ]

module _ {J : Type 0} where
  history-some :
      (vctx vtoken session peer : Text) (msg : WeixinMessage J) (r : Saved)
      → history vctx vtoken session peer msg ≡ some r
      → (r.vtoken ≡ vtoken) × (r.ilink_msg_id ≡ msg.message_id)
  unfolding history
  history-some vctx vtoken session peer msg r e = elim (Option-cases (text msg)) [
    | inl wordless ↦ absurd (ground (arith, Bool-cases (is_finish msg.message_state)))
    | inr (content, said) ↦ ground (arith, Bool-cases (is_finish msg.message_state))
  ]

  deliver-saved :
      (w : World J) (vctx vtoken real peer name : Text) (msg : WeixinMessage J) (h h' : HubState J)
      (out : WeixinMessage J) (r : Saved)
      → deliver w vctx vtoken (real, peer, name) msg h ≡ (h', sent out (some r))
      → (r.vtoken ≡ vtoken) × (r.ilink_msg_id ≡ out.message_id)
  unfolding deliver
  deliver-saved w vctx vtoken real peer name msg h h' out r e =
      let session = reply_session msg name in
      let read = read_extension w vctx vtoken session msg h in
      let out' = outbound w.draws real peer msg in
      let shown = with_label w.origin_label vtoken session read.0 out' in
      let (_, same, row) =
        sent_case read.1 (is_blank (text out') && not (has_media_content out')) shown out
          (history vctx vtoken session peer shown) (some r) (ap (λ p. p.1) e) in
      let (token, id) = history-some vctx vtoken session peer shown r row in
      (token, id ∙ ap (λ (m : WeixinMessage J). m.message_id) same)

  send_as-saved :
      (w : World J) (vtoken : Text) (msg : Option (WeixinMessage J)) (h h' : HubState J)
      (out : WeixinMessage J) (r : Saved)
      → send_as w vtoken msg h ≡ (h', sent out (some r))
      → (r.vtoken ≡ vtoken) × (r.ilink_msg_id ≡ out.message_id)
  unfolding send_as
  send_as-saved w vtoken none h h' out r e = absurd (ground arith)
  send_as-saved w vtoken (some m) h h' out r e =
      elim (Bool-cases (is_empty (get_or m.context_token []))) [
        | inl blank ↦ absurd (ground arith)
        | inr given ↦ elim (Bool-cases w.fails_resolve) [
          | inl fails ↦ absurd (ground arith)
          | inr works ↦
              elim (Option-cases
                (resolve_send_context w.now (get_or m.context_token []) vtoken h.store)) [
                  | inl refused ↦ absurd (ground arith)
                  | inr ((real, peer, name), found) ↦
                      deliver-saved w (get_or m.context_token []) vtoken real peer name m h h' out r
                        (ground arith)
                ]
        ]
      ]

  -- The row of a sent message holds the token of the request and the id of the message.
  pub sendmessage-saved :
      (sha256 : List ℕ → List ℕ) (w : World J) (authorization : Option Text)
      (msg : Option (WeixinMessage J)) (h h' : HubState J) (out : WeixinMessage J) (r : Saved)
      → sendmessage sha256 w authorization msg h ≡ (h', sent out (some r))
      → (extract_vtoken sha256 authorization ≡ some r.vtoken) × (r.ilink_msg_id ≡ out.message_id)
  sendmessage-saved sha256 w authorization msg h h' out r e =
      let (vtoken, known, _, _, as_client) =
        sendmessage-send_as sha256 w authorization msg h h' out (some r) e in
      let (token, id) = send_as-saved w vtoken msg (count_request h) h' out r as_client in
      (known ∙ ap some (sym token), id)
