-- ===== src/QuoteRoute/Replies.antt =====
-- A reply to the message of a backend, from src/server/routes/bot.rs over the history of
-- src/store/messages.rs to the decision of src/hub/dispatch/pipeline.rs.
use ilink_hub.Base.{
  ℕ, Text, List, [], ◌++◌, false, Option, none, some, ◌≡◌, ap, ◌∙◌, arith, is_empty, get_or, length,
  Option-cases, inl, inr,
}
use ilink_hub.Base.Int.{ℤ}
use ilink_hub.Base.Strings.{trim}
use ilink_hub.Message.{WeixinMessage}
use ilink_hub.Registry.{ClientRegistry, get_by_vtoken}
use ilink_hub.Command.{help}
use ilink_hub.Router.{
  RoutingDecision, forward_to, hub_internal, Router, get_route, command_of, route,
}
use ilink_hub.Store.Messages.{Message, find_assistant_message_by_msg_id}
use ilink_hub.Hub.{HubState}
use ilink_hub.Bot.Auth.{extract_vtoken}
use ilink_hub.Bot.Send.{World, sent, Saved, sendmessage}
use ilink_hub.Bot.History.{save_history, save_history-find, sendmessage-saved, extract_vtoken-full}
use ilink_hub.QuoteRoute.{QuoteOrigin, by_origin, merge_routing_with_quote}
use ilink_hub.QuoteRoute.Quoted.{
  Json, parse_i64, derive_peer_scope, collect_quoted_msg_id, client_origin,
  resolve_quote_from_msg_id,
}
use ilink_hub.QuoteRoute.Merge.{merge_routing_with_quote-routed, merge_routing_with_quote-unrouted}
use ilink_hub.Dispatch.{View, routed, is_echo, mention_of, quoted_origin, decide}

by_origin-client :
    (base : RoutingDecision) (vtoken : Text) (session : Option Text) (registry : ClientRegistry)
    → by_origin base (some (client_origin vtoken session (get_by_vtoken vtoken registry)))
      ≡ forward_to vtoken session
by_origin-client base vtoken session registry =
    ground (arith, Option-cases (get_by_vtoken vtoken registry))

merged :
    {J : Type 0} (now : Text) (router : Router) (reply : WeixinMessage J) (vtoken : Text)
    (session : Option Text) (registry : ClientRegistry)
    → command_of now reply ≡ none
    → merge_routing_with_quote
        (route now router reply)
        (some (client_origin vtoken session (get_by_vtoken vtoken registry)))
      ≡ elim (get_route router (get_or reply.from_user_id [])) [
        | none ↦ hub_internal help
        | some other ↦ forward_to vtoken session
      ]
merged now router reply vtoken session registry silent =
    let q = some (client_origin vtoken session (get_by_vtoken vtoken registry)) in
    elim (Option-cases (get_route router (get_or reply.from_user_id []))) [
      | inl lost ↦ rw lost (merge_routing_with_quote-unrouted now router reply q silent lost)
      | inr (other, found) ↦ rw found (
          merge_routing_with_quote-routed now other router reply q silent found
          ∙ by_origin-client (forward_to other none) vtoken session registry)
    ]

module _ {J : Type 0} (json : Json J) where
  resolve-found :
      (rows : List Message) (registry : ClientRegistry) (reply : WeixinMessage J)
      (raw scope vtoken : Text) (session : Option Text) (id : ℤ)
      → collect_quoted_msg_id json reply ≡ some raw
      → parse_i64 (trim raw) ≡ some id
      → derive_peer_scope reply ≡ some scope
      → find_assistant_message_by_msg_id scope id rows ≡ some (vtoken, session)
      → is_empty vtoken ≡ false
      → resolve_quote_from_msg_id json false rows registry reply
        ≡ some (client_origin vtoken session (get_by_vtoken vtoken registry))
  unfolding resolve_quote_from_msg_id
  resolve-found rows registry reply raw scope vtoken session id collected parsed scoped found full =
      ground arith

  quoted_origin-by_id :
      (v : View) (reply : WeixinMessage J) (q : QuoteOrigin)
      → resolve_quote_from_msg_id json v.fails_id v.messages v.registry reply ≡ some q
      → quoted_origin json v reply ≡ some q
  unfolding quoted_origin
  quoted_origin-by_id v reply q e = rw e

  decide-quoted :
      (now : Text) (v : View) (reply : WeixinMessage J) (q : Option QuoteOrigin)
      → is_echo reply ≡ false
      → mention_of v.acl v.registry reply ≡ none
      → quoted_origin json v reply ≡ q
      → decide json now v reply ≡ routed (merge_routing_with_quote (route now v.router reply) q)
  unfolding decide
  decide-quoted now v reply q user plain e = rw (user, plain, e)

  -- A message that a backend sends and that the history keeps: when the user of that conversation
  -- quotes it by its id, in a message that is no command and mentions no backend that its sender
  -- sees, the pipeline forwards this message to the token that sent the quoted one and to the
  -- session of its row, whatever is stored later and whoever is registered then, if its sender has
  -- a route, to whomever; a sender without a route gets the help text instead. No assistant row of
  -- the conversation has the id already, the query by id succeeds in time, and the digest gives 32
  -- bytes.
  pub sendmessage-quoted :
      (sha256 : List ℕ → List ℕ) (w : World J) (authorization : Option Text)
      (msg : Option (WeixinMessage J)) (h h' : HubState J) (out : WeixinMessage J) (saved : Saved)
      (earlier later : List Message) (v : View) (now raw : Text) (stamp : ℕ)
      (reply : WeixinMessage J) (id : ℤ)
      → ((bytes : List ℕ) → length (sha256 bytes) ≡ 32)
      → sendmessage sha256 w authorization msg h ≡ (h', sent out (some saved))
      → out.message_id ≡ some id
      → find_assistant_message_by_msg_id saved.peer_user_id id earlier ≡ none
      → collect_quoted_msg_id json reply ≡ some raw
      → parse_i64 (trim raw) ≡ some id
      → derive_peer_scope reply ≡ some saved.peer_user_id
      → is_echo reply ≡ false
      → mention_of v.acl v.registry reply ≡ none
      → command_of now reply ≡ none
      → v.fails_id ≡ false
      → v.messages ≡ save_history false stamp (some saved) earlier ++ later
      → (extract_vtoken sha256 authorization ≡ some saved.vtoken)
        × (decide json now v reply
            ≡ routed (elim (get_route v.router (get_or reply.from_user_id [])) [
              | none ↦ hub_internal help
              | some other ↦ forward_to saved.vtoken (some saved.session_name)
            ]))
  sendmessage-quoted sha256 w authorization msg h h' out saved earlier later v now raw stamp reply
        id digest e named fresh collected parsed scoped user plain silent works stored =
      let (known, kept) = sendmessage-saved sha256 w authorization msg h h' out saved e in
      let q =
        client_origin saved.vtoken (some saved.session_name)
          (get_by_vtoken saved.vtoken v.registry) in
      let origin =
        resolve-found v.messages v.registry reply raw saved.peer_user_id saved.vtoken
          (some saved.session_name) id collected parsed scoped
          (rw stored (save_history-find stamp saved id earlier later (kept ∙ named) fresh))
          (extract_vtoken-full sha256 authorization saved.vtoken digest known) in
      let by_id : resolve_quote_from_msg_id json v.fails_id v.messages v.registry reply ≡ some q =
        rw works origin in
      (
        known,
        decide-quoted now v reply (some q) user plain (quoted_origin-by_id v reply q by_id)
            ∙ ap routed (
                merged now v.router reply saved.vtoken (some saved.session_name) v.registry silent),
      )
