-- ===== src/QuoteRoute/Merge.antt =====
-- A quoted reply, from the message to the decision of src/hub/router.rs and src/hub/quote_route.rs.
use ilink_hub.Base.{◌≡◌, ap, Text, [], Option, none, some, arith, get_or}
use ilink_hub.Message.{WeixinMessage}
use ilink_hub.Command.{HubCommand, help}
use ilink_hub.Router.{forward_to, hub_internal, Router, get_route, command_of, route}
use ilink_hub.QuoteRoute.{QuoteOrigin, by_origin, merge_routing_with_quote}

module _ {J : Type 0} where
  -- A message with a command runs it, whatever it quotes.
  merge-command :
      (now : Text) (r : Router) (msg : WeixinMessage J) (cmd : HubCommand)
      (quoted : Option QuoteOrigin)
      → command_of now msg ≡ some cmd
      → merge_routing_with_quote (route now r msg) quoted ≡ hub_internal cmd
  unfolding route merge_routing_with_quote
  merge-command now r msg cmd quoted h =
      let e : route now r msg ≡ hub_internal cmd = ground (arith, h) in
      ap (λ d. merge_routing_with_quote d quoted) e

  -- A message without a command, whose sender has a route, goes to the client that it quotes and
  -- to the session of that message, or repeats the quoted action of the hub, or goes to the route.
  pub merge_routing_with_quote-routed :
      (now vtoken : Text) (r : Router) (msg : WeixinMessage J) (quoted : Option QuoteOrigin)
      → command_of now msg ≡ none
      → get_route r (get_or msg.from_user_id []) ≡ some vtoken
      → merge_routing_with_quote (route now r msg) quoted
        ≡ by_origin (forward_to vtoken none) quoted
  unfolding route merge_routing_with_quote
  merge_routing_with_quote-routed now vtoken r msg quoted h routed =
      let e : route now r msg ≡ forward_to vtoken none = ground (arith, h, routed) in
      ap (λ d. merge_routing_with_quote d quoted) e

  -- A message without a command, whose sender has no route, gets the help text whatever it quotes:
  -- a reply to the message of a client does not reach that client.
  pub merge_routing_with_quote-unrouted :
      (now : Text) (r : Router) (msg : WeixinMessage J) (quoted : Option QuoteOrigin)
      → command_of now msg ≡ none
      → get_route r (get_or msg.from_user_id []) ≡ none
      → merge_routing_with_quote (route now r msg) quoted ≡ hub_internal help
  unfolding route merge_routing_with_quote
  merge_routing_with_quote-unrouted now r msg quoted h unrouted =
      let e : route now r msg ≡ hub_internal help = ground (arith, h, unrouted) in
      ap (λ d. merge_routing_with_quote d quoted) e
