-- ===== src/QuoteRoute.antt =====
-- src/hub/quote_route.rs: how the origin of a quoted message changes a routing decision.
pub mod Merge
pub mod Footer
pub mod Quoted
pub mod Fallback
pub mod Searches
mod Replies
mod Footers
mod Examples
use ilink_hub.Base.{Text, Option, none, some}
use ilink_hub.Command.{HubCommand}
use ilink_hub.Router.{RoutingDecision, forward_to, broadcast, hub_internal}

pub data QuoteOrigin : Type 0 where
  -- The client's token, its name, its label and its session.
  client : Text → Text → Option Text → Option Text → QuoteOrigin
  hub : HubCommand → QuoteOrigin

-- The origin decides unless there is none.
abbrev pub by_origin : RoutingDecision → Option QuoteOrigin → RoutingDecision
by_origin base none = base
by_origin base (some (client vtoken name label session_name)) = forward_to vtoken session_name
by_origin base (some (hub cmd)) = hub_internal cmd

unfoldable pub merge_routing_with_quote : RoutingDecision → Option QuoteOrigin → RoutingDecision
merge_routing_with_quote (hub_internal cmd) quoted = hub_internal cmd
merge_routing_with_quote (forward_to vtoken session) quoted =
    by_origin (forward_to vtoken session) quoted
merge_routing_with_quote broadcast quoted = by_origin broadcast quoted
