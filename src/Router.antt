-- ===== src/Router.antt =====
-- src/hub/router.rs: the routing table and the decision for a message.
pub mod Routes
mod Examples
use ilink_hub.Base.{
  ℕ, Text, text_eq, [], ◌∷◌, Option, none, some, Bool, true, false, not, if◌then◌else◌, get_or,
}
use ilink_hub.Base.Map.{Map, lookup, insert, retain}
use ilink_hub.Message.{WeixinMessage, text}
use ilink_hub.Command.{HubCommand, help, parse_hub_command}

pub data RoutingDecision : Type 0 where
  -- The client and, after a quoted reply, the session.
  forward_to : Text → Option Text → RoutingDecision
  broadcast : RoutingDecision
  hub_internal : HubCommand → RoutingDecision

pub record Router : Type 0 where
  pub active_routes : Map Text
  pub default_client : Option Text

abbrev pub new : Option Text → Router
new default_client = record { active_routes = []; default_client = default_client }

abbrev pub set_default : Router → Text → Router
set_default r vtoken = record r { default_client = some vtoken }

abbrev pub unset_default : Router → Router
unset_default r = record r { default_client = none }

abbrev pub set_route : Router → Text → Text → Router
set_route r from_user_id vtoken = record r {
  active_routes = insert from_user_id vtoken r.active_routes;
}

abbrev pub is_client : Text → Option Text → Bool
is_client vtoken none = false
is_client vtoken (some v) = text_eq v vtoken

unfoldable pub remove_routes_for_vtoken : Router → Text → Option Text → Router
remove_routes_for_vtoken r vtoken new_default = record {
  active_routes = retain (λ vt. not (text_eq vt vtoken)) r.active_routes;
  default_client = if is_client vtoken r.default_client then new_default else r.default_client;
}

unfoldable pub get_route : Router → Text → Option Text
get_route r from_user_id = elim (lookup from_user_id r.active_routes) [
  | some vt ↦ some vt
  | none ↦ r.default_client
]

module _ {J : Type 0} where
  -- The command in a message, if it is one.
  unfoldable pub command_of : Text → WeixinMessage J → Option HubCommand
  command_of now msg = elim (text msg) [ none ↦ none | some t ↦ parse_hub_command now t ]

  unfoldable pub route : Text → Router → WeixinMessage J → RoutingDecision
  unfolding command_of get_route
  route now r msg = elim (command_of now msg) [
    | some cmd ↦ hub_internal cmd
    | none ↦ elim (get_route r (get_or msg.from_user_id [])) [
      | some vtoken ↦ forward_to vtoken none
      | none ↦ hub_internal help
    ]
  ]
