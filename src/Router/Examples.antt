-- ===== src/Router/Examples.antt =====
-- The routing table of src/hub/router.rs with two users.
use ilink_hub.Base.{◌≡◌, ◌&&◌, codes, [], ◌∷◌, none, some, not, is_some, if◌then◌else◌, text_eq}
use ilink_hub.Message.{WeixinMessage, default_message}
use ilink_hub.Router.{forward_to, Router, set_route, command_of, route}
use ilink_hub.Router.Routes.{set_route-route}

abbrev two_users : Router
two_users = record {
  active_routes = (codes "u1", codes "v1") ∷ (codes "u2", codes "v2") ∷ [];
  default_client = some (codes "v1");
}

abbrev hello : WeixinMessage (Unit {0})
hello = record default_message { from_user_id = some (codes "u1") }

set_route-route_example :
    route (codes "now") (set_route two_users (codes "u1") (codes "v2")) hello ≡ (
      if not (is_some (command_of (codes "now") hello)) && text_eq (codes "u1") (codes "u1")
      then forward_to (codes "v2") none
      else route (codes "now") two_users hello)
set_route-route_example = set_route-route (codes "now") (codes "u1") (codes "v2") two_users hello
