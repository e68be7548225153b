-- ===== src/Router/Routes.antt =====
-- Where src/hub/router.rs sends a message, and how the removal of a client changes that.
use ilink_hub.Base.{
  ◌≡◌, ◌&&◌, Text, text_eq, [], Option, none, some, false, not, arith, if◌then◌else◌, get_or,
  is_some, Bool-cases, Option-cases,
}
use ilink_hub.Base.Map.{lookup, lookup-insert, lookup-retain}
use ilink_hub.Message.{WeixinMessage}
use ilink_hub.Router.{
  forward_to, Router, set_route, is_client, remove_routes_for_vtoken, get_route, command_of, route,
}

-- After a client is removed, a user whose messages went elsewhere keeps the route, and everyone
-- else gets the default client that there is then: the new one if the removed client was the default.
pub remove_routes_for_vtoken_lem :
    (r : Router) (vtoken user : Text) (new_default : Option Text)
    → get_route (remove_routes_for_vtoken r vtoken new_default) user ≡ (
        let default = if is_client vtoken r.default_client then new_default else r.default_client in
        if is_client vtoken (lookup user r.active_routes)
        then default
        else elim (lookup user r.active_routes) [ none ↦ default | some vt ↦ some vt ])
unfolding get_route remove_routes_for_vtoken
remove_routes_for_vtoken_lem r vtoken user new_default =
    ground (arith, lookup-retain (λ vt. not (text_eq vt vtoken)) user r.active_routes)

-- When a client is removed and is not itself the new default, no user has it as the route.
pub remove_routes_for_vtoken-get_route :
    (r : Router) (vtoken user : Text) (new_default : Option Text)
    → is_client vtoken new_default ≡ false
    → is_client vtoken (get_route (remove_routes_for_vtoken r vtoken new_default) user) ≡ false
remove_routes_for_vtoken-get_route r vtoken user new_default h =
    ground (arith, h, remove_routes_for_vtoken_lem r vtoken user new_default)

-- `/use` for one user changes that user's route and no other.
pub set_route-get_route :
    (r : Router) (user other vtoken : Text)
    → get_route (set_route r user vtoken) other
      ≡ (if text_eq user other then some vtoken else get_route r other)
unfolding get_route
set_route-get_route r user other vtoken =
    ground (arith, lookup-insert user other vtoken r.active_routes)

module _ {J : Type 0} where
  -- After `/use` of a user, the router forwards the user's messages without a command to the chosen
  -- client, with no session chosen, and decides on every other message as it did.
  pub set_route-route :
      (now user vtoken : Text) (r : Router) (msg : WeixinMessage J)
      → route now (set_route r user vtoken) msg ≡ (
          if not (is_some (command_of now msg)) && text_eq user (get_or msg.from_user_id [])
          then forward_to vtoken none
          else route now r msg)
  unfolding route
  set_route-route now user vtoken r msg = ground (
    arith,
    set_route-get_route r user (get_or msg.from_user_id []) vtoken,
    Option-cases (command_of now msg),
    Bool-cases (text_eq user (get_or msg.from_user_id [])),
  )
