-- ===== src/Store/Clients.antt =====
-- src/store/clients.rs: the clients and the routes that the hub persists.
use ilink_hub.Base.{
  ℕ, Text, List, map, Bool, ◌&&◌, not, Option, none, some, if◌then◌else◌, text_eq, is_empty,
}
use ilink_hub.Base.Rows.{any, find, delete, update, upsert}
use ilink_hub.Base.Order.{text_le, sort_by}
use ilink_hub.Store.{Store, ClientRow, RoutingState}

unfoldable pub by_name : Text → ClientRow → Bool
by_name name c = text_eq c.name name

unfoldable pub by_vtoken : Text → ClientRow → Bool
by_vtoken vtoken c = text_eq c.vtoken vtoken

-- `COALESCE(new, old)`.
abbrev pub coalesce : Option Text → Option Text → Option Text
coalesce none old = old
coalesce (some l) old = some l

-- `UPDATE routing_state SET active_vtoken = vtoken WHERE active_vtoken = old`, which changes
-- nothing where there is no old token.
unfoldable pub move_routes : Text → Option ClientRow → List RoutingState → List RoutingState
move_routes vtoken none rs = rs
move_routes vtoken (some c) rs =
    update (λ r. text_eq r.active_vtoken c.vtoken) (λ r. record r { active_vtoken = vtoken }) rs

-- Whether a client of another name has the token.
unfoldable pub is_held : Text → Text → ClientRow → Bool
is_held vtoken name c = text_eq c.vtoken vtoken && not (text_eq c.name name)

unfoldable pub holder : Text → Text → Store → Option ClientRow
holder vtoken name s = find (is_held vtoken name) s.clients

-- One transaction; `none` is the violation of the primary key, which takes all of it back.
unfoldable pub upsert_client : ℕ → Text → Text → Option Text → Store → Option Store
upsert_client stamp vtoken name label s = elim (holder vtoken name s) [
  | some other ↦ none
  | none ↦ some (record s {
    routing_states = move_routes vtoken (find (by_name name) s.clients) s.routing_states;
    clients =
        upsert (by_name name)
          (λ c. record c {
            vtoken = vtoken;
            label = coalesce label c.label;
            last_seen = some stamp;
          })
          (record {
            vtoken = vtoken;
            name = name;
            label = label;
            last_seen = none;
            persona_name = none;
            persona_emoji = none;
            description = none;
          })
          s.clients;
  })
]

unfoldable pub touch_client : ℕ → Text → Store → Store
touch_client stamp vtoken s = record s {
  clients = update (by_vtoken vtoken) (λ c. record c { last_seen = some stamp }) s.clients;
}

-- The description that a query hands out: an empty one is none.
abbrev not_empty : Option Text → Option Text
not_empty none = none
not_empty (some d) = if is_empty d then none else some d

unfoldable pub read_client : ClientRow → ClientRow
read_client c = record c { description = not_empty c.description }

unfoldable pub list_clients : Store → List ClientRow
list_clients s = map read_client (sort_by (λ (a b : ClientRow). text_le a.name b.name) s.clients)

abbrev pub read_found : Option ClientRow → Option ClientRow
read_found none = none
read_found (some c) = some (read_client c)

unfoldable pub get_client_by_name : Text → Store → Option ClientRow
get_client_by_name name s = read_found (find (by_name name) s.clients)

unfoldable pub update_client_description : Text → Option Text → Store → Store
update_client_description vtoken description s = record s {
  clients = update (by_vtoken vtoken) (λ c. record c { description = description }) s.clients;
}

unfoldable pub update_client_persona : Text → Option Text → Option Text → Store → Store
update_client_persona vtoken persona_name persona_emoji s = record s {
  clients =
      update (by_vtoken vtoken)
        (λ c. record c { persona_name = persona_name; persona_emoji = persona_emoji }) s.clients;
}

unfoldable pub delete_client_by_name : Text → Store → Store × Bool
delete_client_by_name name s =
    (record s { clients = delete (by_name name) s.clients }, any (by_name name) s.clients)

-- Whether another client has the name.
unfoldable pub is_named : Text → Text → ClientRow → Bool
is_named name vtoken c = text_eq c.name name && not (text_eq c.vtoken vtoken)

-- `none` is the violation of the unique name by the row of the token.
unfoldable pub update_client_by_vtoken : Text → Text → Option Text → Store → Option Store
update_client_by_vtoken vtoken name label s =
    if any (by_vtoken vtoken) s.clients && any (is_named name vtoken) s.clients
    then none
    else some (record s {
      clients =
          update (by_vtoken vtoken) (λ c. record c { name = name; label = coalesce label c.label })
            s.clients;
    })

unfoldable pub clear_routes_for_vtoken : Text → Store → Store
clear_routes_for_vtoken vtoken s = record s {
  routing_states = delete (λ r. text_eq r.active_vtoken vtoken) s.routing_states;
}

unfoldable pub list_routes : Store → List (Text × Text)
list_routes s = map (λ r. (r.from_user, r.active_vtoken)) s.routing_states

unfoldable pub by_user : Text → RoutingState → Bool
by_user from_user r = text_eq r.from_user from_user

abbrev pub token_of : Option RoutingState → Option Text
token_of none = none
token_of (some r) = some r.active_vtoken

unfoldable pub get_route : Text → Store → Option Text
get_route from_user s = token_of (find (by_user from_user) s.routing_states)

unfoldable pub set_route : Text → Text → Store → Store
set_route from_user vtoken s = record s {
  routing_states =
      upsert (by_user from_user) (λ r. record r { active_vtoken = vtoken })
        (record { from_user = from_user; active_vtoken = vtoken }) s.routing_states;
}
