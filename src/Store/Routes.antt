-- ===== src/Store/Routes.antt =====
-- The routes that the hub persists, and what a client's new token does to them.
use mathlib.Core.Option
use ilink_hub.Base.{
  ℕ, Text, List, [], ◌∷◌, Option, none, some, ◌≡◌, ◌≢◌, refl, ap, ◌∙◌, arith, if◌then◌else◌,
  text_eq, text_eq_iff, text_eq_refl, Bool-cases, Option-cases, inl, inr,
}
use ilink_hub.Base.Rows.{find, update, delete, upsert, find-upsert, find-upsert_other, find-delete}
use ilink_hub.Store.{Store, ClientRow, RoutingState}
use ilink_hub.Store.Clients.{
  by_name, by_user, upsert_client, move_routes, coalesce, get_route, set_route, token_of,
  get_client_by_name, read_client, clear_routes_for_vtoken, holder,
}
use ilink_hub.Store.Keys.{text_eq_trans}

-- A stored route is read back, and the routes of other users stay.
pub set_route-get_route :
    (from_user vtoken user : Text) (s : Store)
    → get_route user (set_route from_user vtoken s)
      ≡ (if text_eq from_user user then some vtoken else get_route user s)
unfolding get_route set_route by_user
set_route-get_route from_user vtoken user s = elim (Bool-cases (text_eq from_user user)) [
  | inl same ↦ ground (
    arith,
    text_eq_refl user,
    text_eq_iff from_user user,
    find-upsert (by_user user) (λ r. record r { active_vtoken = vtoken })
        (record { from_user = user; active_vtoken = vtoken }) (text_eq_refl user) (λ r e. e)
        s.routing_states,
    Option-cases (find (by_user user) s.routing_states),
  )
  | inr other ↦ ground (
    arith,
    find-upsert_other (by_user user) (by_user from_user) (λ r. record r { active_vtoken = vtoken })
        (record { from_user = from_user; active_vtoken = vtoken }) other
        (λ r e. text_eq_trans r.from_user from_user user e ∙ other)
        (λ r e. text_eq_trans r.from_user from_user user e ∙ other) s.routing_states,
  )
]

-- A token after the client of the old token got a new one.
abbrev pub moved : Option ClientRow → Text → Text → Text
moved none vtoken t = t
moved (some c) vtoken t = if text_eq t c.vtoken then vtoken else t

find-move_routes :
    (user vtoken : Text) (c : Option ClientRow) (rs : List RoutingState)
    → token_of (find (by_user user) (move_routes vtoken c rs))
      ≡ Option.map (moved c vtoken) (token_of (find (by_user user) rs))
unfolding find move_routes update by_user
find-move_routes user vtoken none rs = ground (arith, Option-cases (find (by_user user) rs))
find-move_routes user vtoken (some c) [] = refl
find-move_routes user vtoken (some c) (r ∷ rs) =
    ground (
      arith,
      find-move_routes user vtoken (some c) rs,
      Bool-cases (text_eq r.active_vtoken c.vtoken),
    )

abbrev registered : ℕ → Text → Text → Option Text → Option ClientRow → ClientRow
registered stamp vtoken name label none = record {
  vtoken = vtoken;
  name = name;
  label = label;
  last_seen = none;
  persona_name = none;
  persona_emoji = none;
  description = none;
}
registered stamp vtoken name label (some c) = record c {
  vtoken = vtoken;
  label = coalesce label c.label;
  last_seen = some stamp;
}

abbrev renewed : ℕ → Text → Option Text → ClientRow → ClientRow
renewed stamp vtoken label c = record c {
  vtoken = vtoken;
  label = coalesce label c.label;
  last_seen = some stamp;
}

upsert_client-done :
    (stamp : ℕ) (vtoken name : Text) (label : Option Text) (s s' : Store)
    → upsert_client stamp vtoken name label s ≡ some s'
    → (holder vtoken name s ≡ none)
      × (s'.routing_states ≡ move_routes vtoken (find (by_name name) s.clients) s.routing_states)
      × (s'.clients
          ≡ upsert
              (by_name name)
              (renewed stamp vtoken label)
              (registered stamp vtoken name label none)
              s.clients)
unfolding upsert_client
upsert_client-done stamp vtoken name label s s' e = elim (Option-cases (holder vtoken name s)) [
  | inr (other, held) ↦ absurd (ground arith)
  | inl free ↦ ground arith
]

-- When `upsert_client` succeeds, no client of another name has the token. If the name is known,
-- every route to its client's old token then leads to the new one, and the other routes stay; with
-- a name that is not known no route changes.
pub upsert_client-get_route :
    (stamp : ℕ) (vtoken name user : Text) (label : Option Text) (s s' : Store)
    → upsert_client stamp vtoken name label s ≡ some s'
    → (holder vtoken name s ≡ none)
      × (get_route user s'
          ≡ Option.map (moved (find (by_name name) s.clients) vtoken) (get_route user s))
unfolding get_route
upsert_client-get_route stamp vtoken name user label s s' e =
    let (free, routes, clients) = upsert_client-done stamp vtoken name label s s' e in
    (
      free,
      ap (λ (rs : List RoutingState). token_of (find (by_user user) rs)) routes
          ∙ find-move_routes user vtoken (find (by_name name) s.clients) s.routing_states,
    )

-- When `upsert_client` succeeds, the client of the name has the new token; a known one keeps its
-- persona, its description and, where none is given, its label. The clients of other names stay.
pub upsert_client-get_client_by_name :
    (stamp : ℕ) (vtoken name other : Text) (label : Option Text) (s s' : Store)
    → upsert_client stamp vtoken name label s ≡ some s'
    → get_client_by_name other s' ≡ (
        if text_eq name other
        then some (read_client (registered stamp vtoken name label (find (by_name name) s.clients)))
        else get_client_by_name other s)
unfolding get_client_by_name by_name
upsert_client-get_client_by_name stamp vtoken name other label s s' e =
    let (free, routes, clients) = upsert_client-done stamp vtoken name label s s' e in
    let change = λ (c : ClientRow). record c {
      vtoken = vtoken;
      label = coalesce label c.label;
      last_seen = some stamp;
    } in
    elim (Bool-cases (text_eq name other)) [
      | inl same ↦ ground (
        arith,
        text_eq_refl other,
        text_eq_iff name other,
        find-upsert (by_name name) change (registered stamp vtoken name label none)
            (text_eq_refl name) (λ r e. e) s.clients,
        Option-cases (find (by_name name) s.clients),
      )
      | inr different ↦ ground (
        arith,
        find-upsert_other (by_name other) (by_name name) change
            (registered stamp vtoken name label none) different
            (λ r e. text_eq_trans r.name name other e ∙ different)
            (λ r e. text_eq_trans r.name name other e ∙ different) s.clients,
      )
    ]

-- Clearing the routes of a token leaves no user's route to it.
pub clear_routes-get_route :
    (vtoken user : Text) (s : Store)
    → get_route user (clear_routes_for_vtoken vtoken s) ≢ some vtoken
unfolding get_route clear_routes_for_vtoken
clear_routes-get_route vtoken user s = λ routed.
    elim (Option-cases
      (find (by_user user) (delete (λ r. text_eq r.active_vtoken vtoken) s.routing_states))) [
        | inl nothing ↦ ground arith
        | inr (r, found) ↦ ground (
          arith,
          text_eq_refl vtoken,
          find-delete (by_user user) (λ r. text_eq r.active_vtoken vtoken) s.routing_states r found,
        )
      ]
