-- ===== src/Store/Examples.antt =====
-- The theorems on stores at concrete inputs.
use mathlib.Core.Option
use ilink_hub.Base.{
  Text, codes, [], ◌∷◌, true, false, ◌||◌, ◌⊎◌, none, some, ◌≡◌, refl, if◌then◌else◌, ltb, get_or,
  is_empty, text_eq,
}
use ilink_hub.Base.Rows.{any, find, update, upsert}
use ilink_hub.Store.{Store, ActiveSession, ClientRow, backend_pair, by_vctx, grant_expires_at}
use ilink_hub.Store.Sessions.{
  ActiveCtxInfo, get_active_ctx_for_vtoken, set_active_session_with_depth,
  revoke_authorizations_for_vtoken,
}
use ilink_hub.Store.Context.{
  sqlite, my_sql, by_peer, conv_key, peer_key, find_or_create_vctx, upsert_context, set_real_ctx,
  find_vctx_for_scope, resolve_context_token_full, resolve_send_context, vtoken_owns_vctx,
}
use ilink_hub.Store.Clients.{by_name, get_route, upsert_client, move_routes, holder, is_held}
use ilink_hub.Store.Grants.{
  revoke_authorizations-resolve_send_context, set_active_session_with_depth-vtoken_owns_vctx,
  get_active_ctx_for_vtoken-resolve_send_context,
}
use ilink_hub.Store.Distinct.{Distinct}
use ilink_hub.Store.Conversations.{find_or_create_vctx_lem, find_or_create_vctx-stable}
use ilink_hub.Store.Routes.{upsert_client-get_route, moved}

abbrev anna : Text
anna = codes "anna"

abbrev context : Text
context = codes "vctx_1"

abbrev real : Text
real = codes "real"

abbrev claude : Text
claude = codes "hash-claude"

abbrev fresh_token : Text
fresh_token = codes "hash-new"

abbrev grant : ActiveSession
grant = record {
  vctx = context;
  vtoken = claude;
  session_name = codes "default";
  a2a_depth = 0;
  expires_at = 100;
  updated_at = 10;
}

abbrev client : ClientRow
client = record {
  vtoken = claude;
  name = codes "claude";
  label = none;
  last_seen = none;
  persona_name = none;
  persona_emoji = none;
  description = none;
}

abbrev shop : Store
shop = record {
  active_sessions = grant ∷ [];
  backend_sessions = [];
  context_tokens =
      record { vctx = context; real_ctx = real; peer_user_id = codes "peer:anna" } ∷ [];
  routing_states = record { from_user = anna; active_vtoken = claude } ∷ [];
  clients = client ∷ [];
  grant_ttl_secs = 60;
}

revoke_authorizations-resolve_send_context_example :
    resolve_send_context 50 context claude (revoke_authorizations_for_vtoken claude shop)
    ≡ (if text_eq claude claude then none else resolve_send_context 50 context claude shop)
revoke_authorizations-resolve_send_context_example =
    revoke_authorizations-resolve_send_context 50 context claude claude shop

set_active_session_with_depth-vtoken_owns_vctx_example :
    vtoken_owns_vctx 70 context fresh_token
      (set_active_session_with_depth 50 50 context fresh_token (codes "default") 0 shop)
    ≡ (ltb 70 (grant_expires_at 50 shop)
        || any (backend_pair context fresh_token) shop.backend_sessions)
set_active_session_with_depth-vtoken_owns_vctx_example =
    set_active_session_with_depth-vtoken_owns_vctx 70 50 50 context fresh_token (codes "default") 0
      shop

abbrev found : ActiveCtxInfo
found = record { vctx = context; real_ctx = real; peer_user_id = codes "peer:anna"; a2a_depth = 0 }

shop-found : get_active_ctx_for_vtoken 50 claude shop ≡ some found
unfolding get_active_ctx_for_vtoken find by_vctx text_eq
shop-found = refl

get_active_ctx_for_vtoken-resolve_send_context_example :
    (name : Text) × (resolve_send_context 50 context claude shop
      ≡ some (real, codes "peer:anna", name))
get_active_ctx_for_vtoken-resolve_send_context_example =
    get_active_ctx_for_vtoken-resolve_send_context 50 claude shop found shop-found

shop-Distinct : Distinct shop.context_tokens
unfolding any
shop-Distinct = (refl, λ e. refl, tt)

candidate_fresh : any (by_vctx (codes "vctx_2")) shop.context_tokens ≡ false
unfolding any by_vctx text_eq
candidate_fresh = refl

find_or_create_vctx_lem_example :
    (s' : Store) × (v : Text) × (find_or_create_vctx my_sql false
        (codes "vctx_2")
        (codes "bob")
        none
        (codes "real2")
        shop
      ≡ some (s', v))
    × (v ≡ (
        if is_empty (conv_key (codes "bob") none)
        then codes "vctx_2"
        else get_or (find_vctx_for_scope (conv_key (codes "bob") none) shop) (codes "vctx_2")))
    × ((is_empty (conv_key (codes "bob") none) ≡ true)
        ⊎ (find_vctx_for_scope (conv_key (codes "bob") none) s' ≡ some v))
    × ((w : Text)
        → resolve_context_token_full w s' ≡ (
            if text_eq v w
            then some (codes "real2", conv_key (codes "bob") none)
            else resolve_context_token_full w shop))
    × Distinct s'.context_tokens
find_or_create_vctx_lem_example =
    find_or_create_vctx_lem my_sql false (codes "vctx_2") (codes "bob") none (codes "real2") shop
      shop-Distinct candidate_fresh

abbrev renewed : Store
renewed = record shop {
  context_tokens =
      record { vctx = context; real_ctx = codes "real2"; peer_user_id = codes "peer:anna" } ∷ [];
}

anna-renewed :
    find_or_create_vctx sqlite false (codes "vctx_2") anna none (codes "real2") shop
    ≡ some (renewed, context)
unfolding find_or_create_vctx upsert_context set_real_ctx conv_key peer_key by_peer find update
    text_eq is_empty
anna-renewed = refl

renewed_fresh : any (by_vctx (codes "vctx_3")) renewed.context_tokens ≡ false
unfolding any by_vctx text_eq
renewed_fresh = refl

anna_named : is_empty (conv_key anna none) ≡ false
unfolding conv_key peer_key is_empty
anna_named = refl

find_or_create_vctx-stable_example :
    (u : Store) × (find_or_create_vctx my_sql true
        (codes "vctx_3")
        anna
        none
        (codes "real3")
        renewed
      ≡ some (u, context))
    × (resolve_context_token_full context u ≡ some (codes "real3", conv_key anna none))
find_or_create_vctx-stable_example =
    find_or_create_vctx-stable sqlite my_sql false true (codes "vctx_2") (codes "vctx_3") anna none
      (codes "real2") (codes "real3") shop shop-Distinct candidate_fresh anna_named renewed context
      anna-renewed renewed_fresh

abbrev registered_anew : Store
registered_anew = record shop {
  routing_states =
      move_routes fresh_token (find (by_name (codes "claude")) shop.clients) shop.routing_states;
  clients = record client { vtoken = fresh_token; last_seen = some 20 } ∷ [];
}

claude_registered : upsert_client 20 fresh_token (codes "claude") none shop ≡ some registered_anew
unfolding upsert_client holder is_held upsert any find update by_name text_eq
claude_registered = refl

upsert_client-get_route_example :
    (holder fresh_token (codes "claude") shop ≡ none)
    × (get_route anna registered_anew
        ≡ Option.map
            (moved (find (by_name (codes "claude")) shop.clients) fresh_token)
            (get_route anna shop))
upsert_client-get_route_example =
    upsert_client-get_route 20 fresh_token (codes "claude") anna none shop registered_anew
      claude_registered
