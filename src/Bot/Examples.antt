-- ===== src/Bot/Examples.antt =====
-- The theorems on `sendmessage` at concrete inputs.
use ilink_hub.Base.{
  ℕ, Text, codes, List, [], ◌∷◌, ◌++◌, true, false, Option, none, some, ◌≡◌, ◌≢◌, refl, get_or,
  is_some, is_empty, text_eq,
}
use ilink_hub.Base.Int.{pos}
use ilink_hub.Base.Map.{lookup}
use ilink_hub.Message.{WeixinMessage, default_message}
use ilink_hub.Outbound.{default_item}
use ilink_hub.Registry.{ClientInfo}
use ilink_hub.Store.{Store}
use ilink_hub.Acl.{no_acl}
use ilink_hub.Mcp.{new_waiter}
use ilink_hub.Hub.{HubState, Metrics}
use ilink_hub.Base.Rows.{any, find}
use ilink_hub.Base.Strings.{strip_prefix, trim, trim_start, trim_end, is_whitespace}
use ilink_hub.Bot.Auth.{is_valid_vtoken}
use ilink_hub.Base.Utf8.{as_bytes}
use ilink_hub.VtokenHash.{all_hex, hash_vtoken, hex_lower}
use ilink_hub.Bot.Send.{
  send_checked, count_request, send_as, deliver, history, outbound, read_extension, reply_session,
  with_label,
}
use ilink_hub.Store.Context.{resolve_send_context, owns, live_key}
use ilink_hub.Store.{active_key}
use ilink_hub.Message.{find_map, text}
use ilink_hub.Outbound.{ensure_outbound, has_media_content, new_client_id, new_outbound_msg_id}
use ilink_hub.OriginLabel.{should_append_outbound_origin_label}
use ilink_hub.Registry.{online_clients}
use ilink_hub.Store.{by_vctx}
use ilink_hub.Store.Context.{
  sqlite, find_or_create_vctx, upsert_context, insert_context, conv_key, peer_key, by_peer,
  vtoken_owns_vctx, resolve_context_token,
}
use ilink_hub.Registry.{get_by_vtoken}
use ilink_hub.Bot.Auth.{extract_vtoken}
use ilink_hub.Bot.Send.{World, SendError, sendmessage, sent, failed, Saved}
use ilink_hub.Bot.Access.{call_of}
use ilink_hub.Bot.Sending.{
  sendmessage-sent, revoked, revoke_authorizations-sendmessage, sendmessage-to_user_id,
}

-- A digest of 32 bytes that are all 1.
abbrev pub digest : List ℕ → List ℕ
digest bytes =
    1 ∷ 1 ∷ 1 ∷ 1 ∷ 1 ∷ 1 ∷ 1 ∷ 1 ∷ 1 ∷ 1 ∷ 1 ∷ 1 ∷ 1 ∷ 1 ∷ 1 ∷ 1 ∷ 1 ∷ 1 ∷ 1 ∷ 1 ∷ 1 ∷ 1 ∷ 1 ∷ 1
    ∷ 1 ∷ 1 ∷ 1 ∷ 1 ∷ 1 ∷ 1 ∷ 1 ∷ 1 ∷ []

abbrev pub hash : Text
hash = codes "0101010101010101010101010101010101010101010101010101010101010101"

abbrev pub header : Text
header = codes "Bearer vhub_0123456789abcdef0123456789abcdef"

abbrev context : Text
context = codes "vctx_1"

abbrev pub claude : ClientInfo
claude = record {
  name = codes "claude";
  vtoken = hash;
  label = none;
  description = none;
  registered_at = 0;
  online = true;
  persona_name = none;
  persona_emoji = none;
}

abbrev shop : Store
shop = record {
  active_sessions =
      record {
        vctx = context;
        vtoken = hash;
        session_name = codes "default";
        a2a_depth = 0;
        expires_at = 100;
        updated_at = 10;
      }
      ∷ [];
  backend_sessions = [];
  context_tokens =
      record { vctx = context; real_ctx = codes "real"; peer_user_id = codes "peer:anna" } ∷ [];
  routing_states = [];
  clients = [];
  grant_ttl_secs = 60;
}

abbrev pub hub : HubState ℕ
hub = record {
  registry = record { by_vtoken = (hash, claude) ∷ []; by_name = (codes "claude", hash) ∷ [] };
  store = shop;
  queue = record { slots = []; max_queue_size = 200 };
  a2a_waiter = new_waiter;
  a2a_acl = no_acl;
  metrics = record {
    sendmessage_total = 0;
    sendmessage_errors = 0;
    messages_dispatched = 0;
    messages_dropped = 0;
  };
}

abbrev pub world : World ℕ
world = record {
  denied = none;
  now = 50;
  fails_resolve = false;
  fails_session = false;
  fails_usage = false;
  draws = record { uuid = codes "u"; millis = 1; counter = 1 };
  origin_label = none;
  to_json = λ n. none;
}

abbrev pub message : WeixinMessage ℕ
message = record default_message {
  context_token = some context;
  item_list = some (
      record (default_item 0) {
        item_type = some (pos 1);
        text_item = some (record { text = some (codes "hi") });
      }
      ∷ []);
}

abbrev pub counted : HubState ℕ
counted = record hub { metrics = record hub.metrics { sendmessage_total = 1 } }

abbrev pub out : WeixinMessage ℕ
out = record message {
  message_id = some (pos 1000001);
  from_user_id = some [];
  to_user_id = some (codes "peer:anna");
  client_id = some (codes "ilink-hub:u");
  message_type = some (pos 2);
  message_state = some (pos 2);
  context_token = some (codes "real");
}

abbrev pub saved : Saved
saved = record {
  vctx = context;
  vtoken = hash;
  session_name = codes "default";
  peer_user_id = codes "peer:anna";
  content = codes "hi";
  ilink_msg_id = some (pos 1000001);
}

pub hi_sent :
    sendmessage digest world (some header) (some message) hub ≡ (counted, sent out (some saved))
unfolding sendmessage extract_vtoken get_by_vtoken lookup text_eq is_empty find any by_vctx
    strip_prefix trim trim_start trim_end is_whitespace is_valid_vtoken as_bytes all_hex hash_vtoken
    hex_lower send_checked count_request send_as deliver history outbound read_extension
    reply_session with_label resolve_send_context owns live_key active_key find_map text
    ensure_outbound has_media_content new_client_id new_outbound_msg_id
    should_append_outbound_origin_label online_clients
hi_sent = refl

header-hash : extract_vtoken digest (some header) ≡ some hash
unfolding extract_vtoken strip_prefix is_valid_vtoken as_bytes all_hex hash_vtoken
header-hash = refl

sendmessage-sent_example :
    (vtoken : Text) × (m : WeixinMessage ℕ) × (extract_vtoken digest (some header) ≡ some vtoken)
    × (◌≡◌ {A = Option (WeixinMessage ℕ)} (some message) (some m))
    × (is_some (get_by_vtoken vtoken hub.registry) ≡ true)
    × (world.denied ≡ none)
    × (vtoken_owns_vctx world.now (get_or m.context_token []) vtoken hub.store ≡ true)
    × (resolve_context_token (get_or m.context_token []) hub.store ≡ out.context_token)
    × (out.ilink_hub_ext ≡ none)
    × (call_of m ≡ none)
sendmessage-sent_example =
    sendmessage-sent digest world (some header) (some message) hub counted out (some saved) hi_sent

revoke_authorizations-sendmessage_example :
    (error : SendError) × (m : Metrics) × (sendmessage digest world
        (some header)
        (some message)
        (revoked hash hub)
      ≡ (record (revoked hash hub) { metrics = m }, failed error))
revoke_authorizations-sendmessage_example =
    revoke_authorizations-sendmessage digest world (some header) (some message) hub hash header-hash

abbrev before : Store
before = record shop { context_tokens = [] }

anna_made :
    find_or_create_vctx sqlite false context (codes "anna") none (codes "real") before
    ≡ some (hub.store, context)
unfolding find_or_create_vctx upsert_context insert_context conv_key peer_key by_peer find any
    is_empty
anna_made = refl

nothing_there : any (by_vctx context) before.context_tokens ≡ false
unfolding any
nothing_there = refl

anna_full : is_empty (codes "anna") ≡ false
unfolding is_empty
anna_full = refl

sendmessage-to_user_id_example :
    (out.to_user_id ≡ some (codes "peer:" ++ codes "anna")) × (out.to_user_id ≢ some (codes "anna"))
sendmessage-to_user_id_example =
    sendmessage-to_user_id digest world (some header) message hub counted out (some saved) sqlite
      false context (codes "anna") (codes "real") context before tt nothing_there anna_full
      anna_made refl refl hi_sent
