-- ===== src/Mcp/Examples.antt =====
-- The theorems on calls of agents at concrete inputs.
use ilink_hub.Base.{
  ℕ, ◌<◌, Text, codes, [], ◌∷◌, true, false, ◌||◌, none, some, ◌≡◌, refl, if◌then◌else◌, ltb,
  is_some, text_eq, arith,
}
use ilink_hub.Base.Rows.{any, find, upsert}
use ilink_hub.Base.Map.{lookup}
use ilink_hub.Base.Order.{contains}
use ilink_hub.Store.{Store, ActiveSession, grant_expires_at, backend_pair, active_key, by_vctx}
use ilink_hub.Store.Sessions.{
  ActiveCtxInfo, get_active_ctx_for_vtoken, get_active_session_row, get_backend_session,
  set_active_session_with_depth,
}
use ilink_hub.Store.Context.{vtoken_owns_vctx}
use ilink_hub.Registry.{ClientInfo, get_by_alias_in, get_by_name, get_by_vtoken}
use ilink_hub.Acl.{allows_a2a, grants}
use ilink_hub.Hub.{HubState, push_to_queue}
use ilink_hub.Mcp.{new_waiter, register, resolve, received, reply, waiting}
use ilink_hub.Mcp.Waiter.{registered, resolved, cancelled, run, ignores, spares, register-resolve}
use ilink_hub.Mcp.Grant.{
  no_fails, lend, grant_key, target_depth, prev_active, pre_sessions, release_a2a_grant,
  max_a2a_depth,
}
use ilink_hub.Mcp.Release.{release_a2a_grant-get_backend_session}
use ilink_hub.Mcp.Restore.{
  Single, unless_named, release_a2a_grant-get_active_session_row,
  release_a2a_grant-vtoken_owns_vctx,
}
use ilink_hub.Mcp.Call.{
  CallAgentParams, CallAgentContext, PendingCall, BeginFails, begun, Notice, speaker_of,
  mention_notice, build_hub_ext_for_a2a, build_synthetic_message, begin_call, begin_allowed,
  handle_call_agent,
}
use ilink_hub.Mcp.Begin.{handle_call_agent-begun}

abbrev id : Text
id = codes "c1"

register-resolve_example :
    ((resolve id (codes "yes") (run (registered (codes "c2") ∷ []) (register id new_waiter))).1
      ≡ true)
    × (received id (
          run
            (resolved id (codes "no") ∷ cancelled id ∷ [])
            (resolve id
              (codes "yes")
              (run (registered (codes "c2") ∷ []) (register id new_waiter))).0)
        ≡ reply (codes "yes"))
unfolding ignores spares text_eq
register-resolve_example =
    register-resolve id (codes "yes") (registered (codes "c2") ∷ [])
      (resolved id (codes "no") ∷ cancelled id ∷ []) new_waiter refl refl

abbrev context : Text
context = codes "vctx_1"

abbrev target : Text
target = codes "hash-b"

abbrev key : Text
key = codes "a2a-c1"

abbrev own_row : ActiveSession
own_row = record {
  vctx = context;
  vtoken = target;
  session_name = key;
  a2a_depth = 1;
  expires_at = 90;
  updated_at = 30;
}

abbrev old_row : ActiveSession
old_row = record {
  vctx = context;
  vtoken = target;
  session_name = codes "default";
  a2a_depth = 0;
  expires_at = 20;
  updated_at = 10;
}

-- Before the call the grant had expired at 20.
abbrev before : Store
before = record {
  active_sessions = old_row ∷ [];
  backend_sessions = [];
  context_tokens =
      record { vctx = context; real_ctx = codes "real"; peer_user_id = codes "peer:anna" } ∷ [];
  routing_states = [];
  clients = [];
  grant_ttl_secs = 60;
}

-- During the call the target stored a session.
abbrev during : Store
during = record before {
  active_sessions = own_row ∷ [];
  backend_sessions =
      record {
        vctx = context;
        vtoken = target;
        session_name = codes "mine";
        backend_session_id = codes "x";
        last_usage_json = none;
      }
      ∷ [];
}

release_a2a_grant-get_backend_session_example :
    get_backend_session context target (codes "mine") (
      release_a2a_grant no_fails 40 40 context target key
        (prev_active false context target before)
        (pre_sessions false context target before)
        during)
    ≡ (if is_some (get_backend_session context target (codes "mine") before)
        then get_backend_session context target (codes "mine") during
        else none)
release_a2a_grant-get_backend_session_example =
    release_a2a_grant-get_backend_session 40 40 context target key (codes "mine") before during

during-Single : Single context target during.active_sessions
unfolding any
during-Single = (λ e. refl, tt)

release_a2a_grant-get_active_session_row_example :
    get_active_session_row context target (
      release_a2a_grant no_fails 40 40 context target key
        (prev_active false context target before)
        none
        during)
    ≡ elim (get_active_session_row context target during) [
      | none ↦ get_active_session_row context target before
      | some row ↦
          if text_eq row.0 key then get_active_session_row context target before else some row
    ]
release_a2a_grant-get_active_session_row_example =
    release_a2a_grant-get_active_session_row 40 40 context target key none before during
      during-Single

own_only : unless_named key (find (active_key context target) during.active_sessions) ≡ none
unfolding find active_key text_eq
own_only = refl

had_row : get_active_session_row context target before ≡ some (codes "default", 0)
unfolding get_active_session_row find active_key text_eq
had_row = refl

still_short : 95 < grant_expires_at 40 during
unfolding grant_expires_at
still_short = omega arith

release_a2a_grant-vtoken_owns_vctx_example :
    vtoken_owns_vctx 95 context target (
      release_a2a_grant no_fails 40 40 context target key
        (prev_active false context target before)
        none
        during)
    ≡ true
release_a2a_grant-vtoken_owns_vctx_example =
    release_a2a_grant-vtoken_owns_vctx 95 40 40 context target key none before during during-Single
      own_only (codes "default", 0) had_row still_short

abbrev idle : Store
idle = record before { active_sessions = [] }

abbrev granted : Store
granted = set_active_session_with_depth 10 10 context target (codes "default") 0 idle

abbrev info : ActiveCtxInfo
info = record {
  vctx = context;
  real_ctx = codes "real";
  peer_user_id = codes "peer:anna";
  a2a_depth = 0;
}

abbrev agent : Text → Text → ClientInfo
agent name vtoken = record {
  name = name;
  vtoken = vtoken;
  label = none;
  description = none;
  registered_at = 0;
  online = true;
  persona_name = none;
  persona_emoji = none;
}

abbrev agent_a : ClientInfo
agent_a = agent (codes "a") target

abbrev agent_b : ClientInfo
agent_b = agent (codes "b") (codes "hash-c")

-- Agent a serves the conversation and may call agent b.
abbrev hub : HubState ℕ
hub = record {
  registry = record {
    by_vtoken = (target, agent_a) ∷ (codes "hash-c", agent_b) ∷ [];
    by_name = (codes "a", target) ∷ (codes "b", codes "hash-c") ∷ [];
  };
  store = granted;
  queue = record { slots = []; max_queue_size = 200 };
  a2a_waiter = new_waiter;
  a2a_acl = record {
    a2a = (codes "a", codes "b" ∷ []) ∷ [];
    wechat_users = [];
    wechat_public = [];
    spec_present = true;
  };
  metrics = record {
    sendmessage_total = 0;
    sendmessage_errors = 0;
    messages_dispatched = 0;
    messages_dropped = 0;
  };
}

abbrev params : CallAgentParams
params = record { target_name = codes "b"; message = codes "hi"; session = none }

abbrev no_begin_fails : BeginFails
no_begin_fails = record { row = false; list = false; lend = false; extension = false }

abbrev ctx : CallAgentContext
ctx = record {
  caller_vtoken = target;
  vctx = context;
  real_ctx = codes "real";
  peer_user_id = codes "peer:anna";
  a2a_depth = 0;
}

abbrev lent : Store
lent = lend false 15 15 context (codes "hash-c") (grant_key id) (target_depth 0) granted

abbrev hub_called : HubState ℕ
hub_called =
    push_to_queue (codes "hash-c")
      (build_synthetic_message 0 context (codes "peer:anna") (codes "hi") (
        build_hub_ext_for_a2a false context (codes "hash-c") (grant_key id) id (target_depth 0)
          lent))
      (record hub { store = lent; a2a_waiter = register id new_waiter })

abbrev call : PendingCall
call = record {
  call_id = id;
  target_vtoken = codes "hash-c";
  target = speaker_of (some agent_b);
  caller = speaker_of (some agent_a);
  reply_session = grant_key id;
  prev_active = prev_active false context (codes "hash-c") granted;
  pre_sessions = pre_sessions false context (codes "hash-c") granted;
}

abbrev notice : Notice
notice = mention_notice ctx (speaker_of (some agent_a)) (speaker_of (some agent_b)) (codes "hi")

a_calls_b :
    handle_call_agent 0 none false no_begin_fails id 15 15 target params hub
    ≡ begun hub_called call notice
unfolding handle_call_agent begin_call begin_allowed get_active_ctx_for_vtoken
    set_active_session_with_depth grant_expires_at find by_vctx text_eq any upsert active_key
    get_by_alias_in get_by_name get_by_vtoken lookup allows_a2a grants contains
a_calls_b = refl

handle_call_agent-begun_example :
    (info : ActiveCtxInfo) × (get_active_ctx_for_vtoken 15 target hub.store ≡ some info)
    × (info.a2a_depth < max_a2a_depth)
    × (b : ClientInfo) × (get_by_alias_in (codes "b") none hub.registry ≡ some b)
    × (call.target_vtoken ≡ b.vtoken)
    × (call.target ≡ speaker_of (some b))
    × (call.caller ≡ speaker_of (get_by_vtoken target hub.registry))
    × (allows_a2a hub.a2a_acl (speaker_of (get_by_vtoken target hub.registry)).name b.name ≡ true)
    × (vtoken_owns_vctx 20 info.vctx b.vtoken hub_called.store ≡ (
        if no_begin_fails.lend
        then vtoken_owns_vctx 20 info.vctx b.vtoken hub.store
        else (ltb 20 (grant_expires_at 15 hub.store)
            || any (backend_pair info.vctx b.vtoken) hub.store.backend_sessions)))
    × (received id hub_called.a2a_waiter ≡ waiting)
handle_call_agent-begun_example =
    handle_call_agent-begun 0 none false no_begin_fails id 15 15 20 target params hub hub_called
      call notice a_calls_b
