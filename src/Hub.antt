-- ===== src/Hub.antt =====
-- src/hub/state.rs and src/hub/dispatch/: the parts of `HubState` that the handlers share, each
-- with its own model, and the helpers that build what a backend receives. `J` stands for
-- `serde_json::Value`.

use ilink_hub.Base.{ℕ, ◌+◌, Text, Bool, Option, none, some, if◌then◌else◌, is_empty}
use ilink_hub.Base.Strings.{trim}
use ilink_hub.Message.{WeixinMessage, HubExt}
use ilink_hub.Registry.{ClientRegistry}
use ilink_hub.Queue.{InMemoryQueue, queue_push}
use ilink_hub.Acl.{AgentAcl}
use ilink_hub.Store.{Store}
use ilink_hub.Store.Sessions.{get_backend_session, get_hub_ext_single, default_session}
use ilink_hub.Mcp.{A2aWaiter}

-- The counters of `Metrics` that the handlers change.
pub record Metrics : Type 0 where
  pub sendmessage_total : ℕ
  pub sendmessage_errors : ℕ
  pub messages_dispatched : ℕ
  pub messages_dropped : ℕ

pub record HubState (J : Type 0) : Type 0 where
  pub registry : ClientRegistry
  pub store : Store
  pub queue : InMemoryQueue J
  pub a2a_waiter : A2aWaiter
  pub a2a_acl : AgentAcl
  pub metrics : Metrics

abbrev trimmed_id : Option Text → Option Text
trimmed_id none = none
trimmed_id (some id) = if is_empty (trim id) then none else some (trim id)

module _ {J : Type 0} where
  -- The queue in memory does not fail.
  unfoldable pub push_to_queue : Text → WeixinMessage J → HubState J → HubState J
  push_to_queue vtoken msg h =
      let (q, rejected) = queue_push h.queue vtoken msg in
      record h {
        queue = q;
        metrics =
            if rejected
            then record h.metrics { messages_dropped = h.metrics.messages_dropped + 1 }
            else record h.metrics { messages_dispatched = h.metrics.messages_dispatched + 1 };
      }

  abbrev extension : Text → Option Text → HubExt J
  extension session_name session_id = record {
    session_id = session_id;
    session_name = some session_name;
    cli_session_id = none;
    a2a_call_id = none;
    a2a_depth = none;
    usage = none;
  }

  abbrev active_extension : Text × Option Text → HubExt J
  active_extension (name, id) = extension name id

  -- `fails` is an error or a timeout of the store.
  abbrev extension_of_active : Bool → Text → Text → Store → HubExt J
  extension_of_active fails vctx vtoken s =
      if fails
      then extension default_session none
      else active_extension (get_hub_ext_single vctx vtoken s)

  unfoldable pub build_hub_ext_for_vctx : Bool → Text → Text → Option Text → Store → HubExt J
  build_hub_ext_for_vctx fails vctx vtoken none s = extension_of_active fails vctx vtoken s
  build_hub_ext_for_vctx fails vctx vtoken (some name) s =
      if is_empty name
      then extension_of_active fails vctx vtoken s
      else extension name
          (if fails then none else trimmed_id (get_backend_session vctx vtoken name s))
