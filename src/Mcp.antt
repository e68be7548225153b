-- ===== src/Mcp.antt =====
-- src/mcp/: calls from one agent to another. `waiter.rs`: a call waits on a channel for its reply.
-- The channel is the sender in `pending` and the receiver in `receivers`, which holds the reply
-- once it is sent. A call id is a fresh UUID.
mod Waiter
mod Grant
mod Release
mod Restore
mod Examples
pub mod Call
mod Depth
mod Chain
mod Begin
use ilink_hub.Base.{Text, List, [], ◌∷◌, Bool, true, false, Option, none, some, if◌then◌else◌}
use ilink_hub.Base.Map.{Map, lookup, insert, remove, contains_key}

pub record A2aWaiter : Type 0 where
  pub pending : Map (Unit {0})
  pub receivers : Map (Option Text)

abbrev pub new_waiter : A2aWaiter
new_waiter = record { pending = []; receivers = [] }

unfoldable pub register : Text → A2aWaiter → A2aWaiter
register call_id w = record {
  pending = insert call_id tt w.pending;
  receivers = insert call_id none w.receivers;
}

-- `tx.send(reply).is_ok()`: it fails where the receiver is gone.
unfoldable pub send : Text → Text → A2aWaiter → A2aWaiter × Bool
send call_id reply w =
    if contains_key call_id w.receivers
    then (record w { receivers = insert call_id (some reply) w.receivers }, true)
    else (w, false)

unfoldable pub resolve : Text → Text → A2aWaiter → A2aWaiter × Bool
resolve call_id reply w =
    if contains_key call_id w.pending
    then send call_id reply (record w { pending = remove call_id w.pending })
    else (w, false)

unfoldable pub cancel : Text → A2aWaiter → A2aWaiter
cancel call_id w = record w { pending = remove call_id w.pending }

-- The receiver is dropped, as when the wait is over.
unfoldable pub drop_receiver : Text → A2aWaiter → A2aWaiter
drop_receiver call_id w = record w { receivers = remove call_id w.receivers }

-- What the receiver sees: the reply, nothing yet, or a closed channel.
pub data Received : Type 0 where
  reply : Text → Received
  waiting : Received
  closed : Received

unfoldable pub received : Text → A2aWaiter → Received
received call_id w = elim (lookup call_id w.receivers) [
  | some (some text) ↦ reply text
  | some none ↦ if contains_key call_id w.pending then waiting else closed
  | none ↦ closed
]
