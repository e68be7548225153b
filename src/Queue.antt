-- ===== src/Queue.antt =====
-- src/hub/queue.rs: one slot of the in-memory queue, and the map of slots.
pub mod Numbering
pub mod Log
pub mod Refinement
pub mod Delivery
pub mod Cursor
pub mod Isolation
mod Examples
use ilink_hub.Base.{
  ℕ, zero, suc, ◌+◌, ◌-◌, ◌%◌, ◌^◌, min, Text, List, [], ◌∷◌, ◌++◌, map, Option, none, some, Bool,
  true, false, ltb, leb, if◌then◌else◌, length, last?, get_or,
}
use ilink_hub.Base.Int.{ℤ, pos, negsuc, as_i64}
use ilink_hub.Base.Map.{Map, lookup, insert, remove}
use ilink_hub.Message.{WeixinMessage, HubExt}

abbrev pub default_max_queue_size : ℕ
default_max_queue_size = 200

pub record PollBatch (J : Type 0) : Type 0 where
  pub msgs : List (WeixinMessage J)
  pub cursor : ℕ

-- `PerClientSlot` with its `SlotState`. `notified` counts the calls of `Notify::notify_one`.
pub record Slot (J : Type 0) : Type 0 where
  pub messages : List (WeixinMessage J)
  pub next_seq : ℕ
  pub notified : ℕ
  pub max_queue_size : ℕ

pub record InMemoryQueue (J : Type 0) : Type 0 where
  pub slots : Map (Slot J)
  pub max_queue_size : ℕ

-- `seq >= 0 && seq as u64 <= watermark`.
abbrev pub is_acked : ℕ → Option ℤ → Bool
is_acked watermark none = false
is_acked watermark (some (pos seq)) = leb seq watermark
is_acked watermark (some (negsuc n)) = false

-- `u64::try_from(seq).ok()`.
abbrev pub try_u64 : ℤ → Option ℕ
try_u64 (pos n) = some n
try_u64 (negsuc n) = none

abbrev pub or_else {ℓ} : {A : Type ℓ} → Option A → Option A → Option A
or_else none b = b
or_else (some a) b = some a

module _ {J : Type 0} where
  unfoldable pub new_slot : ℕ → Slot J
  new_slot max = record { messages = []; next_seq = 1; notified = 0; max_queue_size = max }

  abbrev pub stamp : ℕ → WeixinMessage J → WeixinMessage J
  stamp seq msg = record msg { seq = some (as_i64 seq) }

  -- `true` is the backpressure flag: the message was rejected.
  unfoldable pub push : Slot J → WeixinMessage J → Slot J × Bool
  push s msg = if leb s.max_queue_size (length s.messages) then (s, true) else (
    record s {
      messages = s.messages ++ stamp s.next_seq msg ∷ [];
      next_seq = (s.next_seq + 1) % 2 ^ 64;
      notified = s.notified + 1;
    },
    false,
  )

  -- The loop of `poll`: the acknowledged prefix is popped from the front.
  unfoldable pub retire : ℕ → List (WeixinMessage J) → List (WeixinMessage J)
  retire watermark [] = []
  retire watermark (m ∷ ms) = if is_acked watermark m.seq then retire watermark ms else m ∷ ms

  abbrev pub allocated_max : Slot J → ℕ
  allocated_max s = s.next_seq - 1

  abbrev pub watermark_of : Slot J → Option ℕ → Option ℕ
  watermark_of s none = none
  watermark_of s (some a) = some (min a (allocated_max s))

  abbrev pub pending_after : Slot J → Option ℕ → List (WeixinMessage J)
  pending_after s none = s.messages
  pending_after s (some watermark) = retire watermark s.messages

  unfoldable pub last_seq : List (WeixinMessage J) → Option ℕ
  last_seq ms = elim (last? ms) [
    | none ↦ none
    | some m ↦ elim m.seq [ none ↦ none | some z ↦ try_u64 z ]
  ]

  unfoldable pub poll : Slot J → Option ℕ → Slot J × PollBatch J
  unfolding last_seq
  poll s ack =
      let watermark = watermark_of s ack in
      let msgs = pending_after s watermark in
      (
        record s { messages = msgs },
        record {
          msgs = msgs;
          cursor = get_or (or_else (last_seq msgs) watermark) (allocated_max s);
        },
      )

  unfoldable pub len : Slot J → ℕ
  len s = length s.messages

module _ {J : Type 0} where
  unfoldable pub with_limit : ℕ → InMemoryQueue J
  with_limit max = record { slots = []; max_queue_size = max }

  -- `get_or_create`: the slot, and the map that holds it.
  unfoldable pub get_or_create : InMemoryQueue J → Text → Slot J × InMemoryQueue J
  get_or_create q vtoken = elim (lookup vtoken q.slots) [
    | none ↦
        let fresh = new_slot q.max_queue_size in
        (fresh, record q { slots = insert vtoken fresh q.slots })
    | some s ↦ (s, q)
  ]

  -- `MessageQueue::push`. The slot is shared, so its new state is written back to the map.
  unfoldable pub queue_push : InMemoryQueue J → Text → WeixinMessage J → InMemoryQueue J × Bool
  unfolding get_or_create
  queue_push q vtoken msg =
      let (s, q') = get_or_create q vtoken in
      let (s', rejected) = push s msg in (record q' { slots = insert vtoken s' q'.slots }, rejected)

  -- `MessageQueue::push_shared`.
  unfoldable pub queue_push_shared :
      InMemoryQueue J
      → Text
      → WeixinMessage J
      → Option Text
      → Option (HubExt J)
      → InMemoryQueue J × Bool
  unfolding queue_push
  queue_push_shared q vtoken base context_token hub_ext =
      queue_push q vtoken (record base { context_token = context_token; ilink_hub_ext = hub_ext })

  -- `MessageQueue::poll`: an unknown token makes no slot, and gets the default batch.
  unfoldable pub queue_poll : InMemoryQueue J → Text → Option ℕ → InMemoryQueue J × PollBatch J
  queue_poll q vtoken ack = elim (lookup vtoken q.slots) [
    | none ↦ (q, record { msgs = []; cursor = 0 })
    | some s ↦
        let (s', batch) = poll s ack in (record q { slots = insert vtoken s' q.slots }, batch)
  ]

  -- `MessageQueue::wait_notify` up to its wait; how the wait ends is not the queue's.
  unfoldable pub wait_notify : InMemoryQueue J → Text → InMemoryQueue J
  wait_notify q vtoken = (get_or_create q vtoken).1

  unfoldable pub remove_client : InMemoryQueue J → Text → InMemoryQueue J
  remove_client q vtoken = record q { slots = remove vtoken q.slots }

  unfoldable pub queue_sizes : InMemoryQueue J → Map ℕ
  queue_sizes q = map (λ e. (e.0, len e.1)) q.slots
