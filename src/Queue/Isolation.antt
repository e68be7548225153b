-- ===== src/Queue/Isolation.antt =====
-- The map of slots of src/hub/queue.rs is one independent slot for each token.
use ilink_hub.Base.{
  ℕ, ◌≡◌, refl, Text, text_eq, text_eq_iff, [], Option, none, some, if◌then◌else◌, get_or, arith,
}
use ilink_hub.Base.Map.{lookup, insert, lookup-insert, lookup-remove}
use ilink_hub.Message.{WeixinMessage}
use ilink_hub.Queue.{
  Slot, InMemoryQueue, new_slot, push, poll, get_or_create, queue_push, queue_poll, retire,
  last_seq, wait_notify, remove_client,
}

module _ {J : Type 0} where
  -- The slot of a token, or the empty slot that the first push makes.
  pub slot_of : InMemoryQueue J → Text → Slot J
  slot_of q v = get_or (lookup v q.slots) (new_slot q.max_queue_size)

  -- A push to `v` pushes to the slot of `v`, replies as that slot does, and leaves the slot of
  -- every other token.
  pub queue_push-slot_of :
      (q : InMemoryQueue J) (v w : Text) (m : WeixinMessage J)
      → (slot_of (queue_push q v m).0 w
          ≡ (if text_eq v w then (push (slot_of q v) m).0 else slot_of q w))
        × ((queue_push q v m).1 ≡ (push (slot_of q v) m).1)
  unfolding slot_of queue_push
  queue_push-slot_of q v w m = ground (
    arith,
    text_eq_iff v w,
    lookup-insert v w (push (slot_of q v) m).0 q.slots,
    lookup-insert v w (new_slot q.max_queue_size) q.slots,
    lookup-insert v w (push (slot_of q v) m).0 (insert v (new_slot q.max_queue_size) q.slots),
  )

  poll-new_slot :
      (n : ℕ) (ack : Option ℕ)
      → poll {J = J} (new_slot n) ack ≡ (new_slot n, record { msgs = []; cursor = 0 })
  unfolding poll new_slot retire last_seq
  poll-new_slot n none = refl
  poll-new_slot n (some a) = ground arith

  -- A poll of `v` polls the slot of `v`, replies as that slot does, and leaves the slot of every
  -- other token.
  pub queue_poll-slot_of :
      (q : InMemoryQueue J) (v w : Text) (ack : Option ℕ)
      → (slot_of (queue_poll q v ack).0 w
          ≡ (if text_eq v w then (poll (slot_of q v) ack).0 else slot_of q w))
        × ((queue_poll q v ack).1 ≡ (poll (slot_of q v) ack).1)
  unfolding slot_of queue_poll
  queue_poll-slot_of q v w ack = ground (
    arith,
    text_eq_iff v w,
    poll-new_slot q.max_queue_size ack,
    lookup-insert v w (poll (slot_of q v) ack).0 q.slots,
  )

  -- Waiting on a token changes no slot; removing a client empties its slot, which then hands out
  -- ids from 1 again, and leaves the others.
  pub remove_client-slot_of :
      (q : InMemoryQueue J) (v w : Text)
      → (slot_of (wait_notify q v) w ≡ slot_of q w)
        × (slot_of (remove_client q v) w
            ≡ (if text_eq v w then new_slot q.max_queue_size else slot_of q w))
  unfolding slot_of wait_notify get_or_create remove_client
  remove_client-slot_of q v w = ground (
    arith,
    text_eq_iff v w,
    lookup-insert v w (new_slot q.max_queue_size) q.slots,
    lookup-remove v w q.slots,
  )
