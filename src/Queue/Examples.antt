-- ===== src/Queue/Examples.antt =====
-- The queue of src/hub/queue.rs at concrete messages.
use ilink_hub.Base.{
  ℕ, ◌≡◌, refl, codes, List, [], ◌∷◌, none, some, true, false, arith, length, drop, get_elem?,
}
use ilink_hub.Base.Int.{pos}
use ilink_hub.Message.{WeixinMessage, default_message}
use ilink_hub.Queue.{InMemoryQueue, new_slot, stamp, push, poll, retire, last_seq}
use ilink_hub.Queue.Log.{Call, pushes, polls, rejected, batch, empty, slot_step, slot_run, log_run}
use ilink_hub.Queue.Refinement.{new_slot-Represents}
use ilink_hub.Queue.Delivery.{slot_run-log_run, push-redelivered}
use ilink_hub.Queue.Cursor.{push_calls, poll-echo}

abbrev J : Type 0
J = Unit {0}

abbrev message : ℕ → WeixinMessage J
message n = record default_message { message_id = some (pos n) }

-- Two pushes fill the slot, the third is refused; a forged cursor retires both.
abbrev calls : List (Call J)
calls =
    pushes (message 10)
    ∷ pushes (message 11)
    ∷ pushes (message 12)
    ∷ polls none
    ∷ polls (some 99)
    ∷ pushes (message 13)
    ∷ polls (some 1)
    ∷ []

calls_replies :
    (slot_run (new_slot 2) calls).1
    ≡ rejected false
      ∷ rejected false
      ∷ rejected true
      ∷ batch (record { msgs = stamp 1 (message 10) ∷ stamp 2 (message 11) ∷ []; cursor = 2 })
      ∷ batch (record { msgs = []; cursor = 2 })
      ∷ rejected false
      ∷ batch (record { msgs = stamp 3 (message 13) ∷ []; cursor = 3 })
      ∷ []
unfolding slot_run slot_step new_slot retire last_seq
calls_replies = refl

slot_run-log_run_example : (slot_run (new_slot 2) calls).1 ≡ (log_run (empty {J = J} 2) calls).1
slot_run-log_run_example = slot_run-log_run 2 calls (omega arith)

push-redelivered_example :
    (k : ℕ) × (get_elem?
        (poll (slot_run (push (new_slot 2) (message 10)).0 (polls (some 0) ∷ [])).0 none).1.msgs
        k
      ≡ some (stamp 1 (message 10)))
unfolding new_slot empty push
push-redelivered_example =
    push-redelivered (new_slot 2) (empty 2) (message 10) (polls (some 0) ∷ [])
      (new_slot-Represents 2) refl (omega arith) (omega arith)

poll-echo_example :
    (poll
      (slot_run (poll (new_slot 2) (some 7)).0 (push_calls (message 10 ∷ message 11 ∷ []))).0
      (some (poll {J = J} (new_slot 2) (some 7)).1.cursor)).1.msgs
    ≡ drop
        (length (poll {J = J} (new_slot 2) (some 7)).1.msgs)
        (slot_run
          (poll (new_slot 2) (some 7)).0
          (push_calls (message 10 ∷ message 11 ∷ []))).0.messages
unfolding empty
poll-echo_example =
    poll-echo (new_slot 2) (empty 2) (some 7) (message 10 ∷ message 11 ∷ []) (new_slot-Represents 2)
      (omega arith)

abbrev two_tokens : InMemoryQueue J
two_tokens = record {
  slots = (codes "v1", new_slot 2) ∷ (codes "v2", new_slot 2) ∷ [];
  max_queue_size = 2;
}
