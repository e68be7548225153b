-- ===== src/Queue/Cursor.antt =====
-- The cursor of a batch of src/hub/queue.rs, echoed by the client, and the bound on a slot.
use ilink_hub.Base.{
  ℕ, suc, ◌+◌, ◌-◌, ◌<◌, ◌≤◌, ◌^◌, ◌≡◌, sym, refl, ap, min, List, [], ◌∷◌, Option, none, some,
  length, drop, drop-drop, length-drop, length-append, arith,
}
use ilink_hub.Message.{WeixinMessage}
use ilink_hub.Queue.{Slot, stamp, poll, retire}
use ilink_hub.Queue.Log.{
  Log, Call, pushes, polls, log_push, log_poll, log_step, log_run, slot_step, slot_run,
  retired_after, cursor_after,
}
use ilink_hub.Queue.Refinement.{Represents, poll-Represents}
use ilink_hub.Queue.Delivery.{slot_run-Represents}

module _ {J : Type 0} where
  unfoldable pub push_calls : List (WeixinMessage J) → List (Call J)
  push_calls [] = []
  push_calls (m ∷ ms) = pushes m ∷ push_calls ms

  length-push_calls : (ms : List (WeixinMessage J)) → length (push_calls ms) ≡ length ms
  unfolding push_calls
  length-push_calls [] = refl
  length-push_calls (m ∷ ms) = ap suc (length-push_calls ms)

  log_run-pushes :
      (ms : List (WeixinMessage J)) (l : Log J)
      → ((log_run l (push_calls ms)).0.retired ≡ l.retired)
        × (length l.accepted ≤ length (log_run l (push_calls ms)).0.accepted)
  unfolding log_run log_step log_push push_calls
  log_run-pushes [] l = (refl, omega arith)
  log_run-pushes (m ∷ ms) l =
      let h = log_run-pushes ms (log_push l m).0 in
      ground (arith, h, length-append l.accepted (stamp (suc (length l.accepted)) m ∷ []))

  -- Echoing the cursor of a polled log drops that batch and nothing else.
  echo-drop :
      (l : Log J) (ack : Option ℕ) (later : Log J)
      → l.retired ≤ length l.accepted
      → later.retired ≡ retired_after l ack
      → length l.accepted ≤ length later.accepted
      → retired_after later (some (cursor_after l ack))
        ≡ later.retired + length (drop (retired_after l ack) l.accepted)
  echo-drop l none later h e g = rw (length-drop l.retired l.accepted) (omega arith)
  echo-drop l (some a) later h e g =
      rw (length-drop (retired_after l (some a)) l.accepted) (ground arith)

  -- A client that polls a slot that represents a log, and polls again with the cursor of the batch
  -- that it received, gets exactly the messages that follow that batch in the slot, whatever was
  -- pushed in between, while fewer than 2^63 messages are accepted and pushed.
  pub poll-echo :
      (s : Slot J) (l : Log J) (ack : Option ℕ) (ms : List (WeixinMessage J))
      → Represents s l
      → length l.accepted + length ms < 2 ^ 63
      → let first = poll s ack in
        let later = (slot_run first.0 (push_calls ms)).0 in
        (poll later (some first.1.cursor)).1.msgs ≡ drop (length first.1.msgs) later.messages
  unfolding log_poll
  poll-echo s l ack ms r room =
      let (r1, e1) = poll-Represents s l ack r in
      let l1 : Log J = (log_poll l ack).0 in
      let (r2, _) =
        slot_run-Represents (push_calls ms) (poll s ack).0 l1 r1
          (omega (arith, length-push_calls ms)) in
      let l2 : Log J = (log_run l1 (push_calls ms)).0 in
      let (same, more) = log_run-pushes ms l1 in
      let echo = echo-drop l ack l2 r.within same more in
      let second = poll-Represents _ l2 (some (cursor_after l ack)) r2 in
      rw (e1, ap (λ b. b.msgs) second.1, r2.pending, echo)
        (sym (drop-drop (length (drop (retired_after l ack) l.accepted)) l2.retired l2.accepted))

  pub length-retire-le : (w : ℕ) (ms : List (WeixinMessage J)) → length (retire w ms) ≤ length ms
  unfolding retire
  length-retire-le w [] = omega arith
  length-retire-le w (m ∷ ms) = ground (arith, length-retire-le w ms)

  slot_step-bounded :
      (s : Slot J) (c : Call J)
      → length s.messages ≤ s.max_queue_size
      → (length (slot_step s c).0.messages ≤ (slot_step s c).0.max_queue_size)
        × ((slot_step s c).0.max_queue_size ≡ s.max_queue_size)
  unfolding slot_step
  slot_step-bounded s (pushes m) h =
      ground (arith, length-append s.messages (stamp s.next_seq m ∷ []))
  slot_step-bounded s (polls none) h = (h, refl)
  slot_step-bounded s (polls (some a)) h =
      (omega (arith, length-retire-le (min a (s.next_seq - 1)) s.messages), refl)

  -- No sequence of pushes and polls makes a slot that is within its limit exceed it.
  pub slot_run-bounded :
      (cs : List (Call J)) (s : Slot J)
      → length s.messages ≤ s.max_queue_size
      → length (slot_run s cs).0.messages ≤ s.max_queue_size
  unfolding slot_run
  slot_run-bounded [] s h = h
  slot_run-bounded (c ∷ cs) s h =
      let (h', same) = slot_step-bounded s c h in
      omega (arith, slot_run-bounded cs (slot_step s c).0 h')
