-- ===== src/Queue/Delivery.antt =====
-- At-least-once delivery of a slot of src/hub/queue.rs, over any sequence of calls.
use ilink_hub.Base.{
  ℕ, suc, ◌+◌, ◌-◌, ◌<◌, ◌≤◌, ◌^◌, ◌≡◌, ◌∙◌, sym, refl, ap, List, [], ◌∷◌, none, some, false,
  length, length-append, arith, get_elem?, get_elem?-drop, get_elem?-append, get_elem?-last, All,
}
use ilink_hub.Message.{WeixinMessage}
use ilink_hub.Queue.{Slot, new_slot, stamp, push, poll}
use ilink_hub.Queue.Log.{
  Log, Call, pushes, polls, rejected, batch, empty, log_push, log_poll, log_step, slot_step,
  log_run, slot_run,
}
use ilink_hub.Queue.Refinement.{Represents, new_slot-Represents, push-Represents, poll-Represents}

module _ {J : Type 0} where
  -- Every call appends one message at most, and changes none.
  abbrev Extends : Log J → Log J → Type 0
  Extends l l' = (i : ℕ) → i < length l.accepted → get_elem? l'.accepted i ≡ get_elem? l.accepted i

  log_step-grows :
      (l : Log J) (c : Call J)
      → (length (log_step l c).0.accepted ≤ length l.accepted + 1)
        × (length l.accepted ≤ length (log_step l c).0.accepted)
  unfolding log_step
  log_step-grows l (pushes m) =
      ground (arith, length-append l.accepted (stamp (suc (length l.accepted)) m ∷ []))
  log_step-grows l (polls ack) = (omega arith, omega arith)

  log_step-Extends : (l : Log J) (c : Call J) → Extends l (log_step l c).0
  unfolding log_step
  log_step-Extends l (pushes m) i lt =
      ground (arith, get_elem?-append i l.accepted (stamp (suc (length l.accepted)) m ∷ []))
  log_step-Extends l (polls ack) i lt = refl

  slot_step-Represents :
      (s : Slot J) (l : Log J) (c : Call J)
      → Represents s l
      → length l.accepted + 1 < 2 ^ 63
      → Represents (slot_step s c).0 (log_step l c).0 × ((slot_step s c).1 ≡ (log_step l c).1)
  unfolding slot_step log_step
  slot_step-Represents s l (pushes m) r room =
      let h = push-Represents s l m r room in (h.0, ap rejected h.1)
  slot_step-Represents s l (polls ack) r room =
      let h = poll-Represents s l ack r in (h.0, ap batch h.1)

  pub slot_run-Represents :
      (cs : List (Call J)) (s : Slot J) (l : Log J)
      → Represents s l
      → length l.accepted + length cs < 2 ^ 63
      → Represents (slot_run s cs).0 (log_run l cs).0 × ((slot_run s cs).1 ≡ (log_run l cs).1)
  unfolding slot_run log_run
  slot_run-Represents [] s l r room = (r, refl)
  slot_run-Represents (c ∷ cs) s l r room =
      let (r', e) = slot_step-Represents s l c r (omega arith) in
      let (r'', e') =
        slot_run-Represents cs (slot_step s c).0 (log_step l c).0 r'
          (omega (arith, log_step-grows l c)) in
      (r'', rw (e, e'))

  -- The replies of a fresh slot to any sequence of fewer than 2^63 pushes and polls are those of
  -- the delivery log: a push is refused exactly when the unretired messages fill the limit, and
  -- a poll returns every accepted message above the highest clamped cursor seen, in order, with
  -- its cursor.
  pub slot_run-log_run :
      (limit : ℕ) (cs : List (Call J))
      → length cs < 2 ^ 63
      → (slot_run (new_slot limit) cs).1 ≡ (log_run (empty limit) cs).1
  unfolding empty
  slot_run-log_run limit cs room =
      (slot_run-Represents cs (new_slot limit) (empty limit) (new_slot-Represents limit)
        (omega arith)).1

  -- No poll among the calls acknowledges the id.
  abbrev pub Unacked : ℕ → Call J → Type 0
  Unacked id (pushes m) = Unit {0}
  Unacked id (polls none) = Unit {0}
  Unacked id (polls (some ack)) = ack < id

  log_step-retired :
      (l : Log J) (i : ℕ) (c : Call J)
      → Unacked (suc i) c
      → l.retired ≤ i
      → (log_step l c).0.retired ≤ i
  unfolding log_step
  log_step-retired l i (pushes m) u h = ground arith
  log_step-retired l i (polls none) u h = h
  log_step-retired l i (polls (some ack)) u h = omega arith

  log_run-keeps :
      (cs : List (Call J)) (l : Log J) (i : ℕ) (m : WeixinMessage J)
      → All (Unacked (suc i)) cs
      → i < length l.accepted
      → get_elem? l.accepted i ≡ some m
      → l.retired ≤ i
      → (get_elem? (log_run l cs).0.accepted i ≡ some m) × ((log_run l cs).0.retired ≤ i)
  unfolding log_run
  log_run-keeps [] l i m u lt e h = (e, h)
  log_run-keeps (c ∷ cs) l i m u lt e h =
      log_run-keeps cs (log_step l c).0 i m u.1 (omega (arith, log_step-grows l c))
        (log_step-Extends l c i lt ∙ e) (log_step-retired l i c u.0 h)

  log_push-last :
      (l : Log J) (m : WeixinMessage J)
      → (log_push l m).1 ≡ false
      → l.retired ≤ length l.accepted
      → (get_elem? (log_push l m).0.accepted (length l.accepted)
          ≡ some (stamp (suc (length l.accepted)) m))
        × ((log_push l m).0.retired ≤ length l.accepted)
        × (length (log_push l m).0.accepted ≡ suc (length l.accepted))
  unfolding log_push
  log_push-last l m e h = ground (
    arith,
    get_elem?-last l.accepted (stamp (suc (length l.accepted)) m),
    length-append l.accepted (stamp (suc (length l.accepted)) m ∷ []),
  )

  -- A message that a slot accepts in any state that represents a log is in the batch of the next
  -- poll without a cursor, under its id, after any further pushes and polls of which no poll
  -- acknowledges the id, while the messages accepted and these calls are fewer than 2^63.
  pub push-redelivered :
      (s : Slot J) (l : Log J) (m : WeixinMessage J) (cs : List (Call J))
      → Represents s l
      → (push s m).1 ≡ false
      → All (Unacked s.next_seq) cs
      → length l.accepted + length cs + 1 < 2 ^ 63
      → (k : ℕ) × (get_elem? (poll (slot_run (push s m).0 cs).0 none).1.msgs k
          ≡ some (stamp s.next_seq m))
  unfolding log_poll
  push-redelivered s l m cs r e u room =
      let n : ℕ = length l.accepted in
      let (r', same) = push-Represents s l m r (omega arith) in
      let (found, low, grown) = log_push-last l m (sym same ∙ e) r.within in
      let u' : All (Unacked (suc n)) cs = rw r.next at u in
      let (found', low') = log_run-keeps cs (log_push l m).0 n _ u' (omega arith) found low in
      let (r'', _) = slot_run-Represents cs (push s m).0 (log_push l m).0 r' (omega arith) in
      let final : Log J = (log_run (log_push l m).0 cs).0 in
      let back : final.retired + (n - final.retired) ≡ n = omega arith in
      (
        n - final.retired,
        rw
            (
              ap (λ b. b.msgs) (poll-Represents _ final none r'').1,
              r.next,
              get_elem?-drop final.retired (n - final.retired) final.accepted,
              back,
            )
            found',
      )
