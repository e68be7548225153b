-- ===== src/Queue/Refinement.antt =====
-- The slot of src/hub/queue.rs implements the delivery log.
use Prim.Native.Nat.{max}
use ilink_hub.Base.{
  ℕ, suc, ◌+◌, ◌-◌, ◌<◌, ◌≤◌, ◌^◌, ◌≡◌, refl, ap, min, List, [], ◌∷◌, ◌++◌, Option, none, some, leb,
  length, drop, drop-drop, drop-append, length-drop, length-append, arith, ◌%◌, dec_lt, drop_all,
  ◌∙◌, Bool-cases, inl, inr, get_or,
}
use ilink_hub.Message.{WeixinMessage}
use ilink_hub.Queue.{
  watermark_of, pending_after, or_else, allocated_max, Slot, new_slot, stamp, push, poll, last_seq,
}
use ilink_hub.Queue.Numbering.{
  Numbered, Numbered-append_one, Numbered-drop, retire-drop, last_seq-Numbered,
}
use ilink_hub.Queue.Log.{Log, empty, log_push, log_poll, retired_after, cursor_after}

module _ {J : Type 0} where
  pub record Represents (s : Slot J) (l : Log J) : Type 0 where
    pub pending : s.messages ≡ drop l.retired l.accepted
    pub next : s.next_seq ≡ suc (length l.accepted)
    pub within : l.retired ≤ length l.accepted
    pub numbered : Numbered 1 l.accepted
    pub limits : s.max_queue_size ≡ l.limit

  pub new_slot-Represents : (limit : ℕ) → Represents (new_slot limit) (empty limit)
  unfolding new_slot empty
  new_slot-Represents limit = record {
    pending = refl;
    next = refl;
    within = omega arith;
    numbered = tt;
    limits = refl;
  }

  full_iff :
      (s : Slot J) (l : Log J)
      → Represents s l
      → leb s.max_queue_size (length s.messages) ≡ leb l.limit (length l.accepted - l.retired)
  full_iff s l r = rw (r.pending, r.limits, length-drop l.retired l.accepted)

  accept-Represents :
      (s : Slot J) (l : Log J) (msg : WeixinMessage J)
      → Represents s l
      → length l.accepted + 1 < 2 ^ 63
      → Represents
          (record s {
            messages = s.messages ++ stamp s.next_seq msg ∷ [];
            next_seq = (s.next_seq + 1) % 2 ^ 64;
            notified = s.notified + 1;
          })
          (record l { accepted = l.accepted ++ stamp (suc (length l.accepted)) msg ∷ [] })
  accept-Represents s l msg r room =
      let m' = stamp (suc (length l.accepted)) msg in
      let grown : length (l.accepted ++ m' ∷ []) ≡ length l.accepted + 1 =
        length-append l.accepted (m' ∷ []) in
      record {
        pending = rw (r.pending, r.next, drop-append l.retired l.accepted (m' ∷ []), r.within);
        next = rw (r.next, grown) (omega arith);
        within = rw grown (omega (arith, r.within));
        numbered = Numbered-append_one 1 l.accepted m' (ground arith) r.numbered;
        limits = r.limits;
      }

  pub push-Represents :
      (s : Slot J) (l : Log J) (msg : WeixinMessage J)
      → Represents s l
      → length l.accepted + 1 < 2 ^ 63
      → Represents (push s msg).0 (log_push l msg).0 × ((push s msg).1 ≡ (log_push l msg).1)
  unfolding push log_push
  push-Represents s l msg r room = elim (Bool-cases (leb l.limit (length l.accepted - l.retired))) [
    | inl full ↦ rw (full_iff s l r, full) (r, refl)
    | inr free ↦ rw (full_iff s l r, free) (accept-Represents s l msg r room, refl)
  ]

  -- What `poll` retires is what the log retires.
  pending_after-drop :
      (s : Slot J) (l : Log J) (ack : Option ℕ)
      → Represents s l
      → pending_after s (watermark_of s ack) ≡ drop (retired_after l ack) l.accepted
  pending_after-drop s l none r = r.pending
  pending_after-drop s l (some a) r =
      let w : ℕ = min a (length l.accepted) in
      let e : min a (s.next_seq - 1) ≡ w = omega (arith, r.next) in
      let step : l.retired + (suc w - (l.retired + 1)) ≡ max l.retired w = omega arith in
      let n : Numbered (l.retired + 1) (drop l.retired l.accepted) =
        Numbered-drop l.retired 1 l.accepted r.numbered in
      rw (e, r.pending, retire-drop w (l.retired + 1) (drop l.retired l.accepted) n)
        (rw (drop-drop (suc w - (l.retired + 1)) l.retired l.accepted, step) refl)

  -- The last id of a pending part of the log is the last id allocated.
  last_seq-drop :
      (l : Log J) (k : ℕ)
      → Numbered 1 l.accepted
      → k < length l.accepted
      → last_seq (drop k l.accepted) ≡ some (length l.accepted)
  last_seq-drop l k h lt = go (drop k l.accepted) refl (Numbered-drop k 1 l.accepted h)
    where
      go :
          (ms : List (WeixinMessage J))
          → drop k l.accepted ≡ ms
          → Numbered (k + 1) ms
          → last_seq ms ≡ some (length l.accepted)
      go [] e n = absurd (omega (arith, length-drop k l.accepted, ap length e))
      go (m ∷ ms) e n =
          last_seq-Numbered (k + 1) m ms n
          ∙ ap some (omega (arith, length-drop k l.accepted, ap length e))

  last_seq-drop_all :
      (l : Log J) (k : ℕ) → length l.accepted ≤ k → last_seq (drop k l.accepted) ≡ none
  unfolding last_seq
  last_seq-drop_all l k h = rw (drop_all k l.accepted h)

  cursor_of-last :
      (s : Slot J) (l : Log J) (ack : Option ℕ)
      → Represents s l
      → get_or
          (or_else (last_seq (drop (retired_after l ack) l.accepted)) (watermark_of s ack))
          (allocated_max s)
        ≡ cursor_after l ack
  cursor_of-last s l ack r = elim (dec_lt (retired_after l ack) (length l.accepted)) [
    | yes lt ↦ rw (last_seq-drop l (retired_after l ack) r.numbered lt) (pending_cursor ack lt)
    | no ge ↦ rw (last_seq-drop_all l (retired_after l ack) (omega arith)) (idle_cursor ack ge)
  ]
    where
      pending_cursor :
          (ack : Option ℕ)
          → retired_after l ack < length l.accepted
          → length l.accepted ≡ cursor_after l ack
      pending_cursor none lt = refl
      pending_cursor (some a) lt = ground arith

      idle_cursor :
          (ack : Option ℕ)
          → ¬ (retired_after l ack < length l.accepted)
          → get_or (watermark_of s ack) (allocated_max s) ≡ cursor_after l ack
      idle_cursor none ge = omega (arith, r.next)
      idle_cursor (some a) ge = let e = r.next in ground arith

  retired-le :
      (l : Log J) (ack : Option ℕ)
      → l.retired ≤ length l.accepted
      → retired_after l ack ≤ length l.accepted
  retired-le l none h = h
  retired-le l (some a) h = omega arith

  pub poll-Represents :
      (s : Slot J) (l : Log J) (ack : Option ℕ)
      → Represents s l
      → Represents (poll s ack).0 (log_poll l ack).0 × ((poll s ack).1 ≡ (log_poll l ack).1)
  unfolding poll log_poll
  poll-Represents s l ack r =
      rw (pending_after-drop s l ack r, cursor_of-last s l ack r)
        (
          record {
            pending = refl;
            next = r.next;
            within = retired-le l ack r.within;
            numbered = r.numbered;
            limits = r.limits;
          },
          refl,
        )
