-- ===== src/Queue/Log.antt =====
-- What a slot of src/hub/queue.rs promises: a log of the accepted messages, of which a prefix is
-- retired. The log never forgets, and the slot holds what is not retired.
use ilink_hub.Base.{
  ℕ, suc, ◌-◌, min, List, [], ◌∷◌, ◌++◌, Option, none, some, Bool, true, false, ltb, leb,
  if◌then◌else◌, length, drop,
}
use Prim.Native.Nat.{max}
use ilink_hub.Message.{WeixinMessage}
use ilink_hub.Queue.{PollBatch, Slot, stamp, push, poll}

pub record Log (J : Type 0) : Type 0 where
  pub accepted : List (WeixinMessage J)
  pub retired : ℕ
  pub limit : ℕ

pub data Call (J : Type 0) : Type 0 where
  pushes : WeixinMessage J → Call J
  polls : Option ℕ → Call J

pub data Reply (J : Type 0) : Type 0 where
  rejected : Bool → Reply J
  batch : PollBatch J → Reply J

module _ {J : Type 0} where
  unfoldable pub empty : ℕ → Log J
  empty limit = record { accepted = []; retired = 0; limit = limit }

  unfoldable pub log_push : Log J → WeixinMessage J → Log J × Bool
  log_push l msg =
      if leb l.limit (length l.accepted - l.retired)
      then (l, true)
      else (record l { accepted = l.accepted ++ stamp (suc (length l.accepted)) msg ∷ [] }, false)

  abbrev pub retired_after : Log J → Option ℕ → ℕ
  retired_after l none = l.retired
  retired_after l (some ack) = max l.retired (min ack (length l.accepted))

  -- The last id allocated, or the clamped cursor where nothing is pending.
  abbrev pub cursor_after : Log J → Option ℕ → ℕ
  cursor_after l none = length l.accepted
  cursor_after l (some ack) =
      if ltb (retired_after l (some ack)) (length l.accepted)
      then length l.accepted
      else min ack (length l.accepted)

  unfoldable pub log_poll : Log J → Option ℕ → Log J × PollBatch J
  log_poll l ack =
      let r = retired_after l ack in
      (record l { retired = r }, record { msgs = drop r l.accepted; cursor = cursor_after l ack })

  unfoldable pub log_step : Log J → Call J → Log J × Reply J
  unfolding log_push log_poll
  log_step l (pushes msg) = let (l', b) = log_push l msg in (l', rejected b)
  log_step l (polls ack) = let (l', b) = log_poll l ack in (l', batch b)

  unfoldable pub slot_step : Slot J → Call J → Slot J × Reply J
  unfolding push poll
  slot_step s (pushes msg) = let (s', b) = push s msg in (s', rejected b)
  slot_step s (polls ack) = let (s', b) = poll s ack in (s', batch b)

  unfoldable pub log_run : Log J → List (Call J) → Log J × List (Reply J)
  log_run l [] = (l, [])
  log_run l (c ∷ cs) = let (l', r) = log_step l c in let (l'', rs) = log_run l' cs in (l'', r ∷ rs)

  unfoldable pub slot_run : Slot J → List (Call J) → Slot J × List (Reply J)
  slot_run s [] = (s, [])
  slot_run s (c ∷ cs) =
      let (s', r) = slot_step s c in let (s'', rs) = slot_run s' cs in (s'', r ∷ rs)
