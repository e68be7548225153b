-- ===== src/PollTracker/Threads.antt =====
-- The requests of src/hub/state.rs that share a `PollTracker`, interleaved in any order.
use ilink_hub.Base.{
  ℕ, suc, zero, ◌+◌, Text, text_eq, List, [], ◌∷◌, none, some, true, if◌then◌else◌,
}
use ilink_hub.PollTracker.{
  PollTracker, enter_gate, enter_roll_back, enter_count, drop_total, drop_count,
}

-- How far a request has come: before `enter`, refused but not rolled back, past the gate, serving
-- with or without a count, and in `drop` between its two parts.
pub data Phase : Type 0 where
  idle : Phase
  refused : Phase
  admitted : Text → Phase
  counted : Text → Phase
  uncounted : Text → Phase
  leaving : Text → Phase

-- The next access of a request; an idle one starts to poll for the token.
unfoldable pub advance : Text → PollTracker → Phase → PollTracker × Phase
advance vtoken t idle =
    let (entered, below) = enter_gate t in (entered, if below then admitted vtoken else refused)
advance vtoken t refused = (enter_roll_back t, idle)
advance vtoken t (admitted v) = elim (enter_count v t) [
  | none ↦ (t, uncounted v)
  | some (t', c) ↦ (t', counted v)
]
advance vtoken t (counted v) = (drop_total t, leaving v)
advance vtoken t (uncounted v) = (drop_total t, leaving v)
advance vtoken t (leaving v) = (drop_count v t, idle)

-- The request with a number moves on.
unfoldable pub advance_at : ℕ → Text → PollTracker → List Phase → PollTracker × List Phase
unfolding advance
advance_at i vtoken t [] = (t, [])
advance_at zero vtoken t (p ∷ ps) = let (t', p') = advance vtoken t p in (t', p' ∷ ps)
advance_at (suc i) vtoken t (p ∷ ps) = let (t', ps') = advance_at i vtoken t ps in (t', p ∷ ps')

-- A request moves on, or some request panics while it holds the mutex.
pub data Turn : Type 0 where
  moves : ℕ → Text → Turn
  poisons : Turn

unfoldable pub turn : Turn → PollTracker × List Phase → PollTracker × List Phase
unfolding advance_at
turn (moves i vtoken) (t, ps) = advance_at i vtoken t ps
turn poisons (t, ps) = (record t { poisoned = true }, ps)

unfoldable pub run : List Turn → PollTracker × List Phase → PollTracker × List Phase
unfolding turn
run [] w = w
run (x ∷ xs) w = run xs (turn x w)

abbrev pub sum : (Phase → ℕ) → List Phase → ℕ
sum f [] = 0
sum f (p ∷ ps) = f p + sum f ps

-- The requests that `total` counts.
abbrev pub in_total : Phase → ℕ
in_total idle = 0
in_total refused = 1
in_total (admitted v) = 1
in_total (counted v) = 1
in_total (uncounted v) = 1
in_total (leaving v) = 0

-- The requests that are let through and have not begun to leave.
abbrev pub served : Phase → ℕ
served (admitted v) = 1
served (counted v) = 1
served (uncounted v) = 1
served p = 0

-- The requests for a token that its count counts.
abbrev pub counted_for : Text → Phase → ℕ
counted_for vtoken (counted v) = if text_eq v vtoken then 1 else 0
counted_for vtoken (leaving v) = if text_eq v vtoken then 1 else 0
counted_for vtoken p = 0

abbrev pub no_count : Phase → ℕ
no_count (uncounted v) = 1
no_count p = 0
