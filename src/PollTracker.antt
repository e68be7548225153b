-- ===== src/PollTracker.antt =====
-- src/hub/state.rs: `PollTracker`, the gate on concurrent long-polls. Each atomic access and each
-- critical section is a function, so that requests may be interleaved between them; `total` wraps
-- as `AtomicUsize` does. A count per token grows by less than the number of requests, and the `+ 1`
-- on it is taken as it is.
pub mod Threads
pub mod Cap
pub mod Counts
pub mod Guards
mod Examples
use ilink_hub.Base.{
  ℕ, ◌+◌, ◌-◌, ◌%◌, Text, List, [], ◌∷◌, Option, none, some, Bool, true, false, ltb, ◌==◌, not,
  if◌then◌else◌, get_or,
}
use ilink_hub.Base.Map.{Map, lookup, insert, remove}

-- The number of values of a `usize`.
abbrev pub usize_values : ℕ
usize_values = 18446744073709551616

pub record PollTracker : Type 0 where
  pub counts : Map ℕ
  -- Whether the mutex round `counts` is poisoned.
  pub poisoned : Bool
  pub total : ℕ
  pub hub_cap : ℕ

-- `PollTracker::default()` after `set_hub_cap`.
abbrev pub set_hub_cap : ℕ → PollTracker
set_hub_cap cap = record { counts = []; poisoned = false; total = 0; hub_cap = cap }

abbrev pub fetch_add : ℕ → ℕ
fetch_add n = (n + 1) % usize_values

abbrev pub fetch_sub : ℕ → ℕ
fetch_sub n = (n + (usize_values - 1)) % usize_values

-- The first access of `enter`, and whether the previous total was below the cap.
unfoldable pub enter_gate : PollTracker → PollTracker × Bool
enter_gate t = (record t { total = fetch_add t.total }, ltb t.total t.hub_cap)

-- What a refused `enter` does next.
unfoldable pub enter_roll_back : PollTracker → PollTracker
enter_roll_back t = record t { total = fetch_sub t.total }

-- The critical section of `enter`, with the new count, unless the mutex is poisoned.
unfoldable pub enter_count : Text → PollTracker → Option (PollTracker × ℕ)
enter_count vtoken t =
    if t.poisoned
    then none
    else (let c = get_or (lookup vtoken t.counts) 0 + 1 in
        some (record t { counts = insert vtoken c t.counts }, c))

pub data EnterOutcome : Type 0 where
  ok : ℕ → EnterOutcome
  hub_limit_reached : ℕ → ℕ → EnterOutcome
  poisoned : EnterOutcome

-- `enter` when no other request comes in between.
unfoldable pub enter : PollTracker → Text → PollTracker × EnterOutcome
unfolding enter_gate enter_roll_back enter_count
enter t vtoken =
    let (entered, below) = enter_gate t in
    if not below
    then (enter_roll_back entered, hub_limit_reached t.total t.hub_cap)
    else elim (enter_count vtoken entered) [
      | none ↦ (entered, EnterOutcome.poisoned)
      | some (counted, c) ↦ (counted, ok c)
    ]

-- The first access of the guard's `drop`.
unfoldable pub drop_total : PollTracker → PollTracker
drop_total t = record t { total = fetch_sub t.total }

-- The critical section of the guard's `drop`.
unfoldable pub drop_count : Text → PollTracker → PollTracker
drop_count vtoken t = if t.poisoned then t else elim (lookup vtoken t.counts) [
  | none ↦ t
  | some c ↦ record t {
    counts = if c - 1 == 0 then remove vtoken t.counts else insert vtoken (c - 1) t.counts;
  }
]

unfoldable pub drop : PollTracker → Text → PollTracker
unfolding drop_total drop_count
drop t vtoken = drop_count vtoken (drop_total t)
