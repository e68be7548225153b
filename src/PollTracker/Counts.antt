-- ===== src/PollTracker/Counts.antt =====
-- The count per token that src/hub/state.rs keeps, under every interleaving.
use ilink_hub.Base.{
  ℕ, suc, zero, ◌+◌, ◌-◌, ◌≤◌, ◌≡◌, refl, Text, text_eq, text_eq_iff, List, [], ◌∷◌, false, arith,
  if◌then◌else◌, get_or,
}
use ilink_hub.Base.Map.{lookup, lookup-insert, lookup-remove}
use ilink_hub.PollTracker.{
  PollTracker, set_hub_cap, enter_gate, enter_roll_back, enter_count, drop_total, drop_count,
}
use ilink_hub.PollTracker.Threads.{
  Phase, idle, refused, admitted, counted, uncounted, leaving, advance, advance_at, Turn, moves,
  turn, run, sum, counted_for, no_count,
}
use ilink_hub.PollTracker.Cap.{all_idle}

-- The polls that the tracker counts for a token.
abbrev pub count : Text → PollTracker → ℕ
count vtoken t = get_or (lookup vtoken t.counts) 0

-- A guard's `drop` takes one off the count of its token and leaves the others.
pub count-drop_count :
    (vtoken v : Text) (t : PollTracker)
    → t.poisoned ≡ false
    → count vtoken (drop_count v t) ≡ count vtoken t - (if text_eq v vtoken then 1 else 0)
unfolding drop_count
count-drop_count vtoken v t sound = ground (
  arith,
  sound,
  text_eq_iff v vtoken,
  lookup-insert v vtoken (get_or (lookup v t.counts) 0 - 1) t.counts,
  lookup-remove v vtoken t.counts,
)

count-enter_count :
    (vtoken v : Text) (t : PollTracker)
    → t.poisoned ≡ false
    → count vtoken (advance vtoken t (admitted v)).0
      ≡ count vtoken t + (if text_eq v vtoken then 1 else 0)
unfolding advance enter_count
count-enter_count vtoken v t sound = ground (
  arith,
  sound,
  text_eq_iff v vtoken,
  lookup-insert v vtoken (get_or (lookup v t.counts) 0 + 1) t.counts,
)

drop_count-poisoned :
    (v : Text) (t : PollTracker) → t.poisoned ≡ false → (drop_count v t).poisoned ≡ false
unfolding drop_count
drop_count-poisoned v t sound = ground (arith, sound)

-- What one access does to a count, while the mutex is not poisoned.
Keeps : Text → PollTracker → ℕ → PollTracker → ℕ → ℕ → Type 0
Keeps vtoken t polls t' polls' missing =
    (count vtoken t' + polls ≡ count vtoken t + polls') × (t'.poisoned ≡ false) × (missing ≡ 0)

advance-Keeps :
    (vtoken starts : Text) (t : PollTracker) (p : Phase)
    → t.poisoned ≡ false
    → counted_for vtoken p ≤ count vtoken t
    → no_count p ≡ 0
    → Keeps vtoken t
        (counted_for vtoken p)
        (advance starts t p).0
        (counted_for vtoken (advance starts t p).1)
        (no_count (advance starts t p).1)
unfolding advance Keeps enter_gate enter_roll_back enter_count drop_total
advance-Keeps vtoken starts t idle sound h none_missing = ground (arith, sound)
advance-Keeps vtoken starts t refused sound h none_missing = ground (arith, sound)
advance-Keeps vtoken starts t (admitted v) sound h none_missing =
    ground (arith, sound, count-enter_count vtoken v t sound)
advance-Keeps vtoken starts t (counted v) sound h none_missing = ground (arith, sound)
advance-Keeps vtoken starts t (uncounted v) sound h none_missing = ground (arith, none_missing)
advance-Keeps vtoken starts t (leaving v) sound h none_missing =
    (ground (arith, h, count-drop_count vtoken v t sound), drop_count-poisoned v t sound, refl)

advance_at-Keeps :
    (i : ℕ) (vtoken starts : Text) (t : PollTracker) (ps : List Phase)
    → t.poisoned ≡ false
    → sum (counted_for vtoken) ps ≤ count vtoken t
    → sum no_count ps ≡ 0
    → Keeps vtoken t
        (sum (counted_for vtoken) ps)
        (advance_at i starts t ps).0
        (sum (counted_for vtoken) (advance_at i starts t ps).1)
        (sum no_count (advance_at i starts t ps).1)
unfolding advance_at Keeps
advance_at-Keeps i vtoken starts t [] sound h none_missing = (refl, sound, refl)
advance_at-Keeps zero vtoken starts t (p ∷ ps) sound h none_missing =
    let (counts, still, missing) =
      advance-Keeps vtoken starts t p sound (omega arith) (omega arith) in
    (omega (arith, counts), still, omega (arith, missing))
advance_at-Keeps (suc i) vtoken starts t (p ∷ ps) sound h none_missing =
    let (counts, still, missing) =
      advance_at-Keeps i vtoken starts t ps sound (omega arith) (omega arith) in
    (omega (arith, counts), still, omega (arith, missing))

-- The accesses of the requests, of which none panics while it holds the mutex.
abbrev pub moves_of : List (ℕ × Text) → List Turn
moves_of [] = []
moves_of ((i, vtoken) ∷ xs) = moves i vtoken ∷ moves_of xs

run-Keeps :
    (vtoken : Text) (xs : List (ℕ × Text)) (t : PollTracker) (ps : List Phase)
    → t.poisoned ≡ false
    → count vtoken t ≡ sum (counted_for vtoken) ps
    → sum no_count ps ≡ 0
    → count vtoken (run (moves_of xs) (t, ps)).0
      ≡ sum (counted_for vtoken) (run (moves_of xs) (t, ps)).1
unfolding run turn Keeps
run-Keeps vtoken [] t ps sound exact none_missing = exact
run-Keeps vtoken ((i, starts) ∷ xs) t ps sound exact none_missing =
    let (counts, still, missing) =
      advance_at-Keeps i vtoken starts t ps sound (omega arith) none_missing in
    run-Keeps vtoken xs (advance_at i starts t ps).0 (advance_at i starts t ps).1 still
      (omega (arith, counts)) missing

idle-none :
    (vtoken : Text) (n : ℕ)
    → (sum (counted_for vtoken) (all_idle n) ≡ 0) × (sum no_count (all_idle n) ≡ 0)
idle-none vtoken zero = (refl, refl)
idle-none vtoken (suc n) =
    let (polls, missing) = idle-none vtoken n in (omega (arith, polls), omega (arith, missing))

-- From a new tracker on, while no request panics under the mutex, the count of every token is the number of the requests
-- that have counted themselves for it and not yet taken themselves off, in every interleaving.
pub run-count :
    (cap n : ℕ) (vtoken : Text) (xs : List (ℕ × Text))
    → count vtoken (run (moves_of xs) (set_hub_cap cap, all_idle n)).0
      ≡ sum (counted_for vtoken) (run (moves_of xs) (set_hub_cap cap, all_idle n)).1
unfolding lookup
run-count cap n vtoken xs =
    let (polls, missing) = idle-none vtoken n in
    run-Keeps vtoken xs (set_hub_cap cap) (all_idle n) refl (omega (arith, polls)) missing
