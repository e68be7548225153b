-- ===== src/PollTracker/Cap.antt =====
-- The cap on all long-polls together, under every interleaving of src/hub/state.rs.
use ilink_hub.Base.{
  ℕ, suc, zero, ◌+◌, ◌<◌, ◌≤◌, ◌≡◌, ◌⊎◌, inl, refl, ◌∙◌, Text, List, [], ◌∷◌, arith, length,
}
use ilink_hub.PollTracker.{
  PollTracker, set_hub_cap, usize_values, enter_gate, enter_roll_back, enter_count, drop_total,
  drop_count,
}
use ilink_hub.PollTracker.Threads.{
  Phase, idle, refused, admitted, counted, uncounted, leaving, advance, advance_at, Turn, moves,
  poisons, turn, run, sum, in_total, served,
}

-- What one access does to the total and to the requests that are served.
Accounts : PollTracker → ℕ → ℕ → PollTracker → ℕ → ℕ → Type 0
Accounts t inside serving t' inside' serving' =
    (t'.total + inside ≡ t.total + inside')
    × (t'.hub_cap ≡ t.hub_cap)
    × ((serving' ≤ serving) ⊎ ((t.total < t.hub_cap) × (serving' ≡ serving + 1)))

advance-Accounts :
    (vtoken : Text) (t : PollTracker) (p : Phase)
    → in_total p ≤ t.total
    → t.total + 1 < usize_values + in_total p
    → Accounts t
        (in_total p)
        (served p)
        (advance vtoken t p).0
        (in_total (advance vtoken t p).1)
        (served (advance vtoken t p).1)
unfolding advance Accounts enter_gate enter_roll_back enter_count drop_total drop_count
advance-Accounts vtoken t idle h room = ground arith
advance-Accounts vtoken t refused h room = ground arith
advance-Accounts vtoken t (admitted v) h room = ground arith
advance-Accounts vtoken t (counted v) h room = ground arith
advance-Accounts vtoken t (uncounted v) h room = ground arith
advance-Accounts vtoken t (leaving v) h room = ground arith

in_total-le : (p : Phase) → in_total p ≤ 1
in_total-le p = ground arith

sum-in_total-le : (ps : List Phase) → sum in_total ps ≤ length ps
sum-in_total-le [] = omega arith
sum-in_total-le (p ∷ ps) = omega (arith, in_total-le p, sum-in_total-le ps)

served-le : (p : Phase) → served p ≤ in_total p
served-le p = ground arith

sum-served-le : (ps : List Phase) → sum served ps ≤ sum in_total ps
sum-served-le [] = omega arith
sum-served-le (p ∷ ps) = omega (arith, served-le p, sum-served-le ps)

advance_at-Accounts :
    (i : ℕ) (vtoken : Text) (t : PollTracker) (ps : List Phase)
    → sum in_total ps ≤ t.total
    → t.total + length ps < usize_values + sum in_total ps
    → Accounts t
        (sum in_total ps)
        (sum served ps)
        (advance_at i vtoken t ps).0
        (sum in_total (advance_at i vtoken t ps).1)
        (sum served (advance_at i vtoken t ps).1)
unfolding advance_at Accounts
advance_at-Accounts i vtoken t [] h room = (refl, refl, inl (omega arith))
advance_at-Accounts zero vtoken t (p ∷ ps) h room =
    let (total, cap, change) =
      advance-Accounts vtoken t p (omega arith) (omega (arith, sum-in_total-le ps)) in
    (omega (arith, total), cap, ground (arith, change))
advance_at-Accounts (suc i) vtoken t (p ∷ ps) h room =
    let (total, cap, change) =
      advance_at-Accounts i vtoken t ps (omega arith) (omega (arith, in_total-le p)) in
    (omega (arith, total), cap, ground (arith, change))

length-advance_at :
    (i : ℕ) (vtoken : Text) (t : PollTracker) (ps : List Phase)
    → length (advance_at i vtoken t ps).1 ≡ length ps
unfolding advance_at
length-advance_at i vtoken t [] = refl
length-advance_at zero vtoken t (p ∷ ps) = refl
length-advance_at (suc i) vtoken t (p ∷ ps) = omega (arith, length-advance_at i vtoken t ps)

-- The total counts the requests that are past the first access of `enter` and not yet past that of
-- `drop`, and no more than the cap are served.
abbrev pub WithinCap : ℕ → PollTracker × List Phase → Type 0
WithinCap cap (t, ps) =
    (t.total ≡ sum in_total ps)
    × (t.hub_cap ≡ cap)
    × (sum served ps ≤ cap)
    × (length ps < usize_values)

turn-WithinCap :
    (cap : ℕ) (x : Turn) (w : PollTracker × List Phase) → WithinCap cap w → WithinCap cap (turn x w)
unfolding turn Accounts
turn-WithinCap cap poisons (t, ps) h = h
turn-WithinCap cap (moves i vtoken) (t, ps) (exact, capped, below, few) =
    let (total, same, change) = advance_at-Accounts i vtoken t ps (omega arith) (omega arith) in
    (
      omega (arith, total),
      same ∙ capped,
      ground (arith, change, sum-served-le ps),
      omega (arith, length-advance_at i vtoken t ps),
    )

run-WithinCap :
    (cap : ℕ) (xs : List Turn) (w : PollTracker × List Phase)
    → WithinCap cap w
    → WithinCap cap (run xs w)
unfolding run
run-WithinCap cap [] w h = h
run-WithinCap cap (x ∷ xs) w h = run-WithinCap cap xs (turn x w) (turn-WithinCap cap x w h)

abbrev pub all_idle : ℕ → List Phase
all_idle zero = []
all_idle (suc n) = idle ∷ all_idle n

pub all_idle_lem :
    (n : ℕ)
    → (sum in_total (all_idle n) ≡ 0) × (sum served (all_idle n) ≡ 0) × (length (all_idle n) ≡ n)
all_idle_lem zero = (refl, refl, refl)
all_idle_lem (suc n) =
    let (total, serving, size) = all_idle_lem n in
    (omega (arith, total), omega (arith, serving), omega (arith, size))

all_idle-WithinCap : (cap n : ℕ) → n < usize_values → WithinCap cap (set_hub_cap cap, all_idle n)
all_idle-WithinCap cap n few =
    let (total, serving, size) = all_idle_lem n in
    (omega (arith, total), refl, omega (arith, serving), omega (arith, size))

-- However fewer than 2^64 requests interleave their accesses to a new tracker, and whether or not
-- the mutex is poisoned on the way, at no time are more of them served than the cap allows, and the total is
-- the number of those that it has counted and not yet released: nothing leaks, on any branch.
pub run-capped :
    (cap n : ℕ) (turns : List Turn)
    → n < usize_values
    → (sum served (run turns (set_hub_cap cap, all_idle n)).1 ≤ cap)
      × ((run turns (set_hub_cap cap, all_idle n)).0.total
          ≡ sum in_total (run turns (set_hub_cap cap, all_idle n)).1)
run-capped cap n turns few =
    let (exact, capped, below, still) =
      run-WithinCap cap turns (set_hub_cap cap, all_idle n) (all_idle-WithinCap cap n few) in
    (below, exact)
