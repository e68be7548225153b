-- ===== src/PollTracker/Examples.antt =====
-- The long-polls of src/hub/state.rs: two requests, a cap of one.
use ilink_hub.Base.{ℕ, ◌≤◌, ◌≡◌, Text, codes, List, [], ◌∷◌, arith}
use ilink_hub.PollTracker.{PollTracker, set_hub_cap}
use ilink_hub.PollTracker.Threads.{Turn, moves, poisons, run, sum, in_total, served, counted_for}
use ilink_hub.PollTracker.Cap.{all_idle, run-capped}
use ilink_hub.PollTracker.Counts.{count, moves_of, run-count}

abbrev accesses : List (ℕ × Text)
accesses =
    (0, codes "v1") ∷ (1, codes "v1") ∷ (0, codes "v1") ∷ (1, codes "v1") ∷ (0, codes "v1") ∷ []

abbrev turns : List Turn
turns = moves 0 (codes "v1") ∷ moves 1 (codes "v2") ∷ poisons ∷ moves 0 (codes "v1") ∷ []

run-capped_example :
    (sum served (run turns (set_hub_cap 1, all_idle 2)).1 ≤ 1)
    × ((run turns (set_hub_cap 1, all_idle 2)).0.total
        ≡ sum in_total (run turns (set_hub_cap 1, all_idle 2)).1)
run-capped_example = run-capped 1 2 turns (omega arith)

run-count_example :
    count (codes "v1") (run (moves_of accesses) (set_hub_cap 1, all_idle 2)).0
    ≡ sum (counted_for (codes "v1")) (run (moves_of accesses) (set_hub_cap 1, all_idle 2)).1
run-count_example = run-count 1 2 (codes "v1") accesses

abbrev full : PollTracker
full = record (set_hub_cap 1) { counts = (codes "v1", 1) ∷ []; total = 1 }
