-- ===== src/PollTracker/Guards.antt =====
-- A whole `enter` of src/hub/state.rs, and the guard that it returns.
use ilink_hub.Base.{
  ◌+◌, ◌-◌, ◌<◌, ◌≤◌, ◌≡◌, refl, ap, ◌∙◌, Text, text_eq, text_eq_iff, true, false, arith,
  if◌then◌else◌, ltb,
}
use ilink_hub.Base.Map.{insert, lookup-insert}
use ilink_hub.PollTracker.{
  PollTracker, usize_values, fetch_add, fetch_sub, enter_gate, enter_roll_back, enter_count, ok,
  hub_limit_reached, enter, drop_total, drop_count, drop,
}
use ilink_hub.PollTracker.Counts.{count, count-drop_count}

-- At the cap an `enter` that nothing interrupts refuses with the total and the cap, and leaves the
-- tracker as it was.
pub enter_refused :
    (t : PollTracker) (vtoken : Text)
    → t.hub_cap ≤ t.total
    → t.total + 1 < usize_values
    → enter t vtoken ≡ (t, hub_limit_reached t.total t.hub_cap)
unfolding enter enter_gate enter_roll_back
enter_refused t vtoken full room =
    let refuses : ltb t.total t.hub_cap ≡ false = ground (arith, full) in
    let back : fetch_sub (fetch_add t.total) ≡ t.total = omega (arith, room) in
    rw (refuses, back) refl

abbrev entered : PollTracker → Text → PollTracker
entered t vtoken = record t {
  total = t.total + 1;
  counts = insert vtoken (count vtoken t + 1) t.counts;
}

enter_admits :
    (t : PollTracker) (vtoken : Text)
    → t.total < t.hub_cap
    → t.total + 1 < usize_values
    → t.poisoned ≡ false
    → enter t vtoken ≡ (entered t vtoken, ok (count vtoken t + 1))
unfolding enter enter_gate enter_count
enter_admits t vtoken below room sound =
    let admits : ltb t.total t.hub_cap ≡ true = ground (arith, below) in
    let added : fetch_add t.total ≡ t.total + 1 = omega (arith, room) in
    rw (admits, sound, added) refl

drop_count-total : (vtoken : Text) (t : PollTracker) → (drop_count vtoken t).total ≡ t.total
unfolding drop_count
drop_count-total vtoken t = ground arith

-- Below the cap, with a sound mutex, an `enter` that nothing interrupts returns the number of
-- polls of the token, this one included, and the drop of its guard restores the total and the
-- count of every token.
pub enter-drop :
    (t : PollTracker) (vtoken other : Text)
    → t.total < t.hub_cap
    → t.total + 1 < usize_values
    → t.poisoned ≡ false
    → ((enter t vtoken).1 ≡ ok (count vtoken t + 1))
      × ((drop (enter t vtoken).0 vtoken).total ≡ t.total)
      × (count other (drop (enter t vtoken).0 vtoken) ≡ count other t)
unfolding drop drop_total
enter-drop t vtoken other below room sound =
    let e = enter_admits t vtoken below room sound in
    let back : fetch_sub (t.total + 1) ≡ t.total = omega (arith, room) in
    let after = record (entered t vtoken) { total = fetch_sub (t.total + 1) } in
    let off = count-drop_count other vtoken after sound in
    let dropped : drop (enter t vtoken).0 vtoken ≡ drop_count vtoken after =
      ap (λ o. drop o.0 vtoken) e in
    let stored = lookup-insert vtoken other (count vtoken t + 1) t.counts in
    let rest : count other after - (if text_eq vtoken other then 1 else 0) ≡ count other t =
      ground (arith, stored, text_eq_iff vtoken other) in
    (
      ap (λ o. o.1) e,
      ap (λ w. w.total) dropped ∙ (drop_count-total vtoken after ∙ back),
      ap (count other) dropped ∙ (off ∙ rest),
    )
