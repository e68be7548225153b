-- ===== src/Mcp/Grant.antt =====
-- src/mcp/tools.rs: the rights that a call lends its target. Every call of the store may fail; the
-- arguments `fails`, one for each, say which do, and a call that fails changes nothing.
use ilink_hub.Base.{
  ℕ, ◌+◌, Text, codes, List, [], ◌∷◌, ◌++◌, map, Bool, false, Option, none, some, if◌then◌else◌,
  min,
}
use ilink_hub.Base.Order.{contains}
use ilink_hub.Store.{Store}
use ilink_hub.Store.Sessions.{
  get_active_session_row, list_backend_sessions, set_active_session_with_depth,
  delete_active_session_if_name, delete_backend_session,
}

abbrev pub max_a2a_depth : ℕ
max_a2a_depth = 5

unfoldable pub grant_key : Text → Text
grant_key call_id = codes "a2a-" ++ call_id

-- The snapshot of the target's state before the call.
unfoldable pub prev_active : Bool → Text → Text → Store → Option (Text × ℕ)
prev_active fails vctx target s = if fails then none else get_active_session_row vctx target s

unfoldable pub pre_sessions : Bool → Text → Text → Store → Option (List Text)
pre_sessions fails vctx target s =
    if fails then none else some (map (λ r. r.0) (list_backend_sessions vctx target s))

-- `u8::saturating_add(1)`.
unfoldable pub target_depth : ℕ → ℕ
target_depth depth = min (depth + 1) 255

unfoldable pub lend : Bool → ℕ → ℕ → Text → Text → Text → ℕ → Store → Store
lend fails now stamp vctx target key depth s =
    if fails then s else set_active_session_with_depth now stamp vctx target key depth s

pub record ReleaseFails : Type 0 where
  pub delete_row : Bool
  pub inspect : Bool
  pub restore : Bool
  pub list : Bool
  pub drop : Text → Bool

abbrev pub no_fails : ReleaseFails
no_fails = record {
  delete_row = false;
  inspect = false;
  restore = false;
  list = false;
  drop = λ name. false;
}

-- Step 1: the call's own row.
unfoldable pub drop_row : Bool → Text → Text → Text → Store → Store
drop_row fails vctx target key s =
    if fails then s else (delete_active_session_if_name vctx target key s).0

-- Step 2: the grant of before the call, if the pair has none now.
abbrev pub restore_prev : Bool → ℕ → ℕ → Text → Text → Option (Text × ℕ) → Store → Store
restore_prev fails now stamp vctx target none s = s
restore_prev fails now stamp vctx target (some (name, depth)) s =
    if fails then s else set_active_session_with_depth now stamp vctx target name depth s

unfoldable pub restore_row : Bool → Bool → ℕ → ℕ → Text → Text → Option (Text × ℕ) → Store → Store
restore_row fails_inspect fails now stamp vctx target prev s =
    if fails_inspect then s else elim (get_active_session_row vctx target s) [
      | some row ↦ s
      | none ↦ restore_prev fails now stamp vctx target prev s
    ]

-- Step 3: the sessions that are new since the call.
unfoldable pub drop_new :
    (Text → Bool) → Text → Text → List Text → List (Text × Text) → Store → Store
drop_new fails vctx target pre [] s = s
drop_new fails vctx target pre ((name, id) ∷ rows) s = drop_new fails vctx target pre rows (
    if contains name pre
    then s
    else if fails name
    then s
    else (delete_backend_session vctx target name s).0)

unfoldable pub reclaim : Bool → (Text → Bool) → Text → Text → Option (List Text) → Store → Store
unfolding drop_new
reclaim fails_list fails vctx target none s = s
reclaim fails_list fails vctx target (some pre) s =
    if fails_list then s else drop_new fails vctx target pre (list_backend_sessions vctx target s) s

unfoldable pub release_a2a_grant :
    ReleaseFails
    → ℕ
    → ℕ
    → Text
    → Text
    → Text
    → Option (Text × ℕ)
    → Option (List Text)
    → Store
    → Store
release_a2a_grant fails now stamp vctx target key prev pre s =
    reclaim fails.list fails.drop vctx target pre (
      restore_row fails.inspect fails.restore now stamp vctx target prev
        (drop_row fails.delete_row vctx target key s))
