-- ===== src/Base/Rows.antt =====
-- Tables of a relational database as lists of rows in the order of their insertion. Queries are
-- Boolean tests on a row.
use mathlib.Core.Path.{◌≡◌, refl, sym, ap, ◌∙◌}
use mathlib.Core.Logic.{inl, inr}
use mathlib.Core.Bool.{Bool, true, false, ◌&&◌, ◌||◌}
use mathlib.Core.List.{List, [], ◌∷◌, ◌++◌}
use mathlib.Core.Option.{Option, none, some}
use native.Mathlib.Omega.{arith}
use ilink_hub.Base.Tests.{if◌then◌else◌, is_some, Bool-cases, Option-cases}

module _ {ℓ} {R : Type ℓ} where
  -- `EXISTS (SELECT 1 ... WHERE p)`.
  unfoldable pub any : (R → Bool) → List R → Bool
  any p [] = false
  any p (r ∷ rs) = p r || any p rs

  -- `SELECT ... WHERE p LIMIT 1`.
  unfoldable pub find : (R → Bool) → List R → Option R
  find p [] = none
  find p (r ∷ rs) = if p r then some r else find p rs

  -- `SELECT ... WHERE p ORDER BY rowid DESC LIMIT 1`.
  unfoldable pub find_last : (R → Bool) → List R → Option R
  find_last p [] = none
  find_last p (r ∷ rs) = elim (find_last p rs) [
    | some x ↦ some x
    | none ↦ if p r then some r else none
  ]

  -- `SELECT ... WHERE p`.
  unfoldable pub select : (R → Bool) → List R → List R
  select p [] = []
  select p (r ∷ rs) = let rest = select p rs in if p r then r ∷ rest else rest

  -- `DELETE FROM ... WHERE p`.
  unfoldable pub delete : (R → Bool) → List R → List R
  delete p [] = []
  delete p (r ∷ rs) = let rest = delete p rs in if p r then rest else r ∷ rest

  -- `UPDATE ... SET f WHERE p`.
  unfoldable pub update : (R → Bool) → (R → R) → List R → List R
  update p f [] = []
  update p f (r ∷ rs) = (if p r then f r else r) ∷ update p f rs

  -- `INSERT ... ON CONFLICT (key) DO UPDATE SET f`, where `p` tells the rows with the key of the
  -- new row. A new row goes last.
  unfoldable pub upsert : (R → Bool) → (R → R) → R → List R → List R
  unfolding update any
  upsert p f new rs = if any p rs then update p f rs else rs ++ new ∷ []

  -- The row of a key after an upsert of it.
  abbrev pub upserted : (R → R) → R → Option R → R
  upserted f new none = new
  upserted f new (some r) = f r

  pub any-find : (p : R → Bool) (rs : List R) → any p rs ≡ is_some (find p rs)
  unfolding any find
  any-find p [] = refl
  any-find p (r ∷ rs) = ground (arith, any-find p rs)

  pub find-holds : (p : R → Bool) (rs : List R) (r : R) → find p rs ≡ some r → p r ≡ true
  unfolding find
  find-holds p [] r e = cc
  find-holds p (x ∷ rs) r e = ground (arith, find-holds p rs r)

  pub find_last-holds : (p : R → Bool) (rs : List R) (r : R) → find_last p rs ≡ some r → p r ≡ true
  unfolding find_last
  find_last-holds p [] r e = cc
  find_last-holds p (x ∷ rs) r e = ground (arith, find_last-holds p rs r)

  pub any-delete :
      (p q : R → Bool)
      → ((r : R) → p r ≡ true → q r ≡ true)
      → (rs : List R) → any p (delete q rs) ≡ false
  unfolding any delete
  any-delete p q h [] = refl
  any-delete p q h (r ∷ rs) = ground (arith, h r, any-delete p q h rs)

  pub find-delete_same : (p : R → Bool) (rs : List R) → find p (delete p rs) ≡ none
  unfolding find delete
  find-delete_same p [] = refl
  find-delete_same p (r ∷ rs) = ground (arith, find-delete_same p rs)

  pub find-delete_other :
      (p q : R → Bool)
      → ((r : R) → p r ≡ true → q r ≡ false)
      → (rs : List R) → find p (delete q rs) ≡ find p rs
  unfolding find delete
  find-delete_other p q h [] = refl
  find-delete_other p q h (r ∷ rs) = ground (arith, h r, find-delete_other p q h rs)

  find-update :
      (p : R → Bool) (f : R → R)
      → ((r : R) → p r ≡ true → p (f r) ≡ true)
      → (rs : List R) (r : R) → find p rs ≡ some r
      → find p (update p f rs) ≡ some (f r)
  unfolding find update
  find-update p f h [] r e = cc
  find-update p f h (x ∷ rs) r e = ground (arith, h x, find-update p f h rs r)

  pub find-update_other :
      (p q : R → Bool) (f : R → R)
      → ((r : R) → q r ≡ true → p r ≡ false)
      → ((r : R) → q r ≡ true → p (f r) ≡ false)
      → (rs : List R) → find p (update q f rs) ≡ find p rs
  unfolding find update
  find-update_other p q f h k [] = refl
  find-update_other p q f h k (x ∷ rs) = ground (arith, h x, k x, find-update_other p q f h k rs)

  pub find-append :
      (p : R → Bool) (rs : List R) (new : R)
      → find p rs ≡ none
      → find p (rs ++ new ∷ []) ≡ (if p new then some new else none)
  unfolding find
  find-append p [] new e = refl
  find-append p (x ∷ rs) new e = ground (arith, find-append p rs new)

  pub find-append_kept :
      (p : R → Bool) (rs later : List R) (r : R)
      → find p rs ≡ some r
      → find p (rs ++ later) ≡ some r
  unfolding find
  find-append_kept p [] later r e = absurd (cc)
  find-append_kept p (x ∷ rs) later r e = ground (arith, find-append_kept p rs later r)

  find-append_other :
      (p : R → Bool) (rs : List R) (new : R) → p new ≡ false → find p (rs ++ new ∷ []) ≡ find p rs
  unfolding find
  find-append_other p [] new e = ground arith
  find-append_other p (x ∷ rs) new e = ground (arith, find-append_other p rs new)

  -- The row of the key after an upsert.
  pub find-upsert :
      (p : R → Bool) (f : R → R) (new : R)
      → p new ≡ true
      → ((r : R) → p r ≡ true → p (f r) ≡ true)
      → (rs : List R) → find p (upsert p f new rs) ≡ some (upserted f new (find p rs))
  unfolding upsert
  find-upsert p f new e h rs = elim (Option-cases (find p rs)) [
    | inl fresh ↦ rw (any-find p rs, fresh) (find-append p rs new fresh ∙ rw e)
    | inr (r, old) ↦ rw (any-find p rs, old) (find-update p f h rs r old)
  ]

  -- The other rows stay.
  pub find-upsert_other :
      (p q : R → Bool) (f : R → R) (new : R)
      → p new ≡ false
      → ((r : R) → q r ≡ true → p r ≡ false)
      → ((r : R) → q r ≡ true → p (f r) ≡ false)
      → (rs : List R) → find p (upsert q f new rs) ≡ find p rs
  unfolding upsert
  find-upsert_other p q f new e h k rs = elim (Bool-cases (any q rs)) [
    | inl old ↦ rw old (find-update_other p q f h k rs)
    | inr fresh ↦ rw fresh (find-append_other p rs new e)
  ]

  pub find-delete :
      (p q : R → Bool) (rs : List R) (r : R) → find p (delete q rs) ≡ some r → q r ≡ false
  unfolding find delete
  find-delete p q [] r e = cc
  find-delete p q (x ∷ rs) r e = ground (arith, find-delete p q rs r, Bool-cases (q x))

  any-none : (p q : R → Bool) (rs : List R) → any p rs ≡ false → any (λ r. p r && q r) rs ≡ false
  unfolding any
  any-none p q [] e = refl
  any-none p q (x ∷ rs) e = ground (arith, any-none p q rs)

  any-update-false :
      (p q : R → Bool) (f : R → R)
      → ((r : R) → q (f r) ≡ false)
      → (rs : List R) → any (λ r. p r && q r) (update p f rs) ≡ false
  unfolding any update
  any-update-false p q f j [] = refl
  any-update-false p q f j (x ∷ rs) =
      ground (arith, j x, any-update-false p q f j rs, Bool-cases (p x), Bool-cases (p (f x)))

  any-update-true :
      (p q : R → Bool) (f : R → R)
      → ((r : R) → p r ≡ true → p (f r) ≡ true)
      → ((r : R) → q (f r) ≡ true)
      → (rs : List R) → any p rs ≡ true
      → any (λ r. p r && q r) (update p f rs) ≡ true
  unfolding any update
  any-update-true p q f h j [] e = cc
  any-update-true p q f h j (x ∷ rs) e =
      ground (arith, h x, j x, any-update-true p q f h j rs, Bool-cases (p x))

  any-update :
      (p q : R → Bool) (f : R → R) (b : Bool)
      → ((r : R) → p r ≡ true → p (f r) ≡ true)
      → ((r : R) → q (f r) ≡ b)
      → (rs : List R) → any p rs ≡ true
      → any (λ r. p r && q r) (update p f rs) ≡ b
  any-update p q f true h j rs e = any-update-true p q f h j rs e
  any-update p q f false h j rs e = any-update-false p q f j rs

  any-append :
      (p q : R → Bool) (new : R) (b : Bool)
      → p new ≡ true
      → q new ≡ b
      → (rs : List R) → any p rs ≡ false
      → any (λ r. p r && q r) (rs ++ new ∷ []) ≡ b
  unfolding any
  any-append p q new b e k [] g = ground (arith, Bool-cases (q new))
  any-append p q new b e k (x ∷ rs) g =
      ground (arith, any-append p q new b e k rs, Bool-cases (p x))

  -- A test that every upserted row answers alike.
  pub any-upsert :
      (p q : R → Bool) (f : R → R) (new : R) (b : Bool)
      → p new ≡ true
      → q new ≡ b
      → ((r : R) → p r ≡ true → p (f r) ≡ true)
      → ((r : R) → q (f r) ≡ b)
      → (rs : List R) → any (λ r. p r && q r) (upsert p f new rs) ≡ b
  unfolding upsert
  any-upsert p q f new b e k h j rs = elim (Bool-cases (any p rs)) [
    | inl old ↦ rw old (any-update p q f b h j rs old)
    | inr fresh ↦ rw fresh (any-append p q new b e k rs fresh)
  ]

  pub any-upsert_other :
      (p q : R → Bool) (f : R → R) (new : R)
      → p new ≡ false
      → ((r : R) → q r ≡ true → p r ≡ false)
      → ((r : R) → q r ≡ true → p (f r) ≡ false)
      → (rs : List R) → any p (upsert q f new rs) ≡ any p rs
  any-upsert_other p q f new e h k rs =
      any-find p (upsert q f new rs)
      ∙ ap is_some (find-upsert_other p q f new e h k rs)
      ∙ sym (any-find p rs)

  pub any-delete_other :
      (p q : R → Bool)
      → ((r : R) → p r ≡ true → q r ≡ false)
      → (rs : List R) → any p (delete q rs) ≡ any p rs
  any-delete_other p q h rs =
      any-find p (delete q rs) ∙ ap is_some (find-delete_other p q h rs) ∙ sym (any-find p rs)

  pub update_none : (p : R → Bool) (f : R → R) (rs : List R) → any p rs ≡ false → update p f rs ≡ rs
  unfolding any update
  update_none p f [] e = refl
  update_none p f (x ∷ rs) e = ground (arith, update_none p f rs)

  -- A test that an update does not look at.
  pub any-update_same :
      (q p : R → Bool) (f : R → R)
      → ((r : R) → q (f r) ≡ q r)
      → (rs : List R) → any q (update p f rs) ≡ any q rs
  unfolding any update
  any-update_same q p f h [] = refl
  any-update_same q p f h (x ∷ rs) = ground (arith, h x, any-update_same q p f h rs)

  -- A row that a query found meets another test.
  pub any-of_find :
      (q p : R → Bool) (rs : List R) (r : R) → find p rs ≡ some r → q r ≡ true → any q rs ≡ true
  unfolding any find
  any-of_find q p [] r e h = absurd (cc)
  any-of_find q p (x ∷ rs) r e h = ground (arith, any-of_find q p rs r, Bool-cases (q x))

  pub any-append_one :
      (q : R → Bool) (rs : List R) (new : R) → any q (rs ++ new ∷ []) ≡ (any q rs || q new)
  unfolding any
  any-append_one q [] new = ground (arith, Bool-cases (q new))
  any-append_one q (x ∷ rs) new = ground (arith, any-append_one q rs new, Bool-cases (q x))

  pub find-append_one :
      (p : R → Bool) (rs : List R) (new : R)
      → any p rs ≡ false
      → find p (rs ++ new ∷ []) ≡ (if p new then some new else none)
  unfolding find any
  find-append_one p [] new e = refl
  find-append_one p (x ∷ rs) new e = ground (arith, find-append_one p rs new)

  pub find-append_miss :
      (p : R → Bool) (rs : List R) (new : R) → p new ≡ false → find p (rs ++ new ∷ []) ≡ find p rs
  find-append_miss p rs new e = find-append_other p rs new e
