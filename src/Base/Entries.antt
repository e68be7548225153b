-- ===== src/Base/Entries.antt =====
-- Predicates that hold of every entry of a map, and the operations that keep them.
use mathlib.Core.Path.{◌≡◌, subst₂}
use mathlib.Core.Bool.{Bool}
use mathlib.Core.Logic.{inl, inr}
use mathlib.Core.Option.{some}
use native.Mathlib.Omega.{arith}
use ilink_hub.Base.Tests.{Bool-cases}
use ilink_hub.Base.Texts.{Text, text_eq, text_eq_iff}
use ilink_hub.Base.Map.{
  Map, lookup, insert, remove, retain, lookup-insert, lookup-remove, lookup-retain,
}

abbrev pub Entries {ℓ κ} : {V : Type ℓ} → (Text → V → Type κ) → Map V → Type (ℓ ⊔ κ)
Entries P m = (k : Text) (v : _) → lookup k m ≡ some v → P k v

module _ {ℓ κ} {V : Type ℓ} (P : Text → V → Type κ) where
  pub Entries-insert :
      (k : Text) (new : V) (m : Map V) → P k new → Entries P m → Entries P (insert k new m)
  Entries-insert k new m h all j v e = elim (Bool-cases (text_eq k j)) [
    | inl same ↦
        let stored : new ≡ v = ground (arith, lookup-insert k j new m) in
        subst₂ P ((text_eq_iff k j).0 same) stored h
    | inr other ↦ all j v (rw (lookup-insert k j new m, other) at e)
  ]

  pub Entries-remove : (k : Text) (m : Map V) → Entries P m → Entries P (remove k m)
  Entries-remove k m all j v e = all j v (ground (arith, lookup-remove k j m))

  pub Entries-retain : (p : V → Bool) (m : Map V) → Entries P m → Entries P (retain p m)
  Entries-retain p m all j v e = all j v (ground (arith, lookup-retain p j m))
