-- ===== src/Base/Order.antt =====
-- The order of texts, sorting by it, sets of texts as lists, and the parsing of `usize`.
use Prim.Native.Nat.{ℕ, ◌+◌, ◌-◌, ◌*◌, ◌^◌}
use mathlib.Core.Bool.{Bool, true, false, ◌&&◌, ◌||◌}
use mathlib.Core.List.{List, [], ◌∷◌}
use mathlib.Core.Option.{Option, none, some}
use ilink_hub.Base.Tests.{ltb, leb, ◌==◌, if◌then◌else◌}
use ilink_hub.Base.Texts.{Text, text_eq}

-- The lexicographic order, as of `str`.
unfoldable pub text_le : Text → Text → Bool
text_le [] ys = true
text_le (x ∷ xs) [] = false
text_le (x ∷ xs) (y ∷ ys) = if ltb x y then true else if x == y then text_le xs ys else false

-- `HashSet::contains`.
unfoldable pub contains : Text → List Text → Bool
contains x [] = false
contains x (y ∷ ys) = text_eq y x || contains x ys

module _ {ℓ} {A : Type ℓ} (le : A → A → Bool) where
  unfoldable pub place : A → List A → List A
  place a [] = a ∷ []
  place a (x ∷ xs) = if le a x then a ∷ x ∷ xs else x ∷ place a xs

  -- A stable sort.
  unfoldable pub sort_by : List A → List A
  unfolding place
  sort_by [] = []
  sort_by (x ∷ xs) = place x (sort_by xs)

-- The digits of a number below 2^64, after what is read already.
unfoldable pub parse_digits : ℕ → Text → Option ℕ
parse_digits acc [] = some acc
parse_digits acc (c ∷ cs) =
    let acc' = acc * 10 + (c - b'0') in
    if leb b'0' c && leb c b'9' && ltb acc' (2 ^ 64) then parse_digits acc' cs else none

abbrev pub drop_plus : Text → Text
drop_plus [] = []
drop_plus (c ∷ cs) = if c == b'+' then cs else c ∷ cs

abbrev pub parse_nonempty : Text → Option ℕ
parse_nonempty [] = none
parse_nonempty (c ∷ cs) = parse_digits 0 (c ∷ cs)

-- `str::parse::<usize>().ok()` on a 64-bit target: an optional plus sign and at least one digit.
unfoldable pub parse_usize : Text → Option ℕ
unfolding parse_digits
parse_usize t = parse_nonempty (drop_plus t)
