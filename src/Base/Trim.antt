-- ===== src/Base/Trim.antt =====
-- Texts that trimming leaves as they are.
use Prim.Native.Nat.{◌≤◌}
use mathlib.Core.Path.{◌≡◌, refl, ap}
use mathlib.Core.Bool.{false}
use mathlib.Core.List.{[], ◌∷◌, ◌++◌}
use native.Mathlib.Omega.{arith}
use ilink_hub.Base.Texts.{Text, is_empty}
use ilink_hub.Base.Lists.{length}
use ilink_hub.Base.Strings.{trim_start, trim_end, trim}

length-trim_end-le : (t : Text) → length (trim_end t) ≤ length t
unfolding trim_end is_empty
length-trim_end-le [] = omega arith
length-trim_end-le (c ∷ cs) = ground (arith, length-trim_end-le cs)

length-trim_start-le : (t : Text) → length (trim_start t) ≤ length t
unfolding trim_start
length-trim_start-le [] = omega arith
length-trim_start-le (c ∷ cs) = ground (arith, length-trim_start-le cs)

-- A trimmed text starts with no whitespace.
pub trim_start_fixed : (t : Text) → trim t ≡ t → trim_start t ≡ t
unfolding trim trim_start
trim_start_fixed [] h = refl
trim_start_fixed (c ∷ cs) h =
    ground (arith, ap length h, length-trim_end-le (trim_start cs), length-trim_start-le cs)

pub trim_end_fixed : (t : Text) → trim t ≡ t → trim_end t ≡ t
unfolding trim
trim_end_fixed t h = ground (arith, trim_start_fixed t h, h)

nonempty-append : (a b : Text) → is_empty b ≡ false → is_empty (a ++ b) ≡ false
unfolding is_empty
nonempty-append [] b h = h
nonempty-append (c ∷ a) b h = refl

pub trim_end-append :
    (a b : Text) → is_empty (trim_end b) ≡ false → trim_end (a ++ b) ≡ a ++ trim_end b
unfolding trim_end is_empty
trim_end-append [] b h = refl
trim_end-append (c ∷ a) b h =
    ground (arith, trim_end-append a b h, nonempty-append a (trim_end b) h)

pub trim_start-append :
    (a b : Text) → is_empty a ≡ false → trim_start a ≡ a → trim_start (a ++ b) ≡ a ++ b
unfolding trim_start is_empty
trim_start-append [] b full h = cc
trim_start-append (c ∷ a) b full h = ground (arith, ap length h, length-trim_start-le a)

pub trim_trimmed : (t : Text) → trim_start t ≡ t → trim_end t ≡ t → trim t ≡ t
unfolding trim
trim_trimmed t h g = rw h g
