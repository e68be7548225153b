-- ===== src/Base/Utf8.antt =====
-- The bytes of a text, `str::as_bytes`, and that they determine the text.
use Prim.Native.Nat.{ℕ, ◌+◌, ◌/◌, ◌%◌, ◌<◌}
use mathlib.Core.Path.{◌≡◌, refl}
use mathlib.Core.List.{List, [], ◌∷◌}
use native.Mathlib.Omega.{arith}
use ilink_hub.Base.Tests.{ltb, if◌then◌else◌}
use ilink_hub.Base.Texts.{Text}
use ilink_hub.Base.Lists.{All}

abbrev continuation : ℕ → ℕ
continuation c = 128 + c % 64

abbrev encode : ℕ → List ℕ → List ℕ
encode c rest =
    if ltb c 128
    then c ∷ rest
    else if ltb c 2048
    then (192 + c / 64) ∷ continuation c ∷ rest
    else if ltb c 65536
    then (224 + c / 4096) ∷ continuation (c / 64) ∷ continuation c ∷ rest
    else (240 + c / 262144)
      ∷ continuation (c / 4096)
      ∷ continuation (c / 64)
      ∷ continuation c
      ∷ rest

unfoldable pub as_bytes : Text → List ℕ
as_bytes [] = []
as_bytes (c ∷ cs) = encode c (as_bytes cs)

encode-injective : (c d : ℕ) (r s : List ℕ) → encode c r ≡ encode d s → (c ≡ d) × (r ≡ s)
encode-injective c d r s h = ground arith

pub as_bytes-injective : (a b : Text) → as_bytes a ≡ as_bytes b → a ≡ b
unfolding as_bytes
as_bytes-injective [] [] h = refl
as_bytes-injective [] (d ∷ b) h = absurd (ground arith)
as_bytes-injective (c ∷ a) [] h = absurd (ground arith)
as_bytes-injective (c ∷ a) (d ∷ b) h =
    let (e, rest) = encode-injective c d (as_bytes a) (as_bytes b) h in
    ground (arith, as_bytes-injective a b rest)

pub as_bytes_ascii : (t : Text) → All (λ c. c < 128) t → as_bytes t ≡ t
unfolding as_bytes
as_bytes_ascii [] h = refl
as_bytes_ascii (c ∷ t) h = ground (arith, as_bytes_ascii t h.1)
