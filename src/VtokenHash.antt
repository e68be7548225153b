-- ===== src/VtokenHash.antt =====
-- src/hub/vtoken_hash.rs: the canonical form of a client token. `sha256` stands for the digest of
-- the `ring` crate.
use ilink_hub.Base.{
  ℕ, ◌+◌, ◌-◌, ◌*◌, ◌/◌, ◌%◌, ◌<◌, ◌≡◌, ◌↔◌, refl, ap, Text, List, [], ◌∷◌, Bool, true, ◌&&◌, ◌||◌,
  leb, ltb, ◌==◌, not, if◌then◌else◌, length, All, arith,
}
use ilink_hub.Base.Utf8.{as_bytes, as_bytes_ascii}

-- The table `HEX` of lowercase digits.
abbrev hex_digit : ℕ → ℕ
hex_digit n = if ltb n 10 then b'0' + n else b'a' + n - 10

unfoldable pub hex_lower : List ℕ → Text
hex_lower [] = []
hex_lower (b ∷ bs) = hex_digit (b / 16) ∷ hex_digit (b % 16) ∷ hex_lower bs

unfoldable pub hash_vtoken : (List ℕ → List ℕ) → Text → Text
unfolding hex_lower
hash_vtoken sha256 plain = hex_lower (sha256 (as_bytes plain))

abbrev is_ascii_hexdigit : ℕ → Bool
is_ascii_hexdigit b =
    leb b'0' b && leb b b'9' || (leb b'a' b && leb b b'f' || leb b'A' b && leb b b'F')

abbrev is_ascii_uppercase : ℕ → Bool
is_ascii_uppercase b = leb b'A' b && leb b b'Z'

unfoldable pub all_hex : List ℕ → Bool
all_hex [] = true
all_hex (b ∷ bs) = (is_ascii_hexdigit b && not (is_ascii_uppercase b)) && all_hex bs

unfoldable pub is_vtoken_hash : Text → Bool
unfolding all_hex
is_vtoken_hash s = length (as_bytes s) == 64 && all_hex (as_bytes s)

-- The two digits of a byte determine it.
hex_digit-injective : (m n : ℕ) → m < 16 → n < 16 → hex_digit m ≡ hex_digit n → m ≡ n
hex_digit-injective m n p q h = ground arith

pub hex_lower-injective :
    (a b : List ℕ) → All (λ x. x < 256) a → All (λ x. x < 256) b → hex_lower a ≡ hex_lower b → a ≡ b
unfolding hex_lower
hex_lower-injective [] [] p q h = refl
hex_lower-injective [] (y ∷ b) p q h = cc
hex_lower-injective (x ∷ a) [] p q h = cc
hex_lower-injective (x ∷ a) (y ∷ b) p q h = ground (
  arith,
  hex_digit-injective (x / 16) (y / 16),
  hex_digit-injective (x % 16) (y % 16),
  hex_lower-injective a b p.1 q.1,
)

hex_digit_lem :
    (n : ℕ)
    → n < 16
    → (hex_digit n < 128)
      × ((is_ascii_hexdigit (hex_digit n) && not (is_ascii_uppercase (hex_digit n))) ≡ true)
hex_digit_lem n h = ground arith

hex_lower_lem :
    (bs : List ℕ)
    → All (λ x. x < 256) bs
    → All (λ c. c < 128) (hex_lower bs)
      × (length (hex_lower bs) ≡ 2 * length bs)
      × (all_hex (hex_lower bs) ≡ true)
unfolding hex_lower all_hex
hex_lower_lem [] h = (tt, refl, refl)
hex_lower_lem (b ∷ bs) h =
    let (plain, sized, hex) = hex_lower_lem bs h.1 in
    let (p, p') = hex_digit_lem (b / 16) (omega arith) in
    let (q, q') = hex_digit_lem (b % 16) (omega arith) in
    ((p, (q, plain)), omega (arith, sized), rw (p', q') hex)

-- With a digest of 32 bytes every hashed token passes the guard that the migration uses, and two
-- tokens have one hash exactly if they have one digest.
pub hash_vtoken-is_vtoken_hash :
    (sha256 : List ℕ → List ℕ)
    → ((bytes : List ℕ) → (length (sha256 bytes) ≡ 32) × All (λ x. x < 256) (sha256 bytes))
    → (a b : Text)
    → (is_vtoken_hash (hash_vtoken sha256 a) ≡ true)
      × ((hash_vtoken sha256 a ≡ hash_vtoken sha256 b)
          ↔ (sha256 (as_bytes a) ≡ sha256 (as_bytes b)))
unfolding hash_vtoken is_vtoken_hash
hash_vtoken-is_vtoken_hash sha256 digest a b =
    let (sized, bytes) = digest (as_bytes a) in
    let (plain, doubled, hex) = hex_lower_lem (sha256 (as_bytes a)) bytes in
    let count : length (hex_lower (sha256 (as_bytes a))) ≡ 64 = omega arith in
    (
      rw (as_bytes_ascii (hex_lower (sha256 (as_bytes a))) plain, count, hex) refl,
      (hex_lower-injective _ _ bytes (digest (as_bytes b)).1, ap hex_lower),
    )
