-- ===== src/Pairing/Compare.antt =====
-- The constant-time comparison of src/hub/pairing.rs decides equality.
use Prim.Native.Nat.{bit_or, bit_xor}
use ilink_hub.Base.{
  ℕ, ◌≡◌, ◌↔◌, refl, ap, Text, List, [], ◌∷◌, Option, none, some, true, length, arith,
}
use ilink_hub.Base.Bits.{bit_or-eq-zero, bit_xor-eq-zero, bit_xor_self}
use ilink_hub.Base.Utf8.{as_bytes-injective}
use ilink_hub.Pairing.{gather, constant_time_eq, csrf_matches}

gather-eq-zero : (diff : ℕ) (a b : List ℕ) → gather diff a b ≡ 0 → diff ≡ 0
unfolding gather
gather-eq-zero diff [] b h = h
gather-eq-zero diff (x ∷ a) [] h = h
gather-eq-zero diff (x ∷ a) (y ∷ b) h =
    (bit_or-eq-zero diff (bit_xor x y) (gather-eq-zero (bit_or diff (bit_xor x y)) a b h)).0

eq_of_gather : (diff : ℕ) (a b : List ℕ) → length a ≡ length b → gather diff a b ≡ 0 → a ≡ b
unfolding gather
eq_of_gather diff [] [] e h = refl
eq_of_gather diff [] (y ∷ b) e h = absurd (omega arith)
eq_of_gather diff (x ∷ a) [] e h = absurd (omega arith)
eq_of_gather diff (x ∷ a) (y ∷ b) e h =
    let d : ℕ = bit_or diff (bit_xor x y) in
    let parts = bit_or-eq-zero diff (bit_xor x y) (gather-eq-zero d a b h) in
    let same = bit_xor-eq-zero x y parts.1 in cc (same, eq_of_gather d a b (omega arith) h)

gather_self : (a : List ℕ) → gather 0 a a ≡ 0
unfolding gather
gather_self [] = refl
gather_self (x ∷ a) = rw bit_xor_self (gather_self a)

-- The comparison that never stops early holds exactly of equal byte strings.
pub constant_time_eq_iff : (a b : List ℕ) → (constant_time_eq a b ≡ true) ↔ (a ≡ b)
unfolding constant_time_eq
constant_time_eq_iff a b = (
  λ h. eq_of_gather 0 a b (ground arith) (ground arith),
  λ e. rw e (ground (arith, gather_self b)),
)

-- A header is accepted exactly if it is the token of the session.
pub csrf_matches_iff :
    (csrf : Option Text) (header : Text) → (csrf_matches csrf header ≡ true) ↔ (csrf ≡ some header)
csrf_matches_iff none header = (λ h. cc, λ h. cc)
csrf_matches_iff (some token) header = (
  λ h. ap some (as_bytes-injective token header ((constant_time_eq_iff _ _).0 h)),
  λ e. (constant_time_eq_iff _ _).1 (cc),
)
