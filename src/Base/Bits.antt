-- ===== src/Base/Bits.antt =====
-- When `|` and `^` of two numbers are zero, for comparisons that gather differences.
use Prim.Native.Nat.{
  ℕ, zero, suc, ◌+◌, ◌*◌, ◌/◌, ◌%◌, ◌≤◌, max, bit_or, bit_xor, digits, bitwise, differ,
  bit_or-bitwise, bit_xor-bitwise,
}
use mathlib.Core.Path.{◌≡◌, refl, ap, sym}
use native.Mathlib.Omega.{arith}

module _ (z : ℕ → ℕ) (f : ℕ → ℕ → ℕ) where
  -- Any count of digits that is large enough gives the same number.
  digits_enough : (n m a b : ℕ) → a ≤ n → a ≤ m → digits z f n a b ≡ digits z f m a b
  digits_enough zero zero a b p q = refl
  digits_enough zero (suc m) zero b p q = refl
  digits_enough (suc n) zero zero b p q = refl
  digits_enough (suc n) (suc m) zero b p q = refl
  digits_enough (suc n) (suc m) (suc a) b p q =
      omega (arith, digits_enough n m (suc a / 2) (b / 2) (omega arith) (omega arith))
  digits_enough zero m (suc a) b p q = absurd (omega arith)
  digits_enough n zero (suc a) b p q = absurd (omega arith)

  bitwise_step :
      (a b : ℕ)
      → bitwise z f (suc a) b ≡ bitwise z f (suc a / 2) (b / 2) * 2 + f (suc a % 2) (b % 2)
  bitwise_step a b =
      omega (arith, digits_enough a (suc a / 2) (suc a / 2) (b / 2) (omega arith) (omega arith))

-- Two digits that do not differ are equal.
differ_zero : (x y : ℕ) → differ x y ≡ 0 → x ≡ y
differ_zero zero y h = omega arith
differ_zero (suc x) zero h = omega arith
differ_zero (suc x) (suc y) h = ap suc (differ_zero x y h)

differ_self : (x : ℕ) → differ x x ≡ 0
differ_self zero = refl
differ_self (suc x) = differ_self x

-- `a | b` is zero only where both are.
or_zero : (n a b : ℕ) → a ≤ n → bit_or a b ≡ 0 → (a ≡ 0) × (b ≡ 0)
or_zero n zero b p h = (refl, rw (bit_or-bitwise zero b) at h)
or_zero zero (suc a) b p h = absurd (omega arith)
or_zero (suc n) (suc a) b p h =
    let step = bitwise_step (λ y. y) max a b in
    let half = bit_or-bitwise (suc a / 2) (b / 2) in
    let whole = bit_or-bitwise (suc a) b in
    let (x, y) = or_zero n (suc a / 2) (b / 2) (omega arith) (omega arith) in
    (omega arith, omega arith)

-- `a ^ b` is zero only where they are equal.
xor_zero : (n a b : ℕ) → a ≤ n → bit_xor a b ≡ 0 → a ≡ b
xor_zero n zero b p h = sym (rw (bit_xor-bitwise zero b) at h)
xor_zero zero (suc a) b p h = absurd (omega arith)
xor_zero (suc n) (suc a) b p h =
    let step = bitwise_step (λ y. y) differ a b in
    let half = bit_xor-bitwise (suc a / 2) (b / 2) in
    let whole = bit_xor-bitwise (suc a) b in
    let low = differ_zero (suc a % 2) (b % 2) (omega arith) in
    let high = xor_zero n (suc a / 2) (b / 2) (omega arith) (omega arith) in omega arith

xor_self : (n a : ℕ) → a ≤ n → bit_xor a a ≡ 0
xor_self n zero p = bit_xor-bitwise zero zero
xor_self zero (suc a) p = absurd (omega arith)
xor_self (suc n) (suc a) p =
    let step = bitwise_step (λ y. y) differ a (suc a) in
    let half = bit_xor-bitwise (suc a / 2) (suc a / 2) in
    let whole = bit_xor-bitwise (suc a) (suc a) in
    omega (arith, xor_self n (suc a / 2) (omega arith), differ_self (suc a % 2))

pub bit_or-eq-zero : (a b : ℕ) → bit_or a b ≡ 0 → (a ≡ 0) × (b ≡ 0)
bit_or-eq-zero a b = or_zero a a b (omega arith)

pub bit_xor-eq-zero : (a b : ℕ) → bit_xor a b ≡ 0 → a ≡ b
bit_xor-eq-zero a b = xor_zero a a b (omega arith)

pub bit_xor_self : (a : ℕ) → bit_xor a a ≡ 0
bit_xor_self a = xor_self a a (omega arith)
