-- ===== src/Decimal/Sign.antt =====
-- Rounding to the context's precision keeps the sign: a positive result does not become zero.
use native.Mathlib.Nat.{one-le-pow, mul-pos, le-div_iff_mul-le, pow-suc}
use finsport.Prelude.{
  ℕ, zero, suc, ◌+◌, ◌-◌, ◌/◌, ◌^◌, ◌≤◌, ◌<◌, ◌≡◌, refl, Bool-cases, inl, inr, arith, ltb, ℤ, pos,
  negsuc, pos_part, neg_part, sub_ℕ,
}
use finsport.Decimal.{
  Decimal, precision, excess_digits, half_even, round_digits, fix, sub, mul, magnitude, left_side,
  mul_coefficients,
}
use finsport.Decimal.Order.{◌≺◌, ◌≼◌}

ten_pow_pos : (n : ℕ) → 0 < 10 ^ n
ten_pow_pos n = one-le-pow n 10 (omega arith)

one_digit_more : (k n : ℕ) → 10 ^ k ≤ n / 10 → 10 ^ suc k ≤ n
one_digit_more k n h = rw pow-suc (omega arith)

-- What is cut off is shorter than the number.
excess_digits_bound : (fuel n : ℕ) → 0 < n → 10 ^ excess_digits fuel n ≤ n
unfolding excess_digits
excess_digits_bound zero n h = h
excess_digits_bound (suc fuel) n h = elim (Bool-cases (ltb n (10 ^ precision))) [
  | inl small ↦ rw small h
  | inr large ↦ rw large (
      one_digit_more (excess_digits fuel (n / 10)) n
        (excess_digits_bound fuel (n / 10) (ground arith)))
]

half_even_pos : (n k : ℕ) → 10 ^ k ≤ n → 0 < half_even n k
unfolding half_even
half_even_pos n k h =
    let q : 0 < n / 10 ^ k = (le-div_iff_mul-le (ten_pow_pos k)).1 (omega arith) in ground arith

round_digits_pos : (n s : ℕ) → 0 < n → 0 < (round_digits n s).0
unfolding round_digits
round_digits_pos n s h =
    let k = excess_digits n n in
    let q = half_even_pos n k (excess_digits_bound n n h) in
    ground (arith, mul-pos q (ten_pow_pos (k - s)))

-- The sign of a decimal, read off its coefficient.
abbrev pub IsPositive : Decimal → Type 0
IsPositive a = (0 < pos_part a.coefficient) × (neg_part a.coefficient ≡ 0)

abbrev pub IsNonneg : Decimal → Type 0
IsNonneg a = neg_part a.coefficient ≡ 0

fix_pos : (c : ℤ) (s : ℕ) → 0 < pos_part c → neg_part c ≡ 0 → IsPositive (fix c s)
unfolding fix
fix_pos (pos n) s h k = (round_digits_pos n s h, refl)
fix_pos (negsuc n) s h k = absurd (omega arith)

fix-IsNonneg : (c : ℤ) (s : ℕ) → neg_part c ≡ 0 → IsNonneg (fix c s)
unfolding fix
fix-IsNonneg (pos n) s h = refl
fix-IsNonneg (negsuc n) s h = absurd (omega arith)

-- A positive difference stays positive, and one that is not negative stays so.
pub sub_pos : (a b : Decimal) → b ≺ a → IsPositive (sub a b)
unfolding sub
sub_pos a b h =
    fix_pos (sub_ℕ (left_side a b) (left_side b a)) (a.scale + b.scale) (ground arith)
      (ground arith)

pub sub-IsNonneg : (a b : Decimal) → b ≼ a → IsNonneg (sub a b)
unfolding sub
sub-IsNonneg a b h =
    fix-IsNonneg (sub_ℕ (left_side a b) (left_side b a)) (a.scale + b.scale) (ground arith)

pub mul-IsNonneg : (a b : Decimal) → IsNonneg a → IsNonneg b → IsNonneg (mul a b)
unfolding mul
mul-IsNonneg a b h k =
    fix-IsNonneg (mul_coefficients a.coefficient b.coefficient) (a.scale + b.scale)
      (rw (h, k) (ground arith))

pub magnitude_pos : (a : Decimal) → IsPositive a → 0 < magnitude a.coefficient
magnitude_pos a h = omega arith
