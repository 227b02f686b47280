-- ===== src/Decimal.antt =====
-- Python's `decimal.Decimal` under the default context, as the capital code uses it: finite values,
-- 28 significant digits, ROUND_HALF_EVEN. A value is `coefficient / 10 ^ scale`; only the numeric
-- value is kept (trailing zeros and the sign of zero, which no comparison reads, are not).
pub mod Order
pub mod Sign
mod Tests
use finsport.Prelude.{
  ℕ, zero, suc, ◌+◌, ◌-◌, ◌*◌, ◌/◌, ◌%◌, ◌^◌, Bool, true, false, not, ◌||◌, ◌&&◌, List, [], ◌∷◌,
  Option, none, some, ltb, leb, ◌==◌, if◌then◌else◌, ℤ, pos, negsuc, pos_part, neg_part, sub_ℕ,
}

pub record Decimal : Type 0 where
  pub coefficient : ℤ
  pub scale : ℕ

-- The context's precision.
abbrev pub precision : ℕ
precision = 28

-- How many low digits must go so that at most 28 are left. The fuel `n` is enough, since every
-- round divides by ten.
unfoldable pub excess_digits : ℕ → ℕ → ℕ
excess_digits zero n = 0
excess_digits (suc fuel) n =
    let rest = suc (excess_digits fuel (n / 10)) in if ltb n (10 ^ precision) then 0 else rest

-- `n / 10 ^ k`, to the nearest whole number, ties to even.
unfoldable pub half_even : ℕ → ℕ → ℕ
half_even n k =
    let q = n / 10 ^ k in
    let twice = 2 * (n % 10 ^ k) in
    if ltb (10 ^ k) twice || (twice == 10 ^ k && q % 2 == 1) then q + 1 else q

-- The magnitude `n / 10 ^ s` rounded to the context's precision, with its scale.
unfoldable pub round_digits : ℕ → ℕ → ℕ × ℕ
unfolding excess_digits half_even
round_digits n s =
    let k = excess_digits n n in
    let q = half_even n k in if leb k s then (q, s - k) else (q * 10 ^ (k - s), 0)

abbrev pub negate : ℤ → ℤ
negate a = sub_ℕ (neg_part a) (pos_part a)

unfoldable pub fix : ℤ → ℕ → Decimal
unfolding round_digits
fix (pos n) s = let (m, t) = round_digits n s in record { coefficient = pos m; scale = t }
fix (negsuc n) s =
    let (m, t) = round_digits (suc n) s in record { coefficient = negate (pos m); scale = t }

-- Both coefficients at the scale `a.scale + b.scale`, split by sign.
abbrev pub left_side : Decimal → Decimal → ℕ
left_side a b = pos_part a.coefficient * 10 ^ b.scale + neg_part b.coefficient * 10 ^ a.scale

-- Comparisons are exact.
unfoldable pub lt_decimal : Decimal → Decimal → Bool
lt_decimal a b = ltb (left_side a b) (left_side b a)

unfoldable pub le_decimal : Decimal → Decimal → Bool
le_decimal a b = leb (left_side a b) (left_side b a)

unfoldable pub eq_decimal : Decimal → Decimal → Bool
eq_decimal a b = left_side a b == left_side b a

abbrev pub whole : ℕ → Decimal
whole n = record { coefficient = pos n; scale = 0 }

unfoldable pub add : Decimal → Decimal → Decimal
unfolding fix
add a b =
    fix
      (sub_ℕ (pos_part a.coefficient * 10 ^ b.scale + pos_part b.coefficient * 10 ^ a.scale)
        (neg_part a.coefficient * 10 ^ b.scale + neg_part b.coefficient * 10 ^ a.scale))
      (a.scale + b.scale)

unfoldable pub sub : Decimal → Decimal → Decimal
unfolding fix
sub a b = fix (sub_ℕ (left_side a b) (left_side b a)) (a.scale + b.scale)

unfoldable pub neg : Decimal → Decimal
unfolding fix
neg a = fix (negate a.coefficient) a.scale

abbrev pub mul_coefficients : ℤ → ℤ → ℤ
mul_coefficients a b =
    sub_ℕ (pos_part a * pos_part b + neg_part a * neg_part b)
      (pos_part a * neg_part b + neg_part a * pos_part b)

unfoldable pub mul : Decimal → Decimal → Decimal
unfolding fix
mul a b = fix (mul_coefficients a.coefficient b.coefficient) (a.scale + b.scale)

abbrev pub magnitude : ℤ → ℕ
magnitude a = pos_part a + neg_part a

-- The number of decimal digits; the fuel `n` is enough.
unfoldable pub count_digits : ℕ → ℕ → ℕ
count_digits zero n = 0
count_digits (suc fuel) n =
    let rest = suc (count_digits fuel (n / 10)) in if n == 0 then 0 else rest

-- A quotient that is not exact is moved off a last digit 0 or 5, so that the rounding sees it.
unfoldable pub sticky_quotient : ℕ → ℕ → ℕ
sticky_quotient n d = let q = n / d in if not (n % d == 0) && q % 5 == 0 then q + 1 else q

-- The magnitude of a quotient of `n / 10 ^ s` by `d / 10 ^ t`, `d` not 0. `up` is more than enough
-- digits for the precision; the exponent is `t - s - up`.
unfoldable pub divide_magnitude : ℕ → ℕ → ℕ → ℕ → ℕ × ℕ
unfolding round_digits sticky_quotient count_digits
divide_magnitude n s d t =
    let up = count_digits d d + precision + 1 in
    let q = sticky_quotient (n * 10 ^ up) d in
    if leb t (s + up) then round_digits q (s + up - t) else round_digits (q * 10 ^ (t - (s + up))) 0

abbrev pub signed : Bool → ℕ × ℕ → Decimal
signed negative (m, t) = record {
  coefficient = if negative then negate (pos m) else pos m;
  scale = t;
}

abbrev pub differ : Bool → Bool → Bool
differ true b = not b
differ false b = b

-- The quotient of two values, the second not zero.
unfoldable pub quotient : Decimal → Decimal → Decimal
unfolding divide_magnitude
quotient a b =
    signed (differ (ltb 0 (neg_part a.coefficient)) (ltb 0 (neg_part b.coefficient)))
      (divide_magnitude (magnitude a.coefficient) a.scale (magnitude b.coefficient) b.scale)

-- `none` is the exception that a division by zero raises.
unfoldable pub div : Decimal → Decimal → Option Decimal
div a b = if magnitude b.coefficient == 0 then none else some (quotient a b)

-- `to_integral_value(rounding=ROUND_CEILING)`: exact, towards positive infinity.
unfoldable pub ceiling : Decimal → Decimal
ceiling a = record {
  coefficient =
      sub_ℕ ((pos_part a.coefficient + (10 ^ a.scale - 1)) / 10 ^ a.scale)
        (neg_part a.coefficient / 10 ^ a.scale);
  scale = 0;
}

-- `min(a, b)` returns its first argument unless the second is smaller; `max` likewise.
unfoldable pub min_decimal : Decimal → Decimal → Decimal
unfolding lt_decimal
min_decimal a b = if lt_decimal b a then b else a

unfoldable pub max_decimal : Decimal → Decimal → Decimal
unfolding lt_decimal
max_decimal a b = if lt_decimal a b then b else a

-- `sum(values, ZERO)` adds from the left.
unfoldable pub sum_from : Decimal → List Decimal → Decimal
sum_from total [] = total
sum_from total (x ∷ xs) = sum_from (add total x) xs
