-- ===== src/Decimal/Order.antt =====
-- Comparisons of decimals: a total preorder, and the bounds of `min` and `max`.
use native.Mathlib.Nat.{mul-le-mul_right, mul-lt-mul_of_pos_right, le_of_mul-le-mul_right}
use native.Mathlib.Nat.{lt_of_mul-lt-mul_right, one-le-pow}
use finsport.Prelude.{ℕ, ◌+◌, ◌*◌, ◌^◌, ◌≤◌, ◌<◌, ◌≡◌, inl, inr, true, false, arith, Bool-cases}
use finsport.Decimal.{Decimal, left_side, lt_decimal, le_decimal, min_decimal, max_decimal}

infix 50 ◌≼◌ ◌≺◌
abbrev pub ◌≼◌ : Decimal → Decimal → Type 0
a ≼ b = left_side a b ≤ left_side b a

abbrev pub ◌≺◌ : Decimal → Decimal → Type 0
a ≺ b = left_side a b < left_side b a

pub lt_decimal→≺ : (a b : Decimal) → lt_decimal a b ≡ true → a ≺ b
unfolding lt_decimal
lt_decimal→≺ a b h = ground arith

pub not_lt_decimal→≼ : (a b : Decimal) → lt_decimal a b ≡ false → b ≼ a
unfolding lt_decimal
not_lt_decimal→≼ a b h = ground arith

pub ≺→lt_decimal : (a b : Decimal) → a ≺ b → lt_decimal a b ≡ true
unfolding lt_decimal
≺→lt_decimal a b h = ground arith

pub le_decimal→≼ : (a b : Decimal) → le_decimal a b ≡ true → a ≼ b
unfolding le_decimal
le_decimal→≼ a b h = ground arith

pub not_le_decimal→≺ : (a b : Decimal) → le_decimal a b ≡ false → b ≺ a
unfolding le_decimal
not_le_decimal→≺ a b h = ground arith

pub ≺→not_le_decimal : (a b : Decimal) → b ≺ a → le_decimal a b ≡ false
unfolding le_decimal
≺→not_le_decimal a b h = ground arith

pub ≼→not_lt_decimal : (a b : Decimal) → b ≼ a → lt_decimal a b ≡ false
unfolding lt_decimal
≼→not_lt_decimal a b h = ground arith

pub ≼_refl : (a : Decimal) → a ≼ a
≼_refl a = omega arith

pub ≼_of_≺ : (a b : Decimal) → a ≺ b → a ≼ b
≼_of_≺ a b h = omega arith

-- The comparison of `p / x` parts is transitive across a positive middle denominator.
cross_trans :
    (pa na x pb nb y pc nc z : ℕ)
    → pa * y + nb * x ≤ pb * x + na * y
    → pb * z + nc * y ≤ pc * y + nb * z
    → 0 < y
    → pa * z + nc * x ≤ pc * x + na * z
cross_trans pa na x pb nb y pc nc z h k p =
    le_of_mul-le-mul_right {k = y} (omega (arith, mul-le-mul_right z h, mul-le-mul_right x k)) p

cross_trans_lt :
    (pa na x pb nb y pc nc z : ℕ)
    → pa * y + nb * x ≤ pb * x + na * y
    → pb * z + nc * y < pc * y + nb * z
    → 0 < y
    → 0 < x
    → pa * z + nc * x < pc * x + na * z
cross_trans_lt pa na x pb nb y pc nc z h k p q =
    lt_of_mul-lt-mul_right y (omega (arith, mul-le-mul_right z h, mul-lt-mul_of_pos_right k q))

ten_pow_pos : (n : ℕ) → 0 < 10 ^ n
ten_pow_pos n = one-le-pow n 10 (omega arith)

pub ≼_trans : (a b c : Decimal) → a ≼ b → b ≼ c → a ≼ c
≼_trans a b c h k = cross_trans _ _ _ _ _ _ _ _ _ h k (ten_pow_pos b.scale)

pub ≼-≺_trans : (a b c : Decimal) → a ≼ b → b ≺ c → a ≺ c
≼-≺_trans a b c h k =
    cross_trans_lt _ _ _ _ _ _ _ _ _ h k (ten_pow_pos b.scale) (ten_pow_pos a.scale)

pub min_le_left : (a b : Decimal) → min_decimal a b ≼ a
unfolding min_decimal
min_le_left a b = elim (Bool-cases (lt_decimal b a)) [
  | inl h ↦ ground (arith, lt_decimal→≺ b a h)
  | inr h ↦ ground arith
]

pub min_le_right : (a b : Decimal) → min_decimal a b ≼ b
unfolding min_decimal
min_le_right a b = ground arith

pub left_le_max : (a b : Decimal) → a ≼ max_decimal a b
unfolding max_decimal
left_le_max a b = ground arith

pub right_le_max : (a b : Decimal) → b ≼ max_decimal a b
unfolding max_decimal
right_le_max a b = ground arith
