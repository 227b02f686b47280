-- ===== src/Capital/Policies/Config.antt =====
-- `_decimal`, the constructors and `make_policy` of football/capital/policies.py: a configuration
-- dictionary is a value for each key that the code reads.
pub mod Sound
use finsport.Prelude.{
  ℕ, suc, ◌≤◌, ◌≡◌, ◌≢◌, ◌⊎◌, inl, inr, Bool, true, false, ◌||◌, ◌&&◌, Option, none, some, arith,
  ltb, ℤ, pos, negsuc, if◌then◌else◌, Bool-cases,
}
use finsport.Decimal.{Decimal, whole, lt_decimal, le_decimal, eq_decimal}
use finsport.Decimal.Order.{◌≼◌, ◌≺◌, not_lt_decimal→≼, not_le_decimal→≺}
use finsport.Capital.Policies.{
  Policy, Caps, flat_unit, fixed_fraction, fixed_target, legacy_recovery, legacy_capped,
  legacy_partial, fractional_kelly,
}

-- What stands under a key, as `_decimal` tells it apart.
pub data Raw : Type 0 where
  missing binary_float unparsable non_finite : Raw
  number : Decimal → Raw

-- `config.get("max_recovery_steps")`
pub data RawSteps : Type 0 where
  absent not_an_integer : RawSteps
  integer : ℤ → RawSteps

pub record RawConfig : Type 0 where
  pub unit : Raw
  pub fraction : Raw
  pub target_profit : Raw
  pub initial_stake : Raw
  pub max_stake_fraction : Raw
  pub max_absolute_stake : Raw
  pub max_recovery_steps : RawSteps
  pub alpha : Raw
  pub lambda : Raw

pub data PolicyConfigError : Type 0 where
  missing_policy_config binary_float_not_allowed invalid_decimal non_finite_config below_minimum :
      PolicyConfigError
  above_maximum must_be_less_than_one invalid_max_recovery_steps : PolicyConfigError
  requires_explicit_bound unknown_capital_policy : PolicyConfigError

pub data Checked {ℓ} (A : Type ℓ) : Type ℓ where
  ok : A → Checked A
  raised : PolicyConfigError → Checked A

infixl 5 ◌>>=◌
abbrev pub ◌>>=◌ {ℓ κ} : {A : Type ℓ} {B : Type κ} → Checked A → (A → Checked B) → Checked B
ok a >>= f = f a
raised e >>= f = raised e

-- The minimum of `_decimal` is zero wherever it is used; the maximum, where given, is one.
pub data Minimum : Type 0 where
  strict inclusive : Minimum

below : Minimum → Decimal → Bool
below strict value = le_decimal value (whole 0)
below inclusive value = lt_decimal value (whole 0)

pub decimal_config : Raw → Minimum → Bool → Checked Decimal
decimal_config missing minimum capped = raised missing_policy_config
decimal_config binary_float minimum capped = raised binary_float_not_allowed
decimal_config unparsable minimum capped = raised invalid_decimal
decimal_config non_finite minimum capped = raised non_finite_config
decimal_config (number value) minimum capped =
    if below minimum value
    then raised below_minimum
    else if capped && lt_decimal (whole 1) value
    then raised above_maximum
    else ok value

-- `if key in config: … = _decimal(…)`
optional_config : Raw → Bool → Checked (Option Decimal)
optional_config missing capped = ok none
optional_config raw capped = do value ← decimal_config raw strict capped; ok (some value)

steps_config : RawSteps → Checked (Option ℕ)
steps_config absent = ok none
steps_config not_an_integer = raised invalid_max_recovery_steps
steps_config (integer (pos n)) = if ltb n 1 then raised invalid_max_recovery_steps else ok (some n)
steps_config (integer (negsuc n)) = raised invalid_max_recovery_steps

is_unset : {A : Type 0} → Option A → Bool
is_unset none = true
is_unset (some a) = false

make_fraction : RawConfig → Checked Policy
make_fraction c = do
  fraction ← decimal_config c.fraction strict true
  if eq_decimal fraction (whole 1)
      then raised must_be_less_than_one
      else ok (fixed_fraction fraction)

abbrev pub capped_by : Option Decimal → Option Decimal → Option ℕ → Caps
capped_by fraction absolute steps = record {
  max_stake_fraction = fraction;
  max_absolute_stake = absolute;
  max_steps = steps;
}

-- `LegacyCappedPolicy.__init__`
make_capped : RawConfig → Checked Policy
make_capped c = do
  initial_stake ← decimal_config c.initial_stake strict false
  fraction ← optional_config c.max_stake_fraction true
  absolute ← optional_config c.max_absolute_stake false
  steps ← steps_config c.max_recovery_steps
  if is_unset fraction && (is_unset absolute && is_unset steps)
      then raised requires_explicit_bound
      else ok (legacy_capped initial_stake (capped_by fraction absolute steps))

make_partial : RawConfig → Checked Policy
make_partial c = do
  target ← decimal_config c.target_profit strict false
  alpha ← decimal_config c.alpha inclusive true
  ok (legacy_partial target alpha)

pub data PolicyCode : Type 0 where
  flat_unit_code fixed_fraction_code fixed_target_code legacy_recovery_code : PolicyCode
  legacy_capped_code legacy_partial_code fractional_kelly_code unknown_code : PolicyCode

make_one : Raw → Bool → (Decimal → Policy) → Checked Policy
make_one raw capped policy = do value ← decimal_config raw strict capped; ok (policy value)

unfoldable pub make_policy : PolicyCode → RawConfig → Checked Policy
unfolding below decimal_config optional_config steps_config is_unset make_fraction make_capped
    make_partial make_one
make_policy flat_unit_code c = make_one c.unit false flat_unit
make_policy fixed_fraction_code c = make_fraction c
make_policy fixed_target_code c = make_one c.target_profit false fixed_target
make_policy legacy_recovery_code c = make_one c.initial_stake false legacy_recovery
make_policy legacy_capped_code c = make_capped c
make_policy legacy_partial_code c = make_partial c
make_policy fractional_kelly_code c = make_one c.lambda true fractional_kelly
make_policy unknown_code c = raised unknown_capital_policy
