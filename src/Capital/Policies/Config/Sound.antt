-- ===== src/Capital/Policies/Config/Sound.antt =====
-- What a policy that `make_policy` accepts is known to satisfy.
use mathlib.Core.Path.{subst}
use finsport.Prelude.{
  ℕ, ◌≡◌, refl, ◌≢◌, ◌⊎◌, inl, inr, Bool, true, false, Option, none, some, arith, ◌&&◌, ◌<◌,
  if◌then◌else◌,
}
use finsport.Decimal.{Decimal, whole, eq_decimal}
use finsport.Decimal.Order.{◌≼◌, ◌≺◌, not_lt_decimal→≼, not_le_decimal→≺}
use finsport.Capital.Policies.{
  Policy, Caps, flat_unit, fixed_fraction, fixed_target, legacy_recovery, legacy_capped,
  legacy_partial, fractional_kelly,
}
use finsport.Capital.Policies.Config.{
  Raw, RawConfig, Checked, ok, raised, Minimum, strict, inclusive, below, decimal_config,
  optional_config, steps_config, make_fraction, make_capped, make_partial, make_one, make_policy,
  PolicyCode, flat_unit_code, fixed_fraction_code, fixed_target_code, legacy_recovery_code,
  legacy_capped_code, legacy_partial_code, fractional_kelly_code, unknown_code, is_unset, ◌>>=◌,
  missing, binary_float, unparsable, non_finite, number, RawSteps, PolicyConfigError,
}

abbrev pub IsAbove : Minimum → Decimal → Type 0
IsAbove strict v = whole 0 ≺ v
IsAbove inclusive v = whole 0 ≼ v

abbrev pub IsBounded : Option Decimal → Bool → Type 0
IsBounded none capped = Unit
IsBounded (some v) capped = (whole 0 ≺ v) × (capped ≡ true → v ≼ whole 1)

abbrev pub IsCaps : Caps → Type 0
IsCaps caps =
    IsBounded caps.max_stake_fraction true
    × IsBounded caps.max_absolute_stake false
    × ((n : ℕ) → caps.max_steps ≡ some n → 0 < n)
    × ((caps.max_stake_fraction ≢ none)
        ⊎ (caps.max_absolute_stake ≢ none)
        ⊎ (caps.max_steps ≢ none))

-- The ranges that the docstrings and constructors promise for each policy.
abbrev pub IsSound : Policy → Type 0
IsSound (flat_unit u) = whole 0 ≺ u
IsSound (fixed_fraction f) = (whole 0 ≺ f) × (f ≺ whole 1)
IsSound (fixed_target t) = whole 0 ≺ t
IsSound (legacy_recovery i) = whole 0 ≺ i
IsSound (legacy_capped i caps) = (whole 0 ≺ i) × IsCaps caps
IsSound (legacy_partial t a) = (whole 0 ≺ t) × (whole 0 ≼ a) × (a ≼ whole 1)
IsSound (fractional_kelly l) = (whole 0 ≺ l) × (l ≼ whole 1)

bind-eq-ok {ℓ κ} :
    {A : Type ℓ} {B : Type κ} (m : Checked A) (f : A → Checked B) {b : B}
    → (m >>= f) ≡ ok b
    → (a : A) × (m ≡ ok a) × (f a ≡ ok b)
bind-eq-ok (ok a) f h = (a, refl, h)
bind-eq-ok (raised e) f h = cc

same_of_ok {ℓ} : {A : Type ℓ} {a b : A} → ok a ≡ ok b → a ≡ b
same_of_ok h = cc

not_below : (m : Minimum) (v : Decimal) → below m v ≡ false → IsAbove m v
unfolding below
not_below strict v h = not_le_decimal→≺ v (whole 0) h
not_below inclusive v h = not_lt_decimal→≼ v (whole 0) h

decimal_config_bounds :
    (raw : Raw) (m : Minimum) (capped : Bool) {v : Decimal}
    → decimal_config raw m capped ≡ ok v
    → IsAbove m v × (capped ≡ true → v ≼ whole 1)
unfolding decimal_config
decimal_config_bounds (number w) m capped h =
    ground (arith, not_below m w, not_lt_decimal→≼ (whole 1) w)
decimal_config_bounds missing m capped h = cc
decimal_config_bounds binary_float m capped h = cc
decimal_config_bounds unparsable m capped h = cc
decimal_config_bounds non_finite m capped h = cc

make_one-IsSound :
    (raw : Raw) (capped : Bool) (policy : Decimal → Policy) {p : Policy}
    → ((v : Decimal) → whole 0 ≺ v → (capped ≡ true → v ≼ whole 1) → IsSound (policy v))
    → make_one raw capped policy ≡ ok p
    → IsSound p
unfolding make_one
make_one-IsSound raw capped policy sound h =
    let (v, read, is) = bind-eq-ok (decimal_config raw strict capped) _ h in
    let (low, high) = decimal_config_bounds raw strict capped read in
    subst IsSound (same_of_ok is) (sound v low high)

ok_of_else {ℓ} :
    {A : Type ℓ} {a p : A} (e : PolicyConfigError) (b : Bool)
    → (if b then raised e else ok a) ≡ ok p
    → (b ≡ false) × (a ≡ p)
ok_of_else e true h = cc
ok_of_else e false h = (refl, same_of_ok h)

lt_of_le_ne : (a b : Decimal) → a ≼ b → eq_decimal a b ≡ false → a ≺ b
unfolding eq_decimal
lt_of_le_ne a b h e = ground arith

some_is_set :
    (f m : Option Decimal) (n : Option ℕ)
    → (is_unset f && (is_unset m && is_unset n)) ≡ false
    → (f ≢ none) ⊎ (m ≢ none) ⊎ (n ≢ none)
unfolding is_unset
some_is_set (some f) m n h = inl (λ e. cc)
some_is_set none (some m) n h = inr (inl (λ e. cc))
some_is_set none none (some n) h = inr (inr (λ e. cc))
some_is_set none none none h = cc

make_fraction-IsSound : (c : RawConfig) {p : Policy} → make_fraction c ≡ ok p → IsSound p
unfolding make_fraction
make_fraction-IsSound c h =
    let (v, read, is) = bind-eq-ok (decimal_config c.fraction strict true) _ h in
    let (low, high) = decimal_config_bounds c.fraction strict true read in
    let (differs, same) = ok_of_else _ (eq_decimal v (whole 1)) is in
    subst IsSound same (low, lt_of_le_ne v (whole 1) (high refl) differs)

make_partial-IsSound : (c : RawConfig) {p : Policy} → make_partial c ≡ ok p → IsSound p
unfolding make_partial
make_partial-IsSound c h =
    let (t, read, next) = bind-eq-ok (decimal_config c.target_profit strict false) _ h in
    let (a, read', is) = bind-eq-ok (decimal_config c.alpha inclusive true) _ next in
    let (low, high) = decimal_config_bounds c.alpha inclusive true read' in
    subst IsSound (same_of_ok is)
      ((decimal_config_bounds c.target_profit strict false read).0, low, high refl)

optional_sound :
    (raw : Raw) (capped : Bool) {v : Option Decimal}
    → optional_config raw capped ≡ ok v
    → IsBounded v capped
unfolding optional_config
optional_sound missing capped h = subst (λ v. IsBounded v capped) (same_of_ok h) tt
optional_sound raw capped h =
    let (v, read, is) = bind-eq-ok (decimal_config raw strict capped) _ h in
    subst (λ v. IsBounded v capped) (same_of_ok is) (decimal_config_bounds raw strict capped read)

steps_sound :
    (raw : RawSteps) {n : Option ℕ} → steps_config raw ≡ ok n → (k : ℕ) → n ≡ some k → 0 < k
unfolding steps_config
steps_sound raw h k e = ground arith

make_capped-IsSound : (c : RawConfig) {p : Policy} → make_capped c ≡ ok p → IsSound p
unfolding make_capped
make_capped-IsSound c h =
    let (i, read, next) = bind-eq-ok (decimal_config c.initial_stake strict false) _ h in
    let (f, read_f, next) = bind-eq-ok (optional_config c.max_stake_fraction true) _ next in
    let (m, read_m, next) = bind-eq-ok (optional_config c.max_absolute_stake false) _ next in
    let (n, read_n, is) = bind-eq-ok (steps_config c.max_recovery_steps) _ next in
    let (set, same) = ok_of_else _ (is_unset f && (is_unset m && is_unset n)) is in
    subst IsSound same (
      (decimal_config_bounds c.initial_stake strict false read).0,
      (
        optional_sound c.max_stake_fraction true read_f,
        optional_sound c.max_absolute_stake false read_m,
        steps_sound c.max_recovery_steps read_n,
        some_is_set f m n set,
      ),
    )

-- A policy that `make_policy` builds has its parameters in range: stakes, units and targets are
-- positive, fractions lie in their interval, and a capped policy has at least one valid cap.
pub make_policy-IsSound :
    (code : PolicyCode) (c : RawConfig) {p : Policy} → make_policy code c ≡ ok p → IsSound p
unfolding make_policy
make_policy-IsSound flat_unit_code c h =
    make_one-IsSound c.unit false flat_unit (λ v low high. low) h
make_policy-IsSound fixed_fraction_code c h = make_fraction-IsSound c h
make_policy-IsSound fixed_target_code c h =
    make_one-IsSound c.target_profit false fixed_target (λ v low high. low) h
make_policy-IsSound legacy_recovery_code c h =
    make_one-IsSound c.initial_stake false legacy_recovery (λ v low high. low) h
make_policy-IsSound legacy_capped_code c h = make_capped-IsSound c h
make_policy-IsSound legacy_partial_code c h = make_partial-IsSound c h
make_policy-IsSound fractional_kelly_code c h =
    make_one-IsSound c.lambda true fractional_kelly (λ v low high. (low, high refl)) h
make_policy-IsSound unknown_code c h = cc
