-- ===== src/Capital/Policies.antt =====
-- football/capital/policies.py: the seven staking policies. A policy class with its validated
-- configuration is a constructor of `Policy`; `none` is the exception of a division by a zero
-- `price - 1`, or of a `None` price or probability used in arithmetic.
pub mod Bounds
pub mod Recovery
pub mod Config
use finsport.Prelude.{
  ℕ, zero, suc, ◌+◌, Bool, true, false, not, Option, none, some, ltb, if◌then◌else◌, ◌>>=◌,
}
use finsport.Decimal.{
  Decimal, whole, add, sub, mul, div, ceiling, lt_decimal, le_decimal, min_decimal, eq_decimal,
}
use finsport.Capital.Contracts.{
  CapitalDecision, StakeRequest, PolicyState, no_reason, max_recovery_steps,
  capped_recovery_shortfall, no_positive_kelly_edge, running, steps_exhausted,
}

abbrev pub zero_decimal : Decimal
zero_decimal = whole 0

-- The bounds of `LegacyCappedPolicy`; at least one is set (`make_capped`).
pub record Caps : Type 0 where
  pub max_stake_fraction : Option Decimal
  pub max_absolute_stake : Option Decimal
  pub max_steps : Option ℕ

pub data Policy : Type 0 where
  flat_unit : Decimal → Policy
  fixed_fraction : Decimal → Policy
  fixed_target : Decimal → Policy
  legacy_recovery : Decimal → Policy
  legacy_capped : Decimal → Caps → Policy
  legacy_partial : Decimal → Decimal → Policy
  fractional_kelly : Decimal → Policy

abbrev pub requires_probability : Policy → Bool
requires_probability (fractional_kelly _) = true
requires_probability (flat_unit _) = false
requires_probability (fixed_fraction _) = false
requires_probability (fixed_target _) = false
requires_probability (legacy_recovery _) = false
requires_probability (legacy_capped _ _) = false
requires_probability (legacy_partial _ _) = false

abbrev pub is_recovery : Policy → Bool
is_recovery (legacy_recovery _) = true
is_recovery (legacy_capped _ _) = true
is_recovery (legacy_partial _ _) = true
is_recovery (flat_unit _) = false
is_recovery (fixed_fraction _) = false
is_recovery (fixed_target _) = false
is_recovery (fractional_kelly _) = false

abbrev pub initial_state : PolicyState
initial_state = record { target = none; accumulated_loss = zero_decimal; step = 0 }

-- `StakeRequest(stake, stake)`, and with a step and a target.
abbrev pub plain_request : Decimal → StakeRequest
plain_request stake = record {
  requested = stake;
  applied = stake;
  reason = no_reason;
  cap_hit = false;
  shortfall = zero_decimal;
  termination_reason = running;
  step = none;
  target_profit = none;
}

abbrev pub step_request : Decimal → ℕ → Decimal → StakeRequest
step_request stake n target =
    let r = plain_request stake in record r { step = some n; target_profit = some target }

-- `decision.price - 1`
abbrev pub net_odds : CapitalDecision → Option Decimal
net_odds d = elim d.price [ none ↦ none | some p ↦ some (sub p (whole 1)) ]

request_fixed_target : Decimal → CapitalDecision → Option StakeRequest
request_fixed_target target d = do
  odds ← net_odds d
  stake ← div target odds
  some (plain_request stake)

-- `LegacyRecoveryPolicy.request`
request_recovery : Decimal → CapitalDecision → PolicyState → Option StakeRequest
request_recovery initial_stake d s = do
  odds ← net_odds d
  elim s.target [
    | none ↦ some (step_request initial_stake (s.step + 1) (mul initial_stake odds))
    | some target ↦ do
      requested ← div (add target s.accumulated_loss) odds
      some (step_request (ceiling requested) (s.step + 1) target)
  ]

-- The requested stake and the target of `LegacyCappedPolicy.request`.
capped_wish : Decimal → CapitalDecision → PolicyState → Option (Decimal × Decimal)
capped_wish initial_stake d s = do
  odds ← net_odds d
  elim s.target [
    | none ↦ some (initial_stake, mul initial_stake odds)
    | some target ↦ do
      requested ← div (add target s.accumulated_loss) odds
      some (requested, target)
  ]

-- `max_recovery_steps is not None and step > max_recovery_steps`
abbrev pub steps_exceeded : Option ℕ → ℕ → Bool
steps_exceeded none n = false
steps_exceeded (some most) n = ltb most n

unfoldable pub fraction_cap : Option Decimal → Decimal → Decimal → Decimal
fraction_cap none bankroll cap = cap
fraction_cap (some fraction) bankroll cap = min_decimal cap (mul fraction bankroll)

unfoldable pub absolute_cap : Option Decimal → Decimal → Decimal
absolute_cap none cap = cap
absolute_cap (some most) cap = min_decimal cap most

pub capped_stake : Caps → Decimal → Decimal → Decimal
capped_stake caps bankroll requested =
    absolute_cap caps.max_absolute_stake (fraction_cap caps.max_stake_fraction bankroll requested)

abbrev exhausted_request : Decimal → ℕ → Decimal → StakeRequest
exhausted_request requested n target = record {
  requested = requested;
  applied = zero_decimal;
  reason = max_recovery_steps;
  cap_hit = true;
  shortfall = requested;
  termination_reason = steps_exhausted;
  step = some n;
  target_profit = some target;
}

abbrev capped_request : Decimal → Decimal → ℕ → Decimal → StakeRequest
capped_request requested cap n target =
    let hit = lt_decimal cap requested in
    record {
      requested = requested;
      applied = cap;
      reason = if hit then capped_recovery_shortfall else no_reason;
      cap_hit = hit;
      shortfall = sub requested cap;
      termination_reason = running;
      step = some n;
      target_profit = some target;
    }

capped_outcome : Caps → Decimal → PolicyState → Decimal × Decimal → StakeRequest
capped_outcome caps bankroll s (requested, target) =
    if steps_exceeded caps.max_steps (s.step + 1)
    then exhausted_request requested (s.step + 1) target
    else capped_request requested (capped_stake caps bankroll requested) (s.step + 1) target

request_capped : Decimal → Caps → CapitalDecision → Decimal → PolicyState → Option StakeRequest
unfolding capped_wish capped_outcome
request_capped initial_stake caps d bankroll s = do
  wish ← capped_wish initial_stake d s
  some (capped_outcome caps bankroll s wish)

request_partial : Decimal → Decimal → CapitalDecision → PolicyState → Option StakeRequest
request_partial target alpha d s = do
  odds ← net_odds d
  requested ← div (add target (mul alpha s.accumulated_loss)) odds
  some (step_request requested (s.step + 1) target)

abbrev no_edge_request : StakeRequest
no_edge_request = let r = plain_request zero_decimal in record r { reason = no_positive_kelly_edge }

kelly_stake : Decimal → Decimal → CapitalDecision → Decimal → Option StakeRequest
kelly_stake fraction edge d bankroll = do
  odds ← net_odds d
  full ← div edge odds
  some (plain_request (mul (mul fraction full) bankroll))

-- `FractionalKellyPolicy.request`
request_kelly : Decimal → CapitalDecision → Decimal → Option StakeRequest
request_kelly fraction d bankroll = do
  probability ← d.probability
  price ← d.price
  let edge = sub (mul probability price) (whole 1)
  let placed = kelly_stake fraction edge d bankroll
  if le_decimal edge zero_decimal then some no_edge_request else placed

unfoldable pub request : Policy → CapitalDecision → Decimal → PolicyState → Option StakeRequest
unfolding request_fixed_target request_recovery capped_stake request_capped request_partial
    kelly_stake request_kelly
request (flat_unit unit) d bankroll s = some (plain_request unit)
request (fixed_fraction fraction) d bankroll s = some (plain_request (mul fraction bankroll))
request (fixed_target target) d bankroll s = request_fixed_target target d
request (legacy_recovery stake) d bankroll s = request_recovery stake d s
request (legacy_capped stake caps) d bankroll s = request_capped stake caps d bankroll s
request (legacy_partial target alpha) d bankroll s = request_partial target alpha d s
request (fractional_kelly fraction) d bankroll s = request_kelly fraction d bankroll

abbrev or_else {ℓ} : {A : Type ℓ} → Option A → Option A → Option A
or_else (some a) b = some a
or_else none b = b

abbrev step_or_zero : Option ℕ → ℕ
step_or_zero (some n) = n
step_or_zero none = 0

-- `RecoveryPolicy.settle`: the new state, and the length of a sequence that a win completes.
settle_recovery : PolicyState → StakeRequest → Bool → PolicyState × Option ℕ
settle_recovery s r true = (initial_state, r.step)
settle_recovery s r false = (
  record {
    target = or_else s.target r.target_profit;
    accumulated_loss = add s.accumulated_loss r.applied;
    step = step_or_zero r.step;
  },
  none,
)

unfoldable pub settle : Policy → PolicyState → StakeRequest → Bool → PolicyState × Option ℕ
unfolding settle_recovery
settle p s r won = if is_recovery p then settle_recovery s r won else (s, none)
