-- ===== src/Capital/Replay.antt =====
-- football/capital/replay.py: a chronological decision history staked by one policy, batch by batch
-- of decisions with the same time.
pub mod Groups
pub mod Validation
pub mod Loop
pub mod Settlement
pub mod Accounts
pub mod Total
use finsport.Prelude.{
  ℕ, zero, suc, ◌+◌, ◌<◌, Bool, true, false, not, ◌||◌, ◌&&◌, Option, none, some, List, [], ◌∷◌,
  ◌++◌, map, ltb, leb, ◌==◌, if◌then◌else◌, ◌>>=◌, any, all, keep, count_if, groupby,
}
use finsport.Decimal.{Decimal, whole, add, sub, mul, neg, lt_decimal, le_decimal, sum_from}
use finsport.Capital.Contracts.{
  CapitalDecision, StakeRequest, PolicyState, ReplayLedgerRow, Outcome, actionable, action_won,
  Termination, running, insufficient_capital, bankroll_depleted, has_terminated, no_bet_placed,
}
use finsport.Capital.Policies.{
  Policy, request, settle, requires_probability, is_recovery, initial_state, zero_decimal,
  plain_request, net_odds,
}

pub data Unavailable : Type 0 where
  missing_timestamp_valid_price invalid_decimal_price unresolved_outcome : Unavailable
  missing_model_probability concurrent_recovery_step invalid_initial_bankroll : Unavailable
  insufficient_resolved_decisions : Unavailable

abbrev pub is_set {ℓ} : {A : Type ℓ} → Option A → Bool
is_set none = false
is_set (some a) = true

-- `observation_time is None or observation_time >= decision_time`
abbrev pub not_before : Option ℕ → ℕ → Bool
not_before none decided = true
not_before (some t) decided = leb decided t

-- `price is None or observation_id is None or observation_time is None or
-- observation_time >= decision_time`
abbrev pub lacks_timely_price : CapitalDecision → Bool
lacks_timely_price d =
    not (is_set d.price)
    || (not (is_set d.observation_id) || not_before d.observation_time d.decision_time)

-- `decision.price <= 1`
abbrev pub price_too_low : Option Decimal → Bool
price_too_low none = false
price_too_low (some p) = le_decimal p (whole 1)

-- `_validate_actionable`: `some` is the reason that is raised.
unfoldable pub validate_actionable : CapitalDecision → Policy → Bool → Option Unavailable
validate_actionable d p require_outcome =
    if not (actionable d)
    then none
    else if lacks_timely_price d
    then some missing_timestamp_valid_price
    else if price_too_low d.price
    then some invalid_decimal_price
    else if require_outcome && not (is_set d.outcome)
    then some unresolved_outcome
    else if requires_probability p && not (is_set d.probability)
    then some missing_model_probability
    else none

unfoldable pub validate_each : List CapitalDecision → Policy → Bool → Option Unavailable
unfolding validate_actionable
validate_each [] p require_outcome = none
validate_each (d ∷ ds) p require_outcome =
    let rest = validate_each ds p require_outcome in
    elim (validate_actionable d p require_outcome) [ none ↦ rest | some reason ↦ some reason ]

-- A decision time with the decisions of that time that follow one another.
abbrev pub Batch : Type 0
Batch = ℕ × List CapitalDecision

-- `groupby(decisions, key=lambda row: row.decision_time)`
unfoldable pub group_by_time : List CapitalDecision → List Batch
group_by_time ds = groupby {A = CapitalDecision} (λ d. d.decision_time) ds

abbrev pub crowded : Batch → Bool
crowded (t, ds) = ltb 1 (count_if actionable ds)

unfoldable pub validate_basis : List CapitalDecision → Policy → Bool → Option Unavailable
unfolding validate_each group_by_time
validate_basis ds p require_outcome = elim (validate_each ds p require_outcome) [
  | some reason ↦ some reason
  | none ↦
      if is_recovery p && any crowded (group_by_time ds)
      then some concurrent_recovery_step
      else none
]

-- `policy_zero_request()`
abbrev pub policy_zero_request : StakeRequest
policy_zero_request = let r = plain_request zero_decimal in record r { reason = no_bet_placed }

abbrev pub Asked : Type 0
Asked = CapitalDecision × Option StakeRequest

abbrev pub request_or_zero : Option StakeRequest → StakeRequest
request_or_zero none = policy_zero_request
request_or_zero (some r) = r

unfoldable pub ask : Policy → Decimal → PolicyState → CapitalDecision → Option (Option StakeRequest)
ask p bankroll s d =
    if actionable d then (request p d bankroll s >>= λ r. some (some r)) else some none

-- The requests of a batch, all from the same bankroll and state.
unfoldable pub batch_requests :
    Policy → Decimal → PolicyState → List CapitalDecision → Option (List Asked)
unfolding ask
batch_requests p bankroll s [] = some []
batch_requests p bankroll s (d ∷ ds) = do
  r ← ask p bankroll s d
  rest ← batch_requests p bankroll s ds
  some ((d, r) ∷ rest)

abbrev pub ends_run : Asked → Bool
ends_run (d, none) = false
ends_run (d, some r) = has_terminated r.termination_reason

-- `sum((request.requested for request in requests if request), ZERO)`
unfoldable pub requested_stakes : List Asked → List Decimal
requested_stakes [] = []
requested_stakes ((d, none) ∷ rest) = requested_stakes rest
requested_stakes ((d, some r) ∷ rest) = r.requested ∷ requested_stakes rest

-- `_ledger_row`
abbrev pub ledger_row :
    CapitalDecision
    → StakeRequest
    → ℕ
    → Decimal
    → Decimal
    → Decimal
    → PolicyState
    → Bool
    → ReplayLedgerRow
ledger_row d r index before after pnl s ruin = record {
  source_id = d.source_id;
  batch_time = d.decision_time;
  batch_index = index;
  step = r.step;
  requested_stake = r.requested;
  applied_stake = r.applied;
  bankroll_before = before;
  bankroll_after = after;
  profit_loss = pnl;
  action = d.action;
  outcome = d.outcome;
  price = d.price;
  capital_reason = r.reason;
  policy_state = s;
  cap_hit = r.cap_hit;
  shortfall = r.shortfall;
  practical_ruin = ruin;
  termination_reason = r.termination_reason;
}
