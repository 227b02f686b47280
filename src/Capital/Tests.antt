-- ===== src/Capital/Tests.antt =====
-- The capital evaluator at concrete inputs.
use finsport.Prelude.{
  ◌≡◌, ◌≢◌, refl, ℕ, true, false, none, some, List, [], ◌∷◌, All, pos, Option, ◌-◌, ◌↔◌,
}
use finsport.Decimal.{
  Decimal, whole, lt_decimal, le_decimal, add, sub, neg, mul, div, ceiling, min_decimal, sum_from,
  quotient,
}
use finsport.Decimal.Order.{◌≼◌}
use finsport.Capital.Contracts.{
  CapitalDecision, StakeRequest, PolicyState, Action, Outcome, home, draw, back, no_bet, running,
}
use finsport.Capital.Policies.{
  Policy, Caps, legacy_recovery, legacy_capped, request, settle, initial_state,
}
use finsport.Capital.Policies.Bounds.{IsCapped, request-IsCapped}
use finsport.Capital.Policies.Recovery.{losing_run, losing_run_sums, recovery_win, LossesSum}
use finsport.Capital.Policies.Config.{
  RawConfig, missing, number, absent, make_policy, legacy_capped_code,
}
use finsport.Capital.Policies.Config.Sound.{make_policy-IsSound, IsSound}
use finsport.Capital.Replay.{
  group_by_time, validate_basis, validate_each, validate_actionable, batch_requests, ask,
  requested_stakes,
}
use finsport.Capital.Replay.Validation.{validate_basis_iff, IsBettable, AreSingle}
use finsport.Capital.Replay.Loop.{
  replay_batches, settle_batch, bet_pnl, after_batch, settled_rows, replay, replayed, ReplayRun,
  arithmetic_error, ReplayOutcome,
}
use finsport.Capital.Replay.Accounts.{replay-Accounts, Accounts}
use finsport.Capital.Metrics.{deterministic_metrics, bankrolls_after}
use finsport.Capital.Metrics.Drawdown.{deterministic_metrics-dips, dips}
use finsport.Capital.Pareto.{RunMetrics, number, summary}
use finsport.Capital.Replay.Total.{replay_never_raises}

abbrev tenths : ℕ → Decimal
tenths n = record { coefficient = pos n; scale = 1 }

-- A bet on the home side at 2.5, observed one minute before, in a match that ends with `o`.
abbrev bet : ℕ → ℕ → Outcome → CapitalDecision
bet id at o = record {
  source_id = id;
  decision_time = at;
  action = back home;
  outcome = some o;
  price = some (tenths 25);
  probability = some (tenths 5);
  observation_id = some id;
  observation_time = some (at - 60);
}

abbrev pass : ℕ → ℕ → CapitalDecision
pass id at = record {
  source_id = id;
  decision_time = at;
  action = no_bet;
  outcome = some draw;
  price = none;
  probability = none;
  observation_id = none;
  observation_time = none;
}

abbrev history : List CapitalDecision
history = bet 1 100 draw ∷ pass 2 100 ∷ bet 3 200 home ∷ []

abbrev caps : Caps
caps = record {
  max_stake_fraction = some (tenths 1);
  max_absolute_stake = some (whole 4);
  max_steps = some 3;
}

abbrev capped_asked : Option StakeRequest
capped_asked = request (legacy_capped (whole 10) caps) (bet 1 100 draw) (whole 50) initial_state

abbrev value_or {ℓ} : {A : Type ℓ} → A → Option A → A
value_or a none = a
value_or a (some b) = b

abbrev nothing_asked : StakeRequest
nothing_asked = record {
  requested = whole 0;
  applied = whole 0;
  reason = finsport.Capital.Contracts.no_reason;
  cap_hit = false;
  shortfall = whole 0;
  termination_reason = running;
  step = none;
  target_profit = none;
}

request-IsCapped_example : IsCapped caps (whole 50) (value_or nothing_asked capped_asked)
unfolding request
request-IsCapped_example =
    request-IsCapped (whole 10) caps (bet 1 100 draw) (whole 50) initial_state refl refl

abbrev losses : List (CapitalDecision × Decimal)
losses = (bet 1 100 draw, whole 100) ∷ (bet 2 200 draw, whole 90) ∷ []

abbrev lost_run : PolicyState × List Decimal
lost_run =
    value_or (initial_state, []) (losing_run (legacy_recovery (whole 10)) initial_state losses)

losing_run_sums_example : LossesSum initial_state 2 lost_run
unfolding losing_run request settle lt_decimal le_decimal add sub neg mul div ceiling min_decimal
    sum_from
losing_run_sums_example =
    losing_run_sums (legacy_recovery (whole 10)) initial_state losses refl refl

recovery_win_example :
    settle
      (legacy_recovery (whole 10))
      lost_run.0
      (value_or nothing_asked
        (request (legacy_recovery (whole 10)) (bet 3 300 home) (whole 60) lost_run.0))
      true
    ≡ (initial_state, some 3)
unfolding losing_run request settle lt_decimal le_decimal add sub neg mul div ceiling min_decimal
    sum_from
recovery_win_example =
    recovery_win (legacy_recovery (whole 10)) losses (bet 3 300 home) (whole 60) refl refl refl

abbrev capped_config : RawConfig
capped_config = record {
  unit = missing;
  fraction = missing;
  target_profit = missing;
  initial_stake = number (whole 10);
  max_stake_fraction = number (tenths 1);
  max_absolute_stake = missing;
  max_recovery_steps = absent;
  alpha = missing;
  lambda = missing;
}

abbrev capped_policy : Policy
capped_policy =
    legacy_capped (whole 10)
      (record { max_stake_fraction = some (tenths 1); max_absolute_stake = none; max_steps = none })

make_policy-IsSound_example : IsSound capped_policy
unfolding make_policy le_decimal lt_decimal
make_policy-IsSound_example = make_policy-IsSound legacy_capped_code capped_config refl

validate_basis_iff_example : (validate_basis history (legacy_recovery (whole 10)) true ≡ none) ↔ (
    All (IsBettable (legacy_recovery (whole 10))) history
    × (true ≡ true → AreSingle (group_by_time history)))
validate_basis_iff_example = validate_basis_iff history (legacy_recovery (whole 10))

abbrev run_or_empty : ReplayOutcome → ReplayRun
run_or_empty (replayed r) = r
run_or_empty _ = record { ledger = []; sequence_lengths = []; incomplete_sequences = 0 }

replay-Accounts_example :
    Accounts
      (whole 100)
      (run_or_empty (replay history (legacy_recovery (whole 10)) (whole 100))).ledger
unfolding replay replay_batches batch_requests ask requested_stakes settle_batch bet_pnl after_batch
    settled_rows validate_basis validate_each validate_actionable group_by_time request settle
    lt_decimal le_decimal add sub neg mul div ceiling min_decimal sum_from quotient
replay-Accounts_example = replay-Accounts history (legacy_recovery (whole 10)) (whole 100) refl

replay_never_raises_example :
    replay history (legacy_recovery (whole 10)) (whole 100) ≢ arithmetic_error
replay_never_raises_example = replay_never_raises history (legacy_recovery (whole 10)) (whole 100)

abbrev recovery_run : ReplayRun
recovery_run = run_or_empty (replay history (legacy_recovery (whole 10)) (whole 100))

deterministic_metrics-dips_example :
    All
      (λ x.
        x
        ≼ (deterministic_metrics history recovery_run.ledger
            (whole 100)
            []
            0).maximum_drawdown_amount)
      (dips (whole 100) (bankrolls_after none recovery_run.ledger))
deterministic_metrics-dips_example =
    deterministic_metrics-dips history recovery_run.ledger (whole 100) [] 0

abbrev careful : RunMetrics
careful = record {
  return_value = some (whole 3);
  total_pnl = none;
  maximum_drawdown = number (tenths 1);
  drawdown_mean = none;
  expected_shortfall = some (whole 1);
  ruin_probability = none;
  practical_ruin = some false;
  stake_concentration = some (tenths 2);
}

abbrev reckless : RunMetrics
reckless =
    let m = careful in
    record m { return_value = some (whole 2); maximum_drawdown = summary (some (tenths 5)) }
