-- ===== src/Capital/Contracts.antt =====
-- football/capital/contracts.py: the data that the policies and the replay exchange.
use finsport.Prelude.{ℕ, Bool, true, false, Option, some}
use finsport.Decimal.{Decimal}

-- `Match.OUTCOMES`. The empty outcome of an undecided match is `none`.
pub data Outcome : Type 0 where
  home draw away : Outcome

pub data Action : Type 0 where
  no_bet : Action
  back : Outcome → Action

abbrev pub same_outcome : Outcome → Outcome → Bool
same_outcome home home = true
same_outcome draw draw = true
same_outcome away away = true
same_outcome _ _ = false

-- `decision.action == decision.outcome`
abbrev pub action_won : Action → Option Outcome → Bool
action_won (back o) (some o') = same_outcome o o'
action_won _ _ = false

-- Times are seconds since a fixed origin.
pub record CapitalDecision : Type 0 where
  pub source_id : ℕ
  pub decision_time : ℕ
  pub action : Action
  pub outcome : Option Outcome
  pub price : Option Decimal
  pub probability : Option Decimal
  pub observation_id : Option ℕ
  pub observation_time : Option ℕ

abbrev pub is_back : Action → Bool
is_back no_bet = false
is_back (back _) = true

-- `CapitalDecision.actionable`
abbrev pub actionable : CapitalDecision → Bool
actionable d = is_back d.action

-- The reasons that a stake request can carry; the empty string is `no_reason`.
pub data StakeReason : Type 0 where
  no_reason max_recovery_steps capped_recovery_shortfall no_positive_kelly_edge no_bet_placed :
      StakeReason

-- `termination_reason`; the empty string is `running`.
pub data Termination : Type 0 where
  running steps_exhausted insufficient_capital bankroll_depleted : Termination

abbrev pub has_terminated : Termination → Bool
has_terminated running = false
has_terminated _ = true

pub record StakeRequest : Type 0 where
  pub requested : Decimal
  pub applied : Decimal
  pub reason : StakeReason
  pub cap_hit : Bool
  pub shortfall : Decimal
  pub termination_reason : Termination
  pub step : Option ℕ
  -- `metadata["target_profit"]`, the only key that the code sets
  pub target_profit : Option Decimal

-- The policy state: `target_profit`, `accumulated_loss` and `step` of a recovery policy. The empty
-- dictionary of the other policies is the initial state, which they never read.
pub record PolicyState : Type 0 where
  pub target : Option Decimal
  pub accumulated_loss : Decimal
  pub step : ℕ

pub record ReplayLedgerRow : Type 0 where
  pub source_id : ℕ
  pub batch_time : ℕ
  pub batch_index : ℕ
  pub step : Option ℕ
  pub requested_stake : Decimal
  pub applied_stake : Decimal
  pub bankroll_before : Decimal
  pub bankroll_after : Decimal
  pub profit_loss : Decimal
  pub action : Action
  pub outcome : Option Outcome
  pub price : Option Decimal
  pub capital_reason : StakeReason
  pub policy_state : PolicyState
  pub cap_hit : Bool
  pub shortfall : Decimal
  pub practical_ruin : Bool
  pub termination_reason : Termination
