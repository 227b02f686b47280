-- ===== src/Runtime/State.antt =====
-- The rows of football/models.py that the runtime keeps: CapitalRuntimeConfig, CapitalExecutionState,
-- CapitalPosition, and the frozen evidence of a candidate (CapitalExecutionBasis).
use finsport.Prelude.{
  ℕ, Bool, true, false, Option, none, some, List, [], ◌∷◌, ◌==◌, if◌then◌else◌, count_if, keep,
}
use finsport.Decimal.{Decimal, sub}
use finsport.Capital.Contracts.{Action, PolicyState}
use finsport.Capital.Policies.{Policy}

pub data ConfigStatus : Type 0 where
  active terminated complete degraded : ConfigStatus

abbrev pub is_active : ConfigStatus → Bool
is_active active = true
is_active terminated = false
is_active complete = false
is_active degraded = false

-- `termination_reason`; the empty string is `none`.
pub data ConfigEnd : Type 0 where
  max_recovery_steps bankroll_depleted : ConfigEnd

-- `NON_PLACEMENT_REASONS`
pub data Reason : Type 0 where
  no_bet_decision strategy_draining strategy_stopped pre_global input_quotes_missing : Reason
  ineligible_execution_quote authority_evidence_mismatch execution_price_mismatch : Reason
  awaiting_final_open_settlement operational_depletion : Reason
  unavailable_no_decision_at_execution no_execution_price missed_execution_window : Reason
  expired_capacity insufficient_available_cash ineligible : Reason

-- A runtime configuration is one simulated bankroll. `strategic` says that the identity starts
-- with fs022: or fs023:, and `policy` is the policy that its code and configuration make.
pub record RuntimeConfig : Type 0 where
  pub pk : ℕ
  pub strategic : Bool
  pub automatic : Bool
  pub entry_enabled : Bool
  pub current : Bool
  pub policy : Policy
  pub max_lanes : ℕ
  pub bankroll_equity : Decimal
  pub reserved_exposure : Decimal
  pub policy_state : PolicyState
  pub status : ConfigStatus
  pub practical_ruin : Bool
  pub termination_reason : Option ConfigEnd
  pub completed_at : Option ℕ
  pub peak_equity : Decimal
  pub peak_reserved_exposure : Decimal
  pub maximum_drawdown : Decimal

-- `CapitalRuntimeConfig.available_cash`
abbrev pub available_cash : RuntimeConfig → Decimal
available_cash c = sub c.bankroll_equity c.reserved_exposure

-- The evidence of one opportunity, as `ExecutionCandidate` holds it and an execution basis freezes
-- it; the kickoff is not of the evidence, but read from the match. `work_valid` says that the capture work item meets the tests of `_candidate_from_basis`.
pub record Candidate : Type 0 where
  pub match_id : ℕ
  pub event_at : ℕ
  pub executed_at : ℕ
  pub work_valid : Bool
  pub decision : Option ℕ
  pub action : Action
  pub selected_price : Option Decimal
  pub selected_observation_id : Option ℕ
  pub model_probability : Option Decimal

pub data StateStatus : Type 0 where
  pending pending_capacity placed not_placed : StateStatus

abbrev pub awaits_capacity : StateStatus → Bool
awaits_capacity pending_capacity = true
awaits_capacity pending = false
awaits_capacity placed = false
awaits_capacity not_placed = false

-- `status__in=PENDING`
abbrev pub is_pending : StateStatus → Bool
is_pending pending = true
is_pending pending_capacity = true
is_pending placed = false
is_pending not_placed = false

pub data WaitReason : Type 0 where
  no_available_lane short_of_cash : WaitReason

-- The keys that the runtime writes into `diagnostics`; `policy_reason` says that the key is there.
pub record Diagnostics : Type 0 where
  pub reason : Option WaitReason
  pub requested_stake : Option Decimal
  pub available : Option Decimal
  pub policy_reason : Bool
  pub placed_after_capacity_wait : Bool
  pub previous_status : Option StateStatus

abbrev pub no_diagnostics : Diagnostics
no_diagnostics = record {
  reason = none;
  requested_stake = none;
  available = none;
  policy_reason = false;
  placed_after_capacity_wait = false;
  previous_status = none;
}

pub record ExecutionState : Type 0 where
  pub match_id : ℕ
  pub status : StateStatus
  pub reason : Option Reason
  pub basis : Option Candidate
  pub has_position : Bool
  pub terminal_at : Option ℕ
  pub diagnostics : Diagnostics

pub data PositionStatus : Type 0 where
  open_position settled_win settled_loss void : PositionStatus

abbrev pub is_open : PositionStatus → Bool
is_open open_position = true
is_open settled_win = false
is_open settled_loss = false
is_open void = false

pub data DebtStatus : Type 0 where
  current_debt overdue degraded_debt resolved : DebtStatus

abbrev pub is_resolved : DebtStatus → Bool
is_resolved resolved = true
is_resolved current_debt = false
is_resolved overdue = false
is_resolved degraded_debt = false

-- `result_refresh_error`, less the text of an exception; the empty string is `none`.
pub data RefreshError : Type 0 where
  result_conflict_found result_conflict_pending waiting_for_fixture bsd_nonterminal : RefreshError
  refresh_degraded : RefreshError

pub record Position : Type 0 where
  pub match_id : ℕ
  pub basis : Candidate
  pub status : PositionStatus
  pub placed_at : ℕ
  pub next_result_check_at : Option ℕ
  pub requested_stake : Decimal
  pub applied_stake : Decimal
  pub policy_step : Option ℕ
  pub target_profit : Option Decimal
  pub policy_state_before : PolicyState
  pub policy_state_after : PolicyState
  pub cap_hit : Bool
  pub shortfall : Decimal
  pub settled_at : Option ℕ
  pub realized_pnl : Decimal
  pub debt_status : DebtStatus
  pub result_refresh_attempted_at : Option ℕ
  pub result_refresh_error : Option RefreshError

-- One bankroll with its rows.
pub record Account : Type 0 where
  pub config : RuntimeConfig
  pub states : List ExecutionState
  pub positions : List Position

abbrev pub open_positions : List Position → List Position
open_positions = keep (λ p. is_open p.status)

abbrev pub open_count : List Position → ℕ
open_count = count_if (λ p. is_open p.status)

-- `.filter(config=config, match=match).first()`
unfoldable pub find_state : ℕ → List ExecutionState → Option ExecutionState
find_state m [] = none
find_state m (s ∷ rest) = if s.match_id == m then some s else find_state m rest

-- `state.save()`: the row of the same match is written.
unfoldable pub save_state : ExecutionState → List ExecutionState → List ExecutionState
save_state t [] = []
save_state t (s ∷ rest) = if s.match_id == t.match_id then t ∷ rest else s ∷ save_state t rest
