-- ===== src/Runtime/Place.antt =====
-- `place_candidate` of football/capital/runtime.py on one bankroll. `column` is what a 24,8 numeric
-- column gives back for a value written to it; `now` and `later` are the two readings of the clock,
-- `planning_at` the argument `at`, `kickoff` that of the match as its row is read under lock, and
-- `validated` the reason that `validate_candidate` of football/strategy/prospective.py returns for
-- evidence and the basis of the state, if there is one.
-- `raised` rolls the transaction back, so it carries no account.
pub mod Steps
pub mod Entry
pub mod Outcome
pub mod Booking
pub mod Admission
pub mod Guards
pub mod Final
use finsport.Prelude.{
  ℕ, zero, suc, ◌+◌, Bool, true, false, not, ◌||◌, ◌&&◌, Option, none, some, List, [], ◌∷◌, ◌++◌,
  leb, ltb, ◌==◌, if◌then◌else◌,
}
use finsport.Decimal.{Decimal, add, lt_decimal, le_decimal, max_decimal}
use finsport.Capital.Contracts.{CapitalDecision, StakeRequest, has_terminated, is_back}
use finsport.Capital.Policies.{request, zero_decimal}
use finsport.Runtime.State.{
  RuntimeConfig, Candidate, ExecutionState, Diagnostics, Position, Account, Reason, no_diagnostics,
  active, terminated, max_recovery_steps, is_active, available_cash, pending_capacity, placed,
  not_placed, awaits_capacity, open_count, open_position, current_debt, no_available_lane,
  short_of_cash, find_state, save_state, no_bet_decision, unavailable_no_decision_at_execution,
  no_execution_price, missed_execution_window, expired_capacity, ineligible, WaitReason,
}
use finsport.Strategy.Deployment.{Deployment, DeploymentError, Verdict, admission_reason, is_config}
use finsport.Strategy.Deployment

pub data Placement : Type 0 where
  position_placed position_refused waits_for_capacity no_work : Placement

pub data PlaceError : Type 0 where
  partial_execution_basis negative_available_cash arithmetic stake_constraint : PlaceError
  deployment_error : DeploymentError → PlaceError

pub data Placing : Type 0 where
  done : Account → Placement → Placing
  raised : PlaceError → Placing

abbrev pub Validation : Type 0
Validation = Candidate → Option Candidate → Option Reason

-- The variables of one call that the later stages read.
pub record Call : Type 0 where
  pub account : Account
  pub state : Option ExecutionState
  pub candidate : Candidate
  pub kickoff : ℕ
  pub placement_at : ℕ
  pub later : ℕ

abbrev pub terminal_row : Candidate → Reason → ℕ → Option Candidate → Diagnostics → ExecutionState
terminal_row k reason at basis notes = record {
  match_id = k.match_id;
  status = not_placed;
  reason = some reason;
  basis = basis;
  has_position = false;
  terminal_at = some at;
  diagnostics = notes;
}

abbrev pub with_states : Account → List ExecutionState → Account
with_states a states = record a { states = states }

-- `_terminal_state`: `get_or_create` on the pair of configuration and match.
unfoldable pub terminal_state :
    Account → Candidate → Reason → ℕ → Option Candidate → Diagnostics → Account × Bool
terminal_state a k reason at basis notes = elim (find_state k.match_id a.states) [
  | some s ↦ (a, false)
  | none ↦ (with_states a (a.states ++ terminal_row k reason at basis notes ∷ []), true)
]

-- `return "NOT_PLACED" if created else "NO_WORK"`
abbrev pub created_code : Account × Bool → Placing
created_code (a, created) = done a (if created then position_refused else no_work)

abbrev pub always_refused : Account × Bool → Placing
always_refused (a, created) = done a position_refused

abbrev pub with_note : Bool → Diagnostics → Diagnostics
with_note ended notes = record notes { policy_reason = ended || notes.policy_reason }

-- `_terminalize_pending`
unfoldable pub terminalize_pending : Account → ExecutionState → Reason → ℕ → Bool → Placing
terminalize_pending a s reason at ended =
    let t = record s {
      status = not_placed;
      reason = some reason;
      terminal_at = some at;
      diagnostics = with_note ended s.diagnostics;
    } in
    done (with_states a (save_state t a.states)) position_refused

-- The exits that end a pending opportunity, or record a new one as not placed.
unfoldable pub refuse : Call → Reason → ℕ → Option Candidate → Bool → Placing
unfolding terminalize_pending terminal_state
refuse c reason at basis ended = elim c.state [
  | some s ↦ terminalize_pending c.account s reason c.placement_at ended
  | none ↦
      always_refused
        (terminal_state c.account c.candidate reason at basis (with_note ended no_diagnostics))
]

abbrev pub waiting_row : Candidate → Diagnostics → ExecutionState
waiting_row k notes = record {
  match_id = k.match_id;
  status = pending_capacity;
  reason = none;
  basis = some k;
  has_position = false;
  terminal_at = none;
  diagnostics = notes;
}

-- A new pending row, or the notes of the pending row that is there.
unfoldable pub wait_new : Call → Diagnostics → Placing
wait_new c notes =
    let a = c.account in
    done (with_states a (a.states ++ waiting_row c.candidate notes ∷ [])) waits_for_capacity

unfoldable pub wait_for_lane : Call → Placing
unfolding wait_new
wait_for_lane c =
    let notes = no_diagnostics in
    elim c.state [
      | none ↦ wait_new c (record notes { reason = some no_available_lane })
      | some s ↦ done c.account no_work
    ]

unfoldable pub wait_for_cash : Call → Decimal → Placing
unfolding wait_new
wait_for_cash c requested =
    let empty = no_diagnostics in
    let notes = record empty {
      reason = some short_of_cash;
      requested_stake = some requested;
      available = some (available_cash c.account.config);
    } in
    elim c.state [
      | none ↦ wait_new c notes
      | some s ↦
          done
            (with_states c.account (save_state (record s { diagnostics = notes }) c.account.states))
            no_work
    ]
