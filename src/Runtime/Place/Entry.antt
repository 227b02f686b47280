-- ===== src/Runtime/Place/Entry.antt =====
-- `place_candidate` (football/capital/runtime.py): the tests that come before the request.
use finsport.Prelude.{ℕ, Bool, true, false, not, ◌||◌, ◌&&◌, Option, none, some, leb, if◌then◌else◌}
use finsport.Decimal.{Decimal}
use finsport.Capital.Contracts.{is_back}
use finsport.Runtime.State.{
  Candidate, ExecutionState, Account, Reason, is_active, awaits_capacity, open_count, find_state,
  no_bet_decision, no_diagnostics, unavailable_no_decision_at_execution, no_execution_price,
  expired_capacity, ineligible,
}
use finsport.Strategy.Deployment.{Deployment, ok, raised, admission_reason, is_config}
use finsport.Runtime.Place.{
  Placing, Validation, done, raised, Call, no_work, partial_execution_basis, deployment_error,
  terminal_state, created_code, always_refused, terminalize_pending, wait_for_lane,
}
use finsport.Runtime.Place.Steps.{stake}

-- `state.execution_basis if state else None`
abbrev pub basis_of : Option ExecutionState → Option Candidate
basis_of none = none
basis_of (some s) = s.basis

-- The reason of the admission, or of the evidence when the deployment is of this configuration.
abbrev pub objection : Call → Deployment → Validation → Option Reason
objection c d validated =
    if is_config d.config_id c.account.config.pk
    then validated c.candidate (basis_of c.state)
    else none

module _ (column : Decimal → Decimal) where
  abbrev pub is_missing {ℓ} : {A : Type ℓ} → Option A → Bool
  is_missing none = true
  is_missing (some a) = false

  -- From the basis on: no bet, no price, too late, no lane.
  unfoldable pub enter : Call → ℕ → Placing
  unfolding stake
  enter c pk =
      let k = c.candidate in
      let a = c.account in
      if not (is_back k.action)
      then always_refused (terminal_state a k no_bet_decision k.event_at (some k) no_diagnostics)
      else if is_missing k.selected_price || is_missing k.selected_observation_id
      then always_refused (terminal_state a k no_execution_price k.event_at (some k) no_diagnostics)
      else if is_missing c.state && leb c.kickoff c.placement_at
      then always_refused
          (terminal_state a k expired_capacity c.placement_at (some k) no_diagnostics)
      else if leb a.config.max_lanes (open_count a.positions)
      then wait_for_lane c
      else stake column c pk

  -- A terminal row that says whether it was created.
  abbrev pub turn_away : Call → Reason → ℕ → Placing
  turn_away c reason at = elim c.state [
    | some s ↦ terminalize_pending c.account s reason c.placement_at false
    | none ↦ created_code (terminal_state c.account c.candidate reason at none no_diagnostics)
  ]

  abbrev pub no_decision : Call → Placing
  no_decision c = created_code (
      terminal_state c.account c.candidate unavailable_no_decision_at_execution c.candidate.event_at
        none no_diagnostics)

  unfoldable pub admit : Call → Option Reason → Placing
  unfolding enter
  admit c blocked = elim blocked [
    | some reason ↦ turn_away c reason c.placement_at
    | none ↦
        if not (is_active c.account.config.status)
        then turn_away c ineligible c.candidate.event_at
        else elim c.candidate.decision [ none ↦ no_decision c | some pk ↦ enter c pk ]
  ]

  -- The admission of the call, and what it admits.
  -- The admission of the call, and what it admits.
  unfoldable pub screen : Call → Deployment → Validation → Placing
  unfolding admit
  screen c d validated = elim (admission_reason d c.account.config) [
    | raised e ↦ raised (deployment_error e)
    | ok none ↦ admit c (objection c d validated)
    | ok (some reason) ↦ admit c (some reason)
  ]

  -- A pending opportunity whose kickoff has passed ends before the admission is read.
  unfoldable pub place_at : Call → Deployment → Validation → Placing
  unfolding screen
  place_at c d validated = elim c.state [
    | some s ↦
        if leb c.kickoff c.placement_at
        then terminalize_pending c.account s expired_capacity c.placement_at false
        else screen c d validated
    | none ↦ screen c d validated
  ]

  abbrev pub placing_time : Account → Candidate → ℕ → Option ℕ → ℕ
  placing_time a k now none = if a.config.strategic then now else k.event_at
  placing_time a k now (some at) = if a.config.strategic then now else at

  abbrev pub call_for : Account → Option ExecutionState → Candidate → ℕ → ℕ → ℕ → Option ℕ → Call
  call_for a s k kickoff now later at = record {
    account = a;
    state = s;
    candidate = k;
    kickoff = kickoff;
    placement_at = placing_time a k now at;
    later = later;
  }

  -- `_candidate_from_basis` refuses a basis whose work item it cannot read.
  unfoldable pub resume :
      Account → ExecutionState → ℕ → Deployment → Validation → ℕ → ℕ → Option ℕ → Placing
  unfolding place_at
  resume a s kickoff d validated now later at = elim s.basis [
    | none ↦ raised partial_execution_basis
    | some k ↦
        if k.work_valid
        then place_at (call_for a (some s) k kickoff now later at) d validated
        else raised partial_execution_basis
  ]

  unfoldable pub place_candidate :
      Account → Candidate → ℕ → Deployment → Validation → ℕ → ℕ → Option ℕ → Placing
  unfolding resume place_at find_state
  place_candidate a k kickoff d validated now later at = elim (find_state k.match_id a.states) [
    | none ↦ place_at (call_for a none k kickoff now later at) d validated
    | some s ↦
        if awaits_capacity s.status
        then resume a s kickoff d validated now later at
        else done a no_work
  ]
