-- ===== src/Runtime/Place/Steps.antt =====
-- The stages of `place_candidate` (football/capital/runtime.py), from the last to the first.
use finsport.Prelude.{
  ℕ, ◌+◌, true, false, ◌||◌, ◌&&◌, none, some, List, [], ◌∷◌, ◌++◌, leb, if◌then◌else◌,
}
use finsport.Decimal.{Decimal, add, lt_decimal, le_decimal, max_decimal}
use finsport.Capital.Contracts.{CapitalDecision, StakeRequest, has_terminated}
use finsport.Capital.Policies.{request, zero_decimal}
use finsport.Runtime.State.{
  RuntimeConfig, Candidate, ExecutionState, Position, terminated, max_recovery_steps,
  available_cash, placed, open_position, current_debt, save_state, no_diagnostics,
  missed_execution_window, expired_capacity, ineligible,
}
use finsport.Strategy.Deployment.{raised}
use finsport.Runtime.Place.{
  Placing, done, raised, Call, position_placed, negative_available_cash, stake_constraint,
  arithmetic, terminal_state, always_refused, terminalize_pending, refuse, wait_for_cash,
}

module _ (column : Decimal → Decimal) where
  -- `config.save(update_fields=["reserved_exposure", "peak_reserved_exposure", …])`
  abbrev pub reserve : RuntimeConfig → Decimal → RuntimeConfig
  reserve c reserved = record c {
    reserved_exposure = column reserved;
    peak_reserved_exposure = column (max_decimal c.peak_reserved_exposure reserved);
  }

  -- `CapitalPosition.objects.create(…)`
  abbrev pub new_position : Call → ℕ → StakeRequest → Position
  new_position c at r =
      let before = c.account.config.policy_state in
      record {
        match_id = c.candidate.match_id;
        basis = c.candidate;
        status = open_position;
        placed_at = at;
        next_result_check_at = some (c.kickoff + 7800);
        requested_stake = column r.requested;
        applied_stake = column r.applied;
        policy_step = r.step;
        target_profit = r.target_profit;
        policy_state_before = before;
        policy_state_after = before;
        cap_hit = r.cap_hit;
        shortfall = column r.shortfall;
        settled_at = none;
        realized_pnl = zero_decimal;
        debt_status = current_debt;
        result_refresh_attempted_at = none;
        result_refresh_error = none;
      }

  abbrev pub placed_row : Candidate → ExecutionState
  placed_row k = record {
    match_id = k.match_id;
    status = placed;
    reason = none;
    basis = some k;
    has_position = true;
    terminal_at = none;
    diagnostics = no_diagnostics;
  }

  abbrev pub placed_states : Call → List ExecutionState
  placed_states c = elim c.state [
    | none ↦ c.account.states ++ placed_row c.candidate ∷ []
    | some s ↦
        (let notes = s.diagnostics in
          save_state
            (record s {
              status = placed;
              has_position = true;
              diagnostics = record notes { placed_after_capacity_wait = true };
            })
            c.account.states)
  ]

  -- The reservation of the stake, and the position, whose table asks for a positive stake.
  unfoldable pub book : Call → ℕ → StakeRequest → Placing
  book c at r =
      let config = c.account.config in
      let reserved = add config.reserved_exposure r.applied in
      if lt_decimal config.bankroll_equity reserved
      then raised negative_available_cash
      else if le_decimal (column r.applied) zero_decimal
      then raised stake_constraint
      else done
          (record {
            config = reserve config reserved;
            states = placed_states c;
            positions = c.account.positions ++ new_position c at r ∷ [];
          })
          position_placed

  -- A strategic configuration reads the clock once more.
  unfoldable pub recheck : Call → StakeRequest → Placing
  unfolding book
  recheck c r =
      let strategic = c.account.config.strategic in
      if strategic && leb c.kickoff c.later
      then elim c.state [
        | some s ↦ terminalize_pending c.account s expired_capacity c.later false
        | none ↦ always_refused (
            terminal_state c.account c.candidate missed_execution_window c.later (some c.candidate)
              no_diagnostics)
      ]
      else book c (if strategic then c.later else c.placement_at) r

  abbrev pub terminate : RuntimeConfig → ℕ → RuntimeConfig
  terminate c at = record c {
    status = terminated;
    practical_ruin = true;
    termination_reason = some max_recovery_steps;
    completed_at = some at;
  }

  abbrev pub with_config : Call → RuntimeConfig → Call
  with_config c config = let a = c.account in record c { account = record a { config = config } }

  -- What the request decides.
  unfoldable pub fund : Call → StakeRequest → Placing
  unfolding recheck
  fund c r =
      let k = c.candidate in
      if has_terminated r.termination_reason
      then refuse (with_config c (terminate c.account.config k.event_at)) ineligible k.event_at
          (some k) true
      else if le_decimal r.requested zero_decimal || le_decimal r.applied zero_decimal
      then refuse c ineligible k.event_at (some k) true
      else if lt_decimal (available_cash c.account.config) r.requested
      then wait_for_cash c r.requested
      else recheck c r

  abbrev pub capital_decision : Candidate → ℕ → CapitalDecision
  capital_decision k pk = record {
    source_id = pk;
    decision_time = k.event_at;
    action = k.action;
    outcome = none;
    price = k.selected_price;
    probability = k.model_probability;
    observation_id = k.selected_observation_id;
    observation_time = some k.executed_at;
  }

  unfoldable pub stake : Call → ℕ → Placing
  unfolding fund
  stake c pk =
      let config = c.account.config in
      elim (request config.policy (capital_decision c.candidate pk) config.bankroll_equity
        config.policy_state) [ none ↦ raised arithmetic | some r ↦ fund c r ]
