-- ===== src/Samples.antt =====
-- One bankroll, one opportunity and one deployment, for the tests.
use finsport.Prelude.{true, false, none, some, [], ◌∷◌, pos, ℕ}
use finsport.Decimal.{whole}
use finsport.Capital.Contracts.{home, back}
use finsport.Capital.Policies.{flat_unit, initial_state}
use finsport.Runtime.State.{
  RuntimeConfig, Candidate, ExecutionState, Account, active, pending_capacity, no_diagnostics,
}
use finsport.Strategy.Deployment.{Deployment, solvent}
use finsport.Strategy.Deployment

abbrev pub evidence : ℕ → Candidate
evidence m = record {
  match_id = m;
  event_at = 8200;
  executed_at = 8100;
  work_valid = true;
  decision = some 1;
  action = back home;
  selected_price = some (record { coefficient = pos 25; scale = 1 });
  selected_observation_id = some 4;
  model_probability = none;
}

abbrev pub config : ℕ → RuntimeConfig
config n = record {
  pk = n;
  strategic = true;
  automatic = true;
  entry_enabled = true;
  current = true;
  policy = flat_unit (whole 2);
  max_lanes = 2;
  bankroll_equity = whole 5;
  reserved_exposure = whole 0;
  policy_state = initial_state;
  status = active;
  practical_ruin = false;
  termination_reason = none;
  completed_at = none;
  peak_equity = whole 10;
  peak_reserved_exposure = whole 0;
  maximum_drawdown = whole 0;
}

abbrev pub waiting : ExecutionState
waiting = record {
  match_id = 7;
  status = pending_capacity;
  reason = none;
  basis = some (evidence 7);
  has_position = false;
  terminal_at = none;
  diagnostics = no_diagnostics;
}

abbrev pub account : Account
account = record { config = config 1; states = waiting ∷ []; positions = [] }

abbrev pub deployment : Deployment
deployment = record {
  config_id = some 1;
  state = finsport.Strategy.Deployment.active;
  entry_enabled = true;
  has_epoch = true;
  depletion_state = solvent;
  depletion_floor = whole 5;
  retiring_config_ids = [];
  successor_mode = none;
  authority_intact = true;
  config_verified = true;
}
