-- ===== src/Results/Due/Tests.antt =====
-- One due position whose match BSD reports as finished.
use finsport.Prelude.{ℕ, true, false, none, some, [], ◌∷◌, pos}
use finsport.Decimal.{Decimal, whole}
use finsport.Capital.Policies.{initial_state}
use finsport.Runtime.State.{Position, Account, open_position, current_debt}
use finsport.Samples.{account, evidence}
use finsport.Results.Provider.{object, aware, unnamed, finished, other_status}
use finsport.Results.Record.{MatchRow}
use finsport.Results.Route.{Route, RouteState}
use finsport.Results.Due.{File, World, Fetched, fetched}

abbrev stake : Decimal → Decimal
stake x = x

abbrev due_position : Position
due_position = record {
  match_id = 7;
  basis = evidence 7;
  status = open_position;
  placed_at = 8300;
  next_result_check_at = some 17800;
  requested_stake = whole 1;
  applied_stake = whole 1;
  policy_step = none;
  target_profit = none;
  policy_state_before = initial_state;
  policy_state_after = initial_state;
  cap_hit = false;
  shortfall = whole 0;
  settled_at = none;
  realized_pnl = whole 0;
  debt_status = current_debt;
  result_refresh_attempted_at = none;
  result_refresh_error = none;
}

abbrev holding : Account
holding = let a = account in record a { positions = due_position ∷ [] }

abbrev started : MatchRow
started = record {
  status_short = other_status 0;
  outcome = none;
  fulltime_home_score = none;
  fulltime_away_score = none;
  home_score = none;
  away_score = none;
  observed_at = 4000;
}

abbrev file : File
file = record {
  match_id = 7;
  competition = 3;
  match_row = started;
  rows = [];
  known = none;
  bound = true;
  stale = false;
}

abbrev route : RouteState → Route
route state = record {
  competition = 3;
  has_leagues = true;
  bsd_state = state;
  bsd_backoff_until = none;
  bsd_failures = 0;
  bsd_failure_window_started_at = none;
  bsd_previous_state = none;
  bsd_backoff_level = none;
  bsd_global_failure = none;
}

abbrev world : RouteState → World
world state = record { routes = route state ∷ []; files = file ∷ []; accounts = holding ∷ [] }

abbrev finished_event : ℕ → Fetched
finished_event m =
    fetched
      (record {
        bsd_event_id = 70;
        bsd_league_id = 3;
        home_team_id = 1;
        away_team_id = 2;
        kickoff = 10000;
        mapped = (1, 11) ∷ (2, 12) ∷ [];
      })
      (object (record {
        id = some 70;
        league_id = some 3;
        home_team_id = some 11;
        away_team_id = some 12;
        event_date = aware 10000;
        status = finished;
        home_score = some (pos 2);
        away_score = some (pos 1);
        outcome = unnamed;
        has_award_reason = false;
      }))
