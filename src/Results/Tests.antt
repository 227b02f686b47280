-- ===== src/Results/Tests.antt =====
-- Results of one match, and the failures of one route, at concrete values.
use finsport.Prelude.{
  ℕ, ◌+◌, ◌≡◌, ◌↔◌, refl, true, false, none, some, List, [], ◌∷◌, pos, map, arith, All,
}
use finsport.Capital.Contracts.{home, away}
use finsport.Results.Provider.{
  Result, Event, FieldError, not_text, broken, aware, unnamed, by_date, object, Bound,
  normalize_bsd, normalize_event, ft, finished, bsd, api_football, is_terminal, mapped_team,
  by_status, finished_result, outcome_of, other_status, same_status,
}
use finsport.Results.Provider.Errors.{
  IsIdentified, IsUnreadable, date_not_text, normalize_bsd-breaks_iff,
}
use finsport.Results.Provider.Reading.{normalize_bsd_sound, IsBound, IsConsistent}
use finsport.Results.Record.{
  Row, MatchRow, judge, latest, earliest, different, is_feed_lag, find_row,
}
use finsport.Results.Record.Steps.{
  record_result, record_observed, settle_match, contradicts, publish, converge, suspect, published,
}
use finsport.Results.Record.Canonical.{
  canonical, record_all, record_all-canonical, record_result-publishes,
}
use finsport.Results.Record.History.{
  evidence, added, IsSound, record_result-evidence, record_result-IsSound,
}
use finsport.Results.Route.{
  Route, BsdError, primary_validated, provider_error, taster_exhausted, ready,
}
use finsport.Results.Route.Cycle.{fail_all, fail_all-ready, IsPassing}
use finsport.Results.Settlement.{
  Known, observed, observe_status, observe_terminal_result, observe_terminal_result-stable,
  settle_locally, settle_locally-conflict,
}
use finsport.Runtime.Settle.Batch.{total_open}
use finsport.Samples.{account}
use finsport.Results.Gate.{Promoted, shadow_gate, routes_of, count_distinct}
use finsport.Results.Gate.Pairing.{Tracked, paired, confirmed_conflicts}

abbrev bound : Bound
bound = record {
  bsd_event_id = 70;
  bsd_league_id = 3;
  home_team_id = 1;
  away_team_id = 2;
  kickoff = 5000;
  mapped = (1, 11) ∷ (2, 12) ∷ [];
}

abbrev event : Event
event = record {
  id = some 70;
  league_id = some 3;
  home_team_id = some 11;
  away_team_id = some 12;
  event_date = aware 5060;
  status = finished;
  home_score = some (pos 2);
  away_score = some (pos 1);
  outcome = unnamed;
  has_award_reason = false;
}

abbrev home_win : Result
home_win = record {
  provider = bsd;
  external_ref = 70;
  status = ft;
  home = some (pos 2);
  away = some (pos 1);
  outcome = some home;
  observed_at = 12000;
}

abbrev away_win : Result
away_win = record {
  provider = bsd;
  external_ref = 70;
  status = ft;
  home = some (pos 0);
  away = some (pos 1);
  outcome = some away;
  observed_at = 20000;
}

abbrev started : MatchRow
started = record {
  status_short = other_status 0;
  outcome = none;
  fulltime_home_score = none;
  fulltime_away_score = none;
  home_score = none;
  away_score = none;
  observed_at = 4000;
}

abbrev ended : MatchRow
ended = published started home_win

abbrev home_row : Row
home_row = record {
  pk = 0;
  provider = bsd;
  external_ref = 70;
  provider_observed_at = 12000;
  status_short = ft;
  home_regulation = some (pos 2);
  away_regulation = some (pos 1);
  outcome = some home;
  authoritative = true;
  conflict = false;
  pending_conflict = false;
  same_provider_revision = false;
  feed_lag_converged = false;
}

abbrev disputed_row : Row
disputed_row = let row = home_row in record row { pk = 1; authoritative = false; conflict = true }

normalize_bsd_sound_example :
    (e : Event) × (object event ≡ object e) × IsBound bound e × IsConsistent home_win
unfolding normalize_bsd normalize_event mapped_team by_date by_status finished_result outcome_of
normalize_bsd_sound_example = normalize_bsd_sound bound (object event) 12000 {r = home_win} refl

abbrev undated : Event
undated = record event { event_date = not_text }

normalize_bsd-breaks_iff_example :
    ((x : FieldError) × (normalize_bsd bound (object undated) 12000 ≡ broken x))
    ↔ (IsIdentified bound undated × IsUnreadable bound undated)
normalize_bsd-breaks_iff_example = normalize_bsd-breaks_iff bound undated 12000

-- A null date escapes.
undated_breaks : (x : FieldError) × (normalize_bsd bound (object undated) 12000 ≡ broken x)
unfolding mapped_team
undated_breaks = (normalize_bsd-breaks_iff bound undated 12000).1 (
  record { same_event = refl; same_league = refl; home_team = refl; away_team = refl },
  date_not_text refl,
)

record_all-canonical_example :
    canonical (record_all ended (home_row ∷ []) ((away_win, true) ∷ (home_win, true) ∷ [])).0
    ≡ canonical ended
unfolding is_terminal
record_all-canonical_example =
    record_all-canonical ended (home_row ∷ []) ((away_win, true) ∷ (home_win, true) ∷ []) refl

record_result-publishes_example :
    (true ≡ true)
    × (canonical (record_result started [] home_win true).match_row
        ≡ (ft, some home, some (pos 2), some (pos 1), 12000))
    × ((row : Row) → latest api_football [] ≡ some row → different row home_win ≡ false)
unfolding record_result record_observed settle_match contradicts publish converge suspect judge
    latest earliest different is_feed_lag find_row is_terminal same_status
record_result-publishes_example = record_result-publishes started [] home_win true refl refl

-- The same result, seen earlier.
abbrev seen_row : Row
seen_row = let row = home_row in record row { provider_observed_at = 11000; authoritative = false }

record_result-evidence_example :
    map evidence (record_result ended (home_row ∷ []) away_win true).rows
    ≡ map evidence
        (home_row ∷ added (find_row away_win (home_row ∷ [])) (home_row ∷ []) away_win true)
record_result-evidence_example = record_result-evidence ended (home_row ∷ []) away_win true

record_result-IsSound_example :
    All IsSound (record_result ended (home_row ∷ disputed_row ∷ []) away_win true).rows
unfolding find_row
record_result-IsSound_example =
    record_result-IsSound ended (home_row ∷ disputed_row ∷ []) away_win true refl (refl, (refl, tt))

abbrev known_win : Known
known_win = record { status_short = ft; outcome = some home }

observe_terminal_result-stable_example :
    observe_terminal_result
      (record_all ended (home_row ∷ []) ((away_win, true) ∷ [])).0
      true
      (some known_win)
    ≡ observed known_win false
unfolding observe_status is_terminal same_status
observe_terminal_result-stable_example =
    observe_terminal_result-stable ended (home_row ∷ []) ((away_win, true) ∷ []) true
      {k = known_win} refl

settle_locally-conflict_example :
    let after = record_all ended (home_row ∷ disputed_row ∷ []) ((away_win, true) ∷ []) in
    let l =
      settle_locally
        (λ x. x)
        (λ x. x)
        (account ∷ [])
        7
        after.0
        after.1
        true
        (some known_win)
        30000 in
    (l.settled ≡ 0) × (l.error ≡ none) × (total_open l.accounts ≡ total_open (account ∷ []))
settle_locally-conflict_example =
    settle_locally-conflict (λ x. x) (λ x. x) (account ∷ []) 7 ended (home_row ∷ disputed_row ∷ [])
      ((away_win, true) ∷ []) true (some known_win) 30000 refl

abbrev route : Route
route = record {
  competition = 9;
  has_leagues = true;
  bsd_state = primary_validated;
  bsd_backoff_until = none;
  bsd_failures = 0;
  bsd_failure_window_started_at = none;
  bsd_previous_state = none;
  bsd_backoff_level = none;
  bsd_global_failure = none;
}

abbrev server_error : BsdError
server_error = record { state = provider_error; retry_after = none }

abbrev quota_gone : BsdError
quota_gone = record { state = taster_exhausted; retry_after = some 50 }

abbrev errors : List (BsdError × ℕ)
errors = (server_error, 10) ∷ (quota_gone, 20) ∷ (server_error, 30) ∷ []

errors-IsPassing : All (λ x. IsPassing 30 x.0 x.1) errors
errors-IsPassing = (
  record { passes = λ s h. cc; delay = omega arith; early = omega arith },
  (
    record { passes = λ s h. cc; delay = omega arith; early = omega arith },
    (record { passes = λ s h. cc; delay = omega arith; early = omega arith }, tt),
  ),
)

fail_all-ready_example : ready (fail_all route errors) (30 + 86400) ≡ true
fail_all-ready_example =
    fail_all-ready primary_validated 30 route errors refl refl refl errors-IsPassing

abbrev promoted : Promoted
promoted = record { route = route; validated_at = none; phase = none }

abbrev api_row : Row
api_row =
    let row = home_row in
    record row { pk = 1; provider = api_football; external_ref = 71; provider_observed_at = 13000 }

abbrev tracked : List Tracked
tracked = record { competition = 3; date = 20; rows = home_row ∷ api_row ∷ [] } ∷ []

-- The one pair is comparable, and is not enough.
gate_of_one : (shadow_gate (routes_of (promoted ∷ [])) tracked).matches ≡ 1
unfolding shadow_gate paired latest count_distinct confirmed_conflicts same_status is_terminal
gate_of_one = refl
