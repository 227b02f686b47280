-- ===== src/Results/Gate.antt =====
-- `shadow_gate` and `sentinel_phase` of football/result_provider.py, and `maybe_promote_shadow` of
-- football/result_routing.py, over the matches with their result rows and the routes of all
-- competitions.
pub mod Pairing
use finsport.Prelude.{
  ℕ, suc, ◌≤◌, ◌≡◌, Bool, true, false, not, ◌&&◌, ◌||◌, Option, some, List, [], ◌∷◌, ◌==◌, leb,
  if◌then◌else◌, map, keep, any, length, count_if,
}
use finsport.Results.Record.{Row, same_score, same_result, is_some}
use finsport.Results.Gate.Pairing.{Tracked, Paired, paired, confirmed_conflicts}
use finsport.Results.Route.{Route, RouteState, shadow_validation, primary_validated}

abbrev pub is_scored : Row → Bool
is_scored row = is_some row.home_regulation && is_some row.away_regulation

abbrev pub is_comparable : Paired → Bool
is_comparable x = is_scored x.bsd_row && is_scored x.api_row

abbrev pub comparable : List Paired → List Paired
comparable = keep is_comparable

-- The size of a set.
unfoldable pub count_distinct : List ℕ → ℕ
count_distinct [] = 0
count_distinct (n ∷ ns) =
    let rest = count_distinct ns in if any (λ m. m == n) ns then rest else suc rest

abbrev pub agrees_outcome : Paired → Bool
agrees_outcome x = same_result x.bsd_row.outcome x.api_row.outcome

abbrev pub agrees_score : Paired → Bool
agrees_score x =
    same_score x.bsd_row.home_regulation x.api_row.home_regulation
    && same_score x.bsd_row.away_regulation x.api_row.away_regulation

pub data GateStatus : Type 0 where
  fail pass no_sample pending_gate : GateStatus

pub record Gate : Type 0 where
  pub status : GateStatus
  pub matches : ℕ
  pub competitions : ℕ
  pub lima_dates : ℕ
  pub outcome_agreements : ℕ
  pub regulation_score_agreements : ℕ
  pub disagreements : ℕ
  pub confirmed_conflicts : ℕ

abbrev pub gate_status : ℕ → ℕ → ℕ → ℕ → ℕ → GateStatus
gate_status matches competitions dates disagreements confirmed =
    if not (confirmed == 0)
    then fail
    else if leb 30 matches && leb 5 competitions && leb 7 dates && disagreements == 0
    then pass
    else if matches == 0
    then no_sample
    else pending_gate

-- `shadow_gate`
unfoldable pub shadow_gate : List Route → List Tracked → Gate
unfolding count_distinct paired confirmed_conflicts
shadow_gate routes tracked =
    let rows = comparable (paired tracked) in
    let confirmed = confirmed_conflicts routes tracked in
    let competitions = count_distinct (map (λ x. x.competition) rows) in
    let dates = count_distinct (map (λ x. x.date) rows) in
    let disagreements = count_if (λ x. not (agrees_outcome x) || not (agrees_score x)) rows in
    record {
      status = gate_status (length rows) competitions dates disagreements confirmed;
      matches = length rows;
      competitions = competitions;
      lima_dates = dates;
      outcome_agreements = count_if agrees_outcome rows;
      regulation_score_agreements = count_if agrees_score rows;
      disagreements = disagreements;
      confirmed_conflicts = confirmed;
    }

pub data Phase : Type 0 where
  steady probation : Phase

unfoldable pub sentinel_phase : Gate → Phase
sentinel_phase g =
    if leb 100 g.matches && leb 10 g.competitions && g.confirmed_conflicts == 0
    then steady
    else probation

-- A route with what the promotion notes on it.
pub record Promoted : Type 0 where
  pub route : Route
  pub validated_at : Option ℕ
  pub phase : Option Phase

abbrev pub is_shadow : RouteState → Bool
is_shadow s = elim s [ shadow_validation ↦ true | _ ↦ false ]

abbrev is_primary : RouteState → Bool
is_primary s = elim s [ primary_validated ↦ true | _ ↦ false ]

-- The two loops over the routes, on one: a route in shadow is validated, and a validated one
-- notes the phase.
unfoldable pub promote : Gate → ℕ → Promoted → Promoted
unfolding sentinel_phase
promote g at x =
    let r = x.route in
    if is_shadow r.bsd_state
    then record {
      route = record r { bsd_state = primary_validated };
      validated_at = some at;
      phase = some (sentinel_phase g);
    }
    else if is_primary r.bsd_state
    then record x { phase = some (sentinel_phase g) }
    else x

abbrev pub is_pass : GateStatus → Bool
is_pass s = elim s [ pass ↦ true | _ ↦ false ]

abbrev pub routes_of : List Promoted → List Route
routes_of = map {A = Promoted} (λ x. x.route)

-- `maybe_promote_shadow`
unfoldable pub maybe_promote_shadow : List Tracked → ℕ → List Promoted → List Promoted
unfolding shadow_gate promote
maybe_promote_shadow tracked at routes =
    let g = shadow_gate (routes_of routes) tracked in
    if is_pass g.status then map (promote g at) routes else routes

-- What a PASS rests on.
pub record IsPassed (g : Gate) : Type 0 where
  pub enough_matches : 30 ≤ g.matches
  pub enough_competitions : 5 ≤ g.competitions
  pub enough_dates : 7 ≤ g.lima_dates
  pub same_outcomes : g.outcome_agreements ≡ g.matches
  pub same_scores : g.regulation_score_agreements ≡ g.matches
  pub no_conflict : g.confirmed_conflicts ≡ 0

abbrev pub state_of : Promoted → RouteState
state_of x = x.route.bsd_state
