-- ===== src/Results/Due.antt =====
-- `process_due_bsd` of football/result_routing.py: the due open positions, one after the other,
-- through BSD. `fetch` is what the client and a rebinding after a 404 bring for a match: the
-- binding with its payload, or the error. `now` is the wall clock, and the errors are counted.
pub mod Count
pub mod Shadow
mod Tests
use finsport.Prelude.{
  ℕ, suc, ◌+◌, ◌≡◌, refl, sym, ap, ◌∙◌, Bool, true, false, not, ◌&&◌, ◌||◌, Option, none, some,
  List, [], ◌∷◌, ◌++◌, ◌==◌, if◌then◌else◌, if_elim, map, keep, any, arith, Option-cases, inl, inr,
  Bool-cases,
}
use finsport.Decimal.{Decimal}
use finsport.Runtime.State.{
  Account, Position, RefreshError, degraded_debt, result_conflict_found, result_conflict_pending,
  waiting_for_fixture, bsd_nonterminal,
}
use finsport.Runtime.Settle.{settle_observation}
use finsport.Runtime.Settle.Batch.{total_open}
use finsport.Results.Provider.{
  Status, ft, canc, abd, awd, wo, pst, same_status, Result, Payload, Bound, Normalized, normal,
  refused, broken, ResultError, FieldError, malformed, identity_unresolved, normalize_bsd, is_bsd,
}
use finsport.Results.Record.{
  Row, MatchRow, Disposition, recorded, already_recorded, result_conflict, pending_conflict,
}
use finsport.Results.Record.Steps.{record_result, Recorded}
use finsport.Results.Route.{
  Route, RouteState, BsdError, ErrorState, provider_malformed, primary_validated, ready, success,
  failure, confirmed_conflict,
}
use finsport.Results.Route
use finsport.Results.Settlement.{
  Known, Observed, unobserved, canonical_result_conflict, observed, observe_terminal_result,
  observe_status, settled_by, update_open, update_open-total_open, LocalError,
  result_conflict_error, raised_by,
}

-- A match with its result rows, the first observation of it, and whether its binding is stale.
pub record File : Type 0 where
  pub match_id : ℕ
  pub competition : ℕ
  pub match_row : MatchRow
  pub rows : List Row
  pub known : Option Known
  pub bound : Bool
  pub stale : Bool

pub record World : Type 0 where
  pub routes : List Route
  pub files : List File
  pub accounts : List Account

pub data Fetched : Type 0 where
  fetched : Bound → Payload → Fetched
  unfetched : BsdError → Fetched

-- An exception that `process_due_bsd` does not catch: of the settlement, or of a payload's field.
pub data DueError : Type 0 where
  settling : LocalError → DueError
  reading : FieldError → DueError

abbrev settling_error : Option LocalError → Option DueError
settling_error none = none
settling_error (some e) = some (settling e)

-- The world and the returned values so far; `raised` stops the loop.
pub record Turn : Type 0 where
  pub world : World
  pub handled : List ℕ
  pub settled : ℕ
  pub errors : ℕ
  pub raised : Option DueError

unfoldable pub find_file : ℕ → List File → Option File
find_file m [] = none
find_file m (f ∷ files) = if f.match_id == m then some f else find_file m files

unfoldable pub find_route : ℕ → List Route → Option Route
find_route c [] = none
find_route c (r ∷ routes) = if r.competition == c then some r else find_route c routes

abbrev pub save_file : File → List File → List File
save_file f = map {A = File} (λ g. if g.match_id == f.match_id then f else g)

abbrev pub save_route : Route → List Route → List Route
save_route r = map {A = Route} (λ s. if s.competition == r.competition then r else s)

-- The competition and the time of every BSD row in conflict.
abbrev pub row_conflicts : ℕ → List Row → List (ℕ × ℕ)
row_conflicts c rows =
    map {A = Row} (λ row. (c, row.provider_observed_at))
      (keep (λ row. is_bsd row.provider && row.conflict) rows)

abbrev pub all_conflicts : List File → List (ℕ × ℕ)
all_conflicts [] = []
all_conflicts (f ∷ files) = row_conflicts f.competition f.rows ++ all_conflicts files

-- The four updates of the open positions of the match.
abbrev pub write_conflict : Position → Position
write_conflict p = record p {
  debt_status = degraded_debt;
  next_result_check_at = none;
  result_refresh_error = some result_conflict_found;
}

abbrev pub write_pending : ℕ → Position → Position
write_pending at p = record p {
  next_result_check_at = some (at + 1800);
  result_refresh_error = some result_conflict_pending;
}

abbrev pub write_postponed : Position → Position
write_postponed p = record p {
  next_result_check_at = none;
  debt_status = degraded_debt;
  result_refresh_error = some waiting_for_fixture;
}

abbrev pub write_nonterminal : ℕ → Position → Position
write_nonterminal at p = record p {
  next_result_check_at = some (at + 1800);
  result_refresh_attempted_at = some at;
  result_refresh_error = some bsd_nonterminal;
}

abbrev pub is_primary : Route → Bool
is_primary r = elim r.bsd_state [ primary_validated ↦ true | _ ↦ false ]

-- `result.status in {"FT", "CANC", "ABD", "AWD", "WO"}`
abbrev pub is_settling : Status → Bool
is_settling s =
    same_status s ft
    || same_status s canc
    || same_status s abd
    || same_status s awd
    || same_status s wo

abbrev pub was_nonterminal : Option RefreshError → Bool
was_nonterminal e = elim e [ none ↦ false | some x ↦ elim x [ bsd_nonterminal ↦ true | _ ↦ false ] ]

abbrev pub bsd_error : ResultError → BsdError
bsd_error malformed = record { state = provider_malformed; retry_after = none }
bsd_error identity_unresolved = record { state = Route.identity_unresolved; retry_after = none }

-- The loop goes on: with the match handled, or left to the other provider.
abbrev pub handle : ℕ → World → Turn → Turn
handle m w t = record t { world = w; handled = m ∷ t.handled }

abbrev pub pass_on : World → Turn → Turn
pass_on w t = record t { world = w }

abbrev pub fail_turn : File → BsdError → ℕ → Turn → Turn
fail_turn f e at t =
    let w = t.world in
    record t {
      world = record w { routes = failure w.routes f.competition e at };
      errors = suc t.errors;
    }

module _ (column ratio : Decimal → Decimal) where
  -- A terminal result of a validated route is observed and settles the open positions.
  unfoldable pub settle_turn : File → World → ℕ → Observed → Turn → Turn
  settle_turn f w now unobserved t = pass_on w t
  settle_turn f w now canonical_result_conflict t = record t {
    world = w;
    raised = some (settling result_conflict_error);
  }
  settle_turn f w now (observed k created) t =
      let after = settle_observation column ratio w.accounts (settled_by f.match_id k) now in
      record t {
        world = record w {
          files = save_file (record f { known = some k }) w.files;
          accounts = after.0;
        };
        handled = f.match_id ∷ t.handled;
        settled = t.settled + after.1.0;
        raised = settling_error (raised_by after.1.1);
      }

  -- After the disposition, unless it is a conflict.
  unfoldable pub route_result :
      File → World → Bool → Option RefreshError → Result → ℕ → ℕ → Turn → Turn
  unfolding settle_turn observe_status
  route_result f w primary error r at now t =
      let accounts = w.accounts in
      if same_status r.status pst
      then handle f.match_id
          (record w { accounts = update_open f.match_id write_postponed accounts }) t
      else if not primary
      then pass_on w t
      else if is_settling r.status
      then settle_turn f w now (observe_terminal_result f.match_row true f.known) t
      else if not (was_nonterminal error)
      then handle f.match_id
          (record w { accounts = update_open f.match_id (write_nonterminal at) accounts }) t
      else pass_on w t

  unfoldable pub by_disposition :
      File → World → Bool → Option RefreshError → Result → ℕ → ℕ → Disposition → Turn → Turn
  unfolding route_result
  by_disposition f w primary error r at now result_conflict t =
      handle f.match_id
        (record w {
          routes = confirmed_conflict w.routes f.competition (all_conflicts w.files) at;
          accounts = update_open f.match_id write_conflict w.accounts;
        })
        (record t { errors = suc t.errors })
  by_disposition f w primary error r at now pending_conflict t =
      handle f.match_id
        (record w { accounts = update_open f.match_id (write_pending at) w.accounts }) t
  by_disposition f w primary error r at now recorded t = route_result f w primary error r at now t
  by_disposition f w primary error r at now already_recorded t =
      route_result f w primary error r at now t

  -- The payload has come: it is read, recorded, and the route succeeds.
  unfoldable pub receive : File → Route → Option RefreshError → ℕ → ℕ → Normalized → Turn → Turn
  unfolding by_disposition record_result success
  receive f route error at now (refused e) t = fail_turn f (bsd_error e) at t
  receive f route error at now (broken e) t = record t { raised = some (reading e) }
  receive f route error at now (normal r) t =
      let after = record_result f.match_row f.rows r (is_primary route) in
      let g = record f { match_row = after.match_row; rows = after.rows } in
      let w = t.world in
      by_disposition g
        (record w { files = save_file g w.files; routes = save_route (success route) w.routes })
        (is_primary route) error r at now after.disposition t

  unfoldable pub ask_bsd : (ℕ → Fetched) → File → Route → Option RefreshError → ℕ → ℕ → Turn → Turn
  unfolding receive normalize_bsd
  ask_bsd fetch f route error at now t =
      if not route.has_leagues || not (ready route at) || f.stale
      then t
      else elim (fetch f.match_id) [
        | unfetched e ↦ fail_turn f e at t
        | fetched bound payload ↦ receive f route error at now (normalize_bsd bound payload now) t
      ]

  -- The body of the loop, on one due position of the list that was read before it.
  unfoldable pub process_one : (ℕ → Fetched) → ℕ → ℕ → Position → Turn → Turn
  unfolding ask_bsd find_file find_route
  process_one fetch at now p t =
      if any (λ m. m == p.match_id) t.handled
      then t
      else elim (find_file p.match_id t.world.files) [
        | none ↦ t
        | some f ↦ elim (find_route f.competition t.world.routes) [
          | none ↦ t
          | some route ↦
              if f.bound then ask_bsd fetch f route p.result_refresh_error at now t else t
        ]
      ]

  -- `process_due_bsd`; without a token nothing is done.
  unfoldable pub process_due : (ℕ → Fetched) → ℕ → ℕ → List Position → Turn → Turn
  unfolding process_one
  process_due fetch at now [] t = t
  process_due fetch at now (p ∷ due) t = elim t.raised [
    | some e ↦ t
    | none ↦ process_due fetch at now due (process_one fetch at now p t)
  ]

abbrev pub first_turn : World → Turn
first_turn w = record { world = w; handled = []; settled = 0; errors = 0; raised = none }

abbrev pub process_due_bsd :
    (Decimal → Decimal)
    → (Decimal → Decimal)
    → Bool
    → (ℕ → Fetched)
    → ℕ
    → ℕ
    → List Position
    → World
    → Turn
process_due_bsd column ratio has_token fetch at now due w =
    if has_token then process_due column ratio fetch at now due (first_turn w) else first_turn w
