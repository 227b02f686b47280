-- ===== src/Results/Record/Steps.antt =====
-- The stages of `record` (football/result_provider.py), after the judgement of the earlier rows.
use finsport.Prelude.{
  ℕ, Bool, true, false, not, ◌&&◌, ◌||◌, Option, none, some, List, [], ◌∷◌, ◌++◌, if◌then◌else◌, ℤ,
  length,
}
use finsport.Results.Provider.{is_terminal, same_status, ft, bsd, is_bsd, Result}
use finsport.Results.Record.{
  Row, MatchRow, Disposition, recorded, already_recorded, result_conflict, pending_conflict,
  same_score, same_result, is_absent, Judgement, judge, earliest, revises, created_row, find_row,
  save_row,
}

-- What each `save(update_fields=…)` writes.
abbrev pub mark_revision : Row → Row
mark_revision row = record row {
  conflict = true;
  authoritative = false;
  same_provider_revision = true;
}

abbrev pub mark_confirmed : Row → Row
mark_confirmed row = record row { conflict = true; pending_conflict = false }

abbrev pub mark_pending : Row → Row
mark_pending row = record row { pending_conflict = true }

abbrev pub mark_converged : Row → Row
mark_converged row = record row { pending_conflict = false; feed_lag_converged = true }

abbrev pub mark_conflict : Row → Row
mark_conflict row = record row { conflict = true; authoritative = false }

-- The match, its rows, and the disposition of the call.
pub record Recorded : Type 0 where
  pub match_row : MatchRow
  pub rows : List Row
  pub disposition : Disposition

-- The regulation score of the match; at full time the plain score stands in for it.
abbrev lacks_fulltime : MatchRow → Bool
lacks_fulltime m =
    same_status m.status_short ft
    && (is_absent m.fulltime_home_score || is_absent m.fulltime_away_score)

abbrev canonical_home : MatchRow → Option ℤ
canonical_home m = if lacks_fulltime m then m.home_score else m.fulltime_home_score

abbrev canonical_away : MatchRow → Option ℤ
canonical_away m = if lacks_fulltime m then m.away_score else m.fulltime_away_score

-- The match has ended otherwise than the result says.
unfoldable pub contradicts : MatchRow → Result → Bool
contradicts m r =
    is_terminal m.status_short
    && (not (same_result m.outcome r.outcome)
        || not (same_score (canonical_home m) r.home)
        || not (same_score (canonical_away m) r.away))

abbrev pub published : MatchRow → Result → MatchRow
published m r = record m {
  status_short = r.status;
  outcome = r.outcome;
  fulltime_home_score = r.home;
  fulltime_away_score = r.away;
  home_score = if same_status r.status ft then r.home else m.home_score;
  away_score = if same_status r.status ft then r.away else m.away_score;
  observed_at = r.observed_at;
}

-- A match that has not ended takes the result; one that ended at full time without its plain
-- scores gets these.
unfoldable pub publish : MatchRow → Result → MatchRow
publish m r =
    if not (is_terminal m.status_short)
    then published m r
    else if same_status r.status ft
        && same_status m.status_short ft
        && (is_absent m.home_score || is_absent m.away_score)
    then record m { home_score = r.home; away_score = r.away }
    else m

abbrev pub told : Bool → Disposition
told created = if created then recorded else already_recorded

-- The last stage: an authoritative terminal result reaches the match, unless it contradicts it.
unfoldable pub settle_match : MatchRow → List Row → Row → Bool → Result → Bool → Recorded
unfolding contradicts publish
settle_match m rows observation created r authoritative =
    if authoritative && is_terminal r.status
    then if contradicts m r
      then record {
        match_row = m;
        rows = save_row observation.pk mark_conflict rows;
        disposition = result_conflict;
      }
      else record { match_row = publish m r; rows = rows; disposition = told created }
    else record { match_row = m; rows = rows; disposition = told created }

-- The first BSD row stops being pending when a later BSD result agrees with the other provider.
unfoldable pub converge : List Row → Option Row → Result → List Row
converge rows none r = rows
converge rows (some f) r =
    if is_bsd r.provider && f.pending_conflict then save_row f.pk mark_converged rows else rows

-- The first BSD row becomes pending when the other provider reports a different result.
unfoldable pub suspect : List Row → Option Row → Judgement → Result → List Row
suspect rows none j r = rows
suspect rows (some f) j r =
    if j.discrepancy && not (is_bsd r.provider) then save_row f.pk mark_pending rows else rows

abbrev pub save_unless : Bool → ℕ → (Row → Row) → List Row → List Row
save_unless done pk write rows = if done then rows else save_row pk write rows

unfoldable pub record_observed :
    MatchRow → List Row → Option Row → Judgement → Row → Bool → Result → Bool → Recorded
unfolding settle_match converge suspect
record_observed m rows first j observation created r authoritative =
    let suspected = suspect rows first j r in
    if revises j
    then record {
      match_row = m;
      rows = save_unless observation.conflict observation.pk mark_revision rows;
      disposition = result_conflict;
    }
    else if j.confirmed
    then record {
      match_row = m;
      rows = save_unless observation.conflict observation.pk mark_confirmed suspected;
      disposition = result_conflict;
    }
    else if j.discrepancy
    then record { match_row = m; rows = suspected; disposition = pending_conflict }
    else settle_match m (converge suspected first r) observation created r authoritative

-- `record(match, result, authoritative=…)`
unfoldable pub record_result : MatchRow → List Row → Result → Bool → Recorded
unfolding record_observed judge find_row earliest
record_result m rows r authoritative =
    let j = judge rows r in
    let first = earliest bsd rows in
    elim (find_row r rows) [
      | none ↦
          (let row = created_row (length rows) j r authoritative in
            record_observed m (rows ++ row ∷ []) first j row true r authoritative)
      | some row ↦ record_observed m rows first j row false r authoritative
    ]
