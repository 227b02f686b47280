-- ===== src/Results/Record/Canonical.antt =====
-- When a recorded result reaches the match, and that an ended match keeps its result.
use finsport.Prelude.{
  ℕ, ◌≡◌, refl, ap, ◌∙◌, Bool, true, false, ◌&&◌, Option, some, List, [], ◌∷◌, ◌++◌, arith, inl,
  inr, Option-cases, if_elim, ℤ, length,
}
use finsport.Capital.Contracts.{Outcome}
use finsport.Results.Provider.{Status, is_terminal, bsd, Result}
use finsport.Results.Record.{
  Row, MatchRow, Disposition, recorded, already_recorded, result_conflict, pending_conflict,
  Judgement, judge, earliest, revises, created_row, find_row, latest, other_provider, different,
}
use finsport.Results.Record.Steps.{
  Recorded, contradicts, publish, told, settle_match, converge, suspect, record_observed,
  record_result,
}

abbrev pub accepts : Disposition → Bool
accepts recorded = true
accepts already_recorded = true
accepts result_conflict = false
accepts pending_conflict = false

-- The call left the match alone, or it was authoritative and nothing spoke against it.
pub data Effect (m : MatchRow) (j : Judgement) (r : Result) (authoritative : Bool)
    : Recorded → Type 0 where
  untouched : {after : Recorded} → after.match_row ≡ m → Effect m j r authoritative after
  reached :
      {after : Recorded}
      → authoritative ≡ true
      → is_terminal r.status ≡ true
      → contradicts m r ≡ false
      → j.discrepancy ≡ false
      → revises j ≡ false
      → accepts after.disposition ≡ true
      → after.match_row ≡ publish m r
      → Effect m j r authoritative after

pub told-accepts : (b : Bool) → accepts (told b) ≡ true
told-accepts true = refl
told-accepts false = refl

settle_match-Effect :
    (m : MatchRow) (j : Judgement) (rows : List Row) (row : Row) (created : Bool) (r : Result)
    (authoritative : Bool)
    → j.discrepancy ≡ false
    → revises j ≡ false
    → Effect m j r authoritative (settle_match m rows row created r authoritative)
unfolding settle_match
settle_match-Effect m j rows row created r authoritative d v =
    if_elim (Effect m j r authoritative) (authoritative && is_terminal r.status)
      (λ loud.
        if_elim (Effect m j r authoritative) (contradicts m r) (λ e. untouched refl)
          λ e. reached (ground arith) (ground arith) e d v (told-accepts created) refl)
      (λ quiet. untouched refl)

record_observed-Effect :
    (m : MatchRow) (rows : List Row) (first : Option Row) (j : Judgement) (row : Row)
    (created : Bool) (r : Result) (authoritative : Bool)
    → Effect m j r authoritative (record_observed m rows first j row created r authoritative)
unfolding record_observed
record_observed-Effect m rows first j row created r authoritative =
    if_elim (Effect m j r authoritative) (revises j) (λ v. untouched refl)
      λ v.
        if_elim (Effect m j r authoritative) j.confirmed (λ c. untouched refl)
          λ c.
            if_elim (Effect m j r authoritative) j.discrepancy (λ d. untouched refl)
              λ d.
                settle_match-Effect m j (converge (suspect rows first j r) first r) row created r
                  authoritative d v

record_result-Effect :
    (m : MatchRow) (rows : List Row) (r : Result) (authoritative : Bool)
    → Effect m (judge rows r) r authoritative (record_result m rows r authoritative)
unfolding record_result
record_result-Effect m rows r authoritative = elim (Option-cases (find_row r rows)) [
  | inl e ↦
      (let row = created_row (length rows) (judge rows r) r authoritative in
        rw (e, record_result)
          (record_observed-Effect m (rows ++ row ∷ []) (earliest bsd rows) (judge rows r) row true r
            authoritative))
  | inr (row, e) ↦
      rw (e, record_result)
        (record_observed-Effect m rows (earliest bsd rows) (judge rows r) row false r authoritative)
]

-- A match changes only by an authoritative call that records its result: every call that reports a
-- conflict, confirmed or pending, or that is not authoritative, leaves the match as it is.
pub record_result_guard :
    (m : MatchRow) (rows : List Row) (r : Result) (authoritative : Bool)
    → (authoritative && accepts (record_result m rows r authoritative).disposition) ≡ false
    → (record_result m rows r authoritative).match_row ≡ m
record_result_guard m rows r authoritative quiet =
    elim (record_result-Effect m rows r authoritative) [
      | untouched same ↦ same
      | reached loud terminal agrees d v told is ↦ absurd (
          let x : (authoritative && accepts (record_result m rows r authoritative).disposition)
              ≡ true =
            ground arith in
          cc)
    ]

-- The canonical part of a match.
abbrev pub canonical : MatchRow → Status × Option Outcome × Option ℤ × Option ℤ × ℕ
canonical m =
    (m.status_short, m.outcome, m.fulltime_home_score, m.fulltime_away_score, m.observed_at)

publish-canonical :
    (m : MatchRow) (r : Result)
    → is_terminal m.status_short ≡ true
    → canonical (publish m r) ≡ canonical m
unfolding publish
publish-canonical m r h =
    rw (h, publish) (if_elim (λ x. canonical x ≡ canonical m) _ (λ e. refl) (λ e. refl))

record_result-canonical :
    (m : MatchRow) (rows : List Row) (r : Result) (authoritative : Bool)
    → is_terminal m.status_short ≡ true
    → canonical (record_result m rows r authoritative).match_row ≡ canonical m
record_result-canonical m rows r authoritative h =
    elim (record_result-Effect m rows r authoritative) [
      | untouched same ↦ ap canonical same
      | reached loud terminal agrees d v told is ↦ ap canonical is ∙ publish-canonical m r h
    ]

-- Any number of results of the match, from either provider, one after the other.
unfoldable pub record_all : MatchRow → List Row → List (Result × Bool) → MatchRow × List Row
record_all m rows [] = (m, rows)
record_all m rows ((r, authoritative) ∷ calls) =
    let after = record_result m rows r authoritative in record_all after.match_row after.rows calls

-- Once a match has ended, no sequence of results, from any provider, with any authority, changes
-- its status, its outcome, its full time scores or the time of its observation.
pub record_all-canonical :
    (m : MatchRow) (rows : List Row) (calls : List (Result × Bool))
    → is_terminal m.status_short ≡ true
    → canonical (record_all m rows calls).0 ≡ canonical m
unfolding record_all
record_all-canonical m rows [] h = refl
record_all-canonical m rows ((r, authoritative) ∷ calls) h =
    let after = record_result m rows r authoritative in
    let same = record_result-canonical m rows r authoritative h in
    let ended = ap (λ c. is_terminal c.0) same ∙ h in
    record_all-canonical after.match_row after.rows calls ended ∙ same

pub judge-confirmed :
    (rows : List Row) (r : Result)
    → (judge rows r).discrepancy ≡ false
    → (judge rows r).confirmed ≡ false
unfolding judge
judge-confirmed rows r h = rw (h, judge) refl

judge-agrees :
    (rows : List Row) (r : Result) (row : Row)
    → is_terminal r.status ≡ true
    → latest (other_provider r.provider) rows ≡ some row
    → (judge rows r).discrepancy ≡ false
    → different row r ≡ false
unfolding judge
judge-agrees rows r row t l h = rw (t, l, judge) at h

-- A match that had not ended ends only by an authoritative terminal result, takes exactly what that
-- result says, and only when the latest terminal result of the other provider says the same.
pub record_result-publishes :
    (m : MatchRow) (rows : List Row) (r : Result) (authoritative : Bool)
    → is_terminal m.status_short ≡ false
    → is_terminal (record_result m rows r authoritative).match_row.status_short ≡ true
    → (authoritative ≡ true)
      × (canonical (record_result m rows r authoritative).match_row
          ≡ (r.status, r.outcome, r.home, r.away, r.observed_at))
      × ((row : Row) → latest (other_provider r.provider) rows ≡ some row → different row r ≡ false)
unfolding publish
record_result-publishes m rows r authoritative h t =
    elim (record_result-Effect m rows r authoritative) [
      | untouched same ↦ absurd (let x = ap (λ m. is_terminal m.status_short) same in cc)
      | reached loud terminal agrees d v told is ↦ (
        loud,
        ap canonical is ∙ rw (h, publish) refl,
        λ row l. judge-agrees rows r row terminal l d,
      )
    ]
