-- ===== src/Results/Record.antt =====
-- `record` of football/result_provider.py: one provider's result of a match is kept as a row, and
-- published on the match when it is authoritative and nothing disagrees. The rows are those of the
-- match in the order of their keys, and one call is one transaction. No row is
-- deleted, so that their number is the next key. `fallback_reason` and the wall clock of
-- `result_known_at` are left out: nothing here reads them.
pub mod Steps
pub mod History
pub mod Canonical
pub mod Reach
use finsport.Prelude.{
  ℕ, ◌+◌, Bool, true, false, not, ◌&&◌, ◌||◌, Option, none, some, List, [], ◌∷◌, ◌++◌, ◌==◌, ltb,
  leb, if◌then◌else◌, ℤ, length, pos_part, neg_part,
}
use finsport.Capital.Contracts.{Outcome, same_outcome}
use finsport.Results.Provider.{
  Status, is_terminal, same_status, ft, canc, abd, Provider, bsd, api_football, is_bsd, Result,
}

-- `ResultProviderObservation`; the three keys of `provenance` that the code sets or reads.
pub record Row : Type 0 where
  pub pk : ℕ
  pub provider : Provider
  pub external_ref : ℕ
  pub provider_observed_at : ℕ
  pub status_short : Status
  pub home_regulation : Option ℤ
  pub away_regulation : Option ℤ
  pub outcome : Option Outcome
  pub authoritative : Bool
  pub conflict : Bool
  pub pending_conflict : Bool
  pub same_provider_revision : Bool
  pub feed_lag_converged : Bool

-- The result fields of `Match`; `outcome` is empty for `none`.
pub record MatchRow : Type 0 where
  pub status_short : Status
  pub outcome : Option Outcome
  pub fulltime_home_score : Option ℤ
  pub fulltime_away_score : Option ℤ
  pub home_score : Option ℤ
  pub away_score : Option ℤ
  pub observed_at : ℕ

-- The string that `record` returns.
pub data Disposition : Type 0 where
  recorded already_recorded result_conflict pending_conflict : Disposition

abbrev pub same_score : Option ℤ → Option ℤ → Bool
same_score none none = true
same_score none (some b) = false
same_score (some a) none = false
same_score (some a) (some b) = pos_part a == pos_part b && neg_part a == neg_part b

abbrev pub same_result : Option Outcome → Option Outcome → Bool
same_result none none = true
same_result none (some b) = false
same_result (some a) none = false
same_result (some a) (some b) = same_outcome a b

abbrev pub is_some {ℓ} : {A : Type ℓ} → Option A → Bool
is_some none = false
is_some (some a) = true

abbrev pub is_absent {ℓ} : {A : Type ℓ} → Option A → Bool
is_absent o = not (is_some o)

-- A test of a row that may be missing.
abbrev pub holds : Option Row → (Row → Bool) → Bool
holds none test = false
holds (some row) test = test row

-- `_different`
unfoldable pub different : Row → Result → Bool
different row r =
    not (same_status row.status_short r.status)
    || not (same_result row.outcome r.outcome)
    || not (same_score row.home_regulation r.home)
    || not (same_score row.away_regulation r.away)

abbrev pub same_provider : Provider → Provider → Bool
same_provider bsd q = is_bsd q
same_provider api_football q = not (is_bsd q)

abbrev pub other_provider : Provider → Provider
other_provider bsd = api_football
other_provider api_football = bsd

abbrev is_terminal_of : Provider → Row → Bool
is_terminal_of q row = same_provider q row.provider && is_terminal row.status_short

-- `.order_by("-provider_observed_at", "-id").first()` of the terminal rows of a provider.
unfoldable pub latest : Provider → List Row → Option Row
latest q [] = none
latest q (row ∷ rows) =
    let rest = latest q rows in
    if is_terminal_of q row
    then elim rest [
      | none ↦ some row
      | some l ↦ if ltb l.provider_observed_at row.provider_observed_at then some row else some l
    ]
    else rest

-- `.order_by("provider_observed_at", "id").first()`
unfoldable pub earliest : Provider → List Row → Option Row
earliest q [] = none
earliest q (row ∷ rows) =
    let rest = earliest q rows in
    if is_terminal_of q row
    then elim rest [
      | none ↦ some row
      | some l ↦ if leb row.provider_observed_at l.provider_observed_at then some row else some l
    ]
    else rest

-- What the earlier rows say of a new result.
pub record Judgement : Type 0 where
  pub discrepancy : Bool
  pub same_provider_revision : Bool
  pub confirmed : Bool
  pub feed_lag_converged : Bool

-- `_feed_lag_converged`, with `first_bsd` and its thirty minutes.
unfoldable pub is_feed_lag : Result → Option Row → Option Row → Option Row → Bool → Bool
is_feed_lag r previous_same first_bsd counterpart discrepancy =
    is_bsd r.provider
    && holds previous_same (λ s. holds first_bsd (λ f.
      s.pk == f.pk
      && not s.authoritative
      && not s.conflict
      && f.pending_conflict
      && leb (f.provider_observed_at + 1800) r.observed_at))
    && is_some counterpart
    && not discrepancy

unfoldable pub judge : List Row → Result → Judgement
unfolding latest earliest different is_feed_lag
judge rows r =
    let counterpart = latest (other_provider r.provider) rows in
    let previous_same = latest r.provider rows in
    let first_bsd = earliest bsd rows in
    let discrepancy = is_terminal r.status && holds counterpart (λ row. different row r) in
    let revision = is_terminal r.status && holds previous_same (λ row. different row r) in
    record {
      discrepancy = discrepancy;
      same_provider_revision = revision;
      confirmed =
          discrepancy
          && is_bsd r.provider
          && holds first_bsd (λ f. leb (f.provider_observed_at + 1800) r.observed_at);
      feed_lag_converged =
          revision && is_feed_lag r previous_same first_bsd counterpart discrepancy;
    }

-- A revision of the same provider that is not its feed catching up.
abbrev pub revises : Judgement → Bool
revises j = j.same_provider_revision && not j.feed_lag_converged

-- The row that `get_or_create` creates.
abbrev pub created_row : ℕ → Judgement → Result → Bool → Row
created_row pk j r authoritative = record {
  pk = pk;
  provider = r.provider;
  external_ref = r.external_ref;
  provider_observed_at = r.observed_at;
  status_short = r.status;
  home_regulation = r.home;
  away_regulation = r.away;
  outcome = r.outcome;
  authoritative = authoritative && not j.discrepancy && not j.same_provider_revision;
  conflict = j.confirmed || revises j;
  pending_conflict = j.discrepancy && not j.confirmed;
  same_provider_revision = j.same_provider_revision;
  feed_lag_converged = j.feed_lag_converged;
}

abbrev pub is_same_key : Result → Row → Bool
is_same_key r row =
    same_provider r.provider row.provider
    && row.external_ref == r.external_ref
    && row.provider_observed_at == r.observed_at

unfoldable pub find_row : Result → List Row → Option Row
find_row r [] = none
find_row r (row ∷ rows) = if is_same_key r row then some row else find_row r rows

-- `save()` of the fields that `write` changes in the row of key `pk`.
unfoldable pub save_row : ℕ → (Row → Row) → List Row → List Row
save_row pk write [] = []
save_row pk write (row ∷ rows) =
    let rest = save_row pk write rows in if row.pk == pk then write row ∷ rest else row ∷ rest
