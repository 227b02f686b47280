-- ===== src/Historical.antt =====
-- `final_result_conflicts` and `fill_compatible_final_result` of
-- football/historical_market/result_reconciliation.py: a final result from another source fills
-- the gaps of a match. The outcome is numbered as the scores are; `clean` is `full_clean`.
pub mod Filling
mod Tests
use finsport.Prelude.{
  ℕ, Bool, true, false, not, ◌&&◌, ◌||◌, Option, none, some, List, [], ◌∷◌, ◌==◌, if◌then◌else◌,
  any,
}

-- `status_short`: FINAL_STATUSES, RECOVERABLE_STATUSES with the empty one, and the others.
pub data ShortStatus : Type 0 where
  final recoverable other_short : ℕ → ShortStatus

-- `status_long`: the empty string, the two of RECOVERABLE_STATUS_LONG, and the others.
pub data LongStatus : Type 0 where
  empty_long not_started to_be_defined : LongStatus
  other_long : ℕ → LongStatus

abbrev pub is_final : ShortStatus → Bool
is_final (final n) = true
is_final (recoverable n) = false
is_final (other_short n) = false

abbrev pub is_recoverable : ShortStatus → Bool
is_recoverable (final n) = false
is_recoverable (recoverable n) = true
is_recoverable (other_short n) = false

abbrev pub is_recoverable_long : LongStatus → Bool
is_recoverable_long empty_long = true
is_recoverable_long not_started = true
is_recoverable_long to_be_defined = true
is_recoverable_long (other_long n) = false

abbrev pub is_empty_long : LongStatus → Bool
is_empty_long empty_long = true
is_empty_long not_started = false
is_empty_long to_be_defined = false
is_empty_long (other_long n) = false

abbrev pub same_short : ShortStatus → ShortStatus → Bool
same_short (final m) (final n) = m == n
same_short (recoverable m) (recoverable n) = m == n
same_short (other_short m) (other_short n) = m == n
same_short _ _ = false

abbrev pub same_long : LongStatus → LongStatus → Bool
same_long empty_long empty_long = true
same_long not_started not_started = true
same_long to_be_defined to_be_defined = true
same_long (other_long m) (other_long n) = m == n
same_long _ _ = false

-- RESULT_FIELDS in their order, with the two statuses.
pub record FinalResult : Type 0 where
  pub fields : List (Option ℕ)
  pub status_short : ShortStatus
  pub status_long : LongStatus

pub data Fill : Type 0 where
  conflict : Fill
  preserved : Fill
  filled : FinalResult → Fill

-- `getattr(match, field) not in (None, "", values[field])`
abbrev pub field_conflicts : Option ℕ → Option ℕ → Bool
field_conflicts none v = false
field_conflicts (some m) none = true
field_conflicts (some m) (some n) = not (m == n)

unfoldable pub any_conflict : List (Option ℕ) → List (Option ℕ) → Bool
any_conflict [] vs = false
any_conflict (f ∷ fs) [] = false
any_conflict (f ∷ fs) (v ∷ vs) = field_conflicts f v || any_conflict fs vs

unfoldable pub final_result_conflicts : FinalResult → FinalResult → Bool
unfolding any_conflict
final_result_conflicts m values =
    if any_conflict m.fields values.fields
    then true
    else if is_final m.status_short
    then false
    else if not (is_recoverable m.status_short)
    then true
    else not (is_recoverable_long m.status_long)

abbrev pub fill_field : Option ℕ → Option ℕ → Option ℕ
fill_field none v = v
fill_field (some m) v = some m

unfoldable pub fill_fields : List (Option ℕ) → List (Option ℕ) → List (Option ℕ)
fill_fields [] vs = []
fill_fields (f ∷ fs) [] = f ∷ fs
fill_fields (f ∷ fs) (v ∷ vs) = fill_field f v ∷ fill_fields fs vs

abbrev pub is_gap : Option ℕ → Bool
is_gap none = true
is_gap (some m) = false

-- The match with its gaps filled and its status moved.
unfoldable pub filled_result : FinalResult → FinalResult → FinalResult
unfolding fill_fields
filled_result m values = record {
  fields = fill_fields m.fields values.fields;
  status_short = if is_recoverable m.status_short then values.status_short else m.status_short;
  status_long =
      if is_recoverable m.status_short || is_empty_long m.status_long
      then values.status_long
      else m.status_long;
}

-- `changed`
unfoldable pub has_changed : FinalResult → FinalResult → Bool
has_changed m values =
    any is_gap m.fields
    || (if is_recoverable m.status_short
        then not (same_short m.status_short values.status_short)
          || not (same_long m.status_long values.status_long)
        else is_empty_long m.status_long && not (is_empty_long values.status_long))

-- `fill_compatible_final_result`; `none` is a failed validation.
unfoldable pub fill_compatible_final_result :
    (FinalResult → Bool) → FinalResult → FinalResult → Option Fill
unfolding final_result_conflicts filled_result has_changed
fill_compatible_final_result clean m values =
    if final_result_conflicts m values
    then some conflict
    else if not (has_changed m values)
    then some preserved
    else if clean (filled_result m values)
    then some (filled (filled_result m values))
    else none
