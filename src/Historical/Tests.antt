-- ===== src/Historical/Tests.antt =====
-- A match with a score but no final status.
use finsport.Prelude.{◌≡◌, refl, true, Bool, none, some, [], ◌∷◌}
use finsport.Historical.{
  FinalResult, final, recoverable, not_started, other_long, any_conflict, final_result_conflicts,
  fill_fields, filled_result, has_changed, fill_compatible_final_result, preserved,
}
use finsport.Historical.Filling.{fill_compatible_final_result_again}

abbrev scheduled : FinalResult
scheduled = record {
  fields = some 2 ∷ none ∷ none ∷ none ∷ none ∷ [];
  status_short = recoverable 1;
  status_long = not_started;
}

abbrev result : FinalResult
result = record {
  fields = some 2 ∷ some 1 ∷ some 2 ∷ some 1 ∷ some 0 ∷ [];
  status_short = final 0;
  status_long = other_long 0;
}

abbrev accepts : FinalResult → Bool
accepts m = true

fill_compatible_final_result_again_example :
    fill_compatible_final_result accepts result result ≡ some preserved
unfolding fill_compatible_final_result final_result_conflicts any_conflict has_changed filled_result
    fill_fields
fill_compatible_final_result_again_example =
    fill_compatible_final_result_again accepts scheduled result refl refl
      (refl, (refl, (refl, (refl, (refl, tt))))) refl
