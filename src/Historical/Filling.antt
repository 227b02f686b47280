-- ===== src/Historical/Filling.antt =====
-- Filling a match with a final result twice, and what it may not change.
use mathlib.Core.Path.{subst}
use finsport.Prelude.{
  ℕ, ◌≡◌, refl, Bool, true, false, not, ◌&&◌, ◌||◌, Option, none, some, List, [], ◌∷◌,
  if◌then◌else◌, if_elim, any, arith, Bool-cases, inl, inr, All, length,
}
use finsport.Historical.{
  FinalResult, ShortStatus, final, recoverable, other_short, LongStatus, is_final, is_recoverable,
  is_empty_long, conflict, preserved, filled, any_conflict, final_result_conflicts, fill_fields,
  is_gap, filled_result, has_changed, fill_compatible_final_result,
}

-- A value that is there.
abbrev pub IsGiven : Option ℕ → Type 0
IsGiven v = is_gap v ≡ false

fill_fields-agrees :
    (fs vs : List (Option ℕ))
    → any_conflict fs vs ≡ false
    → any_conflict (fill_fields fs vs) vs ≡ false
unfolding any_conflict fill_fields
fill_fields-agrees [] vs h = refl
fill_fields-agrees (f ∷ fs) [] h = refl
fill_fields-agrees (none ∷ fs) (none ∷ vs) h = fill_fields-agrees fs vs h
fill_fields-agrees (none ∷ fs) (some n ∷ vs) h =
    (let rest = fill_fields-agrees fs vs h in ground (arith, rest))
fill_fields-agrees (some m ∷ fs) (none ∷ vs) h = cc
fill_fields-agrees (some m ∷ fs) (some n ∷ vs) h =
    (let e : any_conflict fs vs ≡ false = ground arith in
      let rest = fill_fields-agrees fs vs e in ground (arith, rest))

fill_fields-full :
    (fs vs : List (Option ℕ))
    → length fs ≡ length vs
    → All IsGiven vs
    → any is_gap (fill_fields fs vs) ≡ false
unfolding fill_fields
fill_fields-full [] vs e h = refl
fill_fields-full (f ∷ fs) [] e h = absurd (omega (arith, e))
fill_fields-full (none ∷ fs) (v ∷ vs) e h =
    (let rest = fill_fields-full fs vs (omega (arith, e)) h.1 in
      let v = h.0 in ground (arith, rest))
fill_fields-full (some m ∷ fs) (v ∷ vs) e h = fill_fields-full fs vs (omega (arith, e)) h.1

same_filled : {a b : FinalResult} → some (filled a) ≡ some (filled b) → a ≡ b
same_filled h = cc

filled-is :
    (clean : FinalResult → Bool) (m values : FinalResult) {after : FinalResult}
    → fill_compatible_final_result clean m values ≡ some (filled after)
    → (final_result_conflicts m values ≡ false) × (filled_result m values ≡ after)
unfolding fill_compatible_final_result
filled-is clean m values {after} h = elim (Bool-cases (final_result_conflicts m values)) [
  | inl e ↦ absurd (
      let x : some conflict ≡ some (filled after) = rw (e, fill_compatible_final_result) at h in cc)
  | inr e ↦ elim (Bool-cases (has_changed m values)) [
    | inr c ↦ absurd (
        let x : some preserved ≡ some (filled after) =
          rw (e, c, fill_compatible_final_result) at h in
        cc)
    | inl c ↦ elim (Bool-cases (clean (filled_result m values))) [
      | inl y ↦ (e, same_filled (rw (e, c, y, fill_compatible_final_result) at h))
      | inr y ↦ absurd (
          let x : none ≡ some (filled after) = rw (e, c, y, fill_compatible_final_result) at h in
          cc)
    ]
  ]
]

fields_agree :
    (m values : FinalResult)
    → final_result_conflicts m values ≡ false
    → any_conflict m.fields values.fields ≡ false
unfolding final_result_conflicts
fields_agree m values h = ground arith

filled_final :
    (m values : FinalResult)
    → final_result_conflicts m values ≡ false
    → is_final values.status_short ≡ true
    → is_final (filled_result m values).status_short ≡ true
unfolding final_result_conflicts filled_result
filled_final m values h f = ground arith

final_ended : (s : ShortStatus) → is_final s ≡ true → is_recoverable s ≡ false
final_ended (final n) h = refl
final_ended (recoverable n) h = cc
final_ended (other_short n) h = cc

long_kept :
    (t : Bool) (m v : LongStatus)
    → (is_empty_long (if t || is_empty_long m then v else m) && not (is_empty_long v)) ≡ false
long_kept t m v =
    if_elim (λ l. (is_empty_long l && not (is_empty_long v)) ≡ false) (t || is_empty_long m)
      (λ e. ground arith) (λ e. ground arith)

filled_preserved :
    (m values : FinalResult)
    → final_result_conflicts m values ≡ false
    → is_final values.status_short ≡ true
    → length m.fields ≡ length values.fields
    → All IsGiven values.fields
    → has_changed (filled_result m values) values ≡ false
unfolding has_changed filled_result
filled_preserved m values h f e given =
    let full = fill_fields-full m.fields values.fields e given in
    let ended = final_ended (filled_result m values).status_short (filled_final m values h f) in
    let long = long_kept (is_recoverable m.status_short) m.status_long values.status_long in
    rw (full, ended, long) refl

filled_agrees :
    (m values : FinalResult)
    → final_result_conflicts m values ≡ false
    → is_final values.status_short ≡ true
    → final_result_conflicts (filled_result m values) values ≡ false
unfolding final_result_conflicts filled_result
filled_agrees m values h f =
    let same = fill_fields-agrees m.fields values.fields (fields_agree m values h) in
    let ended = filled_final m values h f in rw (same, ended) refl

-- Filling is done once: after a match has been filled with a complete final result, filling it
-- with the same one again finds no conflict and changes nothing.
pub fill_compatible_final_result_again :
    (clean : FinalResult → Bool) (m values : FinalResult) {after : FinalResult}
    → is_final values.status_short ≡ true
    → length m.fields ≡ length values.fields
    → All IsGiven values.fields
    → fill_compatible_final_result clean m values ≡ some (filled after)
    → fill_compatible_final_result clean after values ≡ some preserved
unfolding fill_compatible_final_result
fill_compatible_final_result_again clean m values f e given h =
    let (fits, is) = filled-is clean m values h in
    subst (λ x. fill_compatible_final_result clean x values ≡ some preserved) is
      (rw
        (
          filled_agrees m values fits f,
          filled_preserved m values fits f e given,
          fill_compatible_final_result,
        )
        refl)
