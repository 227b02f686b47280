-- ===== src/Quota/Debt.antt =====
-- The reserve for results covers every open position that is due before the day ends.
use finsport.Prelude.{
  ℕ, ◌≤◌, ◌≡◌, refl, Bool, true, not, ◌&&◌, ◌||◌, List, [], ◌∷◌, arith, All, All-weaken, Bool-cases,
  inl, inr, count_if, ltb, if◌then◌else◌,
}
use finsport.Quota.{
  OpenResult, ResultDebt, open_results, open_result_reserve, result_check_opportunity,
  result_deadline, epoch_end, has_id, has_sweep, add_id, add_sweep,
}

-- `result_check_opportunity(…) < epoch_end`
abbrev pub is_due : ℕ → OpenResult → Bool
is_due at p = ltb (result_check_opportunity (result_deadline p) at) (epoch_end at)

-- A position that is due has its match in the debt, and either a directed call for it or a sweep
-- of its date at its wake.
abbrev pub is_covered : ℕ → ResultDebt → OpenResult → Bool
is_covered at d p =
    not (is_due at p)
    || (has_id p.match_id d.match_ids
        && (if p.directed
            then has_id p.match_id d.fallbacks
            else has_sweep (p.local_date, result_check_opportunity (result_deadline p) at)
                d.sweeps))

has_id-add_id : (n m : ℕ) (ids : List ℕ) → has_id n ids ≡ true → has_id n (add_id m ids) ≡ true
has_id-add_id n m ids h = ground arith

added_id : (n : ℕ) (ids : List ℕ) → has_id n (add_id n ids) ≡ true
added_id n ids = ground arith

kept_sweep :
    (s t : ℕ × ℕ) (sweeps : List (ℕ × ℕ))
    → has_sweep s sweeps ≡ true
    → has_sweep s (add_sweep t sweeps) ≡ true
kept_sweep s t sweeps h = ground arith

added_sweep : (s : ℕ × ℕ) (sweeps : List (ℕ × ℕ)) → has_sweep s (add_sweep s sweeps) ≡ true
added_sweep s sweeps = ground arith

open_results-keeps :
    (at : ℕ) (q : OpenResult) (rest : List OpenResult) (p : OpenResult)
    → is_covered at (open_results at rest) p ≡ true
    → is_covered at (open_results at (q ∷ rest)) p ≡ true
unfolding open_results
open_results-keeps at q rest p h =
    let d = open_results at rest in
    let wake = result_check_opportunity (result_deadline q) at in
    let same = has_id-add_id p.match_id q.match_id d.match_ids in
    let directed = has_id-add_id p.match_id q.match_id d.fallbacks in
    let swept =
      kept_sweep (p.local_date, result_check_opportunity (result_deadline p) at)
        (q.local_date, wake) d.sweeps in
    elim (Bool-cases (is_due at q)) [
      | inr later ↦ rw (later, open_results) h
      | inl due ↦ elim (Bool-cases q.directed) [
        | inl own ↦ rw (due, own, open_results) (ground (arith, h, same, directed))
        | inr sweep ↦ rw (due, sweep, open_results) (ground (arith, h, same, swept))
      ]
    ]

open_results-head :
    (at : ℕ) (p : OpenResult) (rest : List OpenResult)
    → is_covered at (open_results at (p ∷ rest)) p ≡ true
unfolding open_results
open_results-head at p rest =
    let d = open_results at rest in
    let wake = result_check_opportunity (result_deadline p) at in
    elim (Bool-cases (is_due at p)) [
      | inr later ↦ rw (later, open_results) refl
      | inl due ↦ elim (Bool-cases p.directed) [
        | inl own ↦
            rw (due, own, open_results)
              (rw (added_id p.match_id d.match_ids, added_id p.match_id d.fallbacks) refl)
        | inr sweep ↦
            rw (due, sweep, open_results)
              (rw (added_id p.match_id d.match_ids, added_sweep (p.local_date, wake) d.sweeps) refl)
      ]
    ]

open_results-few :
    (at : ℕ) (p : OpenResult) (rest : List OpenResult)
    → open_result_reserve (open_results at rest) ≤ count_if (is_due at) rest
    → open_result_reserve (open_results at (p ∷ rest)) ≤ count_if (is_due at) (p ∷ rest)
unfolding open_results
open_results-few at p rest few = elim (Bool-cases (is_due at p)) [
  | inr later ↦ rw (later, open_results) (omega (arith, few))
  | inl due ↦ elim (Bool-cases p.directed) [
    | inl own ↦ rw (due, own, open_results) (ground (arith, few))
    | inr sweep ↦ rw (due, sweep, open_results) (ground (arith, few))
  ]
]

-- Every open position that is due before the day ends is covered by the debt: its match is
-- counted, with a directed call or a sweep of its date at its wake. The reserve is at most one
-- call for each position that is due.
pub open_results-covers :
    (at : ℕ) (ps : List OpenResult)
    → All (λ p. is_covered at (open_results at ps) p ≡ true) ps
      × (open_result_reserve (open_results at ps) ≤ count_if (is_due at) ps)
unfolding open_results
open_results-covers at [] = (tt, omega arith)
open_results-covers at (p ∷ rest) =
    let (covered, few) = open_results-covers at rest in
    (
      (open_results-head at p rest, All-weaken rest (open_results-keeps at p rest) covered),
      open_results-few at p rest few,
    )
