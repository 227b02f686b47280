-- ===== src/Quota/Wake.antt =====
-- The wake at which the result of a match is looked for.
use finsport.Prelude.{ℕ, ◌+◌, ◌%◌, ◌≤◌, ◌<◌, ◌≡◌, refl, ◌⊎◌, arith, Bool-cases, inl, inr, leb, ◌==◌}
use finsport.Quota.{result_check_opportunity, wake_floor}

wake_floor-mod : (d : ℕ) → wake_floor d % 180 ≡ 0
wake_floor-mod d = omega arith

wake_floor-bounds : (d : ℕ) → (wake_floor d ≤ d) × (d < wake_floor d + 180)
wake_floor-bounds d = (omega arith, omega arith)

-- A result that is due is looked for now. Otherwise the wake is the first multiple of three
-- minutes that is not before the deadline.
pub result_check_opportunity_lem :
    (deadline at : ℕ)
    → ((deadline ≤ at) × (result_check_opportunity deadline at ≡ at))
      ⊎ ((at < deadline)
          × (result_check_opportunity deadline at % 180 ≡ 0)
          × (deadline ≤ result_check_opportunity deadline at)
          × (result_check_opportunity deadline at < deadline + 180))
unfolding result_check_opportunity
result_check_opportunity_lem deadline at = elim (Bool-cases (leb deadline at)) [
  | inl due ↦ inl (ground arith, rw (due, result_check_opportunity) refl)
  | inr later ↦
      (let (low, high) = wake_floor-bounds deadline in
        let step = wake_floor-mod deadline in
        elim (Bool-cases (deadline == wake_floor deadline)) [
          | inl even ↦ inr (
            ground arith,
            rw (later, even, result_check_opportunity) step,
            rw (later, even, result_check_opportunity) (ground arith),
            rw (later, even, result_check_opportunity) (ground arith),
          )
          | inr odd ↦
              (let over : wake_floor deadline < deadline = ground (arith, low) in
                inr (
                  ground arith,
                  rw (later, odd, result_check_opportunity) (omega (arith, step)),
                  rw (later, odd, result_check_opportunity) (omega (arith, high)),
                  rw (later, odd, result_check_opportunity) (omega (arith, over)),
                ))
        ])
]
