-- ===== src/Results/Route/Window.antt =====
-- The counting of a route's failures within ten minutes, and the delay that follows.
use finsport.Prelude.{
  ℕ, ◌+◌, ◌≡◌, refl, ap, ◌∙◌, Bool, true, false, ◌||◌, some, leb, if_elim, arith, Bool-cases, ◌⊎◌,
  inl, inr,
}
use finsport.Results.Route.{
  Route, backoff, is_backoff, next_level, level_delay, back_off, opens_window, count_failure,
  fail_counted,
}
use finsport.Results.Route.Cycle.{level_delay_bound}

abbrev pub is_due : Route → ℕ → Bool
is_due r at = leb 3 (count_failure r at).bsd_failures || is_backoff r.bsd_state

count_failure-bsd_state : (r : Route) (at : ℕ) → (count_failure r at).bsd_state ≡ r.bsd_state
unfolding count_failure
count_failure-bsd_state r at =
    if_elim {A = Route} (λ x. x.bsd_state ≡ r.bsd_state)
      (opens_window r.bsd_failure_window_started_at at) (λ e. refl) (λ e. refl)

fail_counted_low :
    (r : Route) (at : ℕ) → is_due r at ≡ false → fail_counted r at ≡ count_failure r at
unfolding fail_counted
fail_counted_low r at h =
    let same = ap is_backoff (count_failure-bsd_state r at) in
    if_elim (λ x. x ≡ count_failure r at)
      (leb 3 (count_failure r at).bsd_failures || is_backoff (count_failure r at).bsd_state)
      (λ e. absurd (let x : true ≡ false = ground arith in cc)) (λ e. refl)

fail_counted_high :
    (r : Route) (at : ℕ)
    → is_due r at ≡ true
    → let c = count_failure r at in fail_counted r at ≡ back_off c (at + level_delay (next_level c))
unfolding fail_counted
fail_counted_high r at h =
    let c = count_failure r at in
    let same = ap is_backoff (count_failure-bsd_state r at) in
    if_elim (λ x. x ≡ back_off c (at + level_delay (next_level c)))
      (leb 3 c.bsd_failures || is_backoff c.bsd_state) (λ e. refl)
      (λ e. absurd (let x : true ≡ false = ground arith in cc))

-- A counted failure backs a route off exactly from the third of a window on, or when the route
-- backs off already, and then for fifteen or for thirty minutes.
pub fail_counted_delay :
    (r : Route) (at : ℕ)
    → ((is_due r at ≡ false) × (fail_counted r at ≡ count_failure r at))
      ⊎ ((is_due r at ≡ true)
          × ((fail_counted r at).bsd_state ≡ backoff)
          × (((fail_counted r at).bsd_backoff_until ≡ some (at + 900))
              ⊎ ((fail_counted r at).bsd_backoff_until ≡ some (at + 1800))))
unfolding back_off
fail_counted_delay r at = elim (Bool-cases (is_due r at)) [
  | inr e ↦ inl (e, fail_counted_low r at e)
  | inl e ↦
      (let is = fail_counted_high r at e in
        let until = ap (λ r. r.bsd_backoff_until) is in
        inr (
          e,
          ap (λ r. r.bsd_state) is,
          elim (level_delay_bound (count_failure r at)) [
            | inl x ↦ inl (until ∙ ap (λ n. some (at + n)) x)
            | inr x ↦ inr (until ∙ ap (λ n. some (at + n)) x)
          ],
        ))
]

-- A route in the middle of a window.
abbrev pub counting : Route → ℕ → ℕ → Route
counting r started n = record r { bsd_failure_window_started_at = some started; bsd_failures = n }
