-- ===== src/Results/Route/Cycle.antt =====
-- The life of a route between failures and successes.
use finsport.Prelude.{
  ℕ, ◌+◌, ◌≤◌, ◌≡◌, refl, ap, true, false, ◌||◌, Option, none, some, List, [], ◌∷◌, leb, if_elim,
  arith, All, Bool-cases, ◌⊎◌, inl, inr,
}
use finsport.Results.Route.{
  Route, RouteState, BsdError, Treatment, lasting, exhausted, limited, counted, ignored, treatment,
  backoff, is_backoff, exhausted_until, retry_delay, next_level, level_delay, back_off,
  opens_window, count_failure, fail_counted, fail_globally, fail_route, ready, is_running,
  is_unavailable, or_default,
}

-- The route is in the state `s`, or backs off and remembers `s`; at `last` its backoff is over.
pub data IsCycling (s : RouteState) (last : ℕ) (r : Route) : Type 0 where
  running : r.bsd_state ≡ s → r.bsd_previous_state ≡ none → IsCycling s last r
  waiting :
      (until : ℕ)
      → r.bsd_state ≡ backoff
      → r.bsd_previous_state ≡ some s
      → r.bsd_backoff_until ≡ some until
      → until ≤ last
      → IsCycling s last r

-- A failure up to the time `last`, which any later success undoes, with a delay of a day at most.
pub record IsPassing (last : ℕ) (e : BsdError) (at : ℕ) : Type 0 where
  pub passes : (state : RouteState) → treatment e.state ≡ lasting state → ⊥
  pub delay : or_default e.retry_after 0 ≤ 86400
  pub early : at ≤ last

back_off-IsCycling :
    (s : RouteState) (last until : ℕ) (r : Route)
    → IsCycling s last r
    → until ≤ last
    → IsCycling s last (back_off r until)
unfolding back_off
back_off-IsCycling s last until r (running e p) u = waiting until refl (rw p (ap some e)) refl u
back_off-IsCycling s last until r (waiting old e p b o) u = waiting until refl (rw p refl) refl u

pub level_delay_bound :
    (r : Route) → (level_delay (next_level r) ≡ 900) ⊎ (level_delay (next_level r) ≡ 1800)
level_delay_bound r = elim (Bool-cases (leb 2 (or_default r.bsd_backoff_level 0 + 1))) [
  | inl e ↦ inr (rw e refl)
  | inr e ↦ inl (let one : or_default r.bsd_backoff_level 0 ≡ 0 = ground arith in rw one refl)
]

count_failure-IsCycling :
    (s : RouteState) (last at : ℕ) (r : Route)
    → IsCycling s last r
    → IsCycling s last (count_failure r at)
unfolding count_failure
count_failure-IsCycling s last at r (running e p) =
    if_elim (IsCycling s last) (opens_window r.bsd_failure_window_started_at at) (λ w. running e p)
      (λ w. running e p)
count_failure-IsCycling s last at r (waiting until e p b o) =
    if_elim (IsCycling s last) (opens_window r.bsd_failure_window_started_at at)
      (λ w. waiting until e p b o) (λ w. waiting until e p b o)

fail_counted-IsCycling :
    (s : RouteState) (last at : ℕ) (r : Route)
    → at ≤ last
    → IsCycling s (last + 86400) r
    → IsCycling s (last + 86400) (fail_counted r at)
unfolding fail_counted
fail_counted-IsCycling s last at r early c =
    let d = count_failure r at in
    let c' = count_failure-IsCycling s (last + 86400) at r c in
    if_elim (IsCycling s (last + 86400)) (leb 3 d.bsd_failures || is_backoff d.bsd_state)
      (λ e.
        back_off-IsCycling s (last + 86400) (at + level_delay (next_level d)) d c'
          (elim (level_delay_bound d) [ inl y ↦ omega (arith, y) | inr y ↦ omega (arith, y) ]))
      (λ e. c')

fail_globally-IsCycling :
    (s : RouteState) (last until : ℕ) (r : Route) (e : BsdError)
    → IsCycling s last r
    → until ≤ last
    → IsCycling s last (fail_globally r e.state backoff (some until))
unfolding fail_globally
fail_globally-IsCycling s last until r e (running x p) u =
    waiting until refl (rw p (ap some x)) refl u
fail_globally-IsCycling s last until r e (waiting old x p b o) u =
    waiting until refl (rw p refl) refl u

exhausted_until_bound :
    (delay : Option ℕ) (at last : ℕ)
    → or_default delay 0 ≤ 86400
    → at ≤ last
    → exhausted_until delay at ≤ last + 86400
exhausted_until_bound none at last d h = omega arith
exhausted_until_bound (some n) at last d h = omega arith

retry_delay_bound : (delay : Option ℕ) → or_default delay 0 ≤ 86400 → retry_delay delay ≤ 86400
retry_delay_bound none h = omega arith
retry_delay_bound (some n) h = ground arith

fail_route-IsCycling :
    (s : RouteState) (last at : ℕ) (r : Route) (e : BsdError)
    → IsPassing last e at
    → IsCycling s (last + 86400) r
    → IsCycling s (last + 86400) (fail_route r e at)
unfolding fail_route
fail_route-IsCycling s last at r e h c = go (treatment e.state) refl
  where
    go : (t : Treatment) → treatment e.state ≡ t → IsCycling s (last + 86400) (fail_route r e at)
    go (lasting state) x = absurd (h.passes state x)
    go exhausted x =
        rw (x, fail_route)
          (if_elim (IsCycling s (last + 86400)) r.has_leagues
            (λ y.
              fail_globally-IsCycling s (last + 86400) (exhausted_until e.retry_after at) r e c
                (exhausted_until_bound e.retry_after at last h.delay h.early))
            (λ y. c))
    go limited x =
        rw (x, fail_route)
          (back_off-IsCycling s (last + 86400) (at + retry_delay e.retry_after) r c (
            let short = retry_delay_bound e.retry_after h.delay in
            let early = h.early in omega (arith, short, early)))
    go counted x = rw (x, fail_route) (fail_counted-IsCycling s last at r h.early c)
    go ignored x = rw (x, fail_route) c

unfoldable pub fail_all : Route → List (BsdError × ℕ) → Route
fail_all r [] = r
fail_all r ((e, at) ∷ errors) = fail_all (fail_route r e at) errors

fail_all-IsCycling :
    (s : RouteState) (last : ℕ) (r : Route) (errors : List (BsdError × ℕ))
    → All (λ x. IsPassing last x.0 x.1) errors
    → IsCycling s (last + 86400) r
    → IsCycling s (last + 86400) (fail_all r errors)
unfolding fail_all
fail_all-IsCycling s last r [] h c = c
fail_all-IsCycling s last r ((e, at) ∷ errors) h c =
    fail_all-IsCycling s last (fail_route r e at) errors h.1
      (fail_route-IsCycling s last at r e h.0 c)

pub running_state : (s : RouteState) → is_running s ≡ true → is_backoff s ≡ false
running_state s h = ground arith

pub running_available : (s : RouteState) → is_running s ≡ true → is_unavailable s ≡ false
running_available s h = ground arith

ready-IsCycling :
    (s : RouteState) (last : ℕ) (r : Route)
    → is_running s ≡ true
    → IsCycling s last r
    → ready r last ≡ true
unfolding ready
ready-IsCycling s last r h (running e p) =
    rw (e, running_available s h, running_state s h, h, ready) refl
ready-IsCycling s last r h (waiting until e p b o) = rw (e, b, ready) (ground arith)

-- A running route is asked again: whatever failures it meets up to a time, none lasting and none
-- with a retry delay of more than a day, it is ready a day after that time at the latest.
pub fail_all-ready :
    (s : RouteState) (last : ℕ) (r : Route) (errors : List (BsdError × ℕ))
    → is_running s ≡ true
    → r.bsd_state ≡ s
    → r.bsd_previous_state ≡ none
    → All (λ x. IsPassing last x.0 x.1) errors
    → ready (fail_all r errors) (last + 86400) ≡ true
fail_all-ready s last r errors h e p passing =
    ready-IsCycling s (last + 86400) (fail_all r errors) h
      (fail_all-IsCycling s last r errors passing (running e p))
