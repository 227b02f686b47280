-- ===== src/Results/Route.antt =====
-- The BSD route of a competition in football/result_routing.py: `_failure`, `_success`, `_ready`
-- and `_confirmed_conflict`. Times are seconds since an epoch that starts a UTC day. The keys of
-- `provenance` that the code reads again are fields; a key that is missing is `none`.
pub mod Cycle
pub mod Window
use finsport.Prelude.{
  ℕ, suc, ◌+◌, ◌*◌, ◌/◌, Bool, true, false, not, ◌&&◌, ◌||◌, Option, none, some, List, [], ◌∷◌,
  ◌==◌, ltb, leb, if◌then◌else◌, map, keep, any, length,
}

-- `bsd_state`
pub data RouteState : Type 0 where
  bootstrap_pending shadow_validation primary_validated backoff auth_failed : RouteState
  entitlement_failed degraded api_football_only : RouteState

-- `BSDError.state`
pub data ErrorState : Type 0 where
  auth_error entitlement_error taster_exhausted backoff_error identity_unresolved : ErrorState
  identity_ambiguous not_configured provider_error provider_malformed : ErrorState

pub record BsdError : Type 0 where
  pub state : ErrorState
  pub retry_after : Option ℕ

-- `CompetitionResultRoute`; `has_leagues` says that `bsd_league_ids` is not empty.
pub record Route : Type 0 where
  pub competition : ℕ
  pub has_leagues : Bool
  pub bsd_state : RouteState
  pub bsd_backoff_until : Option ℕ
  pub bsd_failures : ℕ
  pub bsd_failure_window_started_at : Option ℕ
  pub bsd_previous_state : Option RouteState
  pub bsd_backoff_level : Option ℕ
  pub bsd_global_failure : Option ErrorState

abbrev pub or_default {ℓ} : {A : Type ℓ} → Option A → A → A
or_default none d = d
or_default (some a) d = a

abbrev pub is_backoff : RouteState → Bool
is_backoff backoff = true
is_backoff bootstrap_pending = false
is_backoff shadow_validation = false
is_backoff primary_validated = false
is_backoff auth_failed = false
is_backoff entitlement_failed = false
is_backoff degraded = false
is_backoff api_football_only = false

-- How `_failure` treats an error: for every route, as a rate limit, as a counted failure, or not
-- at all.
pub data Treatment : Type 0 where
  lasting : RouteState → Treatment
  exhausted limited counted ignored : Treatment

abbrev pub treatment : ErrorState → Treatment
treatment auth_error = lasting auth_failed
treatment entitlement_error = lasting entitlement_failed
treatment taster_exhausted = exhausted
treatment backoff_error = limited
treatment identity_unresolved = ignored
treatment identity_ambiguous = ignored
treatment not_configured = counted
treatment provider_error = counted
treatment provider_malformed = counted

-- The end of the quota: the provider's delay, or the next midnight.
abbrev pub exhausted_until : Option ℕ → ℕ → ℕ
exhausted_until none at = suc (at / 86400) * 86400
exhausted_until (some delay) at = at + delay

-- `error.retry_after or 900`
abbrev pub retry_delay : Option ℕ → ℕ
retry_delay none = 900
retry_delay (some delay) = if delay == 0 then 900 else delay

abbrev pub capped_level : ℕ → ℕ
capped_level level = if leb 2 level then 2 else level

-- `min(2, int(provenance.get("bsd_backoff_level", 0)) + 1)`
abbrev pub next_level : Route → ℕ
next_level r = capped_level (or_default r.bsd_backoff_level 0 + 1)

-- `(15, 30, 60)[level - 1]` minutes; a level past the tuple does not occur.
abbrev pub level_delay : ℕ → ℕ
level_delay level = if level == 1 then 900 else if level == 2 then 1800 else 3600

-- The route enters the backoff, and remembers the state it had before the first.
unfoldable pub back_off : Route → ℕ → Route
back_off r until = record r {
  bsd_previous_state = some (or_default r.bsd_previous_state r.bsd_state);
  bsd_backoff_level = some (next_level r);
  bsd_state = backoff;
  bsd_backoff_until = some until;
}

-- A failure is counted within ten minutes of the first of its window.
abbrev pub opens_window : Option ℕ → ℕ → Bool
opens_window none at = true
opens_window (some started) at = ltb (started + 600) at

unfoldable pub count_failure : Route → ℕ → Route
count_failure r at =
    if opens_window r.bsd_failure_window_started_at at
    then record r { bsd_failure_window_started_at = some at; bsd_failures = 1 }
    else record r { bsd_failures = suc r.bsd_failures }

unfoldable pub fail_counted : Route → ℕ → Route
unfolding count_failure back_off
fail_counted r at =
    let c = count_failure r at in
    if leb 3 c.bsd_failures || is_backoff c.bsd_state
    then back_off c (at + level_delay (next_level c))
    else c

-- What a failure that concerns every route does to one with leagues.
unfoldable pub fail_globally : Route → ErrorState → RouteState → Option ℕ → Route
fail_globally r error state until = record r {
  bsd_previous_state = some (or_default r.bsd_previous_state r.bsd_state);
  bsd_global_failure = some error;
  bsd_state = state;
  bsd_backoff_until = until;
}

-- `_failure` on the route that failed.
unfoldable pub fail_route : Route → BsdError → ℕ → Route
unfolding fail_globally back_off fail_counted
fail_route r e at = elim (treatment e.state) [
  | lasting state ↦ if r.has_leagues then fail_globally r e.state state none else r
  | exhausted ↦
      if r.has_leagues
      then fail_globally r e.state backoff (some (exhausted_until e.retry_after at))
      else r
  | limited ↦ back_off r (at + retry_delay e.retry_after)
  | counted ↦ fail_counted r at
  | ignored ↦ r
]

abbrev pub is_global : ErrorState → Bool
is_global s = elim (treatment s) [
  | lasting state ↦ true
  | exhausted ↦ true
  | limited ↦ false
  | counted ↦ false
  | ignored ↦ false
]

-- `_failure`: every route, or the route of the competition alone.
unfoldable pub failure : List Route → ℕ → BsdError → ℕ → List Route
unfolding fail_route
failure [] competition e at = []
failure (r ∷ routes) competition e at =
    let rest = failure routes competition e at in
    if is_global e.state || r.competition == competition then fail_route r e at ∷ rest else r ∷ rest

-- `_success`
unfoldable pub success : Route → Route
success r = record r {
  bsd_state =
      if is_backoff r.bsd_state
      then or_default r.bsd_previous_state shadow_validation
      else r.bsd_state;
  bsd_previous_state = none;
  bsd_backoff_level = none;
  bsd_global_failure = none;
  bsd_failures = 0;
  bsd_failure_window_started_at = none;
  bsd_backoff_until = none;
}

-- `route.bsd_backoff_until and at < route.bsd_backoff_until`
abbrev pub before_until : Option ℕ → ℕ → Bool
before_until none at = false
before_until (some until) at = ltb at until

-- The states in which a route is asked for results.
abbrev pub is_running : RouteState → Bool
is_running s = elim s [ shadow_validation ↦ true | primary_validated ↦ true | _ ↦ false ]

abbrev pub is_unavailable : RouteState → Bool
is_unavailable s = elim s [
  | auth_failed ↦ true
  | entitlement_failed ↦ true
  | degraded ↦ true
  | _ ↦ false
]

-- `_ready`
unfoldable pub ready : Route → ℕ → Bool
ready r at =
    if is_unavailable r.bsd_state
    then false
    else if is_backoff r.bsd_state && before_until r.bsd_backoff_until at
    then false
    else is_running r.bsd_state || is_backoff r.bsd_state

-- `effective_bsd_state`: `none` is BSD_NOT_CONFIGURED.
unfoldable pub effective_bsd_state : Bool → Route → Option RouteState
effective_bsd_state has_token r = if r.has_leagues && not has_token then none else some r.bsd_state

abbrev pub degrade : Route → Route
degrade r = record r { bsd_state = degraded }

-- The competitions of the BSD conflicts of the last thirty days, each once.
unfoldable pub affected : List (ℕ × ℕ) → ℕ → List ℕ
affected [] at = []
affected ((competition, observed_at) ∷ conflicts) at =
    let rest = affected conflicts at in
    if leb at (observed_at + 2592000)
      && leb observed_at at
      && not (any (λ c. c == competition) rest)
    then competition ∷ rest
    else rest

-- `_confirmed_conflict`; `conflicts` holds the competition and the time of each BSD row in
-- conflict.
unfoldable pub confirmed_conflict : List Route → ℕ → List (ℕ × ℕ) → ℕ → List Route
unfolding affected
confirmed_conflict routes competition conflicts at =
    let wide = leb 2 (length (affected conflicts at)) in
    map {A = Route}
      (λ r. if r.competition == competition || (wide && r.has_leagues) then degrade r else r) routes
