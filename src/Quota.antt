-- ===== src/Quota.antt =====
-- football/quota.py: what is left of the provider's daily quota, and what must be kept of it. Times
-- are UTC seconds, so that a day starts at a multiple of 86400.
pub mod Remaining
pub mod Wake
pub mod Debt
mod Tests
use finsport.Prelude.{
  ℕ, zero, suc, ◌+◌, ◌-◌, ◌*◌, ◌/◌, ◌%◌, Bool, true, false, not, ◌&&◌, ◌||◌, Option, none, some,
  List, [], ◌∷◌, ltb, leb, ◌==◌, if◌then◌else◌, length, count_if, any,
}

-- `ProviderCallAudit`
pub record Audit : Type 0 where
  pub pk : ℕ
  pub api_football : Bool
  pub started_at : ℕ
  pub quota_limit : Option ℕ
  pub quota_remaining : Option ℕ
  pub quota_observed_at : Option ℕ

-- A `CaptureRun` or a `MaintenanceRun`; `audited_attempts` counts its audits of the provider.
pub record ProviderRun : Type 0 where
  pub started_at : ℕ
  pub provider_attempts : ℕ
  pub audited_attempts : ℕ
  pub quota_limit : Option ℕ
  pub quota_remaining_after : Option ℕ
  pub quota_observed_at : Option ℕ

-- The rows, the runs in the order of their ids.
pub record CallLog : Type 0 where
  pub audits : List Audit
  pub captures : List ProviderRun
  pub maintenance : List ProviderRun

abbrev pub day_seconds : ℕ
day_seconds = 86400

-- `epoch_bounds`
abbrev pub epoch_start : ℕ → ℕ
epoch_start at = at / day_seconds * day_seconds

abbrev pub epoch_end : ℕ → ℕ
epoch_end at = epoch_start at + day_seconds

abbrev pub is_none {ℓ} : {A : Type ℓ} → Option A → Bool
is_none none = true
is_none (some a) = false

-- The two lower bounds of `_unattributed_legacy_attempts`.
pub data Lower : Type 0 where
  after since : ℕ → Lower

abbrev pub begins : Lower → ℕ → Bool
begins (after t) started = ltb t started
begins (since t) started = leb t started

unfoldable pub unattributed_attempts : Lower → ℕ → List ProviderRun → ℕ
unattributed_attempts lower at [] = 0
unattributed_attempts lower at (r ∷ rest) =
    (if leb r.started_at at && (is_none r.quota_observed_at && begins lower r.started_at)
      then r.provider_attempts - r.audited_attempts
      else 0)
    + unattributed_attempts lower at rest

abbrev pub legacy_attempts : Lower → ℕ → CallLog → ℕ
legacy_attempts lower at l =
    unattributed_attempts lower at l.captures + unattributed_attempts lower at l.maintenance

abbrev pub audited_attempt : Lower → ℕ → Audit → Bool
audited_attempt lower at a = a.api_football && (begins lower a.started_at && leb a.started_at at)

-- `_epoch_physical_attempts`
unfoldable pub physical_attempts : Lower → ℕ → CallLog → ℕ
physical_attempts lower at l =
    count_if (audited_attempt lower at) l.audits + legacy_attempts lower at l

-- A header: the limit, what remained, and when that was observed.
pub record Header : Type 0 where
  pub pk : ℕ
  pub limit : Option ℕ
  pub remaining : ℕ
  pub observed_at : ℕ

header_at : ℕ → ℕ → Option ℕ → Option ℕ → Option ℕ → Option Header
header_at at pk limit (some remaining) (some observed) =
    if leb observed at
    then some (record { pk = pk; limit = limit; remaining = remaining; observed_at = observed })
    else none
header_at at pk limit _ _ = none

unfoldable pub audit_header : ℕ → Audit → Option Header
unfolding header_at
audit_header at a =
    if a.api_football
    then header_at at a.pk a.quota_limit a.quota_remaining a.quota_observed_at
    else none

-- `order_by("-quota_observed_at", "-id").first()`
abbrev pub later_header : Header → Header → Bool
later_header h k =
    ltb k.observed_at h.observed_at || (h.observed_at == k.observed_at && ltb k.pk h.pk)

abbrev pub latest_of : Option Header → Option Header → Option Header
latest_of none k = k
latest_of (some h) none = some h
latest_of (some h) (some k) = if later_header h k then some h else some k

unfoldable pub latest_audit : ℕ → List Audit → Option Header
unfolding audit_header
latest_audit at [] = none
latest_audit at (a ∷ rest) = latest_of (audit_header at a) (latest_audit at rest)

-- The header of a run; the id is its place in the list.
unfoldable pub latest_run : ℕ → ℕ → List ProviderRun → Option Header
unfolding header_at
latest_run at pk [] = none
latest_run at pk (r ∷ rest) =
    latest_of (header_at at pk r.quota_limit r.quota_remaining_after r.quota_observed_at)
      (latest_run at (suc pk) rest)

-- `max(legacy_candidates, key=…)` keeps the first of two that are equally late.
abbrev pub legacy_of : Option Header → Option Header → Option Header
legacy_of none k = k
legacy_of (some h) none = some h
legacy_of (some h) (some k) = if ltb h.observed_at k.observed_at then some k else some h

pub data Basis : Type 0 where
  header_current_utc_epoch header_stale_epoch bounded_bootstrap : Basis

pub record QuotaState : Type 0 where
  pub basis : Basis
  pub limit : Option ℕ
  pub remaining : ℕ
  pub observed_at : Option ℕ
  pub freshness_seconds : Option ℕ
  pub stale_establishing_attempt_available : Bool

abbrev pub is_current : ℕ → Header → Bool
is_current at h = leb (epoch_start at) h.observed_at && ltb h.observed_at (epoch_end at)

unfoldable pub header_state : ℕ → CallLog → Header → ℕ → QuotaState
unfolding physical_attempts
header_state at l h attempts = record {
  basis = if is_current at h then header_current_utc_epoch else header_stale_epoch;
  limit = h.limit;
  remaining = h.remaining - attempts;
  observed_at = some h.observed_at;
  freshness_seconds = some (at - h.observed_at);
  stale_establishing_attempt_available =
      not (is_current at h) && physical_attempts (since (epoch_start at)) at l == 0;
}

-- The audits after the header's own: started later, or at that time with a later id.
abbrev pub follows : Header → ℕ → Audit → Bool
follows h at a =
    a.api_football
    && (leb a.started_at at
        && (ltb h.observed_at a.started_at || (a.started_at == h.observed_at && ltb h.pk a.pk)))

unfoldable pub quota_state : ℕ → ℕ → CallLog → QuotaState
unfolding latest_audit latest_run header_state physical_attempts
quota_state at bootstrap l = elim (latest_audit at l.audits) [
  | some h ↦ header_state at l h (count_if (follows h at) l.audits)
  | none ↦ elim (legacy_of (latest_run at 0 l.captures) (latest_run at 0 l.maintenance)) [
    | some h ↦ header_state at l h (physical_attempts (after h.observed_at) at l)
    | none ↦ record {
      basis = bounded_bootstrap;
      limit = none;
      remaining = bootstrap - physical_attempts (since (epoch_start at)) at l;
      observed_at = none;
      freshness_seconds = none;
      stale_establishing_attempt_available = false;
    }
  ]
]

-- `RESULT_WAKE_SECONDS`
abbrev pub result_wake_seconds : ℕ
result_wake_seconds = 180

-- `deadline` with its minute rounded down and no seconds.
abbrev pub wake_floor : ℕ → ℕ
wake_floor deadline =
    let minute = deadline / 60 % 60 in
    deadline / 3600 * 3600 + (minute - minute % (result_wake_seconds / 60)) * 60

-- `result_check_opportunity`
unfoldable pub result_check_opportunity : ℕ → ℕ → ℕ
result_check_opportunity deadline at =
    if leb deadline at
    then at
    else if deadline == wake_floor deadline
    then wake_floor deadline
    else wake_floor deadline + result_wake_seconds

-- An open position whose match is not postponed. `directed` says that its refresh error starts with
-- `DIRECTED_RESULT_FALLBACK`; `local_date` is the date of the kickoff in the provider's time zone.
pub record OpenResult : Type 0 where
  pub match_id : ℕ
  pub kickoff : ℕ
  pub local_date : ℕ
  pub next_result_check_at : Option ℕ
  pub directed : Bool

-- `_open_result_matches`; the sets are lists without repetition.
pub record ResultDebt : Type 0 where
  pub match_ids : List ℕ
  pub sweeps : List (ℕ × ℕ)
  pub fallbacks : List ℕ
  pub deadlines : List ℕ

abbrev pub has_id : ℕ → List ℕ → Bool
has_id n = any (λ i. n == i)

abbrev pub has_sweep : ℕ × ℕ → List (ℕ × ℕ) → Bool
has_sweep (d, w) = any (λ s. d == s.0 && w == s.1)

abbrev pub add_id : ℕ → List ℕ → List ℕ
add_id n ids = if has_id n ids then ids else n ∷ ids

abbrev pub add_sweep : ℕ × ℕ → List (ℕ × ℕ) → List (ℕ × ℕ)
add_sweep s sweeps = if has_sweep s sweeps then sweeps else s ∷ sweeps

unfoldable pub result_deadline : OpenResult → ℕ
result_deadline p = elim p.next_result_check_at [ none ↦ p.kickoff + 7800 | some t ↦ t ]

unfoldable pub open_results : ℕ → List OpenResult → ResultDebt
unfolding result_check_opportunity result_deadline
open_results at [] = record { match_ids = []; sweeps = []; fallbacks = []; deadlines = [] }
open_results at (p ∷ rest) =
    let d = open_results at rest in
    let wake = result_check_opportunity (result_deadline p) at in
    if ltb wake (epoch_end at)
    then record {
      match_ids = add_id p.match_id d.match_ids;
      sweeps = if p.directed then d.sweeps else add_sweep (p.local_date, wake) d.sweeps;
      fallbacks = if p.directed then add_id p.match_id d.fallbacks else d.fallbacks;
      deadlines = result_deadline p ∷ d.deadlines;
    }
    else d

-- The result component of `dynamic_reserve`.
abbrev pub open_result_reserve : ResultDebt → ℕ
open_result_reserve d = length d.sweeps + length d.fallbacks
