-- ===== src/Results/Settlement.antt =====
-- `observe_terminal_result`, `_mark_provider_degraded` and one match of
-- `settle_locally_known_open_positions` (football/capital/runtime.py): how a result that is known
-- on the match reaches the open positions of every bankroll. The text of an error is left
-- out.
use mathlib.Core.Path.{subst}
use finsport.Prelude.{
  ℕ, ◌+◌, ◌≡◌, refl, ap, ◌∙◌, Bool, true, false, not, ◌&&◌, ◌||◌, Option, none, some, List, [], ◌∷◌,
  ◌==◌, arith, if◌then◌else◌, if_elim, map, Bool-cases, inl, inr,
}
use finsport.Decimal.{Decimal}
use finsport.Capital.Contracts.{Outcome, home, draw, away}
use finsport.Runtime.State.{Account, Position, is_open, degraded_debt, refresh_degraded, open_count}
use finsport.Runtime.Settle.{Observation, ResultStatus, SettleError, settle_observation}
use finsport.Runtime.Settle
use finsport.Runtime.Settle.Batch.{total_open}
use finsport.Results.Provider.{Status, canc, abd, is_terminal, same_status, Result}
use finsport.Results.Record.{Row, MatchRow, same_result, is_absent}
use finsport.Results.Record.Canonical.{record_all, record_all-canonical}
use finsport.Results.Record.History.{has_conflict, record_result-conflict}
use finsport.Results.Record.Steps.{record_result}

-- `CapitalResultObservation`
pub record Known : Type 0 where
  pub status_short : Status
  pub outcome : Option Outcome

pub data Observed : Type 0 where
  unobserved canonical_result_conflict : Observed
  observed : Known → Bool → Observed

-- `VOID_STATUSES`
abbrev pub is_void_status : Status → Bool
is_void_status s = same_status s canc || same_status s abd

-- `TERMINAL_RESULT_STATUSES` are the terminal ones. `get_or_create` keeps the first observation;
-- `has_source` is a resolved reference of the match or a given provider result.
unfoldable pub observe_status : Status → Option Outcome → Bool → Option Known → Observed
observe_status status outcome has_source known =
    if not (is_terminal status)
    then unobserved
    else if not (is_void_status status) && is_absent outcome
    then unobserved
    else if not has_source
    then unobserved
    else elim known [
      | none ↦ observed (record { status_short = status; outcome = outcome }) true
      | some k ↦
          if same_status k.status_short status && same_result k.outcome outcome
          then observed k false
          else canonical_result_conflict
    ]

abbrev pub observe_terminal_result : MatchRow → Bool → Option Known → Observed
observe_terminal_result m = observe_status m.status_short m.outcome

-- The observation as `settle_position` reads it.
abbrev pub settled_by : ℕ → Known → Observation
settled_by match_id k = record {
  match_id = match_id;
  status_short =
      if same_status k.status_short canc
      then Settle.canc
      else if same_status k.status_short abd
      then Settle.abd
      else Settle.finished;
  outcome = k.outcome;
}

-- `.filter(match=match, status="OPEN").update(…)`, over every bankroll.
abbrev pub update_position : ℕ → (Position → Position) → Position → Position
update_position match_id write p = if p.match_id == match_id && is_open p.status then write p else p

abbrev pub update_open : ℕ → (Position → Position) → List Account → List Account
update_open match_id write =
    map {A = Account}
      (λ a. record a { positions = map (update_position match_id write) a.positions })

abbrev pub write_degraded : ℕ → Position → Position
write_degraded at p = record p {
  debt_status = degraded_debt;
  result_refresh_attempted_at = some at;
  result_refresh_error = some refresh_degraded;
}

-- `_mark_provider_degraded`, for the open positions of a match.
abbrev pub mark_provider_degraded : ℕ → ℕ → List Account → List Account
mark_provider_degraded match_id at = update_open match_id (write_degraded at)

pub data LocalError : Type 0 where
  result_conflict_error : LocalError
  settle_error : SettleError → LocalError

-- The bankrolls after the match, the positions settled, and the error that stops the batch.
pub record Locally : Type 0 where
  pub accounts : List Account
  pub known : Option Known
  pub settled : ℕ
  pub error : Option LocalError

abbrev pub raised_by : Option SettleError → Option LocalError
raised_by none = none
raised_by (some e) = some (settle_error e)

module _ (column ratio : Decimal → Decimal) where
  unfoldable pub settle_known : List Account → ℕ → Observed → Option Known → ℕ → Locally
  settle_known accounts match_id unobserved known at = record {
    accounts = mark_provider_degraded match_id at accounts;
    known = known;
    settled = 0;
    error = none;
  }
  settle_known accounts match_id canonical_result_conflict known at = record {
    accounts = accounts;
    known = known;
    settled = 0;
    error = some result_conflict_error;
  }
  settle_known accounts match_id (observed k created) known at =
      let after = settle_observation column ratio accounts (settled_by match_id k) at in
      record {
        accounts = after.0;
        known = some k;
        settled = after.1.0;
        error = raised_by after.1.1;
      }

  -- One match of `settle_locally_known_open_positions`.
  unfoldable pub settle_locally :
      List Account → ℕ → MatchRow → List Row → Bool → Option Known → ℕ → Locally
  unfolding settle_known observe_status
  settle_locally accounts match_id m rows has_ref known at =
      if has_conflict rows
      then record {
        accounts = mark_provider_degraded match_id at accounts;
        known = known;
        settled = 0;
        error = none;
      }
      else settle_known accounts match_id (observe_terminal_result m has_ref known) known at

update_position-open_count :
    (match_id : ℕ) (write : Position → Position) (ps : List Position)
    → ((p : Position) → (write p).status ≡ p.status)
    → open_count (map (update_position match_id write) ps) ≡ open_count ps
update_position-open_count match_id write [] h = refl
update_position-open_count match_id write (p ∷ ps) h =
    let rest = update_position-open_count match_id write ps h in
    if_elim {A = Position}
      (λ q.
        (if is_open q.status then 1 else 0) + open_count (map (update_position match_id write) ps)
        ≡ (if is_open p.status then 1 else 0) + open_count ps)
      (p.match_id == match_id && is_open p.status) (λ e. rw (h p) (omega (arith, rest)))
      (λ e. omega (arith, rest))

-- An update that keeps the status of a position keeps every open position open.
pub update_open-total_open :
    (match_id : ℕ) (write : Position → Position) (accounts : List Account)
    → ((p : Position) → (write p).status ≡ p.status)
    → total_open (update_open match_id write accounts) ≡ total_open accounts
update_open-total_open match_id write [] h = refl
update_open-total_open match_id write (a ∷ accounts) h =
    let rest = update_open-total_open match_id write accounts h in
    let one = update_position-open_count match_id write a.positions h in omega (arith, rest, one)

record_all-conflict :
    (m : MatchRow) (rows : List Row) (calls : List (Result × Bool))
    → has_conflict rows ≡ true
    → has_conflict (record_all m rows calls).1 ≡ true
unfolding record_all
record_all-conflict m rows [] h = h
record_all-conflict m rows ((r, authoritative) ∷ calls) h =
    let after = record_result m rows r authoritative in
    record_all-conflict after.match_row after.rows calls
      (record_result-conflict m rows r authoritative h)

-- A match in conflict is never settled from what is known locally: once a row is in conflict, and
-- whatever results are recorded after it, the settlement closes no position, raises nothing, and
-- keeps every open position open.
pub settle_locally-conflict :
    (column ratio : Decimal → Decimal) (accounts : List Account) (match_id : ℕ) (m : MatchRow)
    (rows : List Row) (calls : List (Result × Bool)) (has_ref : Bool) (known : Option Known)
    (at : ℕ)
    → has_conflict rows ≡ true
    → let after = record_all m rows calls in
      let l = settle_locally column ratio accounts match_id after.0 after.1 has_ref known at in
      (l.settled ≡ 0) × (l.error ≡ none) × (total_open l.accounts ≡ total_open accounts)
unfolding settle_locally
settle_locally-conflict column ratio accounts match_id m rows calls has_ref known at h =
    let after = record_all m rows calls in
    let stays = record_all-conflict m rows calls h in
    rw (stays, settle_locally)
      (refl, refl, update_open-total_open match_id (write_degraded at) accounts (λ p. refl))

same_status_refl : (s : Status) → same_status s s ≡ true
unfolding same_status
same_status_refl s = ground arith

same_result_refl : (o : Option Outcome) → same_result o o ≡ true
same_result_refl none = refl
same_result_refl (some home) = refl
same_result_refl (some draw) = refl
same_result_refl (some away) = refl

observe_again :
    (m : MatchRow) (has_source : Bool) {k : Known}
    → observe_terminal_result m has_source none ≡ observed k true
    → observe_terminal_result m has_source (some k) ≡ observed k false
unfolding observe_status
observe_again m has_source {k} h = elim (Bool-cases (is_terminal m.status_short)) [
  | inr e ↦ absurd (let x : unobserved ≡ observed k true = rw (e, observe_status) at h in cc)
  | inl e ↦ elim (Bool-cases (not (is_void_status m.status_short) && is_absent m.outcome)) [
    | inl v ↦ absurd (let x : unobserved ≡ observed k true = rw (e, v, observe_status) at h in cc)
    | inr v ↦ elim (Bool-cases has_source) [
      | inr s ↦
          absurd (let x : unobserved ≡ observed k true = rw (e, v, s, observe_status) at h in cc)
      | inl s ↦
          (let x : observed (record { status_short = m.status_short; outcome = m.outcome }) true
                ≡ observed k true =
              rw (e, v, s, observe_status) at h in
            let is : record { status_short = m.status_short; outcome = m.outcome } ≡ k = cc in
            subst (λ k. observe_terminal_result m has_source (some k) ≡ observed k false) is
              (rw (e, v, s, observe_status)
                (rw (same_status_refl m.status_short, same_result_refl m.outcome) refl)))
    ]
  ]
]

observe-same :
    (m n : MatchRow) (has_source : Bool) (known : Option Known)
    → m.status_short ≡ n.status_short
    → m.outcome ≡ n.outcome
    → observe_terminal_result m has_source known ≡ observe_terminal_result n has_source known
observe-same m n has_source known s o = cc

observed-terminal :
    (m : MatchRow) (has_source : Bool) {k : Known}
    → observe_terminal_result m has_source none ≡ observed k true
    → is_terminal m.status_short ≡ true
unfolding observe_status
observed-terminal m has_source {k} h = elim (Bool-cases (is_terminal m.status_short)) [
  | inl e ↦ e
  | inr e ↦ absurd (let x : unobserved ≡ observed k true = rw (e, observe_status) at h in cc)
]

-- The first terminal observation of a match stands: whatever results are recorded afterwards,
-- observing the match again gives the same observation, and raises no CANONICAL_RESULT_CONFLICT.
pub observe_terminal_result-stable :
    (m : MatchRow) (rows : List Row) (calls : List (Result × Bool)) (has_source : Bool) {k : Known}
    → observe_terminal_result m has_source none ≡ observed k true
    → observe_terminal_result (record_all m rows calls).0 has_source (some k) ≡ observed k false
observe_terminal_result-stable m rows calls has_source {k} h =
    let same = record_all-canonical m rows calls (observed-terminal m has_source h) in
    observe-same (record_all m rows calls).0 m has_source (some k) (ap (λ c. c.0) same)
      (ap (λ c. c.1) same)
    ∙ observe_again m has_source h
