-- ===== src/Results/Provider/Errors.antt =====
-- When `normalize_bsd` ends in an exception that `process_due_bsd` does not catch.
use finsport.Prelude.{
  false, true, Option, ◌↔◌, ap, ◌∙◌, arith, ℕ, ◌≡◌, refl, ◌&&◌, none, some, ◌⊎◌, inl, inr,
  Bool-cases, Option-cases, if◌then◌else◌, if_true, if_false,
}
use finsport.Results.Provider.Reading.{same_id→≡, same_id-some}
use finsport.Results.Provider.{
  attribute_error, mapped_team, same_id, aware, awarded, walkover, wo, awd, Status, Result, Event,
  Payload, not_object, object, Bound, normal, refused, malformed, identity_unresolved, EventDate,
  EventOutcome, FieldError, ResultError, missing_date, not_text, not_instant, naive, aware, unnamed,
  unhashable, named, broken, type_error, by_date, bsd_result, unresolved_award, is_nonnegative,
  outcome_of, finished_result, awarded_result, by_status, same_id, same_teams, far_apart,
  normalize_event, normalize_bsd, ft, awd, wo, finished, cancelled, canceled, abandoned, postponed,
  awarded, walkover, other, RawStatus,
}

no_normal : {r : Result} {x : FieldError} → ¬ (normal r ≡ broken x)
no_normal h = cc

no_refusal : {e : ResultError} {x : FieldError} → ¬ (refused e ≡ broken x)
no_refusal h = cc

-- The event is the bound one by its identifiers, and those of its teams are what the mapping holds
-- for the teams of the match.
pub record IsIdentified (b : Bound) (e : Event) : Type 0 where
  pub same_event : e.id ≡ some b.bsd_event_id
  pub same_league : e.league_id ≡ some b.bsd_league_id
  pub home_team : e.home_team_id ≡ mapped_team b.home_team_id b.mapped
  pub away_team : e.away_team_id ≡ mapped_team b.away_team_id b.mapped

-- What a field of the event holds that the code has no branch for.
pub data IsUnreadable (b : Bound) (e : Event) : Type 0 where
  date_not_text : e.event_date ≡ not_text → IsUnreadable b e
  date_without_offset : e.event_date ≡ naive → IsUnreadable b e
  outcome_not_hashed :
      (kickoff : ℕ)
      → e.event_date ≡ aware kickoff
      → far_apart kickoff b.kickoff ≡ false
      → (e.status ≡ awarded) ⊎ (e.status ≡ walkover)
      → e.outcome ≡ unhashable
      → IsUnreadable b e

finished-reads :
    (b : Bound) (e : Event) (at : ℕ) {x : FieldError} → ¬ (finished_result b e at ≡ broken x)
unfolding finished_result
finished-reads b e at {x} h = elim (Option-cases e.home_score) [
  | inl bare ↦ (let y : refused malformed ≡ broken x = rw (bare, finished_result) at h in cc)
  | inr (m, scored) ↦ elim (Option-cases e.away_score) [
    | inl bare ↦
        (let y : refused malformed ≡ broken x = rw (scored, bare, finished_result) at h in cc)
    | inr (n, scored') ↦ elim (Bool-cases (is_nonnegative m && is_nonnegative n)) [
      | inl high ↦
          (let y : normal (bsd_result b at ft (some m) (some n) (some (outcome_of m n)))
                ≡ broken x =
              rw (scored, scored', high, finished_result) at h in
            cc)
      | inr low ↦
          (let y : refused malformed ≡ broken x = rw (scored, scored', low, finished_result) at h in
            cc)
    ]
  ]
]

awarded-unhashable :
    (b : Bound) (e : Event) (at : ℕ) (s : Status) {x : FieldError}
    → awarded_result b e at s ≡ broken x
    → e.outcome ≡ unhashable
unfolding awarded_result
awarded-unhashable b e at s {x} h = by_outcome e.outcome refl h
  where
    by_outcome :
        (o : EventOutcome)
        → e.outcome ≡ o
        → (elim o [
          | unhashable ↦ broken type_error
          | unnamed ↦ normal (bsd_result b at unresolved_award none none none)
          | named o ↦
              if e.has_award_reason
              then normal (bsd_result b at s e.home_score e.away_score (some o))
              else normal (bsd_result b at unresolved_award none none none)
        ])
          ≡ broken x
        → e.outcome ≡ unhashable
    by_outcome unhashable is g = is
    by_outcome unnamed is g = cc
    by_outcome (named o) is g = elim (Bool-cases e.has_award_reason) [
      | inl why ↦ absurd (no_normal (if_true _ why g))
      | inr why ↦ absurd (no_normal (if_false _ why g))
    ]

by_status-unhashable :
    (b : Bound) (e : Event) (at : ℕ) (s : RawStatus) {x : FieldError}
    → by_status b e at s ≡ broken x
    → ((s ≡ awarded) ⊎ (s ≡ walkover)) × (e.outcome ≡ unhashable)
unfolding by_status
by_status-unhashable b e at finished h = absurd (finished-reads b e at h)
by_status-unhashable b e at cancelled h = absurd (no_normal h)
by_status-unhashable b e at canceled h = absurd (no_normal h)
by_status-unhashable b e at abandoned h = absurd (no_normal h)
by_status-unhashable b e at postponed h = absurd (no_normal h)
by_status-unhashable b e at awarded h = (inl refl, awarded-unhashable b e at awd h)
by_status-unhashable b e at walkover h = (inr refl, awarded-unhashable b e at wo h)
by_status-unhashable b e at other h = absurd (no_normal h)

by_date-IsUnreadable :
    (b : Bound) (e : Event) (at : ℕ) (d : EventDate) {x : FieldError}
    → e.event_date ≡ d
    → by_date b e at d ≡ broken x
    → IsUnreadable b e
unfolding by_date
by_date-IsUnreadable b e at missing_date is h = absurd (no_refusal h)
by_date-IsUnreadable b e at not_text is h = date_not_text is
by_date-IsUnreadable b e at not_instant is h = absurd (no_refusal h)
by_date-IsUnreadable b e at naive is h = date_without_offset is
by_date-IsUnreadable b e at (aware kickoff) is h = elim (Bool-cases (far_apart kickoff b.kickoff)) [
  | inl far ↦ absurd (no_refusal (if_true _ far h))
  | inr near ↦
      (let (award, bare) = by_status-unhashable b e at e.status (if_false _ near h) in
        outcome_not_hashed kickoff is near award bare)
]

event-IsUnreadable :
    (b : Bound) (e : Event) (at : ℕ) {x : FieldError}
    → normalize_event b e at ≡ broken x
    → IsIdentified b e × IsUnreadable b e
unfolding normalize_event
event-IsUnreadable b e at {x} h = elim (Bool-cases (same_id e.id (some b.bsd_event_id))) [
  | inr off ↦ absurd (no_refusal {e = malformed} {x = x} (rw (off, normalize_event) at h))
  | inl event ↦ elim (Bool-cases (same_id e.league_id (some b.bsd_league_id))) [
    | inr off ↦
        absurd
          (no_refusal {e = identity_unresolved} {x = x} (rw (event, off, normalize_event) at h))
    | inl league ↦ elim (Bool-cases (same_teams b e)) [
      | inr off ↦ absurd (
          no_refusal {e = identity_unresolved} {x = x}
            (rw (event, league, off, normalize_event) at h))
      | inl teams ↦ (
        record {
          same_event = same_id-some e.id b.bsd_event_id event;
          same_league = same_id-some e.league_id b.bsd_league_id league;
          home_team = same_id→≡ (mapped_team b.home_team_id b.mapped) e.home_team_id (ground arith);
          away_team = same_id→≡ (mapped_team b.away_team_id b.mapped) e.away_team_id (ground arith);
        },
        by_date-IsUnreadable b e at e.event_date refl
            (rw (event, league, teams, normalize_event) at h),
      )
    ]
  ]
]

same_id_refl : (x : Option ℕ) → same_id x x ≡ true
same_id_refl none = refl
same_id_refl (some n) = ground arith

event-by_date :
    (b : Bound) (e : Event) (at : ℕ)
    → IsIdentified b e
    → normalize_event b e at ≡ by_date b e at e.event_date
unfolding normalize_event
event-by_date b e at i =
    let host = mapped_team b.home_team_id b.mapped in
    let guest = mapped_team b.away_team_id b.mapped in
    let event =
      ap (λ x. same_id x (some b.bsd_event_id)) i.same_event ∙ same_id_refl (some b.bsd_event_id) in
    let league =
      ap (λ x. same_id x (some b.bsd_league_id)) i.same_league
      ∙ same_id_refl (some b.bsd_league_id) in
    let home = ap (same_id host) i.home_team ∙ same_id_refl host in
    let away = ap (same_id guest) i.away_team ∙ same_id_refl guest in
    rw (event, league, home, away, normalize_event) refl

award-breaks :
    (b : Bound) (e : Event) (at : ℕ) (s : RawStatus)
    → (s ≡ awarded) ⊎ (s ≡ walkover)
    → e.outcome ≡ unhashable
    → by_status b e at s ≡ broken type_error
unfolding by_status awarded_result
award-breaks b e at s (inl is) bare = rw (is, by_status) (rw (bare, awarded_result) refl)
award-breaks b e at s (inr is) bare = rw (is, by_status) (rw (bare, awarded_result) refl)

unreadable-breaks :
    (b : Bound) (e : Event) (at : ℕ)
    → IsUnreadable b e
    → (x : FieldError) × (by_date b e at e.event_date ≡ broken x)
unfolding by_date
unreadable-breaks b e at (date_not_text is) = (attribute_error, ap (by_date b e at) is)
unreadable-breaks b e at (date_without_offset is) = (type_error, ap (by_date b e at) is)
unreadable-breaks b e at (outcome_not_hashed kickoff is near award bare) =
    (type_error, ap (by_date b e at) is ∙ rw near (award-breaks b e at e.status award bare))

-- An event ends in an exception that is no `BSDError` exactly when its identifiers and its teams
-- are the bound ones, and its date is not a string, or has no offset, or is within fifteen minutes
-- of the match's kickoff while an award or a walkover has an outcome that cannot be hashed.
pub normalize_bsd-breaks_iff :
    (b : Bound) (e : Event) (at : ℕ)
    → ((x : FieldError) × (normalize_bsd b (object e) at ≡ broken x))
      ↔ (IsIdentified b e × IsUnreadable b e)
unfolding normalize_bsd
normalize_bsd-breaks_iff b e at = (
  λ h. event-IsUnreadable b e at h.1,
  λ h. let (x, broke) = unreadable-breaks b e at h.1 in (x, event-by_date b e at h.0 ∙ broke),
)

-- Only an event ends in such an exception.
pub normalize_bsd-IsUnreadable :
    (b : Bound) (payload : Payload) (at : ℕ) {x : FieldError}
    → normalize_bsd b payload at ≡ broken x
    → (e : Event) × (payload ≡ object e) × IsUnreadable b e
unfolding normalize_bsd
normalize_bsd-IsUnreadable b not_object at h = absurd (no_refusal h)
normalize_bsd-IsUnreadable b (object e) at h = (e, refl, (event-IsUnreadable b e at h).1)
