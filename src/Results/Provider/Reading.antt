-- ===== src/Results/Provider/Reading.antt =====
-- What `normalize_bsd` accepts, and the result that it reads.
use mathlib.Core.Path.{subst}
use finsport.Prelude.{
  ℕ, ◌≡◌, refl, true, false, ◌&&◌, Option, none, some, arith, ◌⊎◌, inl, inr, Bool-cases,
  Option-cases, if◌then◌else◌, if_true, if_false, ℤ, pos, negsuc,
}
use finsport.Results.Provider.{
  Status, Result, Event, Payload, not_object, object, Bound, normal, refused, malformed,
  identity_unresolved, EventDate, EventOutcome, missing_date, not_text, not_instant, naive, aware,
  unnamed, unhashable, named, broken, attribute_error, type_error, mapped_team, by_date, bsd_result,
  unresolved_award, is_terminal, is_nonnegative, outcome_of, finished_result, awarded_result,
  by_status, same_id, same_teams, far_apart, normalize_event, normalize_bsd, ft, canc, abd, awd, wo,
  finished, cancelled, canceled, abandoned, postponed, awarded, walkover, other, RawStatus,
}
use finsport.Capital.Contracts.{Outcome}

-- The four shapes of a result that the settlement may meet.
pub data IsConsistent (r : Result) : Type 0 where
  played :
      (h a : ℕ)
      → r.status ≡ ft
      → r.home ≡ some (pos h)
      → r.away ≡ some (pos a)
      → r.outcome ≡ some (outcome_of (pos h) (pos a))
      → IsConsistent r
  called_off :
      (r.status ≡ canc) ⊎ (r.status ≡ abd)
      → r.home ≡ none
      → r.away ≡ none
      → r.outcome ≡ none
      → IsConsistent r
  awarded_to :
      (o : Outcome) → (r.status ≡ awd) ⊎ (r.status ≡ wo) → r.outcome ≡ some o → IsConsistent r
  unfinished :
      is_terminal r.status ≡ false
      → r.home ≡ none
      → r.away ≡ none
      → r.outcome ≡ none
      → IsConsistent r

-- The identifiers of the event are the bound ones, those of its teams are what the mapping holds for
-- the teams of the match, which may be nothing, and its kickoff is within fifteen minutes.
pub record IsBound (b : Bound) (e : Event) : Type 0 where
  pub kickoff : ℕ
  pub same_event : e.id ≡ some b.bsd_event_id
  pub same_league : e.league_id ≡ some b.bsd_league_id
  pub home_team : e.home_team_id ≡ mapped_team b.home_team_id b.mapped
  pub away_team : e.away_team_id ≡ mapped_team b.away_team_id b.mapped
  pub dated : e.event_date ≡ aware kickoff
  pub near : far_apart kickoff b.kickoff ≡ false

same_normal : {r s : Result} → normal r ≡ normal s → r ≡ s
same_normal h = cc

pub same_id-some : (x : Option ℕ) (n : ℕ) → same_id x (some n) ≡ true → x ≡ some n
same_id-some none n h = cc
same_id-some (some m) n h = (let e : m ≡ n = ground arith in rw e refl)

pub same_id→≡ : (x y : Option ℕ) → same_id x y ≡ true → y ≡ x
same_id→≡ none none h = refl
same_id→≡ none (some n) h = cc
same_id→≡ (some m) none h = cc
same_id→≡ (some m) (some n) h = (let e : n ≡ m = ground arith in rw e refl)

pos_of : (h : ℤ) → is_nonnegative h ≡ true → (n : ℕ) × (h ≡ pos n)
pos_of (pos n) e = (n, refl)
pos_of (negsuc n) e = cc

finished-IsConsistent :
    (b : Bound) (e : Event) (at : ℕ) {r : Result}
    → finished_result b e at ≡ normal r
    → IsConsistent r
unfolding finished_result
finished-IsConsistent b e at {r} h = elim (Option-cases e.home_score) [
  | inl bare ↦ absurd (let x : refused malformed ≡ normal r = rw (bare, finished_result) at h in cc)
  | inr (x, scored) ↦ elim (Option-cases e.away_score) [
    | inl bare ↦
        absurd
          (let x : refused malformed ≡ normal r = rw (scored, bare, finished_result) at h in cc)
    | inr (y, scored') ↦ elim (Bool-cases (is_nonnegative x && is_nonnegative y)) [
      | inr low ↦ absurd (
          let x : refused malformed ≡ normal r = rw (scored, scored', low, finished_result) at h in
          cc)
      | inl high ↦
          (let (m, xm) = pos_of x (ground arith) in
            let (n, yn) = pos_of y (ground arith) in
            let is = same_normal (rw (scored, scored', high, finished_result) at h) in
            subst IsConsistent is (played m n refl (rw xm refl) (rw yn refl) (rw (xm, yn) refl)))
    ]
  ]
]

unnamed-IsConsistent :
    (b : Bound) (at : ℕ) → IsConsistent (bsd_result b at unresolved_award none none none)
unfolding is_terminal
unnamed-IsConsistent b at = unfinished refl refl refl refl

awarded-IsConsistent :
    (b : Bound) (e : Event) (at : ℕ) (s : Status) {r : Result}
    → (s ≡ awd) ⊎ (s ≡ wo)
    → awarded_result b e at s ≡ normal r
    → IsConsistent r
unfolding awarded_result
awarded-IsConsistent b e at s {r} which h = by_outcome e.outcome h
  where
    by_outcome :
        (o : EventOutcome)
        → (elim o [
          | unhashable ↦ broken type_error
          | unnamed ↦ normal (bsd_result b at unresolved_award none none none)
          | named o ↦
              if e.has_award_reason
              then normal (bsd_result b at s e.home_score e.away_score (some o))
              else normal (bsd_result b at unresolved_award none none none)
        ])
          ≡ normal r
        → IsConsistent r
    by_outcome unhashable g = absurd (let x : broken type_error ≡ normal r = g in cc)
    by_outcome unnamed g = subst IsConsistent (same_normal g) (unnamed-IsConsistent b at)
    by_outcome (named o) g = elim (Bool-cases e.has_award_reason) [
      | inl why ↦ subst IsConsistent (same_normal (if_true _ why g)) (awarded_to o which refl)
      | inr why ↦ subst IsConsistent (same_normal (if_false _ why g)) (unnamed-IsConsistent b at)
    ]

by_status-IsConsistent :
    (b : Bound) (e : Event) (at : ℕ) (s : RawStatus) {r : Result}
    → by_status b e at s ≡ normal r
    → IsConsistent r
unfolding by_status is_terminal
by_status-IsConsistent b e at finished h = finished-IsConsistent b e at h
by_status-IsConsistent b e at cancelled h =
    subst IsConsistent (same_normal h) (called_off (inl refl) refl refl refl)
by_status-IsConsistent b e at canceled h =
    subst IsConsistent (same_normal h) (called_off (inl refl) refl refl refl)
by_status-IsConsistent b e at abandoned h =
    subst IsConsistent (same_normal h) (called_off (inr refl) refl refl refl)
by_status-IsConsistent b e at postponed h =
    subst IsConsistent (same_normal h) (unfinished refl refl refl refl)
by_status-IsConsistent b e at awarded h = awarded-IsConsistent b e at awd (inl refl) h
by_status-IsConsistent b e at walkover h = awarded-IsConsistent b e at wo (inr refl) h
by_status-IsConsistent b e at other h =
    subst IsConsistent (same_normal h) (unfinished refl refl refl refl)

by_date-IsDated :
    (b : Bound) (e : Event) (at : ℕ) (d : EventDate) {r : Result}
    → by_date b e at d ≡ normal r
    → (kickoff : ℕ) × (d ≡ aware kickoff) × (far_apart kickoff b.kickoff ≡ false) × IsConsistent r
unfolding by_date
by_date-IsDated b e at missing_date {r} h = absurd (let x : refused malformed ≡ normal r = h in cc)
by_date-IsDated b e at not_text {r} h = absurd (let x : broken attribute_error ≡ normal r = h in cc)
by_date-IsDated b e at not_instant {r} h = absurd (let x : refused malformed ≡ normal r = h in cc)
by_date-IsDated b e at naive {r} h = absurd (let x : broken type_error ≡ normal r = h in cc)
by_date-IsDated b e at (aware kickoff) {r} h = elim (Bool-cases (far_apart kickoff b.kickoff)) [
  | inl far ↦ absurd (let x : refused identity_unresolved ≡ normal r = if_true _ far h in cc)
  | inr near ↦ (kickoff, refl, near, by_status-IsConsistent b e at e.status (if_false _ near h))
]

event-IsBound :
    (b : Bound) (e : Event) (at : ℕ) {r : Result}
    → normalize_event b e at ≡ normal r
    → IsBound b e × IsConsistent r
unfolding normalize_event
event-IsBound b e at {r} h = elim (Bool-cases (same_id e.id (some b.bsd_event_id))) [
  | inr off ↦ absurd (let x : refused malformed ≡ normal r = rw (off, normalize_event) at h in cc)
  | inl event ↦ elim (Bool-cases (same_id e.league_id (some b.bsd_league_id))) [
    | inr off ↦ absurd (
        let x : refused identity_unresolved ≡ normal r = rw (event, off, normalize_event) at h in
        cc)
    | inl league ↦ elim (Bool-cases (same_teams b e)) [
      | inr off ↦ absurd (
          let x : refused identity_unresolved ≡ normal r =
            rw (event, league, off, normalize_event) at h in
          cc)
      | inl teams ↦
          (let (kickoff, dated, near, consistent) =
              by_date-IsDated b e at e.event_date
                (rw (event, league, teams, normalize_event) at h) in
            let host : same_id (mapped_team b.home_team_id b.mapped) e.home_team_id ≡ true =
              ground arith in
            let guest : same_id (mapped_team b.away_team_id b.mapped) e.away_team_id ≡ true =
              ground arith in
            (
              record {
                kickoff = kickoff;
                same_event = same_id-some e.id b.bsd_event_id event;
                same_league = same_id-some e.league_id b.bsd_league_id league;
                home_team = same_id→≡ (mapped_team b.home_team_id b.mapped) e.home_team_id host;
                away_team = same_id→≡ (mapped_team b.away_team_id b.mapped) e.away_team_id guest;
                dated = dated;
                near = near;
              },
              consistent,
            ))
    ]
  ]
]

-- A payload that is accepted is an event of the bound event and league, whose team identifiers are
-- what the approved mapping holds for the home and the away team of the match (and are missing for
-- a team that is not mapped), with a kickoff within fifteen minutes of the match's. The result read from it is one of four: full time with whole
-- scores that are not negative and the outcome of these scores; called off, with neither scores
-- nor outcome; awarded, with an outcome; or not terminal, with neither scores nor outcome.
pub normalize_bsd_sound :
    (b : Bound) (payload : Payload) (at : ℕ) {r : Result}
    → normalize_bsd b payload at ≡ normal r
    → (e : Event) × (payload ≡ object e) × IsBound b e × IsConsistent r
unfolding normalize_bsd
normalize_bsd_sound b not_object at {r} h = absurd (let x : refused malformed ≡ normal r = h in cc)
normalize_bsd_sound b (object e) at h =
    let (bound, consistent) = event-IsBound b e at h in (e, refl, bound, consistent)
