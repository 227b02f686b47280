-- ===== src/Results/Provider.antt =====
-- `Result`, `normalize_bsd` and `api_football_result` of football/result_provider.py. A payload is
-- what `json` made of the response; the ISO instant in it is read by the standard library and
-- stands here as seconds. `provenance` is left out, but for the keys that the code reads again.
pub mod Reading
pub mod Errors
use finsport.Prelude.{
  ℕ, ◌+◌, Bool, true, false, not, ◌&&◌, ◌||◌, Option, none, some, List, [], ◌∷◌, ◌==◌, ltb,
  if◌then◌else◌, ℤ, pos, negsuc, pos_part, neg_part,
}
use finsport.Capital.Contracts.{Outcome, home, draw, away}

-- `status_short` (`penalties` is P); `other_status` numbers the provider's remaining codes.
pub data Status : Type 0 where
  ft et penalties aet pen canc abd awd wo pst unresolved_award nonterminal : Status
  other_status : ℕ → Status

-- `TERMINAL`
unfoldable pub is_terminal : Status → Bool
is_terminal ft = true
is_terminal et = true
is_terminal penalties = true
is_terminal aet = true
is_terminal pen = true
is_terminal canc = true
is_terminal abd = true
is_terminal awd = true
is_terminal wo = true
is_terminal pst = false
is_terminal unresolved_award = false
is_terminal nonterminal = false
is_terminal (other_status n) = false

abbrev pub status_number : Status → ℕ
status_number ft = 0
status_number et = 1
status_number penalties = 2
status_number aet = 3
status_number pen = 4
status_number canc = 5
status_number abd = 6
status_number awd = 7
status_number wo = 8
status_number pst = 9
status_number unresolved_award = 10
status_number nonterminal = 11
status_number (other_status n) = 12 + n

-- Equality of the strings.
unfoldable pub same_status : Status → Status → Bool
same_status s t = status_number s == status_number t

pub data Provider : Type 0 where
  bsd api_football : Provider

abbrev pub is_bsd : Provider → Bool
is_bsd bsd = true
is_bsd api_football = false

pub record Result : Type 0 where
  pub provider : Provider
  pub external_ref : ℕ
  pub status : Status
  pub home : Option ℤ
  pub away : Option ℤ
  pub outcome : Option Outcome
  pub observed_at : ℕ

abbrev pub lt_int : ℤ → ℤ → Bool
lt_int a b = ltb (pos_part a + neg_part b) (pos_part b + neg_part a)

abbrev pub is_nonnegative : ℤ → Bool
is_nonnegative (pos n) = true
is_nonnegative (negsuc n) = false

-- `_outcome`
unfoldable pub outcome_of : ℤ → ℤ → Outcome
outcome_of h a = if lt_int a h then home else if lt_int h a then away else draw

-- `str(payload.get("status", "")).casefold()`
pub data RawStatus : Type 0 where
  finished cancelled canceled abandoned postponed awarded walkover other : RawStatus

-- `event_date`, read by the standard library's `fromisoformat`: a key that is missing, a value that
-- is null or not a string, a string that is not an instant, one without an offset, and the seconds
-- of one with an offset.
pub data EventDate : Type 0 where
  missing_date not_text not_instant naive : EventDate
  aware : ℕ → EventDate

-- `outcome`: one of the three names; an array or an object, which has no hash; or anything else,
-- a missing key included.
pub data EventOutcome : Type 0 where
  unnamed unhashable : EventOutcome
  named : Outcome → EventOutcome

-- The fields that are read. An identifier is the natural number that its value equals, a score the
-- integer that its value is, where true and false are 1 and 0 as in Python; each is `none` when its
-- key is missing or its value null. An event with an identifier or a score of any other kind is not
-- an `Event`: nothing is said of it.
pub record Event : Type 0 where
  pub id : Option ℕ
  pub league_id : Option ℕ
  pub home_team_id : Option ℕ
  pub away_team_id : Option ℕ
  pub event_date : EventDate
  pub status : RawStatus
  pub home_score : Option ℤ
  pub away_score : Option ℤ
  pub outcome : EventOutcome
  pub has_award_reason : Bool

pub data Payload : Type 0 where
  not_object : Payload
  object : Event → Payload

-- The match and its binding, with the approved team mappings of the bound league.
pub record Bound : Type 0 where
  pub bsd_event_id : ℕ
  pub bsd_league_id : ℕ
  pub home_team_id : ℕ
  pub away_team_id : ℕ
  pub kickoff : ℕ
  pub mapped : List (ℕ × ℕ)

pub data ResultError : Type 0 where
  malformed identity_unresolved : ResultError

-- The exceptions that are no `BSDError`: a method that the value lacks, and an operation on a value
-- of the wrong type.
pub data FieldError : Type 0 where
  attribute_error type_error : FieldError

pub data Normalized : Type 0 where
  normal : Result → Normalized
  refused : ResultError → Normalized
  broken : FieldError → Normalized

-- `mapped.get(team)`
unfoldable pub mapped_team : ℕ → List (ℕ × ℕ) → Option ℕ
mapped_team t [] = none
mapped_team t (row ∷ rows) = if row.0 == t then some row.1 else mapped_team t rows

abbrev pub same_id : Option ℕ → Option ℕ → Bool
same_id none none = true
same_id none (some b) = false
same_id (some a) none = false
same_id (some a) (some b) = a == b

-- `abs((kickoff - match.kickoff).total_seconds()) > 15 * 60`
abbrev pub far_apart : ℕ → ℕ → Bool
far_apart a b = ltb (b + 900) a || ltb (a + 900) b

abbrev pub bsd_result : Bound → ℕ → Status → Option ℤ → Option ℤ → Option Outcome → Result
bsd_result b at status h a outcome = record {
  provider = bsd;
  external_ref = b.bsd_event_id;
  status = status;
  home = h;
  away = a;
  outcome = outcome;
  observed_at = at;
}

-- The scores of a finished event must be whole and not negative.
unfoldable pub finished_result : Bound → Event → ℕ → Normalized
finished_result b e at = elim e.home_score [
  | none ↦ refused malformed
  | some h ↦ elim e.away_score [
    | none ↦ refused malformed
    | some a ↦
        if is_nonnegative h && is_nonnegative a
        then normal (bsd_result b at ft (some h) (some a) (some (outcome_of h a)))
        else refused malformed
  ]
]

-- An award stands only with its outcome and its reason; the test of the outcome hashes it.
unfoldable pub awarded_result : Bound → Event → ℕ → Status → Normalized
awarded_result b e at status = elim e.outcome [
  | unhashable ↦ broken type_error
  | unnamed ↦ normal (bsd_result b at unresolved_award none none none)
  | named o ↦
      if e.has_award_reason
      then normal (bsd_result b at status e.home_score e.away_score (some o))
      else normal (bsd_result b at unresolved_award none none none)
]

unfoldable pub by_status : Bound → Event → ℕ → RawStatus → Normalized
unfolding finished_result awarded_result
by_status b e at finished = finished_result b e at
by_status b e at cancelled = normal (bsd_result b at canc none none none)
by_status b e at canceled = normal (bsd_result b at canc none none none)
by_status b e at abandoned = normal (bsd_result b at abd none none none)
by_status b e at postponed = normal (bsd_result b at pst none none none)
by_status b e at awarded = awarded_result b e at awd
by_status b e at walkover = awarded_result b e at wo
by_status b e at other = normal (bsd_result b at nonterminal none none none)

-- The home and the away team of the event are the mapped ones.
abbrev pub same_teams : Bound → Event → Bool
same_teams b e =
    same_id (mapped_team b.home_team_id b.mapped) e.home_team_id
    && same_id (mapped_team b.away_team_id b.mapped) e.away_team_id

-- The kickoff of the event: a value without `replace`, and an instant that has no offset and so
-- cannot be subtracted, are not caught.
unfoldable pub by_date : Bound → Event → ℕ → EventDate → Normalized
unfolding by_status
by_date b e at missing_date = refused malformed
by_date b e at not_text = broken attribute_error
by_date b e at not_instant = refused malformed
by_date b e at naive = broken type_error
by_date b e at (aware kickoff) =
    if far_apart kickoff b.kickoff then refused identity_unresolved else by_status b e at e.status

unfoldable pub normalize_event : Bound → Event → ℕ → Normalized
unfolding mapped_team by_date
normalize_event b e at =
    if not (same_id e.id (some b.bsd_event_id))
    then refused malformed
    else if not (same_id e.league_id (some b.bsd_league_id))
    then refused identity_unresolved
    else if not (same_teams b e)
    then refused identity_unresolved
    else by_date b e at e.event_date

-- `normalize_bsd` at the time `at`.
unfoldable pub normalize_bsd : Bound → Payload → ℕ → Normalized
unfolding normalize_event
normalize_bsd b not_object at = refused malformed
normalize_bsd b (object e) at = normalize_event b e at
