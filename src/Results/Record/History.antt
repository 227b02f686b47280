-- ===== src/Results/Record/History.antt =====
-- The rows that `record` leaves: nothing that was observed is lost, and no conflict is cleared.
use finsport.Prelude.{
  ℕ, ◌≡◌, refl, ap, ◌∙◌, Bool, true, false, not, ◌&&◌, ◌||◌, Option, none, some, List, [], ◌∷◌,
  ◌++◌, arith, inl, inr, Bool-cases, Option-cases, if_elim, ℤ, length, map, ◌==◌, All, All-append,
  any,
}
use finsport.Capital.Contracts.{Outcome}
use finsport.Results.Provider.{Status, Provider, is_terminal, bsd, Result}
use finsport.Results.Record.{
  Row, MatchRow, Judgement, judge, earliest, revises, created_row, find_row, save_row,
}
use finsport.Results.Record.Canonical.{judge-confirmed}
use finsport.Results.Record.Steps.{
  Recorded, settle_match, converge, suspect, record_observed, record_result, mark_revision,
  mark_confirmed, mark_pending, mark_converged, mark_conflict, contradicts,
}

-- The writes of one call; a row that the call itself created is never marked confirmed later.
pub data IsWrite (created : Bool) : (Row → Row) → Type 0 where
  revision : IsWrite created mark_revision
  confirmation : created ≡ false → IsWrite created mark_confirmed
  suspicion : IsWrite created mark_pending
  convergence : IsWrite created mark_converged
  contradiction : IsWrite created mark_conflict

pub data Written (created : Bool) (rows : List Row) : List Row → Type 0 where
  unwritten : Written created rows rows
  wrote :
      {after : List Row} {write : Row → Row} (pk : ℕ)
      → IsWrite created write
      → Written created rows after
      → Written created rows (save_row pk write after)

suspect-Written :
    (created : Bool) (rows : List Row) (first : Option Row) (j : Judgement) (r : Result)
    → Written created rows (suspect rows first j r)
unfolding suspect
suspect-Written created rows none j r = unwritten
suspect-Written created rows (some f) j r =
    if_elim (Written created rows) _ (λ e. wrote f.pk suspicion unwritten) (λ e. unwritten)

converge-Written :
    (created : Bool) (rows after : List Row) (first : Option Row) (r : Result)
    → Written created rows after
    → Written created rows (converge after first r)
unfolding converge
converge-Written created rows after none r w = w
converge-Written created rows after (some f) r w =
    if_elim (Written created rows) _ (λ e. wrote f.pk convergence w) (λ e. w)

settle_match-Written :
    (m : MatchRow) (rows after : List Row) (row : Row) (created : Bool) (r : Result)
    (authoritative : Bool)
    → Written created rows after
    → Written created rows (settle_match m after row created r authoritative).rows
unfolding settle_match
settle_match-Written m rows after row created r authoritative w =
    if_elim {A = Recorded} (λ x. Written created rows x.rows)
      (authoritative && is_terminal r.status)
      (λ loud.
        if_elim {A = Recorded} (λ x. Written created rows x.rows) (contradicts m r)
          (λ e. wrote row.pk contradiction w) (λ e. w))
      (λ quiet. w)

-- The created row is in conflict when the discrepancy is confirmed.
record_observed-Written :
    (m : MatchRow) (rows : List Row) (first : Option Row) (j : Judgement) (row : Row)
    (created : Bool) (r : Result) (authoritative : Bool)
    → (created ≡ true → j.confirmed ≡ true → row.conflict ≡ true)
    → Written created rows (record_observed m rows first j row created r authoritative).rows
unfolding record_observed
record_observed-Written m rows first j row created r authoritative known =
    let suspected = suspect-Written created rows first j r in
    if_elim {A = Recorded} (λ x. Written created rows x.rows) (revises j)
      (λ v.
        if_elim (Written created rows) row.conflict (λ e. unwritten)
          (λ e. wrote row.pk revision unwritten))
      λ v.
        if_elim {A = Recorded} (λ x. Written created rows x.rows) j.confirmed
          (λ c.
            if_elim (Written created rows) row.conflict (λ e. suspected)
              λ e.
                wrote row.pk
                  (confirmation (elim (Bool-cases created) [
                    | inl y ↦ absurd (let x = known y c in cc)
                    | inr y ↦ y
                  ]))
                  suspected)
          λ c.
            if_elim {A = Recorded} (λ x. Written created rows x.rows) j.discrepancy (λ d. suspected)
              λ d.
                settle_match-Written m rows (converge (suspect rows first j r) first r) row created
                  r authoritative
                  (converge-Written created rows (suspect rows first j r) first r suspected)

-- The row that a call adds, if any, after looking for the one of the same key.
abbrev pub added : Option Row → List Row → Result → Bool → List Row
added none rows r authoritative = created_row (length rows) (judge rows r) r authoritative ∷ []
added (some row) rows r authoritative = []

abbrev pub is_new : Option Row → Bool
is_new none = true
is_new (some row) = false

append-nil : (rows : List Row) → rows ++ [] ≡ rows
append-nil [] = refl
append-nil (row ∷ rows) = ap (λ rs. row ∷ rs) (append-nil rows)

record_result-Written :
    (m : MatchRow) (rows : List Row) (r : Result) (authoritative : Bool)
    → Written
        (is_new (find_row r rows))
        (rows ++ added (find_row r rows) rows r authoritative)
        (record_result m rows r authoritative).rows
unfolding record_result
record_result-Written m rows r authoritative = elim (Option-cases (find_row r rows)) [
  | inl e ↦
      (let row = created_row (length rows) (judge rows r) r authoritative in
        rw (e, record_result)
          (record_observed-Written m (rows ++ row ∷ []) (earliest bsd rows) (judge rows r) row true
            r authoritative (λ y c. ground arith)))
  | inr (row, e) ↦
      rw (e, record_result, append-nil rows)
        (record_observed-Written m rows (earliest bsd rows) (judge rows r) row false r authoritative
          (λ y c. cc))
]

-- What a row says that was observed: everything but the flags that later results set.
abbrev pub evidence : Row → ℕ × Provider × ℕ × ℕ × Status × Option ℤ × Option ℤ × Option Outcome
evidence row = (
  row.pk, row.provider, row.external_ref, row.provider_observed_at, row.status_short,
  row.home_regulation, row.away_regulation, row.outcome,
)

IsWrite-evidence :
    {created : Bool} {write : Row → Row} (row : Row)
    → IsWrite created write
    → evidence (write row) ≡ evidence row
IsWrite-evidence row revision = refl
IsWrite-evidence row (confirmation e) = refl
IsWrite-evidence row suspicion = refl
IsWrite-evidence row convergence = refl
IsWrite-evidence row contradiction = refl

save_row-evidence :
    {created : Bool} {write : Row → Row} (pk : ℕ) (rows : List Row)
    → IsWrite created write
    → map evidence (save_row pk write rows) ≡ map evidence rows
unfolding save_row
save_row-evidence pk [] w = refl
save_row-evidence {write = write} pk (row ∷ rows) w =
    let rest = save_row-evidence pk rows w in
    let same = IsWrite-evidence row w in
    if_elim (λ rs. map evidence rs ≡ map evidence (row ∷ rows)) (row.pk == pk) (λ e. ap2 same rest)
      (λ e. ap (λ es. evidence row ∷ es) rest)
  where
    ap2 :
        evidence (write row) ≡ evidence row
        → map evidence (save_row pk write rows) ≡ map evidence rows
        → map evidence (write row ∷ save_row pk write rows) ≡ map evidence (row ∷ rows)
    ap2 a b = cc

Written-evidence :
    {created : Bool} {rows after : List Row}
    → Written created rows after
    → map evidence after ≡ map evidence rows
Written-evidence unwritten = refl
Written-evidence (wrote {after} pk w ws) = save_row-evidence pk after w ∙ Written-evidence ws

-- The rows keep everything that was observed, in the order of its recording: a call only adds its
-- own row, when none of the same key is there, and what any other row says stays.
pub record_result-evidence :
    (m : MatchRow) (rows : List Row) (r : Result) (authoritative : Bool)
    → map evidence (record_result m rows r authoritative).rows
      ≡ map evidence (rows ++ added (find_row r rows) rows r authoritative)
record_result-evidence m rows r authoritative =
    Written-evidence (record_result-Written m rows r authoritative)

-- `provider_results.filter(conflict=True).exists()`
abbrev pub has_conflict : List Row → Bool
has_conflict = any {A = Row} (λ row. row.conflict)

has_conflict-append :
    (rows more : List Row) → has_conflict rows ≡ true → has_conflict (rows ++ more) ≡ true
has_conflict-append [] more h = cc
has_conflict-append (row ∷ rows) more h = elim (Bool-cases row.conflict) [
  | inl e ↦ rw e refl
  | inr e ↦ (let ih = has_conflict-append rows more (let x = h in ground arith) in ground arith)
]

IsWrite-conflict :
    {created : Bool} {write : Row → Row} (row : Row)
    → IsWrite created write
    → row.conflict ≡ true
    → (write row).conflict ≡ true
IsWrite-conflict row revision h = refl
IsWrite-conflict row (confirmation e) h = refl
IsWrite-conflict row suspicion h = h
IsWrite-conflict row convergence h = h
IsWrite-conflict row contradiction h = refl

save_row-conflict :
    {created : Bool} {write : Row → Row} (pk : ℕ) (rows : List Row)
    → IsWrite created write
    → has_conflict rows ≡ true
    → has_conflict (save_row pk write rows) ≡ true
unfolding save_row
save_row-conflict pk [] w h = h
save_row-conflict {write = write} pk (row ∷ rows) w h = elim (Bool-cases row.conflict) [
  | inl e ↦
      (let kept = IsWrite-conflict row w e in
        if_elim (λ rs. has_conflict rs ≡ true) (row.pk == pk) (λ y. rw kept refl) (λ y. rw e refl))
  | inr e ↦
      (let ih = save_row-conflict pk rows w (let x = h in ground arith) in
        if_elim (λ rs. has_conflict rs ≡ true) (row.pk == pk) (λ y. ground arith)
          (λ y. ground arith))
]

Written-conflict :
    {created : Bool} {rows after : List Row}
    → Written created rows after
    → has_conflict rows ≡ true
    → has_conflict after ≡ true
Written-conflict unwritten h = h
Written-conflict (wrote {after} pk w ws) h = save_row-conflict pk after w (Written-conflict ws h)

-- A conflict is never cleared: when some row of a match is in conflict, some row is after any
-- further call.
pub record_result-conflict :
    (m : MatchRow) (rows : List Row) (r : Result) (authoritative : Bool)
    → has_conflict rows ≡ true
    → has_conflict (record_result m rows r authoritative).rows ≡ true
record_result-conflict m rows r authoritative h =
    Written-conflict (record_result-Written m rows r authoritative)
      (has_conflict-append rows (added (find_row r rows) rows r authoritative) h)

-- A row in conflict has no authority.
abbrev pub IsSound : Row → Type 0
IsSound row = (row.authoritative && row.conflict) ≡ false

IsWrite-IsSound :
    {write : Row → Row} (row : Row) → IsWrite true write → IsSound row → IsSound (write row)
IsWrite-IsSound row revision h = refl
IsWrite-IsSound row (confirmation e) h = cc
IsWrite-IsSound row suspicion h = h
IsWrite-IsSound row convergence h = h
IsWrite-IsSound row contradiction h = refl

save_row-IsSound :
    {write : Row → Row} (pk : ℕ) (rows : List Row)
    → IsWrite true write
    → All IsSound rows
    → All IsSound (save_row pk write rows)
unfolding save_row
save_row-IsSound pk [] w h = h
save_row-IsSound {write} pk (row ∷ rows) w h =
    let rest = save_row-IsSound pk rows w h.1 in
    if_elim (All IsSound) (row.pk == pk) (λ e. (IsWrite-IsSound row w h.0, rest)) (λ e. (h.0, rest))

Written-IsSound :
    {rows after : List Row} → Written true rows after → All IsSound rows → All IsSound after
Written-IsSound unwritten h = h
Written-IsSound (wrote {after} pk w ws) h = save_row-IsSound pk after w (Written-IsSound ws h)

sound_flags :
    (a d s c l : Bool)
    → (d ≡ false → c ≡ false)
    → ((a && not d && not s) && (c || (s && not l))) ≡ false
sound_flags false d s c l h = refl
sound_flags true true s c l h = refl
sound_flags true false true c l h = refl
sound_flags true false false c l h = rw (h refl) refl

created_row-IsSound :
    (pk : ℕ) (rows : List Row) (r : Result) (authoritative : Bool)
    → IsSound (created_row pk (judge rows r) r authoritative)
created_row-IsSound pk rows r authoritative =
    let j = judge rows r in
    sound_flags authoritative j.discrepancy j.same_provider_revision j.confirmed
      j.feed_lag_converged (judge-confirmed rows r)

-- No row is both authoritative and in conflict: a call keeps this whenever its result was not
-- recorded before.
pub record_result-IsSound :
    (m : MatchRow) (rows : List Row) (r : Result) (authoritative : Bool)
    → find_row r rows ≡ none
    → All IsSound rows
    → All IsSound (record_result m rows r authoritative).rows
record_result-IsSound m rows r authoritative new h =
    let w = record_result-Written m rows r authoritative in
    Written-IsSound (rw (new, is_new, added) at w) (
      All-append IsSound rows (created_row (length rows) (judge rows r) r authoritative ∷ []) h
        (created_row-IsSound (length rows) rows r authoritative, tt))
