-- ===== src/Runtime/Place/Final.antt =====
-- A match is placed at most once in a bankroll.
use mathlib.Core.Path.{subst}
use finsport.Prelude.{
  ℕ, ◌≡◌, refl, sym, ap, true, false, Option, none, some, List, [], ◌∷◌, ◌++◌, ◌==◌, arith,
  Bool-cases, Option-cases, inl, inr, same_of_some, if_true, if_false,
}
use finsport.Decimal.{Decimal}
use finsport.Runtime.State.{
  Account, Candidate, ExecutionState, placed, find_state, save_state, awaits_capacity,
}
use finsport.Runtime.Place.{
  Validation, done, raised, Call, position_placed, no_work, partial_execution_basis,
}
use finsport.Runtime.Place.Entry.{place_candidate, place_at, resume, call_for}
use finsport.Runtime.Place.Steps.{placed_states, placed_row}
use finsport.Runtime.Place.Admission.{place_at-Admitted}
use finsport.Strategy.Deployment.{Deployment}

find_state-match :
    (m : ℕ) (ss : List ExecutionState) {s : ExecutionState}
    → find_state m ss ≡ some s
    → s.match_id ≡ m
unfolding find_state
find_state-match m [] h = cc
find_state-match m (t ∷ ss) {s} h = elim (Bool-cases (t.match_id == m)) [
  | inl e ↦
      (let x : some t ≡ some s = if_true _ e h in
        subst (λ s. s.match_id ≡ m) (same_of_some x) (ground arith))
  | inr e ↦ find_state-match m ss (if_false _ e h)
]

find-append :
    (m : ℕ) (ss : List ExecutionState) (t : ExecutionState)
    → t.match_id ≡ m
    → find_state m ss ≡ none
    → find_state m (ss ++ t ∷ []) ≡ some t
unfolding find_state
find-append m [] t e h = (let same : (t.match_id == m) ≡ true = ground (arith, e) in ground arith)
find-append m (s ∷ ss) t e h = elim (Bool-cases (s.match_id == m)) [
  | inl here ↦ absurd (let x : some s ≡ none = if_true _ here h in cc)
  | inr there ↦ rw there (find-append m ss t e (if_false _ there h))
]

find-save_state :
    (t : ExecutionState) (ss : List ExecutionState) {s : ExecutionState}
    → find_state t.match_id ss ≡ some s
    → find_state t.match_id (save_state t ss) ≡ some t
unfolding find_state save_state
find-save_state t [] h = cc
find-save_state t (r ∷ ss) h = elim (Bool-cases (r.match_id == t.match_id)) [
  | inl e ↦ ground arith
  | inr e ↦ rw e (rw e (find-save_state t ss (if_false _ e h)))
]

module _ (column : Decimal → Decimal) where
  abbrev HasPlaced : ℕ → Account → Type 0
  HasPlaced m b = (t : ExecutionState) × (find_state m b.states ≡ some t) × (t.status ≡ placed)

  -- What a booking leaves of the state of the call's match.
  booked-HasPlaced :
      (c : Call) (d : Deployment) (validated : Validation) (m : ℕ) {b : Account}
      → HasPlaced m (let a = c.account in record a { states = placed_states column c })
      → place_at column c d validated ≡ done b position_placed
      → HasPlaced m b
  booked-HasPlaced c d validated m h e = elim (place_at-Admitted column c d validated e) [
    | inl u ↦ absurd (let x = u.not_placed in cc)
    | inr (r, t, q, x, admitted, fine) ↦
        subst (λ ss. (t : ExecutionState) × (find_state m ss ≡ some t) × (t.status ≡ placed))
          (sym (ap (λ b. b.states) x.funded.result)) h
  ]

  resume-HasPlaced :
      (a : Account) (s : ExecutionState) (kickoff : ℕ) (d : Deployment) (validated : Validation)
      (now later : ℕ) (at : Option ℕ) (b : Account)
      → find_state s.match_id a.states ≡ some s
      → resume column a s kickoff d validated now later at ≡ done b position_placed
      → HasPlaced s.match_id b
  unfolding resume
  resume-HasPlaced a s kickoff d validated now later at b found h = elim (Option-cases s.basis) [
    | inl bare ↦ absurd (
        let x : raised partial_execution_basis ≡ done b position_placed = rw (bare, resume) at h in
        cc)
    | inr (k, kept) ↦ elim (Bool-cases k.work_valid) [
      | inr bad ↦ absurd (
          let x : raised partial_execution_basis ≡ done b position_placed =
            if_false _ bad (rw (kept, resume) at h) in
          cc)
      | inl fine ↦
          booked-HasPlaced (call_for column a (some s) k kickoff now later at) d validated
            s.match_id {b = b} (_, find-save_state _ a.states found, refl)
            (if_true _ fine (rw (kept, resume) at h))
    ]
  ]

  place-HasPlaced :
      (a : Account) (k : Candidate) (kickoff : ℕ) (d : Deployment) (validated : Validation)
      (now later : ℕ) (at : Option ℕ) {b : Account}
      → place_candidate column a k kickoff d validated now later at ≡ done b position_placed
      → HasPlaced k.match_id b
  unfolding place_candidate
  place-HasPlaced a k kickoff d validated now later at {b} h =
      elim (Option-cases (find_state k.match_id a.states)) [
        | inl e ↦
            booked-HasPlaced (call_for column a none k kickoff now later at) d validated k.match_id
              (
                placed_row column k,
                find-append k.match_id a.states (placed_row column k) refl e,
                refl,
              )
              (rw (e, place_candidate) at h)
        | inr (s, e) ↦
            (let same = find_state-match k.match_id a.states e in
              let found = subst (λ m. find_state m a.states ≡ some s) (sym same) e in
              elim (Bool-cases (awaits_capacity s.status)) [
                | inr over ↦ absurd (
                    let x : done a no_work ≡ done b position_placed =
                      if_false _ over (rw (e, place_candidate) at h) in
                    cc)
                | inl waits ↦
                    subst (λ m. HasPlaced m b) same
                      (resume-HasPlaced a s kickoff d validated now later at b found
                        (if_true _ waits (rw (e, place_candidate) at h)))
              ])
      ]

  -- A match is placed once: after PLACED, any further call for that match in the bankroll, with any
  -- evidence, deployment and clock, is NO_WORK and changes nothing.
  pub place_once :
      (a : Account) (k : Candidate) (kickoff : ℕ) (d : Deployment) (validated : Validation)
      (now later : ℕ) (at : Option ℕ) {b : Account} (k' : Candidate) (kickoff' : ℕ)
      (d' : Deployment) (validated' : Validation) (now' later' : ℕ) (at' : Option ℕ)
      → k'.match_id ≡ k.match_id
      → place_candidate column a k kickoff d validated now later at ≡ done b position_placed
      → place_candidate column b k' kickoff' d' validated' now' later' at' ≡ done b no_work
  unfolding place_candidate
  place_once a k kickoff d validated now later at {b} k' kickoff' d' validated' now' later' at' same
        h =
      let (t, found, is) = place-HasPlaced a k kickoff d validated now later at h in
      let here : find_state k'.match_id b.states ≡ some t =
        subst (λ m. find_state m b.states ≡ some t) (sym same) found in
      let over : awaits_capacity t.status ≡ false = ap awaits_capacity is in
      rw (here, place_candidate) (rw over refl)
