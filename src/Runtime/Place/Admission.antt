-- ===== src/Runtime/Place/Admission.antt =====
-- What a call of `place_candidate` leaves, and on which conditions it books a position.
use finsport.Prelude.{
  ℕ, ◌≡◌, refl, true, false, not, ◌||◌, ◌&&◌, Option, none, some, arith, Bool-cases, Option-cases,
  ◌⊎◌, inl, inr, if_true, if_false, leb, ltb,
}
use finsport.Decimal.{Decimal}
use finsport.Capital.Contracts.{StakeRequest, is_back}
use finsport.Capital.Policies.{request}
use finsport.Runtime.State.{
  Account, Candidate, ExecutionState, Reason, is_active, open_count, find_state, awaits_capacity,
  no_bet_decision, no_execution_price, expired_capacity, ineligible,
}
use finsport.Strategy.Deployment.{Deployment, Verdict, ok, raised, admission_reason}
use finsport.Runtime.Place.{
  Placement, Validation, done, raised, Call, position_placed, no_work, arithmetic,
  partial_execution_basis, deployment_error,
}
use finsport.Runtime.Place.Steps.{fund, stake, capital_decision}
use finsport.Runtime.Place.Entry.{
  is_missing, objection, turn_away, enter, admit, screen, place_at, resume, call_for,
  place_candidate,
}
use finsport.Runtime.Place.Outcome.{
  IsUnbooked, done-IsUnbooked, IsBooked, Ending, unchanged, terminalize-IsUnbooked,
  created-IsUnbooked, refused-IsUnbooked, wait_for_lane-IsUnbooked,
}
use finsport.Runtime.Place.Booking.{fund-Funding}

-- The evidence that a call uses: what it is given, or the frozen basis of a pending opportunity.
abbrev pub IsEvidence : Candidate → Option ExecutionState → Candidate → Type 0
IsEvidence k none used = used ≡ k
IsEvidence k (some s) used = s.basis ≡ some used

module _ (column : Decimal → Decimal) where
  request_made :
      (c : Call) (pk : ℕ) {b : Account} {o : Placement}
      → stake column c pk ≡ done b o
      → (r : StakeRequest) × (request c.account.config.policy
            (capital_decision column c.candidate pk)
            c.account.config.bankroll_equity
            c.account.config.policy_state
          ≡ some r)
        × (fund column c r ≡ done b o)
  unfolding stake
  request_made c pk {b} {o} h =
      let asked =
        request c.account.config.policy (capital_decision column c.candidate pk)
          c.account.config.bankroll_equity c.account.config.policy_state in
      elim (Option-cases asked) [
        | inl e ↦ absurd (let x : raised arithmetic ≡ done b o = rw (e, stake) at h in cc)
        | inr (r, e) ↦ (r, e, rw (e, stake) at h)
      ]

  stake-Ending :
      (c : Call) (pk : ℕ) {b : Account} {o : Placement}
      → leb c.kickoff c.placement_at ≡ false
      → c.candidate.decision ≡ some pk
      → is_active c.account.config.status ≡ true
      → is_back c.candidate.action ≡ true
      → is_missing column c.candidate.selected_price ≡ false
      → ltb (open_count c.account.positions) c.account.config.max_lanes ≡ true
      → stake column c pk ≡ done b o
      → Ending column c b o
  stake-Ending c pk early decided alive back priced free h =
      let (r, asked, next) = request_made c pk h in
      elim (fund-Funding column c r early next) [
        | inl u ↦ inl u
        | inr (at, e, funded) ↦ inr (
          r,
          at,
          e,
          record {
            pk = pk;
            decided = decided;
            alive = alive;
            back = back;
            priced = priced;
            lane_free = free;
            asked = asked;
            funded = funded;
          },
        )
      ]

  pub enter-Ending :
      (c : Call) (pk : ℕ) {b : Account} {o : Placement}
      → (is_missing column c.state || not (leb c.kickoff c.placement_at)) ≡ true
      → c.candidate.decision ≡ some pk
      → is_active c.account.config.status ≡ true
      → enter column c pk ≡ done b o
      → Ending column c b o
  unfolding enter
  enter-Ending c pk timely decided alive h =
      let k = c.candidate in
      let a = c.account in
      elim (Bool-cases (is_back k.action)) [
        | inr passive ↦
            inl (refused-IsUnbooked a k no_bet_decision _ _ _ (rw (passive, enter) at h))
        | inl back ↦
            elim (Bool-cases
              (is_missing column k.selected_price || is_missing column k.selected_observation_id)) [
                | inl bare ↦
                    inl (
                      refused-IsUnbooked a k no_execution_price _ _ _ (rw (back, bare, enter) at h))
                | inr priced ↦
                    elim (Bool-cases (is_missing column c.state && leb c.kickoff c.placement_at)) [
                      | inl late ↦ inl (
                          refused-IsUnbooked a k expired_capacity _ _ _
                            (rw (back, priced, late, enter) at h))
                      | inr early ↦
                          elim (Bool-cases (leb a.config.max_lanes (open_count a.positions))) [
                            | inl full ↦ inl (
                                wait_for_lane-IsUnbooked c
                                  (rw (back, priced, early, full, enter) at h))
                            | inr free ↦
                                stake-Ending c pk (ground arith) decided alive back (ground arith)
                                  (ground arith) (rw (back, priced, early, free, enter) at h)
                          ]
                    ]
              ]
      ]

  turn_away-IsUnbooked :
      (c : Call) (reason : Reason) (at : ℕ) {b : Account} {o : Placement}
      → turn_away column c reason at ≡ done b o
      → IsUnbooked c.account b o
  turn_away-IsUnbooked c reason at h = elim (Option-cases c.state) [
    | inl e ↦ created-IsUnbooked c.account c.candidate reason at _ _ (rw e at h)
    | inr (s, e) ↦ terminalize-IsUnbooked c.account s reason c.placement_at false (rw e at h)
  ]

  pub admit-Ending :
      (c : Call) (blocked : Option Reason) {b : Account} {o : Placement}
      → (is_missing column c.state || not (leb c.kickoff c.placement_at)) ≡ true
      → admit column c blocked ≡ done b o
      → Ending column c b o
  unfolding admit
  admit-Ending c (some reason) timely h = inl (turn_away-IsUnbooked c reason c.placement_at h)
  admit-Ending c none timely h = elim (Bool-cases (is_active c.account.config.status)) [
    | inr over ↦
        inl (turn_away-IsUnbooked c ineligible c.candidate.event_at (rw (over, admit) at h))
    | inl alive ↦ elim (Option-cases c.candidate.decision) [
      | inl e ↦ inl (created-IsUnbooked c.account c.candidate _ _ _ _ (rw (alive, e, admit) at h))
      | inr (pk, e) ↦ enter-Ending c pk timely e alive (rw (alive, e, admit) at h)
    ]
  ]

  -- The admission of the configuration, with what the call leaves.
  abbrev pub Admitted : Call → Deployment → Validation → Account → Placement → Type 0
  Admitted c d validated b o =
      IsUnbooked c.account b o
      ⊎ ((r : StakeRequest) × (at : ℕ) × (o ≡ position_placed)
          × IsBooked column c r at b
          × (admission_reason d c.account.config ≡ ok none)
          × (objection c d validated ≡ none))

  admitted :
      (c : Call) (d : Deployment) (validated : Validation) {b : Account} {o : Placement}
      → admission_reason d c.account.config ≡ ok none
      → objection c d validated ≡ none
      → Ending column c b o
      → Admitted c d validated b o
  admitted c d validated e fine (inl u) = inl u
  admitted c d validated e fine (inr (r, at, q, x)) = inr (r, at, q, x, e, fine)

  screen-Admitted :
      (c : Call) (d : Deployment) (validated : Validation) {b : Account} {o : Placement}
      → (is_missing column c.state || not (leb c.kickoff c.placement_at)) ≡ true
      → screen column c d validated ≡ done b o
      → Admitted c d validated b o
  unfolding screen
  screen-Admitted c d validated {b} {o} timely h = go (admission_reason d c.account.config) refl
    where
      go :
          (v : Verdict (Option Reason))
          → admission_reason d c.account.config ≡ v
          → Admitted c d validated b o
      go (raised x) e =
          absurd (let q : raised (deployment_error x) ≡ done b o = rw (e, screen) at h in cc)
      go (ok none) e = elim (Option-cases (objection c d validated)) [
        | inl fine ↦
            admitted c d validated e fine (admit-Ending c none timely (rw (e, fine, screen) at h))
        | inr (reason, f) ↦
            inl (turn_away-IsUnbooked c reason c.placement_at (rw (e, f, screen, admit) at h))
      ]
      go (ok (some reason)) e =
          inl (turn_away-IsUnbooked c reason c.placement_at (rw (e, screen, admit) at h))

  pub place_at-Admitted :
      (c : Call) (d : Deployment) (validated : Validation) {b : Account} {o : Placement}
      → place_at column c d validated ≡ done b o
      → Admitted c d validated b o
  unfolding place_at
  place_at-Admitted c d validated h = elim (Option-cases c.state) [
    | inl e ↦ screen-Admitted c d validated (rw e refl) (rw (e, place_at) at h)
    | inr (s, e) ↦ elim (Bool-cases (leb c.kickoff c.placement_at)) [
      | inl late ↦ inl (
          terminalize-IsUnbooked c.account s expired_capacity c.placement_at false
            (rw (e, late, place_at) at h))
      | inr early ↦
          screen-Admitted c d validated (rw (e, early) refl) (rw (e, early, place_at) at h)
    ]
  ]

  -- A call that books nothing, or the booking of the call that `place_candidate` makes.
  abbrev pub Resumed :
      Account
      → Candidate
      → ℕ
      → Deployment
      → Validation
      → ℕ
      → ℕ
      → Option ℕ
      → Account
      → Placement
      → Type 0
  Resumed a k kickoff d validated now later at b o =
      IsUnbooked a b o
      ⊎ ((s : Option ExecutionState) × (used : Candidate) × (r : StakeRequest) × (t : ℕ)
          × (find_state k.match_id a.states ≡ s)
          × IsEvidence k s used
          × (o ≡ position_placed)
          × IsBooked column (call_for column a s used kickoff now later at) r t b
          × (admission_reason d a.config ≡ ok none)
          × (objection (call_for column a s used kickoff now later at) d validated ≡ none))

  resumed :
      (a : Account) (k : Candidate) (kickoff : ℕ) (d : Deployment) (validated : Validation)
      (now later : ℕ) (at : Option ℕ) (s : Option ExecutionState) (used : Candidate) {b : Account}
      {o : Placement}
      → find_state k.match_id a.states ≡ s
      → IsEvidence k s used
      → Admitted (call_for column a s used kickoff now later at) d validated b o
      → Resumed a k kickoff d validated now later at b o
  resumed a k kickoff d validated now later at s used found e (inl u) = inl u
  resumed a k kickoff d validated now later at s used found e (inr (r, t, q, x, entry, fine)) =
      inr (s, used, r, t, found, e, q, x, entry, fine)

  resume-Resumed :
      (a : Account) (k : Candidate) (kickoff : ℕ) (s : ExecutionState) (d : Deployment)
      (validated : Validation) (now later : ℕ) (at : Option ℕ) {b : Account} {o : Placement}
      → find_state k.match_id a.states ≡ some s
      → resume column a s kickoff d validated now later at ≡ done b o
      → Resumed a k kickoff d validated now later at b o
  unfolding resume
  resume-Resumed a k kickoff s d validated now later at {b} {o} found h =
      elim (Option-cases s.basis) [
        | inl e ↦
            absurd (let q : raised partial_execution_basis ≡ done b o = rw (e, resume) at h in cc)
        | inr (used, e) ↦ elim (Bool-cases used.work_valid) [
          | inl fine ↦ resumed a k kickoff d validated now later at (some s) used found e (
              place_at-Admitted (call_for column a (some s) used kickoff now later at) d validated
                (if_true _ fine (rw (e, resume) at h)))
          | inr bad ↦ absurd (
              let q : raised partial_execution_basis ≡ done b o =
                if_false _ bad (rw (e, resume) at h) in
              cc)
        ]
      ]

  pub place-Resumed :
      (a : Account) (k : Candidate) (kickoff : ℕ) (d : Deployment) (validated : Validation)
      (now later : ℕ) (at : Option ℕ) {b : Account} {o : Placement}
      → place_candidate column a k kickoff d validated now later at ≡ done b o
      → Resumed a k kickoff d validated now later at b o
  unfolding place_candidate
  place-Resumed a k kickoff d validated now later at h =
      elim (Option-cases (find_state k.match_id a.states)) [
        | inl e ↦ resumed a k kickoff d validated now later at none k e refl (
            place_at-Admitted (call_for column a none k kickoff now later at) d validated
              (rw (e, place_candidate) at h))
        | inr (s, e) ↦ elim (Bool-cases (awaits_capacity s.status)) [
          | inl waits ↦
              resume-Resumed a k kickoff s d validated now later at e
                (rw (e, waits, place_candidate) at h)
          | inr ended ↦ inl (
              done-IsUnbooked a a no_work (unchanged a no_work refl)
                (rw (e, ended, place_candidate) at h))
        ]
      ]
