-- ===== src/Runtime/Place/Booking.antt =====
-- The stages of `place_candidate`, from the last to the first: what each leaves.
use finsport.Prelude.{
  ℕ, ◌≡◌, sym, Bool, true, false, ◌||◌, ◌&&◌, arith, Bool-cases, Option-cases, inl, inr,
  if◌then◌else◌, leb,
}
use finsport.Decimal.{Decimal, add, lt_decimal, le_decimal}
use finsport.Capital.Contracts.{StakeRequest, has_terminated}
use finsport.Capital.Policies.{zero_decimal}
use finsport.Runtime.State.{
  Account, available_cash, expired_capacity, missed_execution_window, ineligible,
}
use finsport.Strategy.Deployment.{raised}
use finsport.Runtime.Place.{
  Placement, done, raised, Call, position_placed, negative_available_cash, stake_constraint,
}
use finsport.Runtime.Place.Steps.{book, recheck, fund, with_config}
use finsport.Runtime.Place.Outcome.{
  Funding, terminalize-IsUnbooked, refused-IsUnbooked, refuse-IsUnbooked, wait_for_cash-IsUnbooked,
}

same_account : {a b : Account} {p q : Placement} → done a p ≡ done b q → a ≡ b
same_account h = cc

module _ (column : Decimal → Decimal) where
  book-Funding :
      (c : Call) (at : ℕ) (r : StakeRequest) {b : Account} {o : Placement}
      → leb c.kickoff at ≡ false
      → le_decimal r.applied zero_decimal ≡ false
      → has_terminated r.termination_reason ≡ false
      → lt_decimal (available_cash c.account.config) r.requested ≡ false
      → book column c at r ≡ done b o
      → Funding column c r b o
  unfolding book
  book-Funding c at r {b} {o} early positive running affordable h =
      elim (Bool-cases (
        lt_decimal c.account.config.bankroll_equity
          (add c.account.config.reserved_exposure r.applied))) [
            | inl over ↦
                absurd
                  (let x : raised negative_available_cash ≡ done b o = rw (over, book) at h in cc)
            | inr covered ↦ elim (Bool-cases (le_decimal (column r.applied) zero_decimal)) [
              | inl empty ↦ absurd (
                  let x : raised stake_constraint ≡ done b o = rw (covered, empty, book) at h in cc)
              | inr stored ↦
                  (let e : done _ position_placed ≡ done b o = rw (covered, stored, book) at h in
                    inr (
                      at,
                      (let q : position_placed ≡ o = cc in sym q),
                      record {
                        in_time = early;
                        positive = positive;
                        positive_row = stored;
                        running = running;
                        affordable = affordable;
                        covered = covered;
                        result = sym (same_account e);
                      },
                    ))
            ]
          ]

  recheck_time :
      (strategic : Bool) (k placed_at later : ℕ)
      → leb k placed_at ≡ false
      → (strategic && leb k later) ≡ false
      → leb k (if strategic then later else placed_at) ≡ false
  recheck_time strategic k placed_at later h e = ground arith

  recheck-Funding :
      (c : Call) (r : StakeRequest) {b : Account} {o : Placement}
      → leb c.kickoff c.placement_at ≡ false
      → le_decimal r.applied zero_decimal ≡ false
      → has_terminated r.termination_reason ≡ false
      → lt_decimal (available_cash c.account.config) r.requested ≡ false
      → recheck column c r ≡ done b o
      → Funding column c r b o
  unfolding recheck
  recheck-Funding c r early positive running affordable h =
      elim (Bool-cases (c.account.config.strategic && leb c.kickoff c.later)) [
        | inl late ↦ elim (Option-cases c.state) [
          | inl e ↦ inl (
              refused-IsUnbooked c.account c.candidate missed_execution_window c.later _ _
                (rw (late, e, recheck) at h))
          | inr (s, e) ↦ inl (
              terminalize-IsUnbooked c.account s expired_capacity c.later false
                (rw (late, e, recheck) at h))
        ]
        | inr timely ↦
            book-Funding c _ r
              (recheck_time c.account.config.strategic c.kickoff c.placement_at c.later early
                timely)
              positive running affordable (rw (timely, recheck) at h)
      ]

  pub fund-Funding :
      (c : Call) (r : StakeRequest) {b : Account} {o : Placement}
      → leb c.kickoff c.placement_at ≡ false
      → fund column c r ≡ done b o
      → Funding column c r b o
  unfolding fund
  fund-Funding c r early h = elim (Bool-cases (has_terminated r.termination_reason)) [
    | inl ended ↦
        (let u =
            refuse-IsUnbooked (with_config column c _) ineligible _ _ true
              (rw (ended, fund) at h) in
          inl (record {
            same_positions = u.same_positions;
            same_equity = u.same_equity;
            same_reserved = u.same_reserved;
            same_lanes = u.same_lanes;
            not_placed = u.not_placed;
          }))
    | inr running ↦
        elim (Bool-cases
          (le_decimal r.requested zero_decimal || le_decimal r.applied zero_decimal)) [
            | inl empty ↦
                inl (refuse-IsUnbooked c ineligible _ _ true (rw (running, empty, fund) at h))
            | inr positive ↦
                elim (Bool-cases (lt_decimal (available_cash c.account.config) r.requested)) [
                  | inl short ↦ inl (
                      wait_for_cash-IsUnbooked c r.requested
                        (rw (running, positive, short, fund) at h))
                  | inr affordable ↦
                      recheck-Funding c r early (ground arith) running affordable
                        (rw (running, positive, affordable, fund) at h)
                ]
          ]
  ]
