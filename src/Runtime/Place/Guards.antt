-- ===== src/Runtime/Place/Guards.antt =====
-- On which conditions `place_candidate` places a stake, and what it reserves.
use mathlib.Core.Path.{subst}
use finsport.Prelude.{
  ◌⊎◌, some, Bool-cases, if_true, ℕ, ◌≡◌, refl, sym, ap, ◌∙◌, true, false, Option, none, [], ◌∷◌,
  ◌++◌, inl, inr,
}
use finsport.Decimal.{Decimal, add}
use finsport.Decimal.Order.{◌≼◌, ◌≺◌, not_lt_decimal→≼, not_le_decimal→≺}
use finsport.Capital.Contracts.{StakeRequest}
use finsport.Capital.Policies.{request, zero_decimal}
use finsport.Runtime.State.{
  find_state, Account, Candidate, ExecutionState, Position, available_cash, is_open,
}
use finsport.Runtime.Place.{Validation, Placement, Call, done, position_placed}
use finsport.Runtime.Place.Entry.{place_candidate, call_for, objection, basis_of}
use finsport.Runtime.Place.Steps.{capital_decision}
use finsport.Runtime.Place.Outcome.{IsBooked, is_placed}
use finsport.Runtime.Place.Admission.{IsEvidence, place-Resumed}
use finsport.Strategy.Deployment.{Deployment, ok, admission_reason, is_config}

module _ (column : Decimal → Decimal) where
  -- What `objection` lets through: the deployment is of another configuration, or the validation
  -- has no reason against the evidence.
  objection-none :
      (c : Call) (d : Deployment) (validated : Validation)
      → objection c d validated ≡ none
      → (is_config d.config_id c.account.config.pk ≡ false)
        ⊎ (validated c.candidate (basis_of c.state) ≡ none)
  objection-none c d validated h = elim (Bool-cases (is_config d.config_id c.account.config.pk)) [
    | inl own ↦ inr (if_true _ own h)
    | inr foreign ↦ inl foreign
  ]

  -- A placed stake passed every guard: the admission let the configuration in; the validation had
  -- no reason against the evidence, unless the deployment is of another configuration; the
  -- configuration was active; the evidence held a decision to bet with a price; the time of the
  -- placement was before the kickoff that the match has at the call; a lane was free; and the
  -- policy's request was affordable, positive and covered by the equity (`IsBooked`). The evidence
  -- is the given one for a new match, and the frozen basis of a match with a state.
  pub place_guards :
      (a : Account) (k : Candidate) (kickoff : ℕ) (d : Deployment) (validated : Validation)
      (now later : ℕ) (at : Option ℕ) {b : Account}
      → place_candidate column a k kickoff d validated now later at ≡ done b position_placed
      → (s : Option ExecutionState) × (used : Candidate) × (r : StakeRequest) × (t : ℕ)
        × (find_state k.match_id a.states ≡ s)
        × IsEvidence k s used
        × IsBooked column (call_for column a s used kickoff now later at) r t b
        × (admission_reason d a.config ≡ ok none)
        × ((is_config d.config_id a.config.pk ≡ false) ⊎ (validated used (basis_of s) ≡ none))
  place_guards a k kickoff d validated now later at h =
      elim (place-Resumed column a k kickoff d validated now later at h) [
        | inl u ↦ absurd (let x = u.not_placed in cc)
        | inr (s, used, r, t, found, e, o, x, entry, fine) ↦ (
          s,
          used,
          r,
          t,
          found,
          e,
          x,
          entry,
          objection-none (call_for column a s used kickoff now later at) d validated fine,
        )
      ]

  -- A call that returns anything but PLACED leaves the positions, the equity and the reserved
  -- exposure of the bankroll as they are.
  pub place_unplaced :
      (a : Account) (k : Candidate) (kickoff : ℕ) (d : Deployment) (validated : Validation)
      (now later : ℕ) (at : Option ℕ) {b : Account} {o : Placement}
      → is_placed o ≡ false
      → place_candidate column a k kickoff d validated now later at ≡ done b o
      → (b.positions ≡ a.positions)
        × (b.config.bankroll_equity ≡ a.config.bankroll_equity)
        × (b.config.reserved_exposure ≡ a.config.reserved_exposure)
  place_unplaced a k kickoff d validated now later at {b} {o} quiet h =
      elim (place-Resumed column a k kickoff d validated now later at h) [
        | inl u ↦ (u.same_positions, u.same_equity, u.same_reserved)
        | inr (s, used, r, t, found, e, q, x, entry, fine) ↦
            absurd (let y : true ≡ false = sym (ap is_placed q) ∙ quiet in cc)
      ]

  -- A placed stake: from the evidence that the call uses, the policy of the configuration requested
  -- it at the equity and the policy state before the call, and the requested stake was at most the
  -- available cash. One open position is added, of this match, with the requested and the applied
  -- stake of the request, and its applied stake is positive. The reserved exposure grows by the
  -- applied stake, and the sum is at most the equity, which stays.
  pub place_reserves :
      (a : Account) (k : Candidate) (kickoff : ℕ) (d : Deployment) (validated : Validation)
      (now later : ℕ) (at : Option ℕ) {b : Account}
      → place_candidate column a k kickoff d validated now later at ≡ done b position_placed
      → (used : Candidate) × (pk : ℕ) × (r : StakeRequest) × (p : Position) × IsEvidence k
          (find_state k.match_id a.states)
          used
        × (used.decision ≡ some pk)
        × (request a.config.policy
              (capital_decision column used pk)
              a.config.bankroll_equity
              a.config.policy_state
            ≡ some r)
        × (r.requested ≼ available_cash a.config)
        × (b.positions ≡ a.positions ++ p ∷ [])
        × (is_open p.status ≡ true)
        × (p.match_id ≡ used.match_id)
        × (p.requested_stake ≡ column r.requested)
        × (p.applied_stake ≡ column r.applied)
        × (zero_decimal ≺ p.applied_stake)
        × (b.config.reserved_exposure ≡ column (add a.config.reserved_exposure r.applied))
        × (add a.config.reserved_exposure r.applied ≼ a.config.bankroll_equity)
        × (b.config.bankroll_equity ≡ a.config.bankroll_equity)
  place_reserves a k kickoff d validated now later at h =
      let (s, used, r, t, found, e, x, entry, fine) =
        place_guards a k kickoff d validated now later at h in
      let f = x.funded in
      (
        used,
        x.pk,
        r,
        _,
        subst (λ s. IsEvidence k s used) (sym found) e,
        x.decided,
        x.asked,
        not_lt_decimal→≼ (available_cash a.config) r.requested f.affordable,
        ap (λ b. b.positions) f.result,
        refl,
        refl,
        refl,
        refl,
        not_le_decimal→≺ (column r.applied) zero_decimal f.positive_row,
        ap (λ b. b.config.reserved_exposure) f.result,
        not_lt_decimal→≼ a.config.bankroll_equity (add a.config.reserved_exposure r.applied)
            f.covered,
        ap (λ b. b.config.bankroll_equity) f.result,
      )
