-- ===== src/Strategy/Deployment/Barrier.antt =====
-- What the admission barrier refuses, after a drain and after a depletion.
use finsport.Prelude.{
  any, ◌≡◌, ◌≢◌, refl, Bool, true, false, none, List, arith, Bool-cases, inl, inr, ℕ,
}
use mathlib.Core.Path.{subst}
use finsport.Decimal.{le_decimal, eq_decimal}
use finsport.Runtime.State.{RuntimeConfig, Account, is_open}
use finsport.Strategy.Deployment.{
  Deployment, DeploymentState, is_old_active, is_live, is_stopped, approved_floor,
  depletion_floor_drift, is_config, SuccessorMode, ok, raised, admission_reason, verified_reason,
  request_drain, update_depletion, next_depletion, Depletion, solvent, cancel_pending, with_config,
  bind-eq-ok, same_of_ok,
}

-- A deployment that is not live admits no automatic configuration.
not_live-admission :
    (d : Deployment) (c : RuntimeConfig)
    → is_live d.state ≡ false
    → is_old_active d.state ≡ false
    → c.automatic ≡ true
    → admission_reason d c ≢ ok none
unfolding admission_reason
not_live-admission d c h k a = ground arith

stopped_quiet :
    (s : DeploymentState) → is_stopped s ≡ true → (is_live s ≡ false) × (is_old_active s ≡ false)
stopped_quiet s h = ground arith

live_not_old : (s : DeploymentState) → is_live s ≡ true → is_old_active s ≡ false
live_not_old s h = ground arith

-- What a successful `request_drain` leaves is draining or stopped.
request_drain-state :
    (mode : SuccessorMode) (at : ℕ) (d : Deployment) (accounts : List Account)
    {w : Deployment × List Account}
    → request_drain mode at d accounts ≡ ok w
    → (is_live w.0.state ≡ false) × (is_old_active w.0.state ≡ false)
unfolding request_drain
request_drain-state mode at d accounts h = elim (Bool-cases (is_stopped d.state)) [
  | inl over ↦
      subst (λ w. (is_live w.0.state ≡ false) × (is_old_active w.0.state ≡ false))
        (same_of_ok (rw (over, request_drain) at h)) (stopped_quiet d.state over)
  | inr going ↦
      (let (after, cut, is) =
          bind-eq-ok (cancel_pending (with_config d.config_id d.retiring_config_ids) at accounts) _
            (rw (going, request_drain) at h) in
        subst (λ w. (is_live w.0.state ≡ false) × (is_old_active w.0.state ≡ false)) (same_of_ok is)
          (refl, refl))
]

-- After `request_drain` no automatic configuration is admitted to a new stake.
pub request_drain_closes :
    (mode : SuccessorMode) (at : ℕ) (d : Deployment) (accounts : List Account) (c : RuntimeConfig)
    {w : Deployment × List Account}
    → request_drain mode at d accounts ≡ ok w
    → c.automatic ≡ true
    → admission_reason w.0 c ≢ ok none
request_drain_closes mode at d accounts c h a =
    let (quiet, not_old) = request_drain-state mode at d accounts h in
    not_live-admission _ c quiet not_old a

low-next_depletion : (p : Depletion) (has_open : Bool) → next_depletion p true has_open ≢ solvent
unfolding next_depletion
low-next_depletion p has_open h = ground arith

insolvent-admission :
    (d : Deployment) (c : RuntimeConfig)
    → is_old_active d.state ≡ false
    → d.depletion_state ≢ solvent
    → c.automatic ≡ true
    → admission_reason d c ≢ ok none
unfolding admission_reason verified_reason
insolvent-admission d c k n a = ground arith

-- After `update_depletion` of a live deployment whose bankroll is at the floor or below it, the
-- automatic configuration is not admitted to a new stake.
pub update_depletion_blocks :
    (d : Deployment) (a : Account) {e : Deployment}
    → update_depletion d a ≡ ok e
    → is_live d.state ≡ true
    → is_config d.config_id a.config.pk ≡ true
    → le_decimal a.config.bankroll_equity d.depletion_floor ≡ true
    → a.config.automatic ≡ true
    → admission_reason e a.config ≢ ok none
unfolding update_depletion
update_depletion_blocks d a {e} h live same low auto =
    let has_open = any (λ p. is_open p.status) a.positions in
    let next = next_depletion d.depletion_state true has_open in
    elim (Bool-cases (eq_decimal d.depletion_floor approved_floor)) [
      | inl approved ↦
          subst (λ e. admission_reason e a.config ≢ ok none)
            (same_of_ok (rw (same, live, approved, low, update_depletion) at h))
            (insolvent-admission (record d { depletion_state = next }) a.config
              (live_not_old d.state live) (low-next_depletion d.depletion_state has_open) auto)
      | inr drifted ↦ absurd (
          let c : raised depletion_floor_drift ≡ ok e =
            rw (same, live, drifted, update_depletion) at h in
          cc)
    ]
