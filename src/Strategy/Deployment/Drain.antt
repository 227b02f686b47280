-- ===== src/Strategy/Deployment/Drain.antt =====
-- Draining: what a cancelled account keeps, and what a complete drain means.
use mathlib.Core.Path.{subst}
use finsport.Prelude.{
  ℕ, ◌≡◌, refl, sym, ap, ◌∙◌, Bool, true, false, not, List, [], ◌∷◌, map, arith, All, any,
  Bool-cases, inl, inr, if◌then◌else◌,
}
use finsport.Decimal.{whole, eq_decimal, sum_from}
use finsport.Runtime.State.{
  Account, ExecutionState, Position, is_open, is_pending, is_resolved, open_positions,
}
use finsport.Strategy.Deployment.{
  Deployment, SuccessorMode, Verdict, ok, raised, cancel_states, cancel_pending, member,
  account_drained, drain_complete, request_drain, with_config, is_stopped, ledger_exposure_mismatch,
  pending_with_position, bind-eq-ok, same_of_ok, DeploymentError,
}

-- A drained account: nothing open, owed or waiting, and no reserved exposure.
pub record IsDrained (a : Account) : Type 0 where
  pub none_open : any (λ p. is_open p.status) a.positions ≡ false
  pub none_owed : any (λ p. not (is_resolved p.debt_status)) a.positions ≡ false
  pub none_waiting : any (λ s. is_pending s.status) a.states ≡ false
  pub none_reserved : eq_decimal (whole 0) a.config.reserved_exposure ≡ true

no_open_positions :
    (ps : List Position) → any (λ p. is_open p.status) ps ≡ false → open_positions ps ≡ []
no_open_positions [] h = refl
no_open_positions (p ∷ ps) h = ground (arith, no_open_positions ps)

all_quiet :
    (e o u w : Bool) (x : DeploymentError)
    → (if not e then raised x else if o then ok false else if u then ok false else ok (not w))
      ≡ ok true
    → (e ≡ true) × (o ≡ false) × (u ≡ false) × (w ≡ false)
all_quiet e o u w x h = ground arith

account_drained-IsDrained : (a : Account) → account_drained a ≡ ok true → IsDrained a
unfolding account_drained sum_from
account_drained-IsDrained a h =
    let exposure = sum_from (whole 0) (map (λ p. p.applied_stake) (open_positions a.positions)) in
    let (even, closed, paid, idle) =
      all_quiet (eq_decimal exposure a.config.reserved_exposure)
        (any (λ p. is_open p.status) a.positions)
        (any (λ p. not (is_resolved p.debt_status)) a.positions)
        (any (λ s. is_pending s.status) a.states) ledger_exposure_mismatch h in
    record {
      none_open = closed;
      none_owed = paid;
      none_waiting = idle;
      none_reserved = rw (no_open_positions a.positions closed) at even;
    }

both_done :
    (done : Bool) (others : Verdict Bool)
    → (if done then others else ok false) ≡ ok true
    → (done ≡ true) × (others ≡ ok true)
both_done true others h = (refl, h)
both_done false others h = cc

-- When `drain_complete` says yes, every configuration that retires is drained: no open position,
-- no unresolved debt, no pending opportunity, and a reserved exposure of zero.
pub drain_complete_sound :
    (ids : List ℕ) (accounts : List Account)
    → drain_complete ids accounts ≡ ok true
    → All (λ a. member a.config.pk ids ≡ true → IsDrained a) accounts
unfolding drain_complete
drain_complete_sound ids [] h = tt
drain_complete_sound ids (a ∷ rest) h = elim (Bool-cases (member a.config.pk ids)) [
  | inl listed ↦
      (let (done, one, next) =
          bind-eq-ok (account_drained a) _ (rw (listed, drain_complete) at h) in
        let (finished, others) = both_done done (drain_complete ids rest) next in
        (
          (λ m. account_drained-IsDrained a (one ∙ ap ok finished)),
          drain_complete_sound ids rest others,
        ))
  | inr other ↦ (
    (λ m. absurd (let c : false ≡ true = sym other ∙ m in cc)),
    drain_complete_sound ids rest (rw (other, drain_complete) at h),
  )
]

-- What `cancel_pending` does to one account: its positions, its bankroll and its reserved exposure
-- stay; a listed one takes no entries and has nothing pending; any other stays as it is.
pub record IsCancelled (ids : List ℕ) (a b : Account) : Type 0 where
  pub same_positions : b.positions ≡ a.positions
  pub same_equity : b.config.bankroll_equity ≡ a.config.bankroll_equity
  pub same_reserved : b.config.reserved_exposure ≡ a.config.reserved_exposure
  pub listed_closed :
      member a.config.pk ids ≡ true
      → (b.config.entry_enabled ≡ false) × (any (λ s. is_pending s.status) b.states ≡ false)
  pub others_same : member a.config.pk ids ≡ false → b ≡ a

abbrev pub AreCancelled : List ℕ → List Account → List Account → Type 0
AreCancelled ids [] [] = Unit
AreCancelled ids (a ∷ xs) (b ∷ ys) = IsCancelled ids a b × AreCancelled ids xs ys
AreCancelled ids _ _ = ⊥

cancel_states-pending :
    (at : ℕ) (ss : List ExecutionState) {ts : List ExecutionState}
    → cancel_states at ss ≡ ok ts
    → any (λ s. is_pending s.status) ts ≡ false
unfolding cancel_states
cancel_states-pending at [] h =
    subst (λ ts. any (λ s. is_pending s.status) ts ≡ false) (same_of_ok h) refl
cancel_states-pending at (s ∷ ss) {ts} h = elim (Bool-cases (is_pending s.status)) [
  | inl waits ↦ elim (Bool-cases s.has_position) [
    | inl held ↦
        absurd (
          let c : raised pending_with_position ≡ ok ts = rw (waits, held, cancel_states) at h in cc)
    | inr free ↦
        (let (rest, others, is) =
            bind-eq-ok (cancel_states at ss) _ (rw (waits, free, cancel_states) at h) in
          subst (λ ts. any (λ s. is_pending s.status) ts ≡ false) (same_of_ok is)
            (cancel_states-pending at ss others))
  ]
  | inr ended ↦
      (let (rest, others, is) =
          bind-eq-ok (cancel_states at ss) _ (rw (ended, cancel_states) at h) in
        subst (λ ts. any (λ s. is_pending s.status) ts ≡ false) (same_of_ok is)
          (rw ended (cancel_states-pending at ss others)))
]

cancel_pending-AreCancelled :
    (ids : List ℕ) (at : ℕ) (xs : List Account) {ys : List Account}
    → cancel_pending ids at xs ≡ ok ys
    → AreCancelled ids xs ys
unfolding cancel_pending
cancel_pending-AreCancelled ids at [] h = subst (AreCancelled ids []) (same_of_ok h) tt
cancel_pending-AreCancelled ids at (a ∷ xs) h =
    let (others, rest, next) = bind-eq-ok (cancel_pending ids at xs) _ h in
    let tail = cancel_pending-AreCancelled ids at xs rest in
    elim (Bool-cases (member a.config.pk ids)) [
      | inl listed ↦
          (let (states, ended, is) = bind-eq-ok (cancel_states at a.states) _ (rw listed at next) in
            subst (AreCancelled ids (a ∷ xs)) (same_of_ok is) (
              record {
                same_positions = refl;
                same_equity = refl;
                same_reserved = refl;
                listed_closed = λ m. (refl, cancel_states-pending at a.states ended);
                others_same = λ m. absurd (let c : true ≡ false = sym listed ∙ m in cc);
              },
              tail,
            ))
      | inr other ↦ subst (AreCancelled ids (a ∷ xs)) (same_of_ok (rw other at next)) (
        record {
          same_positions = refl;
          same_equity = refl;
          same_reserved = refl;
          listed_closed = λ m. absurd (let c : false ≡ true = sym other ∙ m in cc);
          others_same = λ m. refl;
        },
        tail,
      )
    ]

-- A successful `request_drain` of a deployment that is not stopped keeps every position, bankroll
-- and reserved exposure, and leaves the retiring accounts and the deployed one with no entries and
-- nothing pending; the other accounts stay as they are.
pub request_drain_cancels :
    (mode : SuccessorMode) (at : ℕ) (d : Deployment) (xs : List Account)
    {w : Deployment × List Account}
    → request_drain mode at d xs ≡ ok w
    → is_stopped d.state ≡ false
    → AreCancelled (with_config d.config_id d.retiring_config_ids) xs w.1
unfolding request_drain
request_drain_cancels mode at d xs h going =
    let ids = with_config d.config_id d.retiring_config_ids in
    let (after, cut, is) =
      bind-eq-ok (cancel_pending ids at xs) _ (rw (going, request_drain) at h) in
    subst (λ w. AreCancelled ids xs w.1) (same_of_ok is) (cancel_pending-AreCancelled ids at xs cut)
