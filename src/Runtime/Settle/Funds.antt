-- ===== src/Runtime/Settle/Funds.antt =====
-- What a settlement does to the bankroll.
use mathlib.Core.Path.{subst}
use finsport.Prelude.{
  ℕ, ◌≡◌, refl, ap, ◌∙◌, true, false, not, ◌&&◌, some, Bool-cases, inl, inr, same_of_some,
  bind-eq-some,
}
use finsport.Decimal.{Decimal, whole, add, sub, neg, mul, le_decimal}
use finsport.Decimal.Order.{◌≼◌, not_lt_decimal→≼}
use finsport.Capital.Policies.{zero_decimal}
use finsport.Runtime.State.{
  RuntimeConfig, Account, Position, PositionStatus, void, settled_win, settled_loss, is_open,
}
use finsport.Runtime.Settle.{
  Observation, Settlement, settlement, settled_pnl, find_position, is_void, won, close_config,
  settle_position, settled,
}
use finsport.Runtime.Settle.Once.{settle_position-IsSettled}

-- The three ways to settle, with the profit of each.
pub data IsResult (p : Position) (obs : Observation) : PositionStatus → Decimal → Type 0 where
  voided : is_void obs.status_short ≡ true → IsResult p obs void zero_decimal
  won_at :
      (price : Decimal)
      → is_void obs.status_short ≡ false
      → won p obs ≡ true
      → p.basis.selected_price ≡ some price
      → IsResult p obs settled_win (mul p.applied_stake (sub price (whole 1)))
  lost :
      is_void obs.status_short ≡ false
      → won p obs ≡ false
      → IsResult p obs settled_loss (neg p.applied_stake)

settlement-IsResult :
    (c : RuntimeConfig) (p : Position) (obs : Observation) {s : Settlement}
    → settlement c p obs ≡ some s
    → IsResult p obs s.status s.pnl
unfolding settlement settled_pnl
settlement-IsResult c p obs h = elim (Bool-cases (is_void obs.status_short)) [
  | inl v ↦
      subst (λ s. IsResult p obs s.status s.pnl) (same_of_some (rw (v, settlement) at h)) (voided v)
  | inr v ↦ elim (Bool-cases (won p obs)) [
    | inl w ↦
        (let (pnl, made, is) = bind-eq-some (settled_pnl p true) _ (rw (v, w, settlement) at h) in
          let (price, priced, made') = bind-eq-some p.basis.selected_price _ made in
          subst (λ s. IsResult p obs s.status s.pnl) (same_of_some is)
            (subst (λ x. IsResult p obs settled_win x) (same_of_some made')
              (won_at price v w priced)))
    | inr w ↦
        subst (λ s. IsResult p obs s.status s.pnl) (same_of_some (rw (v, w, settlement) at h))
          (lost v w)
  ]
]

module _ (column ratio : Decimal → Decimal) where
  pub close_config-funds :
      (c : RuntimeConfig) (p : Position) (s : Settlement) (at : ℕ)
      → ((close_config column ratio c p s at).bankroll_equity
          ≡ column (add c.bankroll_equity s.pnl))
        × ((close_config column ratio c p s at).reserved_exposure
            ≡ column (sub c.reserved_exposure p.applied_stake))
        × ((close_config column ratio c p s at).max_lanes ≡ c.max_lanes)
  unfolding close_config
  close_config-funds c p s at =
      elim (Bool-cases (le_decimal (add c.bankroll_equity s.pnl) zero_decimal && not c.strategic)) [
        | inl e ↦ rw (e, close_config) (refl, refl, refl)
        | inr e ↦ rw (e, close_config) (refl, refl, refl)
      ]

  pub settle_position-max_lanes :
      (a : Account) (m : ℕ) (obs : Observation) (at : ℕ) {b : Account} {t : PositionStatus}
      → settle_position column ratio a m obs at ≡ settled b t
      → b.config.max_lanes ≡ a.config.max_lanes
  settle_position-max_lanes a m obs at h =
      let s = settle_position-IsSettled column ratio a m obs at h in
      ap (λ c. c.max_lanes) s.new_config ∙ (close_config-funds a.config s.position s.outcome at).2

  -- A settlement that goes through found an open position on the observed match whose stake the
  -- reserved exposure covered. It releases that stake, and adds to the equity the profit of the
  -- way it settled: nothing when void, stake times price less one on a win, minus the stake on a
  -- loss.
  pub settle_funds :
      (a : Account) (m : ℕ) (obs : Observation) (at : ℕ) {b : Account} {t : PositionStatus}
      → settle_position column ratio a m obs at ≡ settled b t
      → (p : Position) × (pnl : Decimal) × (find_position m a.positions ≡ some p)
        × (is_open p.status ≡ true)
        × (obs.match_id ≡ p.match_id)
        × IsResult p obs t pnl
        × (p.applied_stake ≼ a.config.reserved_exposure)
        × (b.config.bankroll_equity ≡ column (add a.config.bankroll_equity pnl))
        × (b.config.reserved_exposure ≡ column (sub a.config.reserved_exposure p.applied_stake))
  settle_funds a m obs at h =
      let s = settle_position-IsSettled column ratio a m obs at h in
      let p = s.position in
      let result = settlement-IsResult a.config p obs s.computed in
      let (equity, reserved, lanes) = close_config-funds a.config p s.outcome at in
      (
        p,
        s.outcome.pnl,
        s.found,
        s.was_open,
        s.same_match,
        subst (λ t. IsResult p obs t s.outcome.pnl) s.coded result,
        not_lt_decimal→≼ a.config.reserved_exposure p.applied_stake s.funded,
        ap (λ c. c.bankroll_equity) s.new_config ∙ equity,
        ap (λ c. c.reserved_exposure) s.new_config ∙ reserved,
      )
