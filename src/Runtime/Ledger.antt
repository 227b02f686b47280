-- ===== src/Runtime/Ledger.antt =====
-- What a bankroll of football/capital/runtime.py promises as a ledger of escrowed stakes, with no
-- policy, deployment, clock or row in it, and that the placements and settlements keep to it.
use mathlib.Core.Path.{subst}
use mathlib.Core.List.{Perm}
use mathlib.Core.List.Perm
use finsport.Prelude.{
  ℕ, ◌<◌, ◌≡◌, refl, sym, ap, ◌∙◌, true, false, Option, some, List, [], ◌∷◌, ◌++◌, ◌==◌, arith,
  Bool-cases, inl, inr, length, map, same_of_some, if_true, if_false,
}
use finsport.Decimal.{Decimal, add, sub}
use finsport.Decimal.Order.{◌≼◌, ◌≺◌, not_le_decimal→≺, not_lt_decimal→≼}
use finsport.Capital.Policies.{zero_decimal}
use finsport.Runtime.State.{
  Account, Candidate, Position, PositionStatus, is_open, open_positions, open_count,
}
use finsport.Runtime.Place.{Validation, Placement, done}
use finsport.Runtime.Place.Entry.{place_candidate, call_for}
use finsport.Runtime.Place.Steps.{new_position}
use finsport.Runtime.Place.Admission.{place-Resumed}
use finsport.Runtime.Settle.Funds.{close_config-funds}
use finsport.Runtime.Settle.{
  Observation, settle_position, settled, find_position, save_position, closed_position,
}
use finsport.Runtime.Settle.Once.{settle_position-IsSettled, find_position-match, settlement-closed}
use finsport.Strategy.Deployment.{Deployment}
use finsport.Runtime.Reach.{Step, place_step, settle_step}

-- The stakes in escrow, each with the match it rides on.
abbrev pub Hold : Type 0
Hold = ℕ × Decimal

abbrev pub hold_of : Position → Hold
hold_of p = (p.match_id, p.applied_stake)

abbrev pub held : List Position → List Hold
held ps = map hold_of (open_positions ps)

pub record Escrow : Type 0 where
  pub lanes : ℕ
  pub equity : Decimal
  pub reserved : Decimal
  pub holds : List Hold

abbrev pub escrow : Account → Escrow
escrow a = record {
  lanes = a.config.max_lanes;
  equity = a.config.bankroll_equity;
  reserved = a.config.reserved_exposure;
  holds = held a.positions;
}

module _ (column : Decimal → Decimal) where
  -- The three moves of the ledger. The holds are a bag: their order does not count.
  pub data Move (e f : Escrow) : Type 0 where
    stay :
        f.lanes ≡ e.lanes
        → f.equity ≡ e.equity
        → f.reserved ≡ e.reserved
        → Perm e.holds f.holds
        → Move e f
    take :
        (m : ℕ) (stake : Decimal)
        → length e.holds < e.lanes
        → zero_decimal ≺ column stake
        → add e.reserved stake ≼ e.equity
        → f.lanes ≡ e.lanes
        → f.equity ≡ e.equity
        → f.reserved ≡ column (add e.reserved stake)
        → Perm f.holds ((m, column stake) ∷ e.holds)
        → Move e f
    release :
        (m : ℕ) (stake profit : Decimal)
        → stake ≼ e.reserved
        → f.lanes ≡ e.lanes
        → f.equity ≡ column (add e.equity profit)
        → f.reserved ≡ column (sub e.reserved stake)
        → Perm e.holds ((m, stake) ∷ f.holds)
        → Move e f

held-append :
    (ps : List Position) (p : Position)
    → is_open p.status ≡ true
    → Perm (held (ps ++ p ∷ [])) (hold_of p ∷ held ps)
held-append [] p o = rw o (Perm.rfl)
held-append (q ∷ ps) p o = elim (Bool-cases (is_open q.status)) [
  | inl e ↦ rw e (
      Perm.trans (Perm.cons (hold_of q) (held-append ps p o))
        (Perm.swap (hold_of p) (hold_of q) (held ps)))
  | inr e ↦ rw e (held-append ps p o)
]

held-save_position :
    (q : Position) (ps : List Position) {p : Position}
    → find_position q.match_id ps ≡ some p
    → is_open p.status ≡ true
    → is_open q.status ≡ false
    → Perm (held ps) (hold_of p ∷ held (save_position q ps))
unfolding find_position save_position
held-save_position q [] h o c = cc
held-save_position q (r ∷ ps) {p} h o c = elim (Bool-cases (r.match_id == q.match_id)) [
  | inl e ↦
      (let x : r ≡ p = same_of_some (if_true _ e h) in
        let y : is_open r.status ≡ true = ap (λ p. is_open p.status) x ∙ o in
        subst (λ p. Perm (held (r ∷ ps)) (hold_of p ∷ held (save_position q (r ∷ ps)))) x
          (rw (e, y, c) Perm.rfl))
  | inr e ↦
      (let ih = held-save_position q ps (if_false _ e h) o c in
        elim (Bool-cases (is_open r.status)) [
          | inl y ↦
              rw (e, y)
                (Perm.trans (Perm.cons (hold_of r) ih)
                  (Perm.swap (hold_of p) (hold_of r) (held (save_position q ps))))
          | inr y ↦ rw (e, y) ih
        ])
]

length-held : (ps : List Position) → length (held ps) ≡ open_count ps
length-held [] = refl
length-held (p ∷ ps) = ground (arith, length-held ps)

module _ (column ratio : Decimal → Decimal) where
  place-Move :
      (a : Account) (k : Candidate) (kickoff : ℕ) (d : Deployment) (validated : Validation)
      (now later : ℕ) (at : Option ℕ) {b : Account} {o : Placement}
      → place_candidate column a k kickoff d validated now later at ≡ done b o
      → Move column (escrow a) (escrow b)
  place-Move a k kickoff d validated now later at {b} h =
      elim (place-Resumed column a k kickoff d validated now later at h) [
        | inl u ↦
            stay u.same_lanes u.same_equity u.same_reserved
              (subst (λ ps. Perm (held a.positions) (held ps)) (sym u.same_positions) Perm.rfl)
        | inr (s, used, r, t, found, e, o, x, entry, fine) ↦
            (let q = new_position column (call_for column a s used kickoff now later at) t r in
              subst (λ b. Move column (escrow a) (escrow b)) (sym x.funded.result)
                (take q.match_id r.applied
                  (let n = length-held a.positions in let free = x.lane_free in ground (arith, n))
                  (not_le_decimal→≺ (column r.applied) zero_decimal x.funded.positive_row)
                  (not_lt_decimal→≼ a.config.bankroll_equity
                    (add a.config.reserved_exposure r.applied) x.funded.covered)
                  refl refl refl (held-append a.positions q refl)))
      ]

  settle-Move :
      (a : Account) (m : ℕ) (obs : Observation) (at : ℕ) {b : Account} {t : PositionStatus}
      → settle_position column ratio a m obs at ≡ settled b t
      → Move column (escrow a) (escrow b)
  settle-Move a m obs at {b} h =
      let s = settle_position-IsSettled column ratio a m obs at h in
      let p = s.position in
      let q = closed_position column ratio p s.outcome at in
      let shut = settlement-closed a p obs s.computed in
      let here : find_position q.match_id a.positions ≡ some p =
        rw (find_position-match m a.positions s.found) s.found in
      let (equity, reserved, lanes) = close_config-funds column ratio a.config p s.outcome at in
      release p.match_id p.applied_stake s.outcome.pnl
        (not_lt_decimal→≼ a.config.reserved_exposure p.applied_stake s.funded)
        (ap (λ c. c.max_lanes) s.new_config ∙ lanes)
        (ap (λ c. c.bankroll_equity) s.new_config ∙ equity)
        (ap (λ c. c.reserved_exposure) s.new_config ∙ reserved)
        (subst (λ ps. Perm (held a.positions) (hold_of p ∷ held ps)) (sym s.new_positions)
          (held-save_position q a.positions here s.was_open shut))

  -- Every placement and every settlement that commits is one move of the escrow ledger: it changes
  -- nothing, or takes one stake that is positive in its column, into a free lane, with the reserved
  -- sum within the equity, or releases one held stake and books its profit.
  pub Step-refines : {a b : Account} → Step column ratio a b → Move column (escrow a) (escrow b)
  Step-refines (place_step k kickoff d v now later at o h) =
      place-Move _ k kickoff d v now later at h
  Step-refines (settle_step m obs at t h) = settle-Move _ m obs at h
