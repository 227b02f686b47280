-- ===== src/Capital/Policies/Recovery.antt =====
-- A recovery sequence, from its first loss to the win that ends it.
use mathlib.Core.Path.{subst}
use finsport.Prelude.{
  ℕ, suc, ◌+◌, ◌≡◌, refl, sym, ap, ◌∙◌, true, false, Option, some, List, [], ◌∷◌, arith, length,
  bind-eq-some, same_of_some, ◌>>=◌,
}
use finsport.Decimal.{Decimal, add, mul, div, sum_from}
use finsport.Capital.Contracts.{CapitalDecision, StakeRequest, PolicyState}
use finsport.Capital.Policies.{
  Policy, Caps, flat_unit, fixed_fraction, fixed_target, legacy_recovery, legacy_capped,
  legacy_partial, fractional_kelly, request, settle, is_recovery, initial_state, net_odds,
  request_recovery, capped_wish, capped_outcome, request_partial,
}

-- The bets of a sequence, each at its bankroll, all lost; the final state and the stakes applied.
unfoldable pub losing_run :
    Policy → PolicyState → List (CapitalDecision × Decimal) → Option (PolicyState × List Decimal)
losing_run p s [] = some (s, [])
losing_run p s ((d, bankroll) ∷ rest) = do
  r ← request p d bankroll s
  (end, stakes) ← losing_run p (settle p s r false).0 rest
  some (end, r.applied ∷ stakes)

step_of_recovery :
    (i : Decimal) (d : CapitalDecision) (s : PolicyState) {r : StakeRequest}
    → request_recovery i d s ≡ some r
    → r.step ≡ some (s.step + 1)
unfolding request_recovery
step_of_recovery i d s h =
    let (odds, found, next) = bind-eq-some (net_odds d) _ h in ground (arith, next)

step_of_capped :
    (caps : Caps) (bankroll : Decimal) (s : PolicyState) (w : Decimal × Decimal)
    → (capped_outcome caps bankroll s w).step ≡ some (s.step + 1)
unfolding capped_outcome
step_of_capped caps bankroll s w = ground arith

step_of_partial :
    (t a : Decimal) (d : CapitalDecision) (s : PolicyState) {r : StakeRequest}
    → request_partial t a d s ≡ some r
    → r.step ≡ some (s.step + 1)
unfolding request_partial
step_of_partial t a d s h =
    let (odds, found, next) = bind-eq-some (net_odds d) _ h in
    let (q, quotient, is) = bind-eq-some (div (add t (mul a s.accumulated_loss)) odds) _ next in
    ap (λ r. r.step) (sym (same_of_some is))

-- Every request of a recovery policy counts one step more than the state.
pub step-request :
    (p : Policy) (d : CapitalDecision) (bankroll : Decimal) (s : PolicyState) {r : StakeRequest}
    → is_recovery p ≡ true
    → request p d bankroll s ≡ some r
    → r.step ≡ some (s.step + 1)
unfolding request
step-request (legacy_recovery i) d bankroll s h e = step_of_recovery i d s e
step-request (legacy_capped i caps) d bankroll s h e =
    let (w, found, is) =
      bind-eq-some (capped_wish i d s) (λ w. some (capped_outcome caps bankroll s w)) e in
    ap (λ r. r.step) (sym (same_of_some is)) ∙ step_of_capped caps bankroll s w
step-request (legacy_partial t a) d bankroll s h e = step_of_partial t a d s e
step-request (flat_unit u) d bankroll s h e = cc
step-request (fixed_fraction f) d bankroll s h e = cc
step-request (fixed_target t) d bankroll s h e = cc
step-request (fractional_kelly f) d bankroll s h e = cc

-- What a lost bet of a recovery policy leaves.
settle_lost :
    (p : Policy) (d : CapitalDecision) (bankroll : Decimal) (s : PolicyState) (r : StakeRequest)
    → is_recovery p ≡ true
    → request p d bankroll s ≡ some r
    → let t = (settle p s r false).0 in
      (t.step ≡ s.step + 1)
      × (t.accumulated_loss ≡ add s.accumulated_loss r.applied)
      × ((g : Decimal) → s.target ≡ some g → t.target ≡ some g)
unfolding settle
settle_lost p d bankroll s r h e =
    rw h (rw (step-request p d bankroll s h e) refl, refl, λ g kept. rw kept)

-- `w` is the state and the stakes that `n` lost bets leave.
abbrev pub LossesSum : PolicyState → ℕ → PolicyState × List Decimal → Type 0
LossesSum s n w =
    (w.0.step ≡ s.step + n)
    × (w.0.accumulated_loss ≡ sum_from s.accumulated_loss w.1)
    × ((g : Decimal) → s.target ≡ some g → w.0.target ≡ some g)

-- In a recovery sequence of lost bets, from any state: the step counts the bets, the accumulated
-- loss is the sum of the stakes applied, added one by one, and a target once set stays.
pub losing_run_sums :
    (p : Policy) (s : PolicyState) (bets : List (CapitalDecision × Decimal))
    {w : PolicyState × List Decimal}
    → is_recovery p ≡ true
    → losing_run p s bets ≡ some w
    → LossesSum s (length bets) w
unfolding losing_run sum_from
losing_run_sums p s [] h e =
    subst (LossesSum s 0) (same_of_some e) (omega arith, refl, λ g kept. kept)
losing_run_sums p s ((d, bankroll) ∷ rest) h e =
    let (r, asked, next) = bind-eq-some (request p d bankroll s) _ e in
    let (w, ran, is) = bind-eq-some (losing_run p (settle p s r false).0 rest) _ next in
    let (one, loss, kept) = settle_lost p d bankroll s r h asked in
    let (steps, sum, kept') = losing_run_sums p (settle p s r false).0 rest h ran in
    subst (LossesSum s (suc (length rest))) (same_of_some is) (
      omega (arith, one, steps),
      sum ∙ ap (λ a. sum_from a w.1) loss,
      λ g set. kept' g (kept g set),
    )

-- A win after any number of lost bets ends the sequence: the state is the initial one again, and
-- the length reported counts the lost bets and the win.
pub recovery_win :
    (p : Policy) (bets : List (CapitalDecision × Decimal)) (d : CapitalDecision)
    (bankroll : Decimal) {w : PolicyState × List Decimal} {r : StakeRequest}
    → is_recovery p ≡ true
    → losing_run p initial_state bets ≡ some w
    → request p d bankroll w.0 ≡ some r
    → settle p w.0 r true ≡ (initial_state, some (length bets + 1))
unfolding settle
recovery_win p bets d bankroll {w} {r} h lost asked =
    let steps : w.0.step ≡ length bets =
      omega (arith, (losing_run_sums p initial_state bets h lost).0) in
    let counted : r.step ≡ some (length bets + 1) =
      step-request p d bankroll w.0 h asked ∙ ap (λ n. some (n + 1)) steps in
    rw (h, counted)
