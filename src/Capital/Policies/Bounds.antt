-- ===== src/Capital/Policies/Bounds.antt =====
-- The stakes of the policies: a valid decision always gets a request, and the caps hold.
use mathlib.Core.Path.{subst}
use finsport.Prelude.{
  ℕ, ◌+◌, ◌<◌, ◌≡◌, ◌≢◌, ◌↔◌, refl, true, Option, none, some, arith, Bool-cases, bind-eq-some,
  Option-cases, ◌>>=◌, same_of_some, ap, ◌∙◌, inl, inr,
}
use finsport.Decimal.{
  Decimal, whole, add, sub, mul, ceiling, div, quotient, magnitude, le_decimal, min_decimal,
}
use finsport.Decimal.Order.{
  ◌≼◌, ◌≺◌, ≼_refl, ≼_trans, min_le_left, min_le_right, lt_decimal→≺, ≺→lt_decimal,
}
use finsport.Decimal.Sign.{sub_pos, magnitude_pos}
use finsport.Capital.Contracts.{
  CapitalDecision, StakeRequest, PolicyState, running, steps_exhausted,
}
use finsport.Capital.Policies.{
  Policy, Caps, flat_unit, fixed_fraction, fixed_target, legacy_recovery, legacy_capped,
  legacy_partial, fractional_kelly, request, requires_probability, capped_stake, fraction_cap,
  absolute_cap, zero_decimal, plain_request, step_request, capped_request, capped_outcome,
  request_recovery, request_kelly, kelly_stake, no_edge_request, capped_wish, steps_exceeded,
}

div_total : (a b : Decimal) → 0 < magnitude b.coefficient → (q : Decimal) × (div a b ≡ some q)
unfolding div
div_total a b h = (quotient a b, ground arith)

-- Dividing by `price - 1` succeeds when the price is above one.
pub div-net_odds_total :
    (a price : Decimal) → whole 1 ≺ price → (q : Decimal) × (div a (sub price (whole 1)) ≡ some q)
div-net_odds_total a price h =
    div_total a (sub price (whole 1))
      (magnitude_pos (sub price (whole 1)) (sub_pos price (whole 1) h))

fraction_cap-le : (f : Option Decimal) (bankroll cap : Decimal) → fraction_cap f bankroll cap ≼ cap
unfolding fraction_cap
fraction_cap-le none bankroll cap = ≼_refl cap
fraction_cap-le (some f) bankroll cap = min_le_left cap (mul f bankroll)

absolute_cap-le : (m : Option Decimal) (cap : Decimal) → absolute_cap m cap ≼ cap
unfolding absolute_cap
absolute_cap-le none cap = ≼_refl cap
absolute_cap-le (some m) cap = min_le_left cap m

capped_stake-le :
    (caps : Caps) (bankroll requested : Decimal) → capped_stake caps bankroll requested ≼ requested
unfolding capped_stake
capped_stake-le caps bankroll requested =
    let cut = fraction_cap caps.max_stake_fraction bankroll requested in
    ≼_trans (absolute_cap caps.max_absolute_stake cut) cut requested
      (absolute_cap-le caps.max_absolute_stake cut)
      (fraction_cap-le caps.max_stake_fraction bankroll requested)

capped_stake-le_fraction :
    (caps : Caps) (bankroll requested f : Decimal)
    → caps.max_stake_fraction ≡ some f
    → capped_stake caps bankroll requested ≼ mul f bankroll
unfolding capped_stake fraction_cap
capped_stake-le_fraction caps bankroll requested f e = rw e (
    ≼_trans (absolute_cap caps.max_absolute_stake (min_decimal requested (mul f bankroll)))
      (min_decimal requested (mul f bankroll)) (mul f bankroll)
      (absolute_cap-le caps.max_absolute_stake (min_decimal requested (mul f bankroll)))
      (min_le_right requested (mul f bankroll)))

capped_stake-le_absolute :
    (caps : Caps) (bankroll requested m : Decimal)
    → caps.max_absolute_stake ≡ some m
    → capped_stake caps bankroll requested ≼ m
unfolding capped_stake absolute_cap
capped_stake-le_absolute caps bankroll requested m e =
    rw e (min_le_right (fraction_cap caps.max_stake_fraction bankroll requested) m)

-- What a capped request within its steps satisfies.
pub record IsCapped (caps : Caps) (bankroll : Decimal) (r : StakeRequest) : Type 0 where
  pub below_wish : r.applied ≼ r.requested
  pub below_fraction : (f : Decimal) → caps.max_stake_fraction ≡ some f → r.applied ≼ mul f bankroll
  pub below_absolute : (m : Decimal) → caps.max_absolute_stake ≡ some m → r.applied ≼ m
  pub hit_iff : (r.cap_hit ≡ true) ↔ (r.applied ≺ r.requested)
  pub missing : r.shortfall ≡ sub r.requested r.applied

capped_request-IsCapped :
    (caps : Caps) (bankroll requested target : Decimal) (n : ℕ)
    → IsCapped caps bankroll
        (capped_request requested (capped_stake caps bankroll requested) n target)
capped_request-IsCapped caps bankroll requested target n =
    let stake = capped_stake caps bankroll requested in
    record {
      below_wish = capped_stake-le caps bankroll requested;
      below_fraction = capped_stake-le_fraction caps bankroll requested;
      below_absolute = capped_stake-le_absolute caps bankroll requested;
      hit_iff = (lt_decimal→≺ stake requested, ≺→lt_decimal stake requested);
      missing = refl;
    }

capped_outcome-IsCapped :
    (caps : Caps) (bankroll : Decimal) (s : PolicyState) (w : Decimal × Decimal)
    → (capped_outcome caps bankroll s w).termination_reason ≡ running
    → IsCapped caps bankroll (capped_outcome caps bankroll s w)
unfolding capped_outcome
capped_outcome-IsCapped caps bankroll s (requested, target) h =
    elim (Bool-cases (steps_exceeded caps.max_steps (s.step + 1))) [
      | inl over ↦ absurd (let e : steps_exhausted ≡ running = rw over at h in cc)
      | inr within ↦ rw within (capped_request-IsCapped caps bankroll requested target (s.step + 1))
    ]

-- A capped request that does not end the run stays under both caps and under what the recovery
-- asks for, says truly whether a cap was hit, and records the shortfall.
pub request-IsCapped :
    (stake : Decimal) (caps : Caps) (d : CapitalDecision) (bankroll : Decimal) (s : PolicyState)
    {r : StakeRequest}
    → request (legacy_capped stake caps) d bankroll s ≡ some r
    → r.termination_reason ≡ running
    → IsCapped caps bankroll r
unfolding request
request-IsCapped stake caps d bankroll s h e =
    let (w, found, is) =
      bind-eq-some (capped_wish stake d s) (λ w. some (capped_outcome caps bankroll s w)) h in
    let same = same_of_some is in
    subst (IsCapped caps bankroll) same
      (capped_outcome-IsCapped caps bankroll s w (ap (λ r. r.termination_reason) same ∙ e))

request_recovery_total :
    (i : Decimal) (d : CapitalDecision) (s : PolicyState) (price : Decimal)
    → d.price ≡ some price
    → whole 1 ≺ price
    → (r : StakeRequest) × (request_recovery i d s ≡ some r)
unfolding request_recovery
request_recovery_total i d s price e h = elim (Option-cases s.target) [
  | inl first ↦ (step_request i (s.step + 1) (mul i (sub price (whole 1))), rw (e, first))
  | inr (t, later) ↦
      (let (q, eq) = div-net_odds_total (add t s.accumulated_loss) price h in
        (step_request (ceiling q) (s.step + 1) t, rw (e, later, eq)))
]

capped_wish_total :
    (i : Decimal) (d : CapitalDecision) (s : PolicyState) (price : Decimal)
    → d.price ≡ some price
    → whole 1 ≺ price
    → (w : Decimal × Decimal) × (capped_wish i d s ≡ some w)
unfolding capped_wish
capped_wish_total i d s price e h = elim (Option-cases s.target) [
  | inl first ↦ ((i, mul i (sub price (whole 1))), rw (e, first))
  | inr (t, later) ↦
      (let (q, eq) = div-net_odds_total (add t s.accumulated_loss) price h in
        ((q, t), rw (e, later, eq)))
]

request_kelly_total :
    (fraction : Decimal) (d : CapitalDecision) (bankroll price probability : Decimal)
    → d.price ≡ some price
    → d.probability ≡ some probability
    → whole 1 ≺ price
    → (r : StakeRequest) × (request_kelly fraction d bankroll ≡ some r)
unfolding request_kelly kelly_stake
request_kelly_total fraction d bankroll price probability e f h =
    let edge = sub (mul probability price) (whole 1) in
    let (q, eq) = div-net_odds_total edge price h in
    elim (Bool-cases (le_decimal edge zero_decimal)) [
      | inl none_left ↦ (no_edge_request, rw (e, f, none_left))
      | inr edged ↦ (plain_request (mul (mul fraction q) bankroll), rw (e, f, edged, eq))
    ]

-- A decision at a price above one, with a probability if the policy needs one, gets a stake
-- request from every policy in every state: no arithmetic exception is raised.
pub request_total :
    (p : Policy) (d : CapitalDecision) (bankroll : Decimal) (s : PolicyState) {price : Decimal}
    → d.price ≡ some price
    → whole 1 ≺ price
    → (requires_probability p ≡ true → d.probability ≢ none)
    → (r : StakeRequest) × (request p d bankroll s ≡ some r)
unfolding request
request_total (flat_unit u) d bankroll s e h k = (plain_request u, refl)
request_total (fixed_fraction f) d bankroll s e h k = (plain_request (mul f bankroll), refl)
request_total (fixed_target t) d bankroll s {price} e h k =
    let (q, eq) = div-net_odds_total t price h in (plain_request q, rw (e, eq))
request_total (legacy_recovery i) d bankroll s {price} e h k =
    request_recovery_total i d s price e h
request_total (legacy_capped i caps) d bankroll s {price} e h k =
    let (w, eq) = capped_wish_total i d s price e h in
    (
      capped_outcome caps bankroll s w,
      ap (λ m. m >>= λ w. some (capped_outcome caps bankroll s w)) eq,
    )
request_total (legacy_partial t a) d bankroll s {price} e h k =
    let (q, eq) = div-net_odds_total (add t (mul a s.accumulated_loss)) price h in
    (step_request q (s.step + 1) t, rw (e, eq))
request_total (fractional_kelly f) d bankroll s {price} e h k = elim (Option-cases d.probability) [
  | inl missing ↦ absurd (k refl missing)
  | inr (q, found) ↦ request_kelly_total f d bankroll price q e found h
]
