-- ===== src/Capital/Metrics/Drawdown.antt =====
-- The drawdown of a run, against the dips below the running peak.
use mathlib.Core.Path.{subst}
use finsport.Prelude.{
  ℕ, ◌≡◌, refl, true, false, List, [], ◌∷◌, All, Bool-cases, inl, inr, if◌then◌else◌, none,
}
use finsport.Decimal.{Decimal, sub, le_decimal}
use finsport.Decimal.Order.{◌≼◌, ≼_refl, ≼_trans, left_le_max, right_le_max}
use finsport.Capital.Contracts.{CapitalDecision, ReplayLedgerRow}
use finsport.Capital.Metrics.{
  Curve, curve, curve_step, flat_curve, deterministic_metrics, bankrolls_after,
}

-- The higher of the peak and the bankroll, and the dips below the peak.
abbrev pub dips : Decimal → List Decimal → List Decimal
dips peak [] = []
dips peak (b ∷ bs) =
    let above = dips b bs in
    let below = sub peak b ∷ dips peak bs in if le_decimal peak b then above else below

amount_grows : (c : Curve) (bs : List Decimal) → c.amount ≼ (curve c bs).amount
unfolding curve curve_step
amount_grows c [] = ≼_refl c.amount
amount_grows c (b ∷ bs) = elim (Bool-cases (le_decimal c.peak b)) [
  | inl up ↦
      ≼_trans c.amount (curve_step c b).amount (curve (curve_step c b) bs).amount
        (rw (up, curve_step) (≼_refl c.amount)) (amount_grows (curve_step c b) bs)
  | inr down ↦
      ≼_trans c.amount (curve_step c b).amount (curve (curve_step c b) bs).amount
        (rw (down, curve_step) (left_le_max c.amount (sub c.peak b)))
        (amount_grows (curve_step c b) bs)
]

peak_up : (c : Curve) (b : Decimal) → le_decimal c.peak b ≡ true → (curve_step c b).peak ≡ b
unfolding curve_step
peak_up c b up = rw (up, curve_step) refl

peak_down : (c : Curve) (b : Decimal) → le_decimal c.peak b ≡ false → (curve_step c b).peak ≡ c.peak
unfolding curve_step
peak_down c b down = rw (down, curve_step) refl

dip_counted :
    (c : Curve) (b : Decimal) → le_decimal c.peak b ≡ false → sub c.peak b ≼ (curve_step c b).amount
unfolding curve_step
dip_counted c b down = rw (down, curve_step) (right_le_max c.amount (sub c.peak b))

curve-dips :
    (top : Decimal) (c : Curve) (bs : List Decimal)
    → (curve c bs).amount ≼ top
    → All (λ x. x ≼ top) (dips c.peak bs)
unfolding curve
curve-dips top c [] h = tt
curve-dips top c (b ∷ bs) h =
    let next = curve_step c b in
    let later = curve-dips top next bs h in
    elim (Bool-cases (le_decimal c.peak b)) [
      | inl up ↦ rw up (subst (λ peak. All (λ x. x ≼ top) (dips peak bs)) (peak_up c b up) later)
      | inr down ↦ rw down (
        ≼_trans (sub c.peak b) next.amount top (dip_counted c b down)
            (≼_trans next.amount (curve next bs).amount top (amount_grows next bs) h),
        subst (λ peak. All (λ x. x ≼ top) (dips peak bs)) (peak_down c b down) later,
      )
    ]

-- The maximum drawdown of a run covers every dip of the bankroll below the highest one before it,
-- the initial bankroll included.
pub deterministic_metrics-dips :
    (ds : List CapitalDecision) (ledger : List ReplayLedgerRow) (initial : Decimal)
    (lengths : List ℕ) (incomplete : ℕ)
    → All
        (λ x.
          x ≼ (deterministic_metrics ds ledger initial lengths incomplete).maximum_drawdown_amount)
        (dips initial (bankrolls_after none ledger))
unfolding deterministic_metrics
deterministic_metrics-dips ds ledger initial lengths incomplete =
    let drawn = curve (flat_curve initial) (bankrolls_after none ledger) in
    curve-dips drawn.amount (flat_curve initial) (bankrolls_after none ledger) (≼_refl drawn.amount)
