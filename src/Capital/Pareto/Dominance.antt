-- ===== src/Capital/Pareto/Dominance.antt =====
-- Dominance is asymmetric.
use mathlib.Core.Path.{subst}
use finsport.Prelude.{
  ◌≡◌, refl, sym, ◌∙◌, Bool, true, false, ◌&&◌, some, List, [], ◌∷◌, arith, bind-eq-some,
  same_of_some, Bool-cases, inl, inr,
}
use finsport.Decimal.{Decimal, lt_decimal, le_decimal}
use finsport.Capital.Pareto.{
  RunMetrics, dominates, dimension_values, weakly_better, strictly_better, is_better, is_as_good,
  or_given, drawdown_value, ruin_value,
}

-- The direction of each dimension.
abbrev directions : List (Bool × Decimal) → List Bool
directions [] = []
directions ((higher, x) ∷ rest) = higher ∷ directions rest

not_both :
    (higher : Bool) (l r : Decimal) → is_better higher l r ≡ true → is_as_good higher r l ≡ false
unfolding lt_decimal le_decimal
not_both higher l r h = ground arith

strict_not_weak :
    (ls rs : List (Bool × Decimal))
    → directions ls ≡ directions rs
    → strictly_better ls rs ≡ true
    → weakly_better rs ls ≡ false
unfolding weakly_better strictly_better
strict_not_weak [] rs e h = cc
strict_not_weak ((higher, l) ∷ ls) [] e h = cc
strict_not_weak ((higher, l) ∷ ls) ((other, r) ∷ rs) e h =
    let same : higher ≡ other = cc in
    let rest : directions ls ≡ directions rs = cc in
    elim (Bool-cases (is_better higher l r)) [
      | inl better ↦
          (let worse : is_as_good other r l ≡ false =
              subst (λ x. is_as_good x r l ≡ false) same (not_both higher l r better) in
            rw worse refl)
      | inr even ↦
          (let later = strict_not_weak ls rs rest (rw even at h) in rw later (ground arith))
    ]

dimension_values-directions :
    (m : RunMetrics) {vs : List (Bool × Decimal)}
    → dimension_values m ≡ some vs
    → directions vs ≡ true ∷ false ∷ true ∷ false ∷ false ∷ []
unfolding dimension_values
dimension_values-directions m h =
    let (a, ea, ha) = bind-eq-some (or_given m.return_value m.total_pnl) _ h in
    let (b, eb, hb) =
      bind-eq-some (or_given (drawdown_value m.maximum_drawdown) m.drawdown_mean) _ ha in
    let (c, ec, hc) = bind-eq-some m.expected_shortfall _ hb in
    let (d, ed, hd) =
      bind-eq-some (or_given m.ruin_probability (ruin_value m.practical_ruin)) _ hc in
    let (f, ef, hf) = bind-eq-some m.stake_concentration _ hd in
    subst (λ vs. directions vs ≡ true ∷ false ∷ true ∷ false ∷ false ∷ []) (same_of_some hf) refl

-- No two runs dominate each other: when a run dominates another, the other does not dominate it.
pub dominates_asymmetric :
    (x y : RunMetrics) → dominates x y ≡ some true → dominates y x ≡ some false
unfolding dominates
dominates_asymmetric x y h =
    let (ls, el, hl) = bind-eq-some (dimension_values x) _ h in
    let (rs, er, hr) = bind-eq-some (dimension_values y) _ hl in
    let both : (weakly_better ls rs && strictly_better ls rs) ≡ true = same_of_some hr in
    let strict : strictly_better ls rs ≡ true = ground (arith, both) in
    let aligned = dimension_values-directions x el ∙ sym (dimension_values-directions y er) in
    let weak = strict_not_weak ls rs aligned strict in rw (er, el, dominates) (rw weak refl)
