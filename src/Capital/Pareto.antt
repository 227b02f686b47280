-- ===== src/Capital/Pareto.antt =====
-- `pareto_compare` of football/capital/metrics.py. A run is a name and its metrics; a metric that
-- is not there is `none`, and so is the result when the error of a missing dimension is raised.
pub mod Dominance
use finsport.Prelude.{
  ℕ, Bool, true, false, ◌&&◌, ◌||◌, Option, none, some, List, [], ◌∷◌, ◌==◌, if◌then◌else◌, ◌>>=◌,
}
use finsport.Decimal.{Decimal, whole, lt_decimal, le_decimal}

-- `metrics.get("maximum_drawdown")`: missing, a number, or a dictionary with its `mean`.
pub data DrawdownMetric : Type 0 where
  no_drawdown : DrawdownMetric
  number : Decimal → DrawdownMetric
  summary : Option Decimal → DrawdownMetric

pub record RunMetrics : Type 0 where
  pub return_value : Option Decimal
  pub total_pnl : Option Decimal
  pub maximum_drawdown : DrawdownMetric
  pub drawdown_mean : Option Decimal
  pub expected_shortfall : Option Decimal
  pub ruin_probability : Option Decimal
  pub practical_ruin : Option Bool
  pub stake_concentration : Option Decimal

abbrev pub or_given : Option Decimal → Option Decimal → Option Decimal
or_given none b = b
or_given (some a) b = some a

abbrev pub drawdown_value : DrawdownMetric → Option Decimal
drawdown_value no_drawdown = none
drawdown_value (number x) = some x
drawdown_value (summary mean) = mean

abbrev pub ruin_value : Option Bool → Option Decimal
ruin_value none = none
ruin_value (some true) = some (whole 1)
ruin_value (some false) = some (whole 0)

-- `PARETO_DIMENSIONS` in their order, each with whether higher is better.
unfoldable pub dimension_values : RunMetrics → Option (List (Bool × Decimal))
dimension_values m = do
  gain ← or_given m.return_value m.total_pnl
  drawdown ← or_given (drawdown_value m.maximum_drawdown) m.drawdown_mean
  shortfall ← m.expected_shortfall
  ruin ← or_given m.ruin_probability (ruin_value m.practical_ruin)
  concentration ← m.stake_concentration
  some (
      (true, gain)
      ∷ (false, drawdown)
      ∷ (true, shortfall)
      ∷ (false, ruin)
      ∷ (false, concentration)
      ∷ [])

abbrev pub is_as_good : Bool → Decimal → Decimal → Bool
is_as_good higher left right = if higher then le_decimal right left else le_decimal left right

abbrev pub is_better : Bool → Decimal → Decimal → Bool
is_better higher left right = if higher then lt_decimal right left else lt_decimal left right

-- `weakly_better` and `strictly_better` over the dimensions.
unfoldable pub weakly_better : List (Bool × Decimal) → List (Bool × Decimal) → Bool
weakly_better ((higher, l) ∷ ls) ((h, r) ∷ rs) = is_as_good higher l r && weakly_better ls rs
weakly_better _ _ = true

unfoldable pub strictly_better : List (Bool × Decimal) → List (Bool × Decimal) → Bool
strictly_better ((higher, l) ∷ ls) ((h, r) ∷ rs) = is_better higher l r || strictly_better ls rs
strictly_better _ _ = false

unfoldable pub dominates : RunMetrics → RunMetrics → Option Bool
unfolding dimension_values weakly_better strictly_better
dominates challenger candidate = do
  left ← dimension_values challenger
  right ← dimension_values candidate
  some (weakly_better left right && strictly_better left right)

-- `dominated_by[candidate]`
unfoldable pub dominators : ℕ × RunMetrics → List (ℕ × RunMetrics) → Option (List ℕ)
unfolding dominates
dominators (name, m) [] = some []
dominators (name, m) ((other, c) ∷ rest) =
    let others = dominators (name, m) rest in
    if name == other
    then others
    else (dominates c m >>= λ wins. others >>= λ ds. some (if wins then other ∷ ds else ds))

unfoldable pub dominated_by :
    List (ℕ × RunMetrics) → List (ℕ × RunMetrics) → Option (List (ℕ × List ℕ))
unfolding dominators
dominated_by runs [] = some []
dominated_by runs (c ∷ rest) = do
  ds ← dominators c runs
  others ← dominated_by runs rest
  some ((c.0, ds) ∷ others)

abbrev pub undominated : List (ℕ × List ℕ) → List ℕ
undominated [] = []
undominated ((name, []) ∷ rest) = name ∷ undominated rest
undominated ((name, d ∷ ds) ∷ rest) = undominated rest

-- `non_dominated_runs`
unfoldable pub non_dominated_runs : List (ℕ × RunMetrics) → Option (List ℕ)
unfolding dominated_by
non_dominated_runs runs = do table ← dominated_by runs runs; some (undominated table)
