-- ===== src/Prediction/Policies.antt =====
-- `ProbabilityResult` of football/prediction/contracts.py and the policies of
-- football/prediction/policies.py. Floating point numbers are a type with the operations that the
-- code uses; none of them is NaN, since a probability is checked to be finite. The config of a
-- result, which repeats the arguments, is left out.
use finsport.Prelude.{ℕ, ◌≡◌, Bool, true, false, not, ◌&&◌, Option, none, some, if◌then◌else◌, ◌⊎◌}
use finsport.Decimal.{Decimal}
use finsport.Capital.Contracts.{Outcome, home, draw, away, Action, no_bet, back}

-- What the code does with floats: compare them, and compute `p * float(price) - 1`.
pub record Floats (F : Type 0) : Type 0 where
  pub le : F → F → Bool
  pub expected : F → Decimal → F

-- The comparison of floats other than NaN.
pub record IsOrdered {F : Type 0} (fl : Floats F) : Type 0 where
  pub total : (a b : F) → (fl.le a b ≡ true) ⊎ (fl.le b a ≡ true)
  pub trans : (a b c : F) → fl.le a b ≡ true → fl.le b c ≡ true → fl.le a c ≡ true

pub data DecisionReason : Type 0 where
  modal_outcome below_confidence_threshold confidence_threshold_met : DecisionReason
  no_valid_market no_positive_value_above_threshold value_above_threshold : DecisionReason

pub record ProbabilityResult (F : Type 0) : Type 0 where
  pub p_home : F
  pub p_draw : F
  pub p_away : F

pub record PolicyResult (F : Type 0) : Type 0 where
  pub action : Action
  pub reason : DecisionReason
  pub model_probability : Option F
  pub selected_observation : Option ℕ
  pub selected_price : Option Decimal
  pub expected_value : Option F

-- `best_prices`: an observation with its price for each outcome that has one.
abbrev pub BestPrices : Type 0
BestPrices = Outcome → Option (ℕ × Decimal)

abbrev pub has_price : BestPrices → Outcome → Bool
has_price prices o = elim (prices o) [ none ↦ false | some x ↦ true ]

module _ {F : Type 0} (fl : Floats F) where
  abbrev pub lt_float : F → F → Bool
  lt_float a b = not (fl.le b a)

  abbrev pub eq_float : F → F → Bool
  eq_float a b = fl.le a b && fl.le b a

  -- `max` of two keeps the first unless the second is greater.
  abbrev pub max_float : F → F → F
  max_float a b = if lt_float a b then b else a

  abbrev pub probability_for : ProbabilityResult F → Outcome → F
  probability_for p home = p.p_home
  probability_for p draw = p.p_draw
  probability_for p away = p.p_away

  -- `OUTCOMES[values.index(max(values))]`
  unfoldable pub predicted_outcome : ProbabilityResult F → Outcome
  predicted_outcome p =
      let top = max_float (max_float p.p_home p.p_draw) p.p_away in
      if eq_float p.p_home top then home else if eq_float p.p_draw top then draw else away

  -- `_market_fields` on a result.
  abbrev pub with_market : PolicyResult F → F → BestPrices → Outcome → PolicyResult F
  with_market r p prices o = elim (prices o) [
    | none ↦ r
    | some (observation, price) ↦ record r {
      selected_observation = some observation;
      selected_price = some price;
      expected_value = some (fl.expected p price);
    }
  ]

  abbrev pub plain_result : Action → DecisionReason → Option F → PolicyResult F
  plain_result action reason probability = record {
    action = action;
    reason = reason;
    model_probability = probability;
    selected_observation = none;
    selected_price = none;
    expected_value = none;
  }

  unfoldable pub modal_all : ProbabilityResult F → BestPrices → PolicyResult F
  unfolding predicted_outcome
  modal_all p prices =
      let o = predicted_outcome p in
      let confidence = probability_for p o in
      with_market (plain_result (back o) modal_outcome (some confidence)) confidence prices o

  unfoldable pub selective_confidence : ProbabilityResult F → F → BestPrices → PolicyResult F
  unfolding predicted_outcome
  selective_confidence p threshold prices =
      let o = predicted_outcome p in
      let confidence = probability_for p o in
      if lt_float confidence threshold
      then plain_result no_bet below_confidence_threshold (some confidence)
      else with_market (plain_result (back o) confidence_threshold_met (some confidence)) confidence
          prices o

  -- `max(OUTCOMES, key=…)` keeps the first of equal keys.
  unfoldable pub best_outcome : (Outcome → F) → Outcome
  best_outcome key =
      let first = if lt_float (key home) (key draw) then draw else home in
      if lt_float (key first) (key away) then away else first

  -- The expected values, once every outcome has a price.
  unfoldable pub value_of : ProbabilityResult F → (Outcome → ℕ × Decimal) → F → PolicyResult F
  unfolding best_outcome
  value_of p quotes minimum_ev =
      let ev : Outcome → F = λ o. fl.expected (probability_for p o) (quotes o).1 in
      let o = best_outcome ev in
      if fl.le (ev o) minimum_ev
      then (let r = plain_result no_bet no_positive_value_above_threshold none in
          record r { expected_value = some (ev o) })
      else record {
        action = back o;
        reason = value_above_threshold;
        model_probability = some (probability_for p o);
        selected_observation = some (quotes o).0;
        selected_price = some (quotes o).1;
        expected_value = some (ev o);
      }

  abbrev pub quotes_of : ℕ × Decimal → ℕ × Decimal → ℕ × Decimal → Outcome → ℕ × Decimal
  quotes_of h d a home = h
  quotes_of h d a draw = d
  quotes_of h d a away = a

  unfoldable pub value_policy : ProbabilityResult F → BestPrices → F → PolicyResult F
  unfolding value_of
  value_policy p prices minimum_ev = elim (prices home) [
    | none ↦ plain_result no_bet no_valid_market none
    | some h ↦ elim (prices draw) [
      | none ↦ plain_result no_bet no_valid_market none
      | some d ↦ elim (prices away) [
        | none ↦ plain_result no_bet no_valid_market none
        | some a ↦ value_of p (quotes_of h d a) minimum_ev
      ]
    ]
  ]
