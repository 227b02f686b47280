-- ===== src/Prediction/Tests.antt =====
-- The policies over whole numbers in place of floats.
use finsport.Prelude.{
  ℕ, ◌*◌, ◌≡◌, refl, some, leb, inl, inr, arith, pos_part, ◌⊎◌, true, Bool-cases,
}
use finsport.Decimal.{whole}
use finsport.Capital.Contracts.{Outcome, home, draw, away, back}
use finsport.Prediction.Policies.{
  Floats, IsOrdered, ProbabilityResult, BestPrices, probability_for, modal_all, value_policy,
}
use finsport.Prediction.Choice.{IsFirstBest, IsValued, modal_all-IsFirstBest, value_policy-IsValued}

abbrev scores : Floats ℕ
scores = record { le = leb; expected = λ p price. p * pos_part price.coefficient }

leb_total : (a b : ℕ) → (leb a b ≡ true) ⊎ (leb b a ≡ true)
leb_total a b = elim (Bool-cases (leb a b)) [ inl h ↦ inl h | inr h ↦ inr (ground arith) ]

leb_trans : (a b c : ℕ) → leb a b ≡ true → leb b c ≡ true → leb a c ≡ true
leb_trans a b c h k = ground arith

scores-IsOrdered : IsOrdered scores
scores-IsOrdered = record { total = leb_total; trans = leb_trans }

abbrev even_match : ProbabilityResult ℕ
even_match = record { p_home = 30; p_draw = 40; p_away = 40 }

abbrev prices : BestPrices
prices home = some (1, whole 3)
prices draw = some (2, whole 2)
prices away = some (3, whole 4)

modal_all-IsFirstBest_example :
    (o : Outcome) × ((modal_all scores even_match prices).action ≡ back o)
    × IsFirstBest scores scores-IsOrdered (probability_for scores even_match) o
modal_all-IsFirstBest_example = modal_all-IsFirstBest scores scores-IsOrdered even_match prices

value_policy-IsValued_example :
    IsValued scores scores-IsOrdered even_match prices 100
      (value_policy scores even_match prices 100)
value_policy-IsValued_example = value_policy-IsValued scores scores-IsOrdered even_match prices 100

modal_bets_draw : (modal_all scores even_match prices).action ≡ back draw
unfolding modal_all
modal_bets_draw = refl

value_bets_away : (value_policy scores even_match prices 100).action ≡ back away
unfolding value_policy
value_bets_away = refl
