-- ===== src/Prediction/Choice.antt =====
-- What the decision policies choose.
use finsport.Prelude.{
  ℕ, ◌≡◌, refl, Bool, true, false, none, some, inl, inr, Bool-cases, Option-cases, if_elim,
}
use finsport.Decimal.{Decimal}
use finsport.Capital.Contracts.{Outcome, home, draw, away, no_bet, back}
use finsport.Prediction.Policies.{
  Floats, IsOrdered, ProbabilityResult, PolicyResult, BestPrices, modal_outcome, probability_for,
  predicted_outcome, with_market, plain_result, modal_all, best_outcome, value_of, quotes_of,
  value_policy,
}

-- HOME before DRAW before AWAY.
abbrev pub precedes : Outcome → Outcome → Bool
precedes home home = false
precedes home draw = true
precedes home away = true
precedes draw home = false
precedes draw draw = false
precedes draw away = true
precedes away x = false

by_outcome : (P : Outcome → Type 0) → P home → P draw → P away → (x : Outcome) → P x
by_outcome P h d a home = h
by_outcome P h d a draw = d
by_outcome P h d a away = a

module _ {F : Type 0} (fl : Floats F) (ordered : IsOrdered fl) where
  -- The outcome of the greatest key, and the first of them.
  pub record IsFirstBest (key : Outcome → F) (o : Outcome) : Type 0 where
    pub greatest : (x : Outcome) → fl.le (key x) (key o) ≡ true
    pub first : (x : Outcome) → precedes x o ≡ true → fl.le (key o) (key x) ≡ false

  le_refl : (a : F) → fl.le a a ≡ true
  le_refl a = elim (ordered.total a a) [ inl h ↦ h | inr h ↦ h ]

  le_of_not : (a b : F) → fl.le a b ≡ false → fl.le b a ≡ true
  le_of_not a b h = elim (ordered.total a b) [ inl x ↦ absurd (let y = x in cc) | inr x ↦ x ]

  -- What is not below the greater is not below the smaller.
  not_le_trans : (a b c : F) → fl.le b c ≡ true → fl.le a c ≡ false → fl.le a b ≡ false
  not_le_trans a b c h n = elim (Bool-cases (fl.le a b)) [
    | inr x ↦ x
    | inl x ↦ absurd (let y = ordered.trans a b c x h in cc)
  ]

  home-IsFirstBest :
      (key : Outcome → F)
      → fl.le (key draw) (key home) ≡ true
      → fl.le (key away) (key home) ≡ true
      → IsFirstBest key home
  home-IsFirstBest key d a = record {
    greatest = by_outcome (λ x. fl.le (key x) (key home) ≡ true) (le_refl (key home)) d a;
    first =
        by_outcome (λ x. precedes x home ≡ true → fl.le (key home) (key x) ≡ false) (λ p. cc)
          (λ p. cc) (λ p. cc);
  }

  draw-IsFirstBest :
      (key : Outcome → F)
      → fl.le (key draw) (key home) ≡ false
      → fl.le (key away) (key draw) ≡ true
      → IsFirstBest key draw
  draw-IsFirstBest key d a = record {
    greatest =
        by_outcome (λ x. fl.le (key x) (key draw) ≡ true) (le_of_not (key draw) (key home) d)
          (le_refl (key draw)) a;
    first =
        by_outcome (λ x. precedes x draw ≡ true → fl.le (key draw) (key x) ≡ false) (λ p. d)
          (λ p. cc) (λ p. cc);
  }

  away-IsFirstBest :
      (key : Outcome → F)
      → fl.le (key away) (key home) ≡ false
      → fl.le (key away) (key draw) ≡ false
      → IsFirstBest key away
  away-IsFirstBest key h d = record {
    greatest =
        by_outcome (λ x. fl.le (key x) (key away) ≡ true) (le_of_not (key away) (key home) h)
          (le_of_not (key away) (key draw) d) (le_refl (key away));
    first =
        by_outcome (λ x. precedes x away ≡ true → fl.le (key away) (key x) ≡ false) (λ p. h)
          (λ p. d) (λ p. cc);
  }

  best_outcome-IsFirstBest : (key : Outcome → F) → IsFirstBest key (best_outcome fl key)
  unfolding best_outcome
  best_outcome-IsFirstBest key = elim (Bool-cases (fl.le (key draw) (key home))) [
    | inl d ↦ elim (Bool-cases (fl.le (key away) (key home))) [
      | inl a ↦ rw (d, a, best_outcome) (home-IsFirstBest key d a)
      | inr a ↦
          rw (d, a, best_outcome)
            (away-IsFirstBest key a (not_le_trans (key away) (key draw) (key home) d a))
    ]
    | inr d ↦ elim (Bool-cases (fl.le (key away) (key draw))) [
      | inl a ↦ rw (d, a, best_outcome) (draw-IsFirstBest key d a)
      | inr a ↦
          rw (d, a, best_outcome)
            (away-IsFirstBest key
              (not_le_trans (key away) (key home) (key draw) (le_of_not (key draw) (key home) d) a)
              a)
    ]
  ]

  predicted_outcome-IsFirstBest :
      (p : ProbabilityResult F) → IsFirstBest (probability_for fl p) (predicted_outcome fl p)
  unfolding predicted_outcome
  predicted_outcome-IsFirstBest p = elim (Bool-cases (fl.le p.p_draw p.p_home)) [
    | inl d ↦ elim (Bool-cases (fl.le p.p_away p.p_home)) [
      | inl a ↦
          rw (d, a, le_refl p.p_home, predicted_outcome)
            (home-IsFirstBest (probability_for fl p) d a)
      | inr a ↦
          (let below = le_of_not p.p_away p.p_home a in
            let off = not_le_trans p.p_away p.p_draw p.p_home d a in
            rw (d, a, below, off, le_of_not p.p_away p.p_draw off, predicted_outcome, a)
              (away-IsFirstBest (probability_for fl p) a off))
    ]
    | inr d ↦
        (let under = le_of_not p.p_draw p.p_home d in
          elim (Bool-cases (fl.le p.p_away p.p_draw)) [
            | inl a ↦
                rw (d, a, under, le_refl p.p_draw, predicted_outcome, d)
                  (draw-IsFirstBest (probability_for fl p) d a)
            | inr a ↦
                (let off = not_le_trans p.p_away p.p_home p.p_draw under a in
                  rw
                    (
                      d,
                      a,
                      off,
                      le_of_not p.p_away p.p_home off,
                      le_of_not p.p_away p.p_draw a,
                      predicted_outcome,
                      a,
                    )
                    (away-IsFirstBest (probability_for fl p) off a))
          ])
  ]

  abbrev pub value_key : ProbabilityResult F → (Outcome → ℕ × Decimal) → Outcome → F
  value_key p quotes o = fl.expected (probability_for fl p o) (quotes o).1

  -- The three ways that `value_policy` ends.
  pub data IsValued (p : ProbabilityResult F) (prices : BestPrices) (minimum_ev : F)
      (r : PolicyResult F) : Type 0 where
    unquoted : (o : Outcome) → prices o ≡ none → r.action ≡ no_bet → IsValued p prices minimum_ev r
    worthless :
        (quotes : Outcome → ℕ × Decimal)
        → ((o : Outcome) → prices o ≡ some (quotes o))
        → ((o : Outcome) → fl.le (value_key p quotes o) minimum_ev ≡ true)
        → r.action ≡ no_bet
        → IsValued p prices minimum_ev r
    worth_most :
        (quotes : Outcome → ℕ × Decimal) (o : Outcome)
        → ((x : Outcome) → prices x ≡ some (quotes x))
        → IsFirstBest (value_key p quotes) o
        → fl.le (value_key p quotes o) minimum_ev ≡ false
        → r.action ≡ back o
        → r.selected_price ≡ some (quotes o).1
        → IsValued p prices minimum_ev r

  value_of-IsValued :
      (p : ProbabilityResult F) (prices : BestPrices) (quotes : Outcome → ℕ × Decimal)
      (minimum_ev : F)
      → ((o : Outcome) → prices o ≡ some (quotes o))
      → IsValued p prices minimum_ev (value_of fl p quotes minimum_ev)
  unfolding value_of
  value_of-IsValued p prices quotes minimum_ev quoted =
      let o = best_outcome fl (value_key p quotes) in
      let best = best_outcome-IsFirstBest (value_key p quotes) in
      if_elim (IsValued p prices minimum_ev) (fl.le (value_key p quotes o) minimum_ev)
        (λ low.
          worthless quotes quoted
            (λ x.
              ordered.trans (value_key p quotes x) (value_key p quotes o) minimum_ev
                (best.greatest x) low)
            refl)
        (λ high. worth_most quotes o quoted best high refl refl)

  -- The value policy bets exactly when it pays: without a price for every outcome, or when no
  -- expected value is above the minimum, there is no bet. Otherwise the bet is the first outcome
  -- of the greatest expected value, that value is above the minimum, and its own price is taken.
  pub value_policy-IsValued :
      (p : ProbabilityResult F) (prices : BestPrices) (minimum_ev : F)
      → IsValued p prices minimum_ev (value_policy fl p prices minimum_ev)
  unfolding value_policy
  value_policy-IsValued p prices minimum_ev = elim (Option-cases (prices home)) [
    | inl e ↦ rw (e, value_policy) (unquoted home e refl)
    | inr (h, eh) ↦ elim (Option-cases (prices draw)) [
      | inl e ↦ rw (eh, e, value_policy) (unquoted draw e refl)
      | inr (d, ed) ↦ elim (Option-cases (prices away)) [
        | inl e ↦ rw (eh, ed, e, value_policy) (unquoted away e refl)
        | inr (a, ea) ↦
            rw (eh, ed, ea, value_policy)
              (value_of-IsValued p prices (quotes_of fl h d a) minimum_ev
                (by_outcome (λ o. prices o ≡ some (quotes_of fl h d a o)) eh ed ea))
      ]
    ]
  ]

  with_market-action :
      (r : PolicyResult F) (p : F) (prices : BestPrices) (o : Outcome)
      → (with_market fl r p prices o).action ≡ r.action
  with_market-action r p prices o = elim (Option-cases (prices o)) [
    | inl e ↦ rw (e, with_market) refl
    | inr (x, e) ↦ rw (e, with_market) refl
  ]

  -- The modal policy always bets, on the most probable outcome; of equally probable ones it takes
  -- the first of HOME, DRAW, AWAY.
  pub modal_all-IsFirstBest :
      (p : ProbabilityResult F) (prices : BestPrices)
      → (o : Outcome) × ((modal_all fl p prices).action ≡ back o)
        × IsFirstBest (probability_for fl p) o
  unfolding modal_all
  modal_all-IsFirstBest p prices =
      let o = predicted_outcome fl p in
      let confidence = probability_for fl p o in
      (
        o,
        with_market-action (plain_result fl (back o) modal_outcome (some confidence)) confidence
            prices o,
        predicted_outcome-IsFirstBest p,
      )
