-- ===== src/Capital/Replay/Validation.antt =====
-- `validate_basis` accepts exactly the histories that can be staked.
use finsport.Prelude.{
  ℕ, ◌≤◌, ◌<◌, ◌≡◌, ◌≢◌, ◌↔◌, refl, Bool, true, false, not, ◌||◌, ◌&&◌, Option, none, some, List,
  [], ◌∷◌, arith, All, Bool-cases, Option-cases, inl, inr, any, count_if, if◌then◌else◌,
}
use finsport.Decimal.{Decimal, whole}
use finsport.Decimal.Order.{◌≺◌, not_le_decimal→≺, ≺→not_le_decimal}
use finsport.Capital.Contracts.{CapitalDecision, actionable}
use finsport.Capital.Policies.{Policy, requires_probability, is_recovery}
use finsport.Capital.Replay.{
  Unavailable, Batch, is_set, not_before, lacks_timely_price, price_too_low, validate_actionable,
  validate_each, validate_basis, crowded, group_by_time, concurrent_recovery_step,
}

-- A decision that can be staked and settled: it has an observation from before the decision, a
-- price above one, an outcome, and a probability where the policy needs one.
pub record IsStakeable (p : Policy) (d : CapitalDecision) : Type 0 where
  pub observed : d.observation_id ≢ none
  pub in_time : (t : ℕ) × (d.observation_time ≡ some t) × (t < d.decision_time)
  pub priced : (q : Decimal) × (d.price ≡ some q) × (whole 1 ≺ q)
  pub resolved : d.outcome ≢ none
  pub assessed : requires_probability p ≡ true → d.probability ≢ none

abbrev pub IsBettable : Policy → CapitalDecision → Type 0
IsBettable p d = actionable d ≡ true → IsStakeable p d

timely :
    (price : Option Decimal) (observation time : Option ℕ) (decided : ℕ)
    → (not (is_set price) || (not (is_set observation) || not_before time decided)) ≡ false
    → (observation ≢ none)
      × ((t : ℕ) × (time ≡ some t) × (t < decided))
      × ((q : Decimal) × (price ≡ some q))
timely (some q) (some o) (some t) decided h = ((λ e. cc), (t, refl, ground arith), (q, refl))
timely (some q) (some o) none decided h = cc
timely (some q) none time decided h = cc
timely none observation time decided h = cc

is_timely :
    (price : Option Decimal) (observation time : Option ℕ) (decided : ℕ)
    → observation ≢ none
    → (t : ℕ) × (time ≡ some t) × (t < decided)
    → (q : Decimal) × (price ≡ some q) × (whole 1 ≺ q)
    → (not (is_set price) || (not (is_set observation) || not_before time decided)) ≡ false
is_timely price (some o) time decided h (t, e, late) (q, f, above) = rw (e, f) (ground arith)
is_timely price none time decided h late above = absurd (h refl)

priced_above :
    (q : Decimal) (price : Option Decimal)
    → price ≡ some q
    → price_too_low price ≡ false
    → whole 1 ≺ q
priced_above q price e h = ground (arith, not_le_decimal→≺ q (whole 1))

-- No reason is raised when every test of the chain fails, and only then.
all_pass :
    (a b c e : Bool) (w x y z : Unavailable)
    → (if a then some w else if b then some x else if c then some y else if e then some z else none)
      ≡ none
    → (a ≡ false) × (b ≡ false) × (c ≡ false) × (e ≡ false)
all_pass a b c e w x y z h = ground arith

none_raised :
    (a b c e : Bool) (w x y z : Unavailable)
    → a ≡ false
    → b ≡ false
    → c ≡ false
    → e ≡ false
    → (if a then some w else if b then some x else if c then some y else if e then some z else none)
      ≡ none
none_raised a b c e w x y z f g h k = rw (f, g, h, k)

set_of_test : {A : Type 0} (o : Option A) → not (is_set o) ≡ false → o ≢ none
set_of_test none h = cc
set_of_test (some a) h = λ e. cc

test_of_set : {A : Type 0} (o : Option A) → o ≢ none → not (is_set o) ≡ false
test_of_set none h = absurd (h refl)
test_of_set (some a) h = refl

assessed_of_test :
    (needed : Bool) (o : Option Decimal)
    → (needed && not (is_set o)) ≡ false
    → needed ≡ true
    → o ≢ none
assessed_of_test true o h e = set_of_test o h
assessed_of_test false o h e = cc

test_of_assessed :
    (needed : Bool) (o : Option Decimal)
    → (needed ≡ true → o ≢ none)
    → (needed && not (is_set o)) ≡ false
test_of_assessed true o h = test_of_set o (h refl)
test_of_assessed false o h = refl

price_in_range :
    (q : Decimal) (price : Option Decimal)
    → price ≡ some q
    → whole 1 ≺ q
    → price_too_low price ≡ false
price_in_range q price e h = rw e (≺→not_le_decimal q (whole 1) h)

validate_actionable-IsBettable :
    (p : Policy) (d : CapitalDecision) → validate_actionable d p true ≡ none → IsBettable p d
unfolding validate_actionable
validate_actionable-IsBettable p d h a =
    let (on_time, high, known, enough) =
      all_pass (lacks_timely_price d) (price_too_low d.price) (true && not (is_set d.outcome))
        (requires_probability p && not (is_set d.probability)) _ _ _ _ (rw a at h) in
    let (seen, before, (q, e)) =
      timely d.price d.observation_id d.observation_time d.decision_time on_time in
    record {
      observed = seen;
      in_time = before;
      priced = (q, e, priced_above q d.price e high);
      resolved = set_of_test d.outcome known;
      assessed = assessed_of_test (requires_probability p) d.probability enough;
    }

IsBettable-validate_actionable :
    (p : Policy) (d : CapitalDecision) → IsBettable p d → validate_actionable d p true ≡ none
unfolding validate_actionable
IsBettable-validate_actionable p d h = elim (Bool-cases (actionable d)) [
  | inl a ↦
      (let s = h a in
        let (q, e, above) = s.priced in
        rw a (
          none_raised (lacks_timely_price d) (price_too_low d.price)
            (true && not (is_set d.outcome)) (requires_probability p && not (is_set d.probability))
            _ _ _ _
            (is_timely d.price d.observation_id d.observation_time d.decision_time s.observed
              s.in_time s.priced)
            (price_in_range q d.price e above) (test_of_set d.outcome s.resolved)
            (test_of_assessed (requires_probability p) d.probability s.assessed)))
  | inr idle ↦ rw idle
]

pub validate_each-All :
    (ds : List CapitalDecision) (p : Policy)
    → validate_each ds p true ≡ none
    → All (IsBettable p) ds
unfolding validate_each
validate_each-All [] p h = tt
validate_each-All (d ∷ ds) p h = elim (Option-cases (validate_actionable d p true)) [
  | inl fine ↦ (
    validate_actionable-IsBettable p d fine,
    validate_each-All ds p (rw (fine, validate_each) at h),
  )
  | inr (reason, bad) ↦ absurd (let e : some reason ≡ none = rw (bad, validate_each) at h in cc)
]

All-validate_each :
    (ds : List CapitalDecision) (p : Policy)
    → All (IsBettable p) ds
    → validate_each ds p true ≡ none
unfolding validate_each
All-validate_each [] p h = refl
All-validate_each (d ∷ ds) p h =
    rw (IsBettable-validate_actionable p d h.0, validate_each) (All-validate_each ds p h.1)

-- At most one bet of every batch.
abbrev pub AreSingle : List Batch → Type 0
AreSingle = All (λ b. count_if actionable b.1 ≤ 1)

both_fail : (a b : Bool) → (a || b) ≡ false → (a ≡ false) × (b ≡ false)
both_fail a b h = ground arith

not_crowded : (bs : List Batch) → any crowded bs ≡ false → AreSingle bs
not_crowded [] h = tt
not_crowded ((t, ds) ∷ rest) h =
    let (one, others) = both_fail (crowded (t, ds)) (any crowded rest) h in
    (ground arith, not_crowded rest others)

AreSingle-crowded : (bs : List Batch) → AreSingle bs → any crowded bs ≡ false
AreSingle-crowded [] h = refl
AreSingle-crowded ((t, ds) ∷ rest) h = ground (arith, AreSingle-crowded rest h.1)

recovery_clear :
    (recovers : Bool) (bs : List Batch)
    → (recovers && any crowded bs) ≡ false
    → recovers ≡ true
    → AreSingle bs
recovery_clear true bs h e = not_crowded bs h
recovery_clear false bs h e = cc

clear_recovery :
    (recovers : Bool) (bs : List Batch)
    → (recovers ≡ true → AreSingle bs)
    → (recovers && any crowded bs) ≡ false
clear_recovery true bs h = AreSingle-crowded bs (h refl)
clear_recovery false bs h = refl

none_of_if :
    (b : Bool) (reason : Unavailable) → (if b then some reason else none) ≡ none → b ≡ false
none_of_if b reason h = ground arith

-- `validate_basis` raises nothing exactly when every bet has a timely observation, a price above
-- one, an outcome and a probability if the policy needs one, and, under a recovery policy, no two
-- bets share a batch.
pub validate_basis_iff :
    (ds : List CapitalDecision) (p : Policy)
    → (validate_basis ds p true ≡ none)
      ↔ (All (IsBettable p) ds × (is_recovery p ≡ true → AreSingle (group_by_time ds)))
unfolding validate_basis
validate_basis_iff ds p = (
  accepted,
  λ h.
      rw (All-validate_each ds p h.0, validate_basis)
        (rw (clear_recovery (is_recovery p) (group_by_time ds) h.1)),
)
  where
    accepted :
        validate_basis ds p true ≡ none
        → All (IsBettable p) ds × (is_recovery p ≡ true → AreSingle (group_by_time ds))
    accepted h = elim (Option-cases (validate_each ds p true)) [
      | inl fine ↦ (
        validate_each-All ds p fine,
        recovery_clear (is_recovery p) (group_by_time ds) (
            none_of_if (is_recovery p && any crowded (group_by_time ds)) concurrent_recovery_step
              (rw (fine, validate_basis) at h)),
      )
      | inr (reason, bad) ↦
          absurd (let e : some reason ≡ none = rw (bad, validate_basis) at h in cc)
    ]
