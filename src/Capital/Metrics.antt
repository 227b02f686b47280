-- ===== src/Capital/Metrics.antt =====
-- `deterministic_metrics` of football/capital/metrics.py. The numbers that it prints with `str` are
-- kept as numbers, and the distribution of the lengths is a list sorted by length.
pub mod Counts
pub mod Drawdown
use finsport.Prelude.{
  ℕ, suc, ◌+◌, ◌-◌, Bool, true, false, not, ◌&&◌, Option, none, some, List, [], ◌∷◌, map, ltb, ◌==◌,
  if◌then◌else◌, length, keep, count_if, any,
}
use finsport.Decimal.{
  Decimal, whole, sub, quotient, magnitude, lt_decimal, le_decimal, max_decimal, sum_from,
}
use finsport.Capital.Contracts.{CapitalDecision, ReplayLedgerRow, actionable, action_won}
use finsport.Capital.Policies.{zero_decimal}

-- `_ratio`
unfoldable pub ratio : Decimal → Decimal → Decimal
ratio n d = if magnitude d.coefficient == 0 then zero_decimal else quotient n d

-- `max(values, default=…)`
unfoldable pub max_from : Decimal → List Decimal → Decimal
max_from best [] = best
max_from best (x ∷ xs) = max_from (max_decimal best x) xs

abbrev pub max_of : List Decimal → Decimal
max_of [] = zero_decimal
max_of (x ∷ xs) = max_from x xs

abbrev pub is_exposed : ReplayLedgerRow → Bool
is_exposed r = lt_decimal zero_decimal r.applied_stake

abbrev pub row_won : ReplayLedgerRow → Bool
row_won r = action_won r.action r.outcome

abbrev pub is_resolved_bet : CapitalDecision → Bool
is_resolved_bet d = actionable d && (elim d.outcome [ none ↦ false | some o ↦ true ])

-- The bankroll after each batch: the first row of every run of equal batch indices.
unfoldable pub bankrolls_after : Option ℕ → List ReplayLedgerRow → List Decimal
bankrolls_after last [] = []
bankrolls_after last (r ∷ rest) =
    let others = bankrolls_after (some r.batch_index) rest in
    if elim last [ none ↦ true | some i ↦ not (i == r.batch_index) ]
    then r.bankroll_after ∷ others
    else others

-- The variables of the loop over the bankrolls.
pub record Curve : Type 0 where
  pub peak : Decimal
  pub drawdown : Decimal
  pub amount : Decimal
  pub current_duration : ℕ
  pub maximum_duration : ℕ

abbrev pub max_nat : ℕ → ℕ → ℕ
max_nat a b = if ltb a b then b else a

unfoldable pub curve_step : Curve → Decimal → Curve
curve_step c bankroll =
    if le_decimal c.peak bankroll
    then record c { peak = bankroll; current_duration = 0 }
    else record c {
      current_duration = suc c.current_duration;
      maximum_duration = max_nat c.maximum_duration (suc c.current_duration);
      amount = max_decimal c.amount (sub c.peak bankroll);
      drawdown = max_decimal c.drawdown (ratio (sub c.peak bankroll) c.peak);
    }

unfoldable pub curve : Curve → List Decimal → Curve
unfolding curve_step
curve c [] = c
curve c (b ∷ bs) = curve (curve_step c b) bs

abbrev pub flat_curve : Decimal → Curve
flat_curve initial = record {
  peak = initial;
  drawdown = zero_decimal;
  amount = zero_decimal;
  current_duration = 0;
  maximum_duration = 0;
}

-- The longest losing streak among the exposed rows: the current one and the longest so far.
unfoldable pub losing_streak : ℕ → ℕ → List ReplayLedgerRow → ℕ
losing_streak current longest [] = longest
losing_streak current longest (r ∷ rest) =
    let on = losing_streak (suc current) (max_nat longest (suc current)) rest in
    let over = losing_streak 0 longest rest in if row_won r then over else on

-- `sorted(Counter(sequence_lengths).items())`
unfoldable pub count_length : ℕ → List (ℕ × ℕ) → List (ℕ × ℕ)
count_length n [] = (n, 1) ∷ []
count_length n ((m, k) ∷ rest) =
    let later = (m, k) ∷ count_length n rest in
    if n == m then (m, suc k) ∷ rest else if ltb n m then (n, 1) ∷ (m, k) ∷ rest else later

unfoldable pub distribution : List ℕ → List (ℕ × ℕ)
unfolding count_length
distribution [] = []
distribution (n ∷ ns) = count_length n (distribution ns)

unfoldable pub terminal_bankroll : Decimal → List ReplayLedgerRow → Decimal
terminal_bankroll initial [] = initial
terminal_bankroll initial (r ∷ rest) = terminal_bankroll r.bankroll_after rest

pub record Metrics : Type 0 where
  pub input_decisions : ℕ
  pub actionable_capital_decisions : ℕ
  pub capital_actions : ℕ
  pub wins : ℕ
  pub losses : ℕ
  pub original_decision_wins : ℕ
  pub original_decision_hit_rate : Decimal
  pub total_staked : Decimal
  pub total_pnl : Decimal
  pub roi : Decimal
  pub terminal : Decimal
  pub maximum_drawdown : Decimal
  pub maximum_drawdown_amount : Decimal
  pub drawdown_duration : ℕ
  pub turnover : Decimal
  pub max_single_stake : Decimal
  pub max_stake_pre_bankroll_ratio : Decimal
  pub stake_concentration : Decimal
  pub practical_ruin : Bool
  pub cap_hits : ℕ
  pub incomplete_sequences : ℕ
  pub longest_losing_streak : ℕ
  pub sequence_length_distribution : List (ℕ × ℕ)

abbrev funded_rows : List ReplayLedgerRow → List ReplayLedgerRow
funded_rows = keep (λ r. lt_decimal zero_decimal r.bankroll_before)

unfoldable pub deterministic_metrics :
    List CapitalDecision → List ReplayLedgerRow → Decimal → List ℕ → ℕ → Metrics
unfolding ratio max_from bankrolls_after curve losing_streak distribution terminal_bankroll
deterministic_metrics ds ledger initial lengths incomplete =
    let exposed = keep is_exposed ledger in
    let resolved = keep is_resolved_bet ds in
    let original = count_if (λ d. action_won d.action d.outcome) resolved in
    let staked = sum_from zero_decimal (map (λ r. r.applied_stake) ledger) in
    let pnl = sum_from zero_decimal (map (λ r. r.profit_loss) ledger) in
    let largest = max_of (map (λ r. r.applied_stake) ledger) in
    let drawn = curve (flat_curve initial) (bankrolls_after none ledger) in
    record {
      input_decisions = length ds;
      actionable_capital_decisions = count_if actionable ds;
      capital_actions = length exposed;
      wins = count_if row_won exposed;
      losses = length exposed - count_if row_won exposed;
      original_decision_wins = original;
      original_decision_hit_rate = ratio (whole original) (whole (length resolved));
      total_staked = staked;
      total_pnl = pnl;
      roi = ratio pnl staked;
      terminal = terminal_bankroll initial ledger;
      maximum_drawdown = drawn.drawdown;
      maximum_drawdown_amount = drawn.amount;
      drawdown_duration = drawn.maximum_duration;
      turnover = ratio staked initial;
      max_single_stake = largest;
      max_stake_pre_bankroll_ratio =
          max_of (map (λ r. ratio r.applied_stake r.bankroll_before) (funded_rows ledger));
      stake_concentration = ratio largest staked;
      practical_ruin = any (λ r. r.practical_ruin) ledger;
      cap_hits = count_if (λ r. r.cap_hit) ledger;
      incomplete_sequences = incomplete;
      longest_losing_streak = losing_streak 0 0 exposed;
      sequence_length_distribution = distribution lengths;
    }
