-- ===== src/Capital/Metrics/Counts.antt =====
-- The counts of a run agree with each other.
use finsport.Prelude.{
  ℕ, suc, ◌+◌, ◌≤◌, ◌≡◌, List, [], ◌∷◌, arith, Bool-cases, inl, inr, length, keep, count_if,
}
use finsport.Decimal.{Decimal}
use finsport.Capital.Contracts.{CapitalDecision, ReplayLedgerRow}
use finsport.Capital.Metrics.{
  deterministic_metrics, losing_streak, row_won, is_exposed, max_nat, distribution, count_length,
}

count_if-bound : (rows : List ReplayLedgerRow) → count_if row_won rows ≤ length rows
count_if-bound [] = omega arith
count_if-bound (r ∷ rest) = ground (arith, count_if-bound rest)

-- A streak is at most the losses so far and the ones to come, if the longest one was.
losing_streak-bound :
    (current longest n : ℕ) (rows : List ReplayLedgerRow)
    → current ≤ n
    → longest ≤ n
    → losing_streak current longest rows + count_if row_won rows ≤ n + length rows
unfolding losing_streak
losing_streak-bound current longest n [] h k = omega (arith, h, k)
losing_streak-bound current longest n (r ∷ rest) h k = elim (Bool-cases (row_won r)) [
  | inl won ↦
      rw (won, losing_streak) (omega (arith, losing_streak-bound 0 longest n rest (omega arith) k))
  | inr lost ↦
      (let more =
          losing_streak-bound (suc current) (max_nat longest (suc current)) (suc n) rest
            (omega (arith, h)) (ground (arith, h, k)) in
        rw (lost, losing_streak) (omega (arith, more)))
]

-- The lengths counted, over all lengths.
abbrev pub counted : List (ℕ × ℕ) → ℕ
counted [] = 0
counted ((n, k) ∷ rest) = k + counted rest

count_length-counted :
    (n : ℕ) (rows : List (ℕ × ℕ)) → counted (count_length n rows) ≡ suc (counted rows)
unfolding count_length
count_length-counted n [] = omega arith
count_length-counted n ((m, k) ∷ rest) = ground (arith, count_length-counted n rest)

distribution-counted : (ns : List ℕ) → counted (distribution ns) ≡ length ns
unfolding distribution
distribution-counted [] = omega arith
distribution-counted (n ∷ ns) =
    omega (arith, count_length-counted n (distribution ns), distribution-counted ns)

-- The metrics of any ledger: wins and losses add up to the capital actions, the longest losing
-- streak is at most the losses, and the distribution counts every completed sequence once.
pub deterministic_metrics-counts :
    (ds : List CapitalDecision) (ledger : List ReplayLedgerRow) (initial : Decimal)
    (lengths : List ℕ) (incomplete : ℕ)
    → let m = deterministic_metrics ds ledger initial lengths incomplete in
      (m.wins + m.losses ≡ m.capital_actions)
      × (m.longest_losing_streak ≤ m.losses)
      × (counted m.sequence_length_distribution ≡ length lengths)
unfolding deterministic_metrics
deterministic_metrics-counts ds ledger initial lengths incomplete =
    let exposed = keep is_exposed ledger in
    let few = count_if-bound exposed in
    let streak = losing_streak-bound 0 0 0 exposed (omega arith) (omega arith) in
    (omega (arith, few), omega (arith, few, streak), distribution-counted lengths)
