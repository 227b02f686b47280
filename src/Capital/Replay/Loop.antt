-- ===== src/Capital/Replay/Loop.antt =====
-- The loop of `replay` (football/capital/replay.py): each batch is refused as a whole, or settled
-- and followed by the next one.
use finsport.Prelude.{
  ℕ, suc, ◌+◌, Bool, true, false, not, ◌||◌, ◌&&◌, Option, none, some, List, [], ◌∷◌, ◌++◌, ltb,
  if◌then◌else◌, ◌>>=◌, any,
}
use finsport.Decimal.{Decimal, add, mul, neg, lt_decimal, le_decimal, sum_from}
use finsport.Capital.Contracts.{
  CapitalDecision, StakeRequest, PolicyState, ReplayLedgerRow, actionable, action_won,
  insufficient_capital, bankroll_depleted,
}
use finsport.Capital.Policies.{Policy, settle, is_recovery, initial_state, zero_decimal, net_odds}
use finsport.Capital.Replay.{
  Batch, Asked, Unavailable, invalid_initial_bankroll, insufficient_resolved_decisions, is_set,
  group_by_time, validate_basis, batch_requests, ends_run, requested_stakes, request_or_zero,
  policy_zero_request, ledger_row,
}

-- The rows of a batch that a policy ends: nothing is settled.
unfoldable pub stopped_rows : List Asked → ℕ → Decimal → PolicyState → List ReplayLedgerRow
stopped_rows [] index bankroll s = []
stopped_rows ((d, r) ∷ rest) index bankroll s =
    ledger_row d (request_or_zero r) index bankroll bankroll zero_decimal s false
    ∷ stopped_rows rest index bankroll s

-- `replace(request, applied=ZERO, shortfall=…, termination_reason="INSUFFICIENT_CAPITAL")`
abbrev pub unfunded : StakeRequest → StakeRequest
unfunded r = record r {
  applied = zero_decimal;
  shortfall = add r.shortfall r.applied;
  termination_reason = insufficient_capital;
}

unfoldable pub unfunded_rows : List Asked → ℕ → Decimal → PolicyState → List ReplayLedgerRow
unfunded_rows [] index bankroll s = []
unfunded_rows ((d, r) ∷ rest) index bankroll s =
    ledger_row d (unfunded (request_or_zero r)) index bankroll bankroll zero_decimal s
      (actionable d)
    ∷ unfunded_rows rest index bankroll s

pub record Settled : Type 0 where
  pub decision : CapitalDecision
  pub request : StakeRequest
  pub pnl : Decimal
  pub state : PolicyState

abbrev pub settled_as : CapitalDecision → StakeRequest → Decimal → PolicyState → Settled
settled_as d r pnl s = record { decision = d; request = r; pnl = pnl; state = s }

-- The end of a batch's settlement loop: the rows' data, the state, the running sum of the profits,
-- and what was appended to the sequence lengths and counted as incomplete.
pub record BatchEnd : Type 0 where
  pub settled : List Settled
  pub state : PolicyState
  pub batch_pnl : Decimal
  pub lengths : List ℕ
  pub incomplete : ℕ

-- `request.applied * (price - 1) if won else -request.applied`
unfoldable pub bet_pnl : CapitalDecision → StakeRequest → Option Decimal
bet_pnl d r =
    if action_won d.action d.outcome
    then (net_odds d >>= λ odds. some (mul r.applied odds))
    else some (neg r.applied)

abbrev pub append_length : Option ℕ → List ℕ → List ℕ
append_length none lengths = lengths
append_length (some n) lengths = n ∷ lengths

abbrev pub counts_incomplete : Option ℕ → StakeRequest → ℕ
counts_incomplete none r = 0
counts_incomplete (some n) r = if r.cap_hit && lt_decimal zero_decimal r.shortfall then 1 else 0

unfoldable pub settle_batch : Policy → PolicyState → Decimal → List Asked → Option BatchEnd
unfolding bet_pnl
settle_batch p s pnl [] =
    some (record { settled = []; state = s; batch_pnl = pnl; lengths = []; incomplete = 0 })
settle_batch p s pnl ((d, none) ∷ rest) = do
  e ← settle_batch p s pnl rest
  let row = settled_as d policy_zero_request zero_decimal s
  some (record e { settled = row ∷ e.settled })
settle_batch p s pnl ((d, some r) ∷ rest) = do
  gain ← bet_pnl d r
  let (next, completed) = settle p s r (action_won d.action d.outcome)
  e ← settle_batch p next (add pnl gain) rest
  let row = settled_as d r gain next
  some (record e {
    settled = row ∷ e.settled;
    lengths = append_length completed e.lengths;
    incomplete = counts_incomplete completed r + e.incomplete;
  })

-- `replace(request, termination_reason="BANKROLL_DEPLETED")` where the bet ruins.
abbrev pub mark_depleted : Bool → StakeRequest → StakeRequest
mark_depleted ruin r = record r {
  termination_reason = if ruin then bankroll_depleted else r.termination_reason;
}

-- The rows of a settled batch, all with the bankroll before and after the whole batch.
unfoldable pub settled_rows : List Settled → ℕ → Decimal → Decimal → Bool → List ReplayLedgerRow
settled_rows [] index before after depleted = []
settled_rows (x ∷ rest) index before after depleted =
    let ruin = depleted && actionable x.decision in
    ledger_row x.decision (mark_depleted ruin x.request) index before after x.pnl x.state ruin
    ∷ settled_rows rest index before after depleted

-- What the loop leaves behind.
pub record Progress : Type 0 where
  pub ledger : List ReplayLedgerRow
  pub state : PolicyState
  pub lengths : List ℕ
  pub incomplete : ℕ
  pub terminated : Bool

abbrev pub finish : List ReplayLedgerRow → PolicyState → Bool → Progress
finish rows s terminated = record {
  ledger = rows;
  state = s;
  lengths = [];
  incomplete = 0;
  terminated = terminated;
}

abbrev pub precede : List ReplayLedgerRow → BatchEnd → Progress → Progress
precede rows e later = record later {
  ledger = rows ++ later.ledger;
  lengths = e.lengths ++ later.lengths;
  incomplete = e.incomplete + later.incomplete;
}

-- The end of a settled batch: a depleted bankroll ends the run, and `later` is the rest of it.
unfoldable pub after_batch : ℕ → Decimal → BatchEnd → Option Progress → Option Progress
unfolding settled_rows
after_batch index bankroll e later =
    let after = add bankroll e.batch_pnl in
    let depleted = le_decimal after zero_decimal in
    let rows = settled_rows e.settled index bankroll after depleted in
    let onwards = later >>= λ g. some (precede rows e g) in
    if depleted then some (precede rows e (finish [] e.state true)) else onwards

unfoldable pub replay_batches : Policy → ℕ → Decimal → PolicyState → List Batch → Option Progress
unfolding stopped_rows unfunded_rows settle_batch after_batch
replay_batches p index bankroll s [] = some (finish [] s false)
replay_batches p index bankroll s ((t, ds) ∷ rest) = do
  asked ← batch_requests p bankroll s ds
  let settled = settle_batch p s zero_decimal asked >>= λ e.
      after_batch index bankroll e
        (replay_batches p (suc index) (add bankroll e.batch_pnl) e.state rest)
  if any ends_run asked
      then some (finish (stopped_rows asked index bankroll s) s true)
      else if lt_decimal bankroll (sum_from zero_decimal (requested_stakes asked))
      then some (finish (unfunded_rows asked index bankroll s) s true)
      else settled

-- The arguments that `replay` hands to `deterministic_metrics`, with the ledger.
pub record ReplayRun : Type 0 where
  pub ledger : List ReplayLedgerRow
  pub sequence_lengths : List ℕ
  pub incomplete_sequences : ℕ

pub data ReplayOutcome : Type 0 where
  unavailable : Unavailable → ReplayOutcome
  arithmetic_error : ReplayOutcome
  replayed : ReplayRun → ReplayOutcome

-- `incomplete_sequence_count + int(policy.is_recovery and (step > 0 or terminated))`
abbrev pub incomplete_total : Policy → Progress → ℕ
incomplete_total p g =
    g.incomplete + (if is_recovery p && (ltb 0 g.state.step || g.terminated) then 1 else 0)

abbrev pub run_of : Policy → Progress → ReplayRun
run_of p g = record {
  ledger = g.ledger;
  sequence_lengths = g.lengths;
  incomplete_sequences = incomplete_total p g;
}

-- `actionable and not any(row.outcome for row in actionable)`
abbrev pub all_unresolved : List CapitalDecision → Bool
all_unresolved ds = any actionable ds && not (any (λ d. actionable d && is_set d.outcome) ds)

abbrev pub replayed_run : Policy → Option Progress → ReplayOutcome
replayed_run p none = arithmetic_error
replayed_run p (some g) = replayed (run_of p g)

unfoldable pub replay : List CapitalDecision → Policy → Decimal → ReplayOutcome
unfolding replay_batches
replay ds p initial_bankroll =
    if le_decimal initial_bankroll zero_decimal
    then unavailable invalid_initial_bankroll
    else if all_unresolved ds
    then unavailable insufficient_resolved_decisions
    else elim (validate_basis ds p true) [
      | some reason ↦ unavailable reason
      | none ↦ replayed_run p (replay_batches p 1 initial_bankroll initial_state (group_by_time ds))
    ]
