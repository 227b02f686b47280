-- ===== src/Capital/Replay/Accounts.antt =====
-- The ledger of a replay accounts for every change of the bankroll.
use mathlib.Core.Path.{subst}
use finsport.Prelude.{
  ℕ, suc, ◌⊎◌, ◌≡◌, refl, sym, ap, ◌∙◌, Bool, true, false, Option, none, some, List, [], ◌∷◌, ◌++◌,
  map, All, keep, Bool-cases, Option-cases, inl, inr, bind-eq-some, same_of_some, if◌then◌else◌,
  any,
}
use finsport.Decimal.{Decimal, whole, add, sub, mul, neg, sum_from, lt_decimal, le_decimal}
use finsport.Decimal.Order.{◌≼◌, ◌≺◌, not_lt_decimal→≼, not_le_decimal→≺}
use finsport.Capital.Contracts.{
  CapitalDecision, StakeRequest, PolicyState, ReplayLedgerRow, actionable, is_back, action_won,
}
use finsport.Capital.Policies.{Policy, zero_decimal, initial_state}
use finsport.Capital.Replay.{
  Asked, Batch, batch_requests, requested_stakes, ends_run, group_by_time, validate_basis,
  invalid_initial_bankroll, insufficient_resolved_decisions,
}
use finsport.Capital.Replay.Loop.{
  Settled, BatchEnd, settle_batch, settled_rows, bet_pnl, stopped_rows, unfunded_rows, Progress,
  after_batch, replay_batches, replay, replayed, replayed_run, run_of, all_unresolved, ReplayRun,
  unavailable,
}
use finsport.Capital.Replay.Settlement.{
  IsSettled, bets_of, settle_batch-IsSettled, batch_requests-IsAligned,
}

abbrev pub bet_rows : List ReplayLedgerRow → List ReplayLedgerRow
bet_rows = keep (λ r. is_back r.action)

-- The stake at the price less one on a win, the stake lost otherwise.
abbrev pub pnl_of : Bool → Option Decimal → Decimal → Option Decimal
pnl_of won price stake =
    if won
    then elim price [ none ↦ none | some q ↦ some (mul stake (sub q (whole 1))) ]
    else some (neg stake)

-- The profit of a row, from what the row itself records.
abbrev pub row_pnl : ReplayLedgerRow → Option Decimal
row_pnl r = pnl_of (action_won r.action r.outcome) r.price r.applied_stake

abbrev pub Moves : Decimal → Decimal → ReplayLedgerRow → Type 0
Moves before after r = (r.bankroll_before ≡ before) × (r.bankroll_after ≡ after)

-- A ledger that starts at a bankroll: batch after batch, each either refused, with no profit or
-- loss and as the last one, or settled.
pub data Accounts : Decimal → List ReplayLedgerRow → Type 0 where
  closed : {b : Decimal} → Accounts b []
  refused :
      {b : Decimal} {rows : List ReplayLedgerRow}
      → All (λ r. Moves b b r × (r.profit_loss ≡ zero_decimal)) rows
      → Accounts b rows
  settled :
      (rows rest : List ReplayLedgerRow) {b after : Decimal} {ledger : List ReplayLedgerRow}
      → ledger ≡ rows ++ rest
      → All (Moves b after) rows
      → after ≡ add b (sum_from zero_decimal (map (λ r. r.profit_loss) (bet_rows rows)))
      → sum_from zero_decimal (map (λ r. r.requested_stake) (bet_rows rows)) ≼ b
      → All (λ r. is_back r.action ≡ true → row_pnl r ≡ some r.profit_loss) rows
      → (rest ≡ []) ⊎ (whole 0 ≺ after)
      → Accounts after rest
      → Accounts b ledger

stopped_rows-refused :
    (asked : List Asked) (index : ℕ) (b : Decimal) (s : PolicyState)
    → All (λ r. Moves b b r × (r.profit_loss ≡ zero_decimal)) (stopped_rows asked index b s)
unfolding stopped_rows
stopped_rows-refused [] index b s = tt
stopped_rows-refused ((d, r) ∷ rest) index b s =
    (((refl, refl), refl), stopped_rows-refused rest index b s)

unfunded_rows-refused :
    (asked : List Asked) (index : ℕ) (b : Decimal) (s : PolicyState)
    → All (λ r. Moves b b r × (r.profit_loss ≡ zero_decimal)) (unfunded_rows asked index b s)
unfolding unfunded_rows
unfunded_rows-refused [] index b s = tt
unfunded_rows-refused ((d, r) ∷ rest) index b s =
    (((refl, refl), refl), unfunded_rows-refused rest index b s)

pnl_agrees :
    (d : CapitalDecision) (r : StakeRequest)
    → bet_pnl d r ≡ pnl_of (action_won d.action d.outcome) d.price r.applied
unfolding bet_pnl
pnl_agrees d r = elim (Option-cases d.price) [
  | inl unpriced ↦ rw unpriced
  | inr (q, priced) ↦ rw priced
]

module _ (index : ℕ) (b after : Decimal) (depleted : Bool) where
  abbrev rows_of : List Settled → List ReplayLedgerRow
  rows_of xs = settled_rows xs index b after depleted

  settled_rows-Moves : (xs : List Settled) → All (Moves b after) (rows_of xs)
  unfolding settled_rows
  settled_rows-Moves [] = tt
  settled_rows-Moves (x ∷ xs) = ((refl, refl), settled_rows-Moves xs)

  settled_rows-pnl :
      (xs : List Settled)
      → map (λ r. r.profit_loss) (bet_rows (rows_of xs)) ≡ map (λ x. x.pnl) (bets_of xs)
  unfolding settled_rows
  settled_rows-pnl [] = refl
  settled_rows-pnl (x ∷ xs) = elim (Bool-cases (actionable x.decision)) [
    | inl bets ↦ rw bets (ap (λ ys. x.pnl ∷ ys) (settled_rows-pnl xs))
    | inr idle ↦ rw idle (settled_rows-pnl xs)
  ]

  settled_rows-stakes :
      (xs : List Settled)
      → map (λ r. r.requested_stake) (bet_rows (rows_of xs))
        ≡ map (λ x. x.request.requested) (bets_of xs)
  unfolding settled_rows
  settled_rows-stakes [] = refl
  settled_rows-stakes (x ∷ xs) = elim (Bool-cases (actionable x.decision)) [
    | inl bets ↦ rw bets (ap (λ ys. x.request.requested ∷ ys) (settled_rows-stakes xs))
    | inr idle ↦ rw idle (settled_rows-stakes xs)
  ]

  settled_rows-row_pnl :
      (xs : List Settled)
      → All (λ x. actionable x.decision ≡ true → bet_pnl x.decision x.request ≡ some x.pnl) xs
      → All (λ r. is_back r.action ≡ true → row_pnl r ≡ some r.profit_loss) (rows_of xs)
  unfolding settled_rows bet_pnl
  settled_rows-row_pnl [] h = tt
  settled_rows-row_pnl (x ∷ xs) h =
      ((λ bets. sym (pnl_agrees x.decision x.request) ∙ h.0 bets), settled_rows-row_pnl xs h.1)

-- A settled batch within the bankroll, before a ledger that starts at the new bankroll.
settled-Accounts :
    (index : ℕ) (b : Decimal) (asked : List Asked) (e : BatchEnd) (depleted : Bool)
    (rest : List ReplayLedgerRow)
    → IsSettled zero_decimal asked e
    → sum_from zero_decimal (requested_stakes asked) ≼ b
    → (rest ≡ []) ⊎ (whole 0 ≺ add b e.batch_pnl)
    → Accounts (add b e.batch_pnl) rest
    → Accounts b (settled_rows e.settled index b (add b e.batch_pnl) depleted ++ rest)
settled-Accounts index b asked e depleted rest i funded more later =
    let after = add b e.batch_pnl in
    settled (settled_rows e.settled index b after depleted) rest refl
      (settled_rows-Moves index b after depleted e.settled)
      (ap (add b) (
        i.total
        ∙ ap (sum_from zero_decimal) (sym (settled_rows-pnl index b after depleted e.settled))))
      (rw (settled_rows-stakes index b after depleted e.settled, ← i.stakes) funded)
      (settled_rows-row_pnl index b after depleted e.settled i.each_pnl) more later

after_batch-Accounts :
    (index : ℕ) (b : Decimal) (asked : List Asked) (e : BatchEnd) (later : Option Progress)
    {g : Progress}
    → IsSettled zero_decimal asked e
    → sum_from zero_decimal (requested_stakes asked) ≼ b
    → ((k : Progress) → later ≡ some k → Accounts (add b e.batch_pnl) k.ledger)
    → after_batch index b e later ≡ some g
    → Accounts b g.ledger
unfolding after_batch
after_batch-Accounts index b asked e later i funded go h =
    let after = add b e.batch_pnl in
    elim (Bool-cases (le_decimal after zero_decimal)) [
      | inl empty ↦
          subst (λ g. Accounts b g.ledger) (same_of_some (rw (empty, after_batch) at h))
            (settled-Accounts index b asked e true [] i funded (inl refl) closed)
      | inr left ↦
          (let (k, ran, is) = bind-eq-some later _ (rw (left, after_batch) at h) in
            subst (λ g. Accounts b g.ledger) (same_of_some is)
              (settled-Accounts index b asked e false k.ledger i funded
                (inr (not_le_decimal→≺ after zero_decimal left)) (go k ran)))
    ]

pub replay_batches-Accounts :
    (p : Policy) (index : ℕ) (b : Decimal) (s : PolicyState) (bs : List Batch) {g : Progress}
    → replay_batches p index b s bs ≡ some g
    → Accounts b g.ledger
unfolding replay_batches
replay_batches-Accounts p index b s [] h = subst (λ g. Accounts b g.ledger) (same_of_some h) closed
replay_batches-Accounts p index b s ((t, ds) ∷ rest) {g} h =
    let (asked, asking, next) = bind-eq-some (batch_requests p b s ds) _ h in
    let exposure = sum_from zero_decimal (requested_stakes asked) in
    elim (Bool-cases (any ends_run asked)) [
      | inl ends ↦
          subst (λ g. Accounts b g.ledger) (same_of_some (rw ends at next))
            (refused (stopped_rows-refused asked index b s))
      | inr runs ↦ elim (Bool-cases (lt_decimal b exposure)) [
        | inl short ↦
            subst (λ g. Accounts b g.ledger) (same_of_some (rw (runs, short) at next))
              (refused (unfunded_rows-refused asked index b s))
        | inr funded ↦
            (let (e, settling, is) =
                bind-eq-some (settle_batch p s zero_decimal asked) _ (rw (runs, funded) at next) in
              after_batch-Accounts index b asked e _
                (settle_batch-IsSettled p s zero_decimal asked
                  (batch_requests-IsAligned p b s ds asking).0 settling)
                (not_lt_decimal→≼ b exposure funded)
                (λ k ran.
                  replay_batches-Accounts p (suc index) (add b e.batch_pnl) e.state rest ran)
                is)
      ]
    ]

replayed_run_inv :
    (p : Policy) (o : Option Progress) {run : ReplayRun}
    → replayed_run p o ≡ replayed run
    → (g : Progress) × (o ≡ some g) × (run ≡ run_of p g)
replayed_run_inv p none h = cc
replayed_run_inv p (some g) h = (g, refl, cc)

replayed_inv :
    (ds : List CapitalDecision) (p : Policy) (b : Decimal) {run : ReplayRun}
    → replay ds p b ≡ replayed run
    → (g : Progress) × (replay_batches p 1 b initial_state (group_by_time ds) ≡ some g)
      × (run ≡ run_of p g)
unfolding replay
replayed_inv ds p b {run} h = elim (Bool-cases (le_decimal b zero_decimal)) [
  | inl poor ↦
      absurd
        (let e : unavailable invalid_initial_bankroll ≡ replayed run = rw (poor, replay) at h in cc)
  | inr funded ↦ elim (Bool-cases (all_unresolved ds)) [
    | inl open_all ↦ absurd (
        let e : unavailable insufficient_resolved_decisions ≡ replayed run =
          rw (funded, open_all, replay) at h in
        cc)
    | inr some_known ↦ elim (Option-cases (validate_basis ds p true)) [
      | inl fine ↦
          replayed_run_inv p (replay_batches p 1 b initial_state (group_by_time ds))
            (rw (funded, some_known, fine, replay) at h)
      | inr (reason, bad) ↦ absurd (
          let e : unavailable reason ≡ replayed run = rw (funded, some_known, bad, replay) at h in
          cc)
    ]
  ]
]

-- When `replay` produces a ledger, it accounts for the initial bankroll: every batch but the last
-- is settled, each of its bets won at its price or lost its stake, the bankroll moved by the sum of
-- their profits, the batch asked for no more than the bankroll before it, and the run went on only
-- with a positive bankroll; a last batch that is refused moved nothing.
pub replay-Accounts :
    (ds : List CapitalDecision) (p : Policy) (b : Decimal) {run : ReplayRun}
    → replay ds p b ≡ replayed run
    → Accounts b run.ledger
replay-Accounts ds p b h =
    let (g, ran, is) = replayed_inv ds p b h in
    subst (λ r. Accounts b r.ledger) (sym is)
      (replay_batches-Accounts p 1 b initial_state (group_by_time ds) ran)
