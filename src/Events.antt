-- ===== src/Events.antt =====
-- `run_event_path` of football/experiments/capital_events.py: the offline replay of a policy in
-- event time, where a stake is reserved from its execution until its settlement. `none` is a raised
-- error. A wake takes the pending opportunities out and puts back those that still wait: the code
-- looks a pending one up only by its own identity. The trace, the counts of its kinds and the
-- time under water, which is a float, are left out.
pub mod Wake
pub mod Moves
pub mod Sound
pub mod Complete
mod Tests
use finsport.Prelude.{
  ℕ, suc, ◌+◌, ◌*◌, Bool, true, false, not, ◌&&◌, ◌||◌, Option, none, some, List, [], ◌∷◌, ◌++◌,
  ◌==◌, ltb, leb, if◌then◌else◌, ◌>>=◌, keep, any, length, map,
}
use finsport.Decimal.{
  Decimal, whole, add, sub, neg, mul, div, lt_decimal, le_decimal, eq_decimal, max_decimal,
  min_decimal,
}
use finsport.Capital.Contracts.{
  Outcome, same_outcome, back, CapitalDecision, StakeRequest, PolicyState, Termination, running,
  bankroll_depleted, has_terminated,
}
use finsport.Capital.Policies.{Policy, request, settle, initial_state, zero_decimal}

-- The economic basis of an opportunity whose action is BET.
pub record Bet : Type 0 where
  pub selected_outcome : Outcome
  pub price : Decimal
  pub probability : Decimal

-- `Opportunity`; `bet` is `none` for NO_BET. Times are seconds.
pub record Opportunity : Type 0 where
  pub identity : ℕ
  pub source_id : ℕ
  pub kickoff : ℕ
  pub execution_at : ℕ
  pub bet : Option Bet
  pub actual_outcome : Outcome

pub record Opened : Type 0 where
  pub settlement_at : ℕ
  pub opportunity : Opportunity
  pub stake : StakeRequest

pub data PathStatus : Type 0 where
  no_bet_status settled_status expired_capacity path_terminated policy_termination : PathStatus
  zero_stake pending_capacity open_status : PathStatus

-- The variables of the loop. `coming` holds the groups whose time has not come, and `wakes` the
-- heap in order.
pub record EventPath : Type 0 where
  pub equity : Decimal
  pub reserved : Decimal
  pub peak : Decimal
  pub drawdown : Decimal
  pub peak_reserved : Decimal
  pub total_staked : Decimal
  pub min_cash : Decimal
  pub state : PolicyState
  pub termination : Termination
  pub ruined : Bool
  pub pending : List Opportunity
  pub opened : List Opened
  pub coming : List Opportunity
  pub wakes : List ℕ
  pub statuses : List (ℕ × PathStatus)
  pub stakes : List Decimal

-- `statuses[identity] = status`
unfoldable pub set_status : ℕ → PathStatus → List (ℕ × PathStatus) → List (ℕ × PathStatus)
set_status n s [] = (n, s) ∷ []
set_status n s (row ∷ rows) =
    let rest = set_status n s rows in if row.0 == n then (n, s) ∷ rows else row ∷ rest

-- `heappush` of a time that is not scheduled yet.
unfoldable pub schedule : ℕ → List ℕ → List ℕ
schedule t [] = t ∷ []
schedule t (w ∷ wakes) =
    let rest = schedule t wakes in
    if t == w then w ∷ wakes else if ltb t w then t ∷ w ∷ wakes else w ∷ rest

-- `sorted(…, key=…)` by a test of what may stand before.
unfoldable pub insert_by {ℓ} : {A : Type ℓ} → (A → A → Bool) → A → List A → List A
insert_by before x [] = x ∷ []
insert_by before x (y ∷ ys) =
    let rest = insert_by before x ys in if before x y then x ∷ y ∷ ys else y ∷ rest

unfoldable pub sort_by {ℓ} : {A : Type ℓ} → (A → A → Bool) → List A → List A
unfolding insert_by
sort_by before [] = []
sort_by before (x ∷ xs) = insert_by before x (sort_by before xs)

-- `rank`: the highest expected value first, then the earliest kickoff, then the identity.
abbrev pub rank_value : Opportunity → Decimal
rank_value o = elim o.bet [
  | none ↦ zero_decimal
  | some b ↦ neg (sub (mul b.probability b.price) (whole 1))
]

unfoldable pub before_rank : Opportunity → Opportunity → Bool
before_rank x y =
    if lt_decimal (rank_value x) (rank_value y)
    then true
    else if not (eq_decimal (rank_value x) (rank_value y))
    then false
    else if x.kickoff == y.kickoff
    then leb x.identity y.identity
    else ltb x.kickoff y.kickoff

abbrev pub before_due : Opened → Opened → Bool
before_due x y =
    if x.settlement_at == y.settlement_at
    then leb x.opportunity.identity y.opportunity.identity
    else ltb x.settlement_at y.settlement_at

-- `invariant()`
unfoldable pub take_stock : EventPath → Option EventPath
take_stock p =
    if lt_decimal p.equity p.reserved && lt_decimal zero_decimal p.equity
    then none
    else some (record p {
      min_cash = min_decimal p.min_cash (sub p.equity p.reserved);
      peak_reserved = max_decimal p.peak_reserved p.reserved;
    })

abbrev pub or_termination : Termination → Termination → Termination
or_termination t u = if has_terminated t then t else u

abbrev pub check_ruin : EventPath → EventPath
check_ruin p =
    if le_decimal p.equity zero_decimal
    then record p { ruined = true; termination = or_termination p.termination bankroll_depleted }
    else p

abbrev pub path_pnl : Bet → StakeRequest → Bool → Decimal
path_pnl b r won = if won then mul r.applied (sub b.price (whole 1)) else neg r.applied

abbrev pub is_won : Opened → Bet → Bool
is_won x b = same_outcome x.opportunity.actual_outcome b.selected_outcome

abbrev pub settled_equity : Opened → Bet → EventPath → Decimal
settled_equity x b p = add p.equity (path_pnl b x.stake (is_won x b))

-- `(peak - equity) / peak` after the new peak.
abbrev pub path_drawdown : Opened → Bet → EventPath → Option Decimal
path_drawdown x b p =
    let equity = settled_equity x b p in
    let peak = max_decimal p.peak equity in div (sub peak equity) peak

abbrev pub settled_path : Policy → Opened → Bet → Decimal → EventPath → EventPath
settled_path policy x b d p = record p {
  reserved = sub p.reserved x.stake.applied;
  state = (settle policy p.state x.stake (is_won x b)).0;
  equity = settled_equity x b p;
  peak = max_decimal p.peak (settled_equity x b p);
  drawdown = max_decimal p.drawdown d;
  statuses = set_status x.opportunity.identity settled_status p.statuses;
}

-- The body of the loop over the positions that are due.
unfoldable pub settle_one : Policy → Opened → EventPath → Option EventPath
unfolding take_stock
settle_one policy x p = x.opportunity.bet >>= λ b. path_drawdown x b p >>= λ d.
    take_stock (settled_path policy x b d p) >>= λ q. some (check_ruin q)

unfoldable pub settle_due : Policy → List Opened → EventPath → Option EventPath
unfolding settle_one
settle_due policy [] p = some p
settle_due policy (x ∷ xs) p = settle_one policy x p >>= λ q. settle_due policy xs q

-- The status of an opportunity that leaves, and of one that waits.
abbrev pub leave : Opportunity → PathStatus → EventPath → EventPath
leave o s p = record p { statuses = set_status o.identity s p.statuses }

abbrev pub wait : Opportunity → EventPath → EventPath
wait o p = record p {
  pending = p.pending ++ o ∷ [];
  statuses = set_status o.identity pending_capacity p.statuses;
}

-- The policies read neither the action nor the outcome of a decision.
abbrev pub path_decision : Opportunity → Bet → CapitalDecision
path_decision o b = record {
  source_id = o.source_id;
  decision_time = o.execution_at;
  action = back b.selected_outcome;
  outcome = none;
  price = some b.price;
  probability = some b.probability;
  observation_id = none;
  observation_time = some o.execution_at;
}

unfoldable pub place : ℕ → Opportunity → StakeRequest → EventPath → Option EventPath
unfolding take_stock
place lag o r p =
    let at = o.kickoff + lag * 60 in
    take_stock (record p {
      reserved = add p.reserved r.applied;
      total_staked = add p.total_staked r.applied;
      stakes = p.stakes ++ r.applied ∷ [];
      opened = p.opened ++ record { settlement_at = at; opportunity = o; stake = r } ∷ [];
      wakes = schedule at p.wakes;
      statuses = set_status o.identity open_status p.statuses;
    })

-- After the request of the policy.
unfoldable pub take_request : ℕ → Opportunity → StakeRequest → EventPath → Option EventPath
unfolding place
take_request lag o r p =
    if has_terminated r.termination_reason
    then some (leave o policy_termination (record p { termination = r.termination_reason }))
    else if le_decimal r.requested zero_decimal || le_decimal r.applied zero_decimal
    then some (leave o zero_stake p)
    else if lt_decimal (sub p.equity p.reserved) r.requested
    then some (wait o p)
    else place lag o r p

unfoldable pub ask_policy : Policy → ℕ → Opportunity → EventPath → Option EventPath
unfolding take_request
ask_policy policy lag o p = o.bet >>= λ b.
    request policy (path_decision o b) p.equity p.state >>= λ r. take_request lag o r p

-- The body of the loop over the merged opportunities.
unfoldable pub consider : Policy → ℕ → ℕ → ℕ → Opportunity → EventPath → Option EventPath
unfolding ask_policy
consider policy max_lanes lag at o p =
    if has_terminated p.termination
    then some (leave o path_terminated p)
    else if leb o.kickoff at
    then some (leave o expired_capacity p)
    else if leb max_lanes (length p.opened)
    then some (wait o p)
    else ask_policy policy lag o p

unfoldable pub consider_all : Policy → ℕ → ℕ → ℕ → List Opportunity → EventPath → Option EventPath
unfolding consider
consider_all policy max_lanes lag at [] p = some p
consider_all policy max_lanes lag at (o ∷ os) p =
    consider policy max_lanes lag at o p >>= λ q. consider_all policy max_lanes lag at os q

abbrev pub leave_all : List Opportunity → PathStatus → EventPath → EventPath
leave_all [] s p = p
leave_all (o ∷ os) s p = leave_all os s (leave o s p)
