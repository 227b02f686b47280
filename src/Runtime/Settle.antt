-- ===== src/Runtime/Settle.antt =====
-- `settle_position` and `settle_observation` of football/capital/runtime.py. `column` and `ratio`
-- are what the 24,8 and the 18,12 numeric columns give back for a value. A position is found by its
-- match, which is unique in one configuration.
pub mod Once
pub mod Funds
pub mod Batch
use finsport.Prelude.{
  ℕ, ◌+◌, Bool, true, false, not, ◌&&◌, Option, none, some, List, [], ◌∷◌, ◌==◌, if◌then◌else◌,
  ◌>>=◌, suc, map,
}
use finsport.Decimal.{Decimal, whole, add, sub, neg, mul, div, lt_decimal, le_decimal, max_decimal}
use finsport.Capital.Contracts.{Outcome, StakeRequest, PolicyState, action_won, no_reason, running}
use finsport.Capital.Policies.{settle, zero_decimal}
use finsport.Runtime.State.{
  RuntimeConfig, Account, Position, PositionStatus, is_open, settled_win, settled_loss, void,
  terminated, bankroll_depleted, resolved,
}

-- `status_short` of a recognized result; `VOID_STATUSES` are the last two.
pub data ResultStatus : Type 0 where
  finished canc abd : ResultStatus

abbrev pub is_void : ResultStatus → Bool
is_void finished = false
is_void canc = true
is_void abd = true

pub record Observation : Type 0 where
  pub match_id : ℕ
  pub status_short : ResultStatus
  pub outcome : Option Outcome

pub data SettleError : Type 0 where
  result_position_match_mismatch reserved_exposure_underflow missing_price : SettleError

-- The code that `settle_position` returns, with the account; `failed` rolls back.
pub data Settling : Type 0 where
  settled : Account → PositionStatus → Settling
  idle : Settling
  failed : SettleError → Settling

unfoldable pub find_position : ℕ → List Position → Option Position
find_position m [] = none
find_position m (p ∷ rest) = if p.match_id == m then some p else find_position m rest

unfoldable pub save_position : Position → List Position → List Position
save_position q [] = []
save_position q (p ∷ rest) = if p.match_id == q.match_id then q ∷ rest else p ∷ save_position q rest

-- The request that the position was placed with.
abbrev stake_request : Position → StakeRequest
stake_request p = record {
  requested = p.requested_stake;
  applied = p.applied_stake;
  reason = no_reason;
  cap_hit = p.cap_hit;
  shortfall = p.shortfall;
  termination_reason = running;
  step = p.policy_step;
  target_profit = p.target_profit;
}

abbrev pub won : Position → Observation → Bool
won p obs = action_won p.basis.action obs.outcome

-- `applied_stake * (price - 1)` on a win, `-applied_stake` on a loss.
unfoldable pub settled_pnl : Position → Bool → Option Decimal
settled_pnl p true =
    p.basis.selected_price >>= λ price. some (mul p.applied_stake (sub price (whole 1)))
settled_pnl p false = some (neg p.applied_stake)

pub record Settlement : Type 0 where
  pub status : PositionStatus
  pub pnl : Decimal
  pub state_after : PolicyState

unfoldable pub settlement : RuntimeConfig → Position → Observation → Option Settlement
unfolding settled_pnl
settlement c p obs =
    if is_void obs.status_short
    then some (record { status = void; pnl = zero_decimal; state_after = p.policy_state_before })
    else (settled_pnl p (won p obs) >>= λ pnl. some (record {
      status = if won p obs then settled_win else settled_loss;
      pnl = pnl;
      state_after = (settle c.policy p.policy_state_before (stake_request p) (won p obs)).0;
    }))

-- `maximum_drawdown` after a settlement; the division is by a positive peak.
unfoldable pub next_drawdown : Decimal → Decimal → Decimal → Decimal
next_drawdown peak equity previous =
    if lt_decimal zero_decimal peak
    then elim (div (sub peak equity) peak) [ none ↦ previous | some d ↦ max_decimal previous d ]
    else previous

module _ (column ratio : Decimal → Decimal) where
  -- `config.save()`: the exposure is released and the result applied.
  abbrev released : RuntimeConfig → Position → Settlement → RuntimeConfig
  released c p s =
      let equity = add c.bankroll_equity s.pnl in
      let peak = max_decimal c.peak_equity equity in
      record c {
        reserved_exposure = column (sub c.reserved_exposure p.applied_stake);
        bankroll_equity = column equity;
        policy_state = s.state_after;
        peak_equity = column peak;
        maximum_drawdown = ratio (next_drawdown peak equity c.maximum_drawdown);
      }

  -- A depleted bankroll ends a configuration that is not strategic.
  unfoldable pub close_config : RuntimeConfig → Position → Settlement → ℕ → RuntimeConfig
  unfolding next_drawdown
  close_config c p s at =
      let after = released c p s in
      if le_decimal (add c.bankroll_equity s.pnl) zero_decimal && not c.strategic
      then record after {
        status = terminated;
        practical_ruin = true;
        termination_reason = some bankroll_depleted;
        completed_at = some at;
      }
      else after

  abbrev pub closed_position : Position → Settlement → ℕ → Position
  closed_position p s at = record p {
    status = s.status;
    settled_at = some at;
    realized_pnl = column s.pnl;
    policy_state_after = s.state_after;
    debt_status = resolved;
    next_result_check_at = none;
    result_refresh_error = none;
  }

  unfoldable pub close : Account → Position → Settlement → ℕ → Settling
  unfolding close_config
  close a p s at =
      if lt_decimal a.config.reserved_exposure p.applied_stake
      then failed reserved_exposure_underflow
      else settled
          (record a {
            config = close_config a.config p s at;
            positions = save_position (closed_position p s at) a.positions;
          })
          s.status

  unfoldable pub settle_open : Account → Position → Observation → ℕ → Settling
  unfolding close settlement
  settle_open a p obs at =
      if not (obs.match_id == p.match_id)
      then failed result_position_match_mismatch
      else elim (settlement a.config p obs) [
        | none ↦ failed missing_price
        | some s ↦ close a p s at
      ]

  -- `settle_position` of the position on match `m`; there is nothing to do when it is not open.
  unfoldable pub settle_position : Account → ℕ → Observation → ℕ → Settling
  unfolding settle_open find_position save_position
  settle_position a m obs at = elim (find_position m a.positions) [
    | none ↦ idle
    | some p ↦ if is_open p.status then settle_open a p obs at else idle
  ]

  -- `settle_observation`: one transaction for each configuration. It stops at the first that
  -- fails, with the earlier ones kept; the number is that of the positions settled.
  unfoldable pub settle_observation :
      List Account → Observation → ℕ → List Account × (ℕ × Option SettleError)
  unfolding settle_position
  settle_observation [] obs at = ([], (0, none))
  settle_observation (a ∷ rest) obs at =
      let (others, (count, error)) = settle_observation rest obs at in
      elim (settle_position a obs.match_id obs at) [
        | settled b status ↦ (b ∷ others, (suc count, error))
        | idle ↦ (a ∷ others, (count, error))
        | failed e ↦ (a ∷ rest, (0, some e))
      ]
