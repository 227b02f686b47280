-- ===== src/Runtime/Tests.antt =====
-- A placement and its settlement, at concrete amounts.
use finsport.Prelude.{◌≡◌, ◌⊎◌, refl, ℕ, true, false, none, some, Option, [], ◌∷◌, ◌++◌, arith}
use finsport.Decimal.{
  Decimal, whole, add, sub, mul, div, lt_decimal, le_decimal, eq_decimal, max_decimal,
}
use finsport.Decimal.Order.{◌≼◌, ◌≺◌}
use finsport.Capital.Contracts.{StakeRequest, home}
use finsport.Capital.Policies.{request, zero_decimal, flat_unit, initial_state}
use finsport.Runtime.State.{
  Account, Candidate, ExecutionState, Position, settled_win, find_state, is_open, available_cash,
}
use finsport.Runtime.Place.{no_work, Placing, Validation, done, raised, position_placed}
use finsport.Runtime.Place.Steps.{book, recheck, fund, stake, capital_decision}
use finsport.Runtime.Place.Entry.{
  enter, admit, screen, place_at, place_candidate, call_for, basis_of,
}
use finsport.Runtime.Place.Outcome.{IsBooked}
use finsport.Runtime.Place.Final.{place_once}
use finsport.Runtime.Place.Admission.{IsEvidence}
use finsport.Runtime.Place.Guards.{place_guards, place_reserves}
use finsport.Runtime.Settle.{
  Observation, finished, Settling, settled, idle, failed, find_position, save_position, settled_pnl,
  settlement, next_drawdown, close_config, close, settle_open, settle_position,
}
use finsport.Runtime.Settle.Once.{settle_once}
use finsport.Runtime.Settle.Funds.{settle_funds, IsResult}
use finsport.Runtime.Reach.{
  Reaches-IsWithinLanes, IsWithinLanes, start, then_step, place_step, settle_step,
}
use finsport.Runtime.Ledger.{Move, escrow, Step-refines}
use finsport.Strategy.Deployment.{admission_reason, ok, is_config}
use finsport.Samples.{evidence, config, deployment}

-- Amounts here have at most eight places, so that the column keeps them.
abbrev kept : Decimal → Decimal
kept x = x

abbrev approved : Validation
approved k basis = none

abbrev fresh : Account
fresh = record { config = config 1; states = []; positions = [] }

abbrev full : Account
full =
    let c = config 1 in record { config = record c { max_lanes = 0 }; states = []; positions = [] }

abbrev placing : Account → Placing
placing a = place_candidate kept a (evidence 7) 10000 deployment approved 8300 8301 none

abbrev placed_account : Account → Placing → Account
placed_account a (done b o) = b
placed_account a (raised e) = a

abbrev settled_account : Account → Settling → Account
settled_account a (settled b t) = b
settled_account a idle = a
settled_account a (failed e) = a

abbrev holding : Account
holding = placed_account fresh (placing fresh)

abbrev home_win : Observation
home_win = record { match_id = 7; status_short = finished; outcome = some home }

abbrev settling : Settling
settling = settle_position kept kept holding 7 home_win 20000

abbrev paid : Account
paid = settled_account holding settling

abbrev queued : Account
queued = placed_account full (placing full)

place_guards_example :
    (s : Option ExecutionState) × (used : Candidate) × (r : StakeRequest) × (t : ℕ) × (find_state 7
        []
      ≡ s)
    × IsEvidence (evidence 7) s used
    × IsBooked kept (call_for kept fresh s used 10000 8300 8301 none) r t holding
    × (admission_reason deployment (config 1) ≡ ok none)
    × ((is_config (some 1) 1 ≡ false) ⊎ (approved used (basis_of s) ≡ none))
unfolding place_candidate place_at screen admit enter stake fund recheck book admission_reason
    find_state request add sub lt_decimal le_decimal eq_decimal max_decimal
place_guards_example =
    place_guards kept fresh (evidence 7) 10000 deployment approved 8300 8301 none refl

place_reserves_example :
    (used : Candidate) × (pk : ℕ) × (r : StakeRequest) × (p : Position) × IsEvidence
      (evidence 7)
      (find_state 7 [])
      used
    × (used.decision ≡ some pk)
    × (request (flat_unit (whole 2)) (capital_decision kept used pk) (whole 5) initial_state
        ≡ some r)
    × (r.requested ≼ available_cash (config 1))
    × (holding.positions ≡ [] ++ p ∷ [])
    × (is_open p.status ≡ true)
    × (p.match_id ≡ used.match_id)
    × (p.requested_stake ≡ r.requested)
    × (p.applied_stake ≡ r.applied)
    × (zero_decimal ≺ p.applied_stake)
    × (holding.config.reserved_exposure ≡ add (whole 0) r.applied)
    × (add (whole 0) r.applied ≼ whole 5)
    × (holding.config.bankroll_equity ≡ whole 5)
unfolding place_candidate place_at screen admit enter stake fund recheck book admission_reason
    find_state request add sub lt_decimal le_decimal eq_decimal max_decimal
place_reserves_example =
    place_reserves kept fresh (evidence 7) 10000 deployment approved 8300 8301 none refl

place_once_example :
    place_candidate kept holding (evidence 7) 10000 deployment approved 9000 9001 (some 9000)
    ≡ done holding no_work
unfolding place_candidate place_at screen admit enter stake fund recheck book admission_reason
    find_state request add sub lt_decimal le_decimal eq_decimal max_decimal
place_once_example =
    place_once kept fresh (evidence 7) 10000 deployment approved 8300 8301 none (evidence 7) 10000
      deployment approved 9000 9001 (some 9000) refl refl

settle_once_example : settle_position kept kept paid 7 home_win 21000 ≡ idle
unfolding place_candidate place_at screen admit enter stake fund recheck book admission_reason
    find_state request add sub mul lt_decimal le_decimal eq_decimal max_decimal settle_position
    settle_open close close_config settlement settled_pnl find_position save_position next_drawdown
    div
settle_once_example =
    settle_once kept kept holding 7 home_win 20000 {t = settled_win} home_win 21000 refl

settle_funds_example :
    (p : Position) × (pnl : Decimal) × (find_position 7 holding.positions ≡ some p)
    × (is_open p.status ≡ true)
    × (7 ≡ p.match_id)
    × IsResult p home_win settled_win pnl
    × (p.applied_stake ≼ holding.config.reserved_exposure)
    × (paid.config.bankroll_equity ≡ add holding.config.bankroll_equity pnl)
    × (paid.config.reserved_exposure ≡ sub holding.config.reserved_exposure p.applied_stake)
unfolding place_candidate place_at screen admit enter stake fund recheck book admission_reason
    find_state request add sub mul lt_decimal le_decimal eq_decimal max_decimal settle_position
    settle_open close close_config settlement settled_pnl find_position save_position next_drawdown
    div
settle_funds_example = settle_funds kept kept holding 7 home_win 20000 {t = settled_win} refl

Reaches-IsWithinLanes_example : IsWithinLanes paid
unfolding place_candidate place_at screen admit enter stake fund recheck book admission_reason
    find_state request add sub mul lt_decimal le_decimal eq_decimal max_decimal settle_position
    settle_open close close_config settlement settled_pnl find_position save_position next_drawdown
    div
Reaches-IsWithinLanes_example = Reaches-IsWithinLanes kept kept fresh {b = paid} (omega arith) (
    then_step
      (then_step start
        (place_step (evidence 7) 10000 deployment approved 8300 8301 none position_placed refl))
      (settle_step 7 home_win 20000 settled_win refl))

Step-refines_example : Move kept (escrow holding) (escrow paid)
unfolding place_candidate place_at screen admit enter stake fund recheck book admission_reason
    find_state request add sub mul lt_decimal le_decimal eq_decimal max_decimal settle_position
    settle_open close close_config settlement settled_pnl find_position save_position next_drawdown
    div
Step-refines_example =
    Step-refines kept kept {a = holding} {b = paid} (settle_step 7 home_win 20000 settled_win refl)
