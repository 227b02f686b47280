-- ===== src/Events/Tests.antt =====
-- A path of two opportunities on one lane.
use finsport.Prelude.{◌*◌, ◌≡◌, refl, none, some, Option, List, [], ◌∷◌, pos, length, true}
use finsport.Decimal.{
  Decimal, whole, add, sub, neg, mul, div, lt_decimal, le_decimal, eq_decimal, max_decimal,
  min_decimal,
}
use finsport.Capital.Contracts.{home, away}
use finsport.Capital.Policies.{Policy, flat_unit, request, settle}
use finsport.Events.{
  EventPath, Opportunity, schedule, sort_by, insert_by, before_rank, set_status, take_stock,
  settle_one, settle_due, place, take_request, ask_policy, consider, consider_all, settled_status,
}
use finsport.Events.Wake.{
  wake, merged, run_wakes, initial_path, is_distinct, finish_path, run_event_path,
}
use finsport.Events.Sound.{IsSound}
use finsport.Events.Complete.{run_wakes_complete, run_wakes-IsWithinLanes}

abbrev price : Decimal
price = record { coefficient = pos 25; scale = 1 }

abbrev chance : Decimal
chance = record { coefficient = pos 5; scale = 1 }

abbrev first_bet : Opportunity
first_bet = record {
  identity = 1;
  source_id = 11;
  kickoff = 3600;
  execution_at = 1800;
  bet = some (record { selected_outcome = home; price = price; probability = chance });
  actual_outcome = home;
}

abbrev second_bet : Opportunity
second_bet = record {
  identity = 2;
  source_id = 12;
  kickoff = 20000;
  execution_at = 1900;
  bet = some (record { selected_outcome = home; price = price; probability = chance });
  actual_outcome = away;
}

abbrev both : List Opportunity
both = first_bet ∷ second_bet ∷ []

abbrev policy : Policy
policy = flat_unit (whole 1)

abbrev path_of : Option EventPath → EventPath
path_of none = initial_path []
path_of (some p) = p

-- The second bet waits for the lane of the first; one wins at 2.5 and the other loses.
both_settled :
    let p = path_of (run_event_path both policy 1 120) in
    (p.statuses ≡ (1, settled_status) ∷ (2, settled_status) ∷ [])
    × (eq_decimal p.equity (record { coefficient = pos 1005; scale = 1 }) ≡ true)
unfolding run_event_path is_distinct finish_path run_wakes wake merged sort_by insert_by before_rank
    schedule settle_due settle_one consider_all consider ask_policy take_request place take_stock
    set_status request settle add sub neg mul div lt_decimal le_decimal eq_decimal max_decimal
    min_decimal
both_settled = (refl, refl)

run_wakes_complete_example :
    let p = path_of (run_wakes (2 * length both) policy 1 120 (initial_path both)) in
    (p.wakes ≡ []) × (p.opened ≡ [])
unfolding run_wakes wake merged sort_by insert_by before_rank schedule settle_due settle_one
    consider_all consider ask_policy take_request place take_stock set_status request settle add sub
    neg mul div lt_decimal le_decimal eq_decimal max_decimal min_decimal
run_wakes_complete_example = run_wakes_complete policy 1 120 both refl

run_wakes-IsWithinLanes_example : IsSound 1 (path_of (run_wakes 1 policy 1 120 (initial_path both)))
unfolding run_wakes wake merged sort_by insert_by before_rank schedule settle_due settle_one
    consider_all consider ask_policy take_request place take_stock set_status request settle add sub
    neg mul div lt_decimal le_decimal eq_decimal max_decimal min_decimal
run_wakes-IsWithinLanes_example = run_wakes-IsWithinLanes 1 policy 1 120 both refl
