-- ===== src/Events/Wake.antt =====
-- One wake of `run_event_path`, and the loop over them.
use finsport.Prelude.{
  ℕ, zero, suc, ◌*◌, Bool, true, false, not, ◌&&◌, ◌||◌, Option, none, some, List, [], ◌∷◌, ◌++◌,
  ◌==◌, leb, if◌then◌else◌, ◌>>=◌, keep, any, length,
}
use finsport.Decimal.{whole}
use finsport.Capital.Contracts.{has_terminated, running}
use finsport.Capital.Policies.{Policy, initial_state, zero_decimal}
use finsport.Events.{
  Opportunity, Opened, PathStatus, EventPath, expired_capacity, path_terminated, no_bet_status,
  open_status, pending_capacity, sort_by, before_rank, before_due, settle_due, consider_all,
  leave_all, schedule,
}

abbrev pub is_due_at : ℕ → Opened → Bool
is_due_at at x = leb x.settlement_at at

abbrev pub is_late : ℕ → Opportunity → Bool
is_late at o = leb o.kickoff at

abbrev pub is_bet : Opportunity → Bool
is_bet o = elim o.bet [ none ↦ false | some b ↦ true ]

-- `if termination:` after the loop: whatever still waits is terminated.
abbrev pub clear_terminated : EventPath → EventPath
clear_terminated p =
    if has_terminated p.termination
    then (let q = leave_all p.pending path_terminated p in record q { pending = [] })
    else p

-- The opportunities that a wake takes up, in the order of their ranks.
unfoldable pub merged : ℕ → EventPath → List Opportunity
unfolding sort_by before_rank
merged at p = sort_by before_rank (
    keep (λ o. not (is_late at o)) p.pending
    ++ keep (λ o. o.execution_at == at && is_bet o) p.coming)

-- Between the settlements and the placements: what waited too long expires, and the new group is
-- taken.
abbrev pub take_group : ℕ → EventPath → EventPath
take_group at p =
    let expired = leave_all (keep (is_late at) p.pending) expired_capacity p in
    let passed =
      leave_all (keep (λ o. o.execution_at == at && not (is_bet o)) p.coming) no_bet_status
        expired in
    record passed { pending = []; coming = keep (λ o. not (o.execution_at == at)) p.coming }

abbrev pub set_due : ℕ → EventPath → EventPath
set_due at p = record p { opened = keep (λ x. not (is_due_at at x)) p.opened }

-- The wake at `at`, which has been popped from the heap.
unfoldable pub wake : Policy → ℕ → ℕ → ℕ → EventPath → Option EventPath
unfolding sort_by settle_due consider_all merged
wake policy max_lanes lag at p =
    settle_due policy (sort_by before_due (keep (is_due_at at) p.opened)) (set_due at p) >>= λ s.
    consider_all policy max_lanes lag at (merged at s) (take_group at s) >>= λ r.
    some (clear_terminated r)

-- `heappop`, when there is a wake.
abbrev pub pop : (ℕ → EventPath → Option EventPath) → List ℕ → EventPath → Option EventPath
pop step [] p = some p
pop step (at ∷ wakes) p = step at (record p { wakes = wakes })

-- `while wakes:`, at most `fuel` times.
unfoldable pub run_wakes : ℕ → Policy → ℕ → ℕ → EventPath → Option EventPath
unfolding wake
run_wakes zero policy max_lanes lag p = some p
run_wakes (suc fuel) policy max_lanes lag p =
    pop (λ at r. wake policy max_lanes lag at r >>= λ q. run_wakes fuel policy max_lanes lag q)
      p.wakes p

abbrev pub all_wakes : List Opportunity → List ℕ
all_wakes [] = []
all_wakes (o ∷ os) = schedule o.execution_at (all_wakes os)

abbrev pub initial_path : List Opportunity → EventPath
initial_path os = record {
  equity = whole 100;
  reserved = zero_decimal;
  peak = whole 100;
  drawdown = zero_decimal;
  peak_reserved = zero_decimal;
  total_staked = zero_decimal;
  min_cash = whole 100;
  state = initial_state;
  termination = running;
  ruined = false;
  pending = [];
  opened = [];
  coming = os;
  wakes = all_wakes os;
  statuses = [];
  stakes = [];
}

unfoldable pub is_distinct : List Opportunity → Bool
is_distinct [] = true
is_distinct (o ∷ os) = not (any (λ x. x.identity == o.identity) os) && is_distinct os

abbrev pub is_unfinished : PathStatus → Bool
is_unfinished s = elim s [ open_status ↦ true | pending_capacity ↦ true | _ ↦ false ]

abbrev pub is_lag : ℕ → Bool
is_lag lag = lag == 120 || lag == 130 || lag == 150

abbrev pub is_empty {ℓ} : {A : Type ℓ} → List A → Bool
is_empty [] = true
is_empty (x ∷ xs) = false

-- What follows the loop: what still waits expires, and an unfinished path raises.
unfoldable pub finish_path : EventPath → Option EventPath
finish_path p =
    let q = leave_all p.pending expired_capacity p in
    if not (is_empty q.opened) || any (λ row. is_unfinished row.1) q.statuses then none else some q

-- `run_event_path`. Every opportunity gives at most two wakes.
unfoldable pub run_event_path : List Opportunity → Policy → ℕ → ℕ → Option EventPath
unfolding schedule is_distinct run_wakes finish_path
run_event_path os policy max_lanes lag =
    if not (is_lag lag) || not (is_distinct os) || leb max_lanes 0
    then none
    else run_wakes (2 * length os) policy max_lanes lag (initial_path os) >>= λ p. finish_path p
