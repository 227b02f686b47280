-- ===== src/Strategy/Deployment.antt =====
-- football/strategy/deployment.py: the admission barrier. The deployment row is serial; what
-- `resolve_authority` and `verify_config` find (the files of the authority, the digests of the
-- bindings) enters as the two Booleans `authority_intact` and `config_verified`.
pub mod Drain
pub mod Barrier
use finsport.Prelude.{
  ◌≡◌, refl, ℕ, suc, Bool, true, false, not, ◌||◌, ◌&&◌, Option, none, some, List, [], ◌∷◌, ◌++◌,
  map, ◌==◌, if◌then◌else◌, any, all, count_if,
}
use finsport.Decimal.{Decimal, whole, add, sum_from, le_decimal, eq_decimal}
use finsport.Runtime.State.{
  RuntimeConfig, Account, ExecutionState, Position, Reason, StateStatus, not_placed, is_active,
  is_pending, is_open, is_resolved, open_positions, strategy_draining, strategy_stopped,
  awaiting_final_open_settlement, operational_depletion, Diagnostics,
}

pub data DeploymentState : Type 0 where
  old_active draining drained active stopped : DeploymentState

abbrev pub is_draining : DeploymentState → Bool
is_draining draining = true
is_draining old_active = false
is_draining drained = false
is_draining active = false
is_draining stopped = false

abbrev pub is_old_active : DeploymentState → Bool
is_old_active old_active = true
is_old_active draining = false
is_old_active drained = false
is_old_active active = false
is_old_active stopped = false

abbrev pub is_live : DeploymentState → Bool
is_live active = true
is_live old_active = false
is_live draining = false
is_live drained = false
is_live stopped = false

abbrev pub is_stopped : DeploymentState → Bool
is_stopped stopped = true
is_stopped old_active = false
is_stopped draining = false
is_stopped drained = false
is_stopped active = false

pub data Depletion : Type 0 where
  solvent awaiting_settlement depleted : Depletion

pub data SuccessorMode : Type 0 where
  stopped_mode diagnostic_only : SuccessorMode

pub record Deployment : Type 0 where
  pub config_id : Option ℕ
  pub state : DeploymentState
  pub entry_enabled : Bool
  pub has_epoch : Bool
  pub depletion_state : Depletion
  pub depletion_floor : Decimal
  pub retiring_config_ids : List ℕ
  pub successor_mode : Option SuccessorMode
  pub authority_intact : Bool
  pub config_verified : Bool

pub data DeploymentError : Type 0 where
  depletion_floor_drift authority_drift config_drift ledger_exposure_mismatch : DeploymentError
  pending_with_position : DeploymentError

pub data Verdict (A : Type 0) : Type 0 where
  ok : A → Verdict A
  raised : DeploymentError → Verdict A

infixl 5 ◌>>=◌
abbrev pub ◌>>=◌ : {A B : Type 0} → Verdict A → (A → Verdict B) → Verdict B
ok a >>= f = f a
raised e >>= f = raised e

pub bind-eq-ok :
    {A B : Type 0} (m : Verdict A) (f : A → Verdict B) {b : B}
    → (m >>= f) ≡ ok b
    → (a : A) × (m ≡ ok a) × (f a ≡ ok b)
bind-eq-ok (ok a) f h = (a, refl, h)
bind-eq-ok (raised e) f h = cc

pub same_of_ok : {A : Type 0} {a b : A} → ok a ≡ ok b → a ≡ b
same_of_ok h = cc

-- `DEPLETION_FLOOR`
abbrev pub approved_floor : Decimal
approved_floor = whole 5

abbrev pub is_config : Option ℕ → ℕ → Bool
is_config none pk = false
is_config (some i) pk = i == pk

abbrev pub drain_reason : DeploymentState → Reason
drain_reason state = if is_draining state then strategy_draining else strategy_stopped

abbrev depletion_reason : Depletion → Option Reason
depletion_reason solvent = none
depletion_reason awaiting_settlement = some awaiting_final_open_settlement
depletion_reason depleted = some operational_depletion

-- The end of `admission_reason`, for a live deployment of this configuration.
verified_reason : Deployment → Verdict (Option Reason)
verified_reason d =
    if not d.has_epoch && not d.authority_intact
    then raised authority_drift
    else if not d.config_verified
    then raised config_drift
    else ok (depletion_reason d.depletion_state)

-- `admission_reason`; the empty string is `none`.
unfoldable pub admission_reason : Deployment → RuntimeConfig → Verdict (Option Reason)
unfolding verified_reason
admission_reason d c =
    if not (eq_decimal d.depletion_floor approved_floor) && c.automatic
    then raised depletion_floor_drift
    else if not c.automatic
    then ok none
    else if not c.entry_enabled
    then ok (some (drain_reason d.state))
    else if is_old_active d.state
    then ok none
    else if not (is_config d.config_id c.pk) || (not d.entry_enabled || not (is_live d.state))
    then ok (some (drain_reason d.state))
    else if not (is_active c.status) || not c.current
    then ok (some strategy_stopped)
    else verified_reason d

-- One state of `cancel_pending`.
abbrev cancelled : ℕ → ExecutionState → ExecutionState
cancelled at s =
    let notes = s.diagnostics in
    record s {
      status = not_placed;
      reason = some strategy_draining;
      terminal_at = some at;
      diagnostics = record notes { previous_status = some s.status };
    }

unfoldable pub cancel_states : ℕ → List ExecutionState → Verdict (List ExecutionState)
cancel_states at [] = ok []
cancel_states at (s ∷ rest) =
    let others = cancel_states at rest in
    if not (is_pending s.status)
    then (others >>= λ r. ok (s ∷ r))
    else if s.has_position
    then raised pending_with_position
    else (others >>= λ r. ok (cancelled at s ∷ r))

unfoldable pub member : ℕ → List ℕ → Bool
member k [] = false
member k (i ∷ rest) = k == i || member k rest

-- `cancel_pending`, with the update of `entry_enabled` that goes before it at both calls.
unfoldable pub cancel_pending : List ℕ → ℕ → List Account → Verdict (List Account)
unfolding cancel_states member
cancel_pending ids at [] = ok []
cancel_pending ids at (a ∷ rest) = do
  others ← cancel_pending ids at rest
  let c = a.config
  if member c.pk ids
      then (cancel_states at a.states >>= λ states.
          ok (record a { config = record c { entry_enabled = false }; states = states } ∷ others))
      else ok (a ∷ others)

-- One configuration of `drain_complete`.
unfoldable pub account_drained : Account → Verdict Bool
account_drained a =
    if not (
      eq_decimal (sum_from (whole 0) (map (λ p. p.applied_stake) (open_positions a.positions)))
        a.config.reserved_exposure)
    then raised ledger_exposure_mismatch
    else if any (λ p. is_open p.status) a.positions
    then ok false
    else if any (λ p. not (is_resolved p.debt_status)) a.positions
    then ok false
    else ok (not (any (λ s. is_pending s.status) a.states))

unfoldable pub drain_complete : List ℕ → List Account → Verdict Bool
unfolding account_drained member
drain_complete ids [] = ok true
drain_complete ids (a ∷ rest) =
    let others = drain_complete ids rest in
    if member a.config.pk ids
    then (account_drained a >>= λ done. if done then others else ok false)
    else others

-- `sorted(set(retiring) | {config_id})`, as a list without repetition.
abbrev pub with_config : Option ℕ → List ℕ → List ℕ
with_config none ids = ids
with_config (some i) ids = if member i ids then ids else i ∷ ids

-- `request_drain`: entries close, pending opportunities end, and the deployment drains.
unfoldable pub request_drain :
    SuccessorMode → ℕ → Deployment → List Account → Verdict (Deployment × List Account)
unfolding cancel_pending
request_drain mode at d accounts =
    let ids = with_config d.config_id d.retiring_config_ids in
    let closed = record d {
      state = draining;
      entry_enabled = false;
      retiring_config_ids = ids;
      successor_mode = some mode;
    } in
    let drained = cancel_pending ids at accounts >>= λ after. ok (closed, after) in
    if is_stopped d.state then ok (d, accounts) else drained

-- `update_depletion`, over the one configuration of the deployment.
next_depletion : Depletion → Bool → Bool → Depletion
next_depletion awaiting_settlement low true = awaiting_settlement
next_depletion previous true has_open = if has_open then awaiting_settlement else depleted
next_depletion solvent false has_open = solvent
next_depletion previous false false = solvent
next_depletion previous false true = previous

unfoldable pub update_depletion : Deployment → Account → Verdict Deployment
unfolding next_depletion
update_depletion d a =
    if not (is_config d.config_id a.config.pk) || not (is_live d.state)
    then ok d
    else if not (eq_decimal d.depletion_floor approved_floor)
    then raised depletion_floor_drift
    else ok (record d {
      depletion_state =
          next_depletion d.depletion_state (le_decimal a.config.bankroll_equity d.depletion_floor)
            (any (λ p. is_open p.status) a.positions);
    })
