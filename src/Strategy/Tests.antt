-- ===== src/Strategy/Tests.antt =====
-- The deployment at a concrete ledger.
use finsport.Prelude.{◌≡◌, ◌≢◌, refl, true, none, List, [], ◌∷◌, All}
use finsport.Decimal.{eq_decimal, le_decimal, sum_from}
use finsport.Runtime.State.{Account}
use finsport.Strategy.Deployment.{
  Deployment, stopped_mode, solvent, ok, request_drain, drain_complete, update_depletion,
  admission_reason, with_config, cancel_pending, cancel_states, member, account_drained, Verdict,
  SuccessorMode,
}
use finsport.Strategy.Deployment
use finsport.Samples.{config, account, deployment}
use finsport.Strategy.Deployment.Barrier.{request_drain_closes, update_depletion_blocks}
use finsport.Strategy.Deployment.Drain.{
  drain_complete_sound, request_drain_cancels, IsDrained, AreCancelled,
}

abbrev unchanged_pair : Deployment × List Account
unchanged_pair = (deployment, [])

abbrev verdict_or : {A : Type 0} → A → Verdict A → A
verdict_or a (ok b) = b
verdict_or a (finsport.Strategy.Deployment.raised e) = a

abbrev drained_pair : Deployment × List Account
drained_pair = verdict_or unchanged_pair (request_drain stopped_mode 9000 deployment (account ∷ []))

request_drain_closes_example : admission_reason drained_pair.0 (config 1) ≢ ok none
unfolding request_drain cancel_pending cancel_states member
request_drain_closes_example =
    request_drain_closes stopped_mode 9000 deployment (account ∷ []) (config 1) refl refl

request_drain_cancels_example : AreCancelled (1 ∷ []) (account ∷ []) drained_pair.1
unfolding request_drain cancel_pending cancel_states member
request_drain_cancels_example =
    request_drain_cancels stopped_mode 9000 deployment (account ∷ []) refl refl

abbrev depleted_deployment : Deployment
depleted_deployment = verdict_or deployment (update_depletion deployment account)

update_depletion_blocks_example : admission_reason depleted_deployment (config 1) ≢ ok none
unfolding update_depletion eq_decimal le_decimal
update_depletion_blocks_example =
    update_depletion_blocks deployment account refl refl refl refl refl

abbrev idle_account : Account
idle_account = record { config = config 1; states = []; positions = [] }

drain_complete_sound_example :
    All (λ a. member a.config.pk (1 ∷ []) ≡ true → IsDrained a) (idle_account ∷ [])
unfolding drain_complete account_drained member sum_from eq_decimal
drain_complete_sound_example = drain_complete_sound (1 ∷ []) (idle_account ∷ []) refl
