-- ===== src/Lib.antt =====
-- finsport: the simulated bankrolls of a football betting laboratory.
--
-- The program takes decisions (a bet on an outcome, or none) with a price observed before kickoff,
-- and stakes them from simulated bankrolls. football/capital/policies.py says how much a policy
-- asks for; football/capital/replay.py runs a policy over a history of decided matches;
-- football/capital/runtime.py does the same as events arrive, with reserved exposure, a number of
-- lanes and a settlement for each position; football/strategy/deployment.py admits one bankroll at
-- a time to new stakes, and drains or stops it. football/result_provider.py keeps what two
-- providers report of a match, and lets a result reach the match, from which the runtime settles;
-- football/result_routing.py says when a provider is asked and trusted.
--
-- Files, and the code of each:
--   Decimal          Python's decimal.Decimal under the default context: 28 digits, half even.
--                    Order has its comparisons as orders, Sign the signs that rounding keeps.
--   Capital/Contracts, Capital/Policies, Capital/Policies/Config, Capital/Replay,
--   Capital/Replay/Loop   the data, the seven policies, make_policy with _decimal, and replay.
--   Capital/Metrics  deterministic_metrics of football/capital/metrics.py, its numbers not printed.
--   Capital/Pareto   pareto_compare of the same file.
--   Runtime/State    the rows CapitalRuntimeConfig, CapitalExecutionState and CapitalPosition of
--                    football/models.py, and the frozen evidence of an execution basis.
--   Runtime/Place, Runtime/Place/Steps, Runtime/Place/Entry   place_candidate, in stages: Entry
--                    has its tests up to the lanes, Steps the request, the second reading of the
--                    clock and the booking, Place the exits.
--   Runtime/Settle   settle_position and settle_observation.
--   Runtime/Reach    any sequence of placements and settlements of one bankroll.
--   Events, Events/Wake   run_event_path of football/experiments/capital_events.py; Events has the
--                    loops inside a wake, Wake one wake and the loop over them.
--   Prediction/Policies   the decision policies of football/prediction/policies.py, over a type of
--                    floats with its operations.
--   Historical       fill_compatible_final_result of
--                    football/historical_market/result_reconciliation.py.
--   Quota            quota_state, result_check_opportunity and _open_result_matches of
--                    football/quota.py; dates in the provider's time zone are given.
--   Runtime/Ledger   the escrow of stakes that a bankroll keeps, as an abstract machine.
--   Results/Provider normalize_bsd of football/result_provider.py.
--   Results/Record, Results/Record/Steps   record of the same file: the judgement of the earlier
--                    rows, and the writes that follow.
--   Results/Gate, Results/Gate/Pairing   shadow_gate with its two queries, and sentinel_phase, with
--                    maybe_promote_shadow of football/result_routing.py.
--   Results/Route    _failure, _success, _ready and _confirmed_conflict of that file.
--   Results/Due      process_due_bsd of that file, over the parts above.
--   Results/Settlement   observe_terminal_result, and settle_locally_known_open_positions for one
--                    match, of football/capital/runtime.py.
--   Strategy/Deployment   the admission, the drain and the depletion of a deployment.
-- The other files beside these hold lemmas and theorems about them; Prelude has the shared tests
-- and list functions; Samples and the Tests modules are concrete runs.
--
-- How the code corresponds. A transaction is a function from the rows of one bankroll to a result
-- that carries the rows it commits; a raised error carries none, since the transaction rolls back.
-- The loops are structural recursion; itertools.groupby is groupby of Prelude/Lists. Fuel is in
-- the decimal rounding, where dividing n by ten at most n times leaves zero, so that n is enough,
-- and in the loop over the wakes of a path: the heap starts with one wake for each opportunity at
-- most, and each placement adds one at most.
-- Times are seconds since a fixed origin. The dictionary that holds the state of a recovery policy
-- is a record, and the empty dictionary of the other policies is its initial value. What a numeric
-- column gives back for a value written to it is a parameter, `column` (24,8) and `ratio` (18,12).
--
-- A placement reads the kickoff of the match at each call, also for evidence frozen earlier.
--
-- What is an argument, since it reads files, clocks or rows of other parts: the verdict of
-- validate_candidate on the evidence, that kickoff, the two readings of effective_now, whether the
-- authority of a deployment is intact and its configuration verified, whether the work item of a
-- frozen basis is accepted (a work item that has been executed is not executed again), and what the
-- client of the BSD provider brings, a rebinding after a 404 included.
--
-- What is not modelled: the audit rows of a placement, a settlement and a deployment (columns
-- *_before and *_after, CapitalDeploymentEvent), the stochastic metrics, the studies, the metrics
-- and the trace of a path, the statistical models, the capture of odds, the HTTP clients, BSD
-- events with an identifier that is neither a natural number nor null or with a score that is
-- neither an integer, a Boolean nor null, the recheck of pending conflicts, the other reserves of
-- the quota, and the reports. The locks that a transaction takes make it serial, so that one
-- transaction is one step.

pub mod Prelude
pub mod Decimal
pub mod Capital
pub mod Results
pub mod Runtime
pub mod Strategy
pub mod Quota
pub mod Events
pub mod Prediction
pub mod Historical
pub mod Samples
