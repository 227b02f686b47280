-- ===== src/Capital.antt =====
-- The capital evaluator of football/capital: its contracts, the staking policies, the replay of a
-- decision history and the metrics of a replay.
pub mod Contracts
pub mod Policies
pub mod Replay
pub mod Metrics
pub mod Pareto
mod Tests
