-- ===== src/Runtime.antt =====
-- The event-time runtime of football/capital/runtime.py: bankrolls, execution states, positions and
-- their placement and settlement.
pub mod State
pub mod Place
pub mod Settle
pub mod Reach
pub mod Ledger
mod Tests
