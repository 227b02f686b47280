-- ===== src/Strategy.antt =====
-- The deployment of football/strategy: admission of new stakes, draining and depletion.
pub mod Deployment
mod Tests
