-- ===== src/Results.antt =====
-- The result boundary: football/result_provider.py, football/result_routing.py.
pub mod Provider
pub mod Record
pub mod Route
pub mod Gate
pub mod Due
mod Tests
pub mod Settlement
