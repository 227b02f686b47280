-- ===== src/Prediction.antt =====
-- The decision policies of football/prediction/policies.py, over the probabilities of a model.
pub mod Policies
pub mod Choice
mod Tests
