-- ===== src/Evaluation.antt =====
-- The offline evaluation of served recommendations: recommendation_api/app/evaluate.py and metrics.py.
pub mod Metrics
pub mod Records
pub mod Split
pub mod Times
pub mod Leakage
pub mod Hits
pub mod Scores
mod Tests
