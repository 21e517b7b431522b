-- ===== src/Evaluation.antt =====
-- src/fedcampaign_emhi/evaluation/metrics.py: stops and rates in `Metrics`, drifts, errors and
-- similarities in `Numerics`, the ranking of detector scores in `Ranking`.
pub mod Metrics
pub mod Numerics
