-- ===== src/Datasets.antt =====
-- The datasets: chronological partitions and horizons in `Partitions`, removal of duplicate events in
-- `Deduplication`, and the registry of campaigns in `Campaigns`.
pub mod Partitions
pub mod Deduplication
pub mod Campaigns
pub mod Eligibility
