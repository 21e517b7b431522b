-- ===== src/Examples.antt =====
-- The theorems at small concrete inputs, with the numbers of thousandths as floats.
mod Data
mod Stopping
mod Coalitions
mod Contexts
mod Datasets
mod Campaigns
mod Projection
mod Evidence
mod Artifacts
mod Inference
mod Execution
