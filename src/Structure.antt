-- ===== src/Structure.antt =====
-- src/fedcampaign_emhi/emhi/structure.py: coalitions in `Coalitions`, midranks in `Ranks`, the rank
-- lookup and its cache in `Lookup`, the tensor basis in `Tensor`.
pub mod Coalitions
pub mod Ranks
pub mod Lookup
pub mod Tensor
