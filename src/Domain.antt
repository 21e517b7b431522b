-- ===== src/Domain.antt =====
-- The shared vocabulary: src/fedcampaign_emhi/domain/enums.py in `Enums`,
-- src/fedcampaign_emhi/domain/types.py in `Types`, and the records that the detector's stages
-- exchange, src/fedcampaign_emhi/artifacts/records.py, in `Records`.
pub mod Enums
pub mod Types
pub mod Records
