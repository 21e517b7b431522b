-- ===== src/Evidence/Clip.antt =====
-- The bounds of a clipped statistic.
use fed_campaign_emhi.Prelude.Float.{Float}
