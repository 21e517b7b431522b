-- ===== src/Thresholds.antt =====
-- src/fedcampaign_emhi/emhi/thresholds.py: the one-sided Clopper-Pearson bound and the choice of
-- the global threshold. `ppf` stands for `scipy.stats.beta.ppf`.
pub mod Selected
use fed_campaign_emhi.Prelude.{
  ℕ, ◌+◌, ◌-◌, Bool, not, Option, none, some, List, ltb, ◌==◌, if◌then◌else◌, length, zip, Result,
  ok, value_error, raise_if, ◌>>=◌, ◌>>◌,
}
use fed_campaign_emhi.Prelude.Float.{Float, unity, ◌⊘◌}
use fed_campaign_emhi.Prelude.Order.{sorted}
use fed_campaign_emhi.Prelude.Selection.{select_first}

-- `beta.ppf(confidence, a, b)`.
abbrev pub Ppf : Type 0 → Type 0
Ppf F = F → ℕ → ℕ → F

module _ {F : Type 0} where
  -- The threshold of the pair that the loop ends at.
  abbrev pub threshold_of : Option (F × ℕ) → Option F
  threshold_of none = none
  threshold_of (some pair) = some pair.0

module _ {F : Type 0} ⦃f : Float F⦄ (ppf : Ppf F) where
  -- A count is never negative, so only `false_stop_count > horizon_count` is left of its test.
  unfoldable pub clopper_pearson_one_sided_upper_bound : ℕ → ℕ → F → Result F
  clopper_pearson_one_sided_upper_bound false_stop_count horizon_count confidence = do
    raise_if (horizon_count == 0) value_error
    raise_if (ltb horizon_count false_stop_count) value_error
    ok (
        if false_stop_count == horizon_count
        then unity
        else ppf confidence (false_stop_count + 1) (horizon_count - false_stop_count))

  -- The test of the loops over candidates: `upper <= target_pfa`.
  unfoldable pub meets_target : F → ℕ → F → ℕ → Result Bool
  meets_target confidence horizon_count target_pfa false_stop_count = do
    upper ← clopper_pearson_one_sided_upper_bound false_stop_count horizon_count confidence
    ok (f.le upper target_pfa)

  unfoldable pub select_calibrated_threshold : List F → List ℕ → ℕ → F → F → Result (Option F)
  select_calibrated_threshold candidates false_stop_counts horizon_count confidence target_pfa = do
    raise_if (not (length candidates == length false_stop_counts)) value_error
    selected ←
        select_first (λ (pair : F × ℕ). meets_target confidence horizon_count target_pfa pair.1)
          (sorted (λ (a b : F × ℕ). f.le a.0 b.0) (zip candidates false_stop_counts))
    ok (threshold_of selected)

module _ {F : Type 0} ⦃f : Float F⦄ where
  unfoldable pub esr_threshold_from_arl_alpha : F → F
  esr_threshold_from_arl_alpha arl_alpha = unity ⊘ arl_alpha
