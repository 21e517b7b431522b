-- ===== src/Inference.antt =====
-- src/fedcampaign_emhi/analysis/statistics.py: exact intervals, sign-flip tests and the step-down
-- correction of Holm. `ppf` stands for `scipy.stats.beta.ppf`. The bootstrap and the Monte Carlo draws are
-- calls of numpy and are not modelled.
pub mod Patterns
pub mod Holm
use fed_campaign_emhi.Prelude.{
  ℕ, zero, suc, ◌+◌, ◌-◌, ◌*◌, ◌/◌, ◌%◌, ◌^◌, Bool, not, ◌&&◌, ◌||◌, Option, none, some, List, [],
  ◌∷◌, map, ltb, leb, ◌==◌, if◌then◌else◌, length, count_if, replicate, set, zip, traverse, Result,
  ok, err, value_error, key_error, zero_division_error, raise_if, ◌>>=◌, ◌>>◌, is_some, all, any,
}
use fed_campaign_emhi.Prelude.Str.{Str, str_eq, str_le}
use fed_campaign_emhi.Prelude.Sets.{str_eq_instance, contains, set_of}
use fed_campaign_emhi.Prelude.Dict.{dict_get}
use fed_campaign_emhi.Prelude.Order.{sorted}
use fed_campaign_emhi.Prelude.Float.{
  Float, nought, unity, magnitude, larger, negated, ◌⊕◌, ◌⊖◌, ◌⊗◌, ◌⊘◌,
}
use fed_campaign_emhi.Thresholds.{Ppf}

pub data SignFlipDirection : Type 0 where
  positive negative : SignFlipDirection

unfoldable pub sign_flip_assignment_count : ℕ → ℕ
sign_flip_assignment_count confirmatory_seed_count = 2 ^ confirmatory_seed_count

-- The rounds of the loop that are left, with `remaining`.
pattern_loop : ℕ → ℕ → List SignFlipDirection
pattern_loop zero remaining = []
pattern_loop (suc rounds) remaining =
    (if remaining % 2 == 0 then positive else negative) ∷ pattern_loop rounds (remaining / 2)

unfoldable pub exact_sign_pattern : ℕ → ℕ → Result (List SignFlipDirection)
unfolding pattern_loop
exact_sign_pattern assignment_index unit_count = do
  raise_if (leb (2 ^ unit_count) assignment_index) value_error
  ok (pattern_loop unit_count assignment_index)

unfoldable pub enumerate_exact_when_family_fits : ℕ → ℕ → Bool
unfolding sign_flip_assignment_count
enumerate_exact_when_family_fits unit_count maximum_replicates =
    leb (sign_flip_assignment_count unit_count) maximum_replicates

-- `range(n)`.
abbrev pub range_from : ℕ → ℕ → List ℕ
range_from start zero = []
range_from start (suc rounds) = start ∷ range_from (suc start) rounds

module _ {F : Type 0} ⦃f : Float F⦄ where
  unfoldable pub clopper_pearson_two_sided_interval : Ppf F → ℕ → ℕ → F → Result (F × F)
  clopper_pearson_two_sided_interval ppf successes total confidence = do
    raise_if (total == 0) value_error
    raise_if (ltb total successes) value_error
    let alpha = unity ⊖ confidence
    ok (
      (if successes == 0 then nought else ppf (alpha ⊘ f.of_ℕ 2) successes (total - successes + 1)),
      (if successes == total
          then unity
          else ppf (unity ⊖ (alpha ⊘ f.of_ℕ 2)) (successes + 1) (total - successes)),
    )

  unfoldable pub sign_flip_p_value : F → List F → Bool → Result F
  sign_flip_p_value observed flipped alternative_greater = do
    raise_if (length flipped == 0) value_error
    let extreme =
        if alternative_greater
        then count_if (λ statistic. f.le observed statistic) flipped
        else count_if (λ statistic. f.le (magnitude observed) (magnitude statistic)) flipped
    ok (f.of_ℕ extreme ⊘ f.of_ℕ (length flipped))

  unfoldable pub paired_difference : List F → List F → Result (List F)
  paired_difference treatment reference = do
    raise_if (not (length treatment == length reference)) value_error
    ok (map (λ (pair : F × F). pair.0 ⊖ pair.1) (zip treatment reference))

  -- `difference * sign`, where the sign is the integer 1 or -1.
  abbrev pub signed_by : F × SignFlipDirection → F
  signed_by (difference, positive) = difference ⊗ unity
  signed_by (difference, negative) = difference ⊗ negated unity

  unfoldable pub flipped_mean : List F → List SignFlipDirection → Result F
  flipped_mean differences pattern = do
    raise_if (not (length differences == length pattern)) value_error
    raise_if (length differences == 0) zero_division_error
    let signed = map signed_by (zip differences pattern)
    ok (f.sum signed ⊘ f.of_ℕ (length signed))

  abbrev pub mean_at : List F → ℕ → Result F
  mean_at differences index = do
    pattern ← exact_sign_pattern index (length differences)
    flipped_mean differences pattern

  unfoldable pub exact_sign_flip_means : List F → Result (List F)
  exact_sign_flip_means differences = do
    raise_if (length differences == 0) value_error
    traverse (mean_at differences) (range_from 0 (sign_flip_assignment_count (length differences)))

  unfoldable pub monte_carlo_sign_flip_p_value : ℕ → ℕ → F
  monte_carlo_sign_flip_p_value extreme_count replicate_count =
      f.of_ℕ (1 + extreme_count) ⊘ f.of_ℕ (1 + replicate_count)

  unfoldable pub interval_establishes_equivalence : F → F → F → F → Bool
  interval_establishes_equivalence lower upper region_lower region_upper =
      f.le region_lower lower && f.le upper region_upper
