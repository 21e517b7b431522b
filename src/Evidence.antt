-- ===== src/Evidence.antt =====
-- src/fedcampaign_emhi/emhi/evidence.py and src/fedcampaign_emhi/emhi/innovations.py: evidence factors,
-- the cumulative state of an atom, the centring of innovations.  The quantile of
-- numpy and the mean and deviation of `statistics` are parameters.
pub mod Clip
pub mod Cumulative
use fed_campaign_emhi.Prelude.{
  ℕ, zero, suc, Bool, not, ◌||◌, List, [], ◌∷◌, map, ltb, ◌==◌, if◌then◌else◌, length, zip,
  replicate, Result, ok, err, value_error, index_error, raise_if, traverse, ◌>>=◌, ◌>>◌, get_elem?,
  Option, none, some,
}
use fed_campaign_emhi.Prelude.Float.{
  Float, nought, unity, larger, negated, ◌⊕◌, ◌⊖◌, ◌⊗◌, ◌⊘◌, ◌**◌,
}

pub record CumulativeAtomState (F : Type 0) : Type 0 where
  pub running_sum : List F
  pub epoch_count : ℕ

module _ {F : Type 0} where
  unfoldable pub initial_cumulative_atom_state : CumulativeAtomState F
  initial_cumulative_atom_state = record { running_sum = []; epoch_count = 0 }

module _ {F : Type 0} ⦃f : Float F⦄ where
  abbrev pub base_of : CumulativeAtomState F → List F → List F
  base_of previous atom =
      if previous.epoch_count == 0 then map (λ value. nought) atom else previous.running_sum

  abbrev pub sums : List F → List F → List F
  sums base atom = map (λ (pair : F × F). pair.0 ⊕ pair.1) (zip base atom)

  unfoldable pub advance_cumulative_atom_state :
      CumulativeAtomState F → List F → Result (CumulativeAtomState F)
  advance_cumulative_atom_state previous atom = do
    let base = base_of previous atom
    raise_if (not (length base == length atom)) value_error
    ok (record { running_sum = sums base atom; epoch_count = suc previous.epoch_count })

  unfoldable pub clip_statistic : F → F → F
  clip_statistic statistic clip_bound =
      if f.lt clip_bound statistic
      then clip_bound
      else if f.lt statistic (negated clip_bound)
      then negated clip_bound
      else statistic

  unfoldable pub signed_theorem_compensator : F → F → F
  signed_theorem_compensator clip_bound bet_lambda =
      ((bet_lambda ** 2) ⊗ ((f.of_ℕ 2 ⊗ clip_bound) ** 2)) ⊘ f.of_ℕ 8

  unfoldable pub evidence_factor : F → F → F → F
  evidence_factor statistic clip_bound bet_lambda = f.exp (
      (bet_lambda ⊗ clip_statistic statistic clip_bound)
      ⊖ signed_theorem_compensator clip_bound bet_lambda)

  unfoldable pub signed_evidence_factor : F → F → F → F
  signed_evidence_factor signed_statistic clip_bound bet_lambda =
      evidence_factor signed_statistic clip_bound bet_lambda

  unfoldable pub euclidean_norm : List F → F
  euclidean_norm coordinates =
      f.sqrt (f.sum (map (λ coordinate. coordinate ⊗ coordinate) coordinates))

  unfoldable pub operational_norm_statistic : List F → F → F → F → F
  operational_norm_statistic coordinates reference_quantile norm_reference_floor clip_bound =
      clip_statistic
        ((euclidean_norm coordinates ⊘ larger reference_quantile norm_reference_floor) ⊖ unity)
        clip_bound

  -- The constant 0.125.
  abbrev pub operational_evidence_compensator : F
  operational_evidence_compensator = unity ⊘ f.of_ℕ 8

  unfoldable pub operational_evidence_factor : List F → F → F → F → F → F
  operational_evidence_factor coordinates reference_quantile norm_reference_floor clip_bound
        bet_lambda =
      f.exp (
        (bet_lambda
          ⊗ operational_norm_statistic coordinates reference_quantile norm_reference_floor
              clip_bound)
        ⊖ operational_evidence_compensator)

  unfoldable pub cumulative_operational_evidence_factor :
      CumulativeAtomState F → List F → F → F → F → F → Result (F × CumulativeAtomState F)
  cumulative_operational_evidence_factor state atom reference_quantile norm_reference_floor
        clip_bound bet_lambda =
      do
        updated ← advance_cumulative_atom_state state atom
        let normalized_sum =
            map (λ value. value ⊘ f.sqrt (f.of_ℕ updated.epoch_count)) updated.running_sum
        ok (
          operational_evidence_factor normalized_sum reference_quantile norm_reference_floor
              clip_bound bet_lambda,
          updated,
        )

  unfoldable pub signed_statistic : List F → List F → F → Result F
  signed_statistic standardized_atom direction clip_bound = do
    raise_if (not (length standardized_atom == length direction)) value_error
    ok (
        clip_statistic
          (f.sum (map (λ (pair : F × F). pair.0 ⊗ pair.1) (zip standardized_atom direction)))
          clip_bound)

  -- `quantile_of` is `np.quantile`.
  unfoldable pub operational_norm_reference_quantile :
      (quantile_of : List F → F → F) → List (List F) → F → Result F
  operational_norm_reference_quantile quantile_of standardized_atoms quantile = do
    raise_if (length standardized_atoms == 0) value_error
    ok (quantile_of (map euclidean_norm standardized_atoms) quantile)

  unfoldable pub within_order_aggregate : List F → F
  within_order_aggregate factors =
      if length factors == 0 then unity else f.sum factors ⊘ f.of_ℕ (length factors)

  unfoldable pub across_order_aggregate : List F → Result F
  across_order_aggregate order_factors = do
    raise_if (length order_factors == 0) value_error
    ok (f.sum order_factors ⊘ f.of_ℕ (length order_factors))

  -- `mean_of` is `statistics.fmean`, and `deviation_of` is `statistics.stdev`.
  unfoldable pub sample_mean : (mean_of : List F → F) → List F → Result F
  sample_mean mean_of values = do raise_if (length values == 0) value_error; ok (mean_of values)

  unfoldable pub sample_standard_deviation : (deviation_of : List F → F) → List F → Result F
  sample_standard_deviation deviation_of values = do
    raise_if (ltb (length values) 2) value_error
    ok (deviation_of values)

  unfoldable pub centered_scaled_coordinate : F → F → F → F → F
  centered_scaled_coordinate coordinate mean deviation scale_floor =
      (coordinate ⊖ mean) ⊘ larger deviation scale_floor

  unfoldable pub center_and_scale_atom : List F → List F → List F → F → Result (List F)
  center_and_scale_atom atom means deviations scale_floor = do
    raise_if (not (length atom == length means) || not (length atom == length deviations))
        value_error
    ok (
        map
          (λ (entry : F × (F × F)).
            centered_scaled_coordinate entry.0 (entry.1).0 (entry.1).1 scale_floor)
          (zip atom (zip means deviations)))

  -- `sum` of `coefficients[column][coordinate] * design_value` over the columns, from 0.
  predicted_coordinate : ℕ → F → List (List F) → List F → Result F
  predicted_coordinate coordinate total coefficients [] = ok total
  predicted_coordinate coordinate total [] (value ∷ design_row) = err index_error
  predicted_coordinate coordinate total (row ∷ coefficients) (value ∷ design_row) =
      elim (get_elem? row coordinate) [
        | none ↦ err index_error
        | some coefficient ↦
            predicted_coordinate coordinate (total ⊕ (coefficient ⊗ value)) coefficients design_row
      ]

  -- The loop over the coordinates that are left, and the subtraction of each prediction.
  residual_loop : ℕ → List F → List (List F) → List F → Result (List F)
  unfolding predicted_coordinate
  residual_loop coordinate [] coefficients design_row = ok []
  residual_loop coordinate (left ∷ tensor) coefficients design_row = do
    predicted ← predicted_coordinate coordinate nought coefficients design_row
    rest ← residual_loop (suc coordinate) tensor coefficients design_row
    ok ((left ⊖ predicted) ∷ rest)

  unfoldable pub innovation_excludes_same_order_representation :
      List F → List (List F) → List F → Result (List F)
  unfolding residual_loop
  innovation_excludes_same_order_representation tensor coefficients design_row = do
    raise_if (not (length coefficients == length design_row)) value_error
    residual_loop 0 tensor coefficients design_row

  unfoldable pub projection_residual : List F → List (List F) → List F → Result (List F)
  projection_residual tensor coefficients design_row =
      innovation_excludes_same_order_representation tensor coefficients design_row

unfoldable pub unsupported_context_observation_count : ℕ → Bool
unsupported_context_observation_count observation_count = ltb observation_count 2
