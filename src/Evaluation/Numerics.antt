-- ===== src/Evaluation/Numerics.antt =====
-- src/fedcampaign_emhi/evaluation/metrics.py: attenuation, drifts, errors and similarities. Rows of
-- different lengths raise, as `zip(strict=True)` does.
use fed_campaign_emhi.Prelude.{
  not, List, [], ◌∷◌, map, ◌||◌, ◌==◌, length, traverse, Result, ok, err, value_error, raise_if,
  ◌>>=◌, ◌>>◌,
}
use fed_campaign_emhi.Prelude.Float.{Float, unity, magnitude, larger, ◌⊕◌, ◌⊖◌, ◌⊗◌, ◌⊘◌, ◌**◌}
use fed_campaign_emhi.Evidence.{euclidean_norm}

-- `zip(xs, ys, strict=True)`, read to the end.
unfoldable pub zip_strict {ℓ κ} :
    {A : Type ℓ} {B : Type κ} → List A → List B → Result (List (A × B))
zip_strict [] [] = ok []
zip_strict [] (y ∷ ys) = err value_error
zip_strict (x ∷ xs) [] = err value_error
zip_strict (x ∷ xs) (y ∷ ys) = do rest ← zip_strict xs ys; ok ((x, y) ∷ rest)

module _ {F : Type 0} ⦃f : Float F⦄ where
  -- `len(xs)` as a divisor.
  abbrev pub number_of {ℓ} : {A : Type ℓ} → List A → F
  number_of xs = f.of_ℕ (length xs)

  abbrev pub differences : List F → List F → Result (List F)
  differences left right = do
    pairs ← zip_strict left right
    ok (map (λ (pair : F × F). pair.0 ⊖ pair.1) pairs)

  abbrev pub squared_norm_of_difference : List F × List F → Result F
  squared_norm_of_difference (left, right) = do
    difference ← differences left right
    ok (euclidean_norm difference ** 2)

  abbrev pub inner_product : List F × List F → Result F
  inner_product (left, right) = do
    pairs ← zip_strict left right
    ok (f.sum (map (λ (pair : F × F). pair.0 ⊗ pair.1) pairs))

  abbrev pub squared_norms : List (List F) → List F
  squared_norms rows = map (λ row. euclidean_norm row ** 2) rows

  unfoldable pub self_explanation_attenuation : F → F → F → F
  self_explanation_attenuation residual_derivative direct_derivative metric_denominator_floor =
      unity
      ⊖ (magnitude residual_derivative ⊘ (magnitude direct_derivative ⊕ metric_denominator_floor))

  unfoldable pub self_explanation_material_contrast : F → F → F
  self_explanation_material_contrast inclusive_attenuation exact_attenuation =
      inclusive_attenuation ⊖ exact_attenuation

  unfoldable pub mean_log_evidence_growth : List F → Result F
  mean_log_evidence_growth log_evidence_factors = do
    raise_if (length log_evidence_factors == 0) value_error
    ok (f.sum log_evidence_factors ⊘ number_of log_evidence_factors)

  unfoldable pub proper_subset_drift : List F → List F → F → F → Result F
  unfolding zip_strict
  proper_subset_drift mean_under_alternative mean_under_null null_trace_sqrt floor = do
    raise_if (not (length mean_under_alternative == length mean_under_null)) value_error
    pairs ← zip_strict mean_under_alternative mean_under_null
    ok (
        f.sqrt (f.sum (map (λ (pair : F × F). (pair.0 ⊖ pair.1) ** 2) pairs))
        ⊘ larger null_trace_sqrt floor)

  -- `max` of floats, from the first.
  abbrev pub max_of : F → List F → F
  max_of greatest [] = greatest
  max_of greatest (drift ∷ rest) = max_of (larger greatest drift) rest

  unfoldable pub maximal_proper_subset_drift : List F → Result F
  maximal_proper_subset_drift [] = err value_error
  maximal_proper_subset_drift (drift ∷ rest) = ok (max_of drift rest)

  unfoldable pub target_order_drift : F → F → F → F → F
  target_order_drift alternative_mean null_mean null_deviation metric_denominator_floor =
      (alternative_mean ⊖ null_mean) ⊘ larger null_deviation metric_denominator_floor

  unfoldable pub order_evidence_share : F → List F → F → F
  order_evidence_share order_factor all_order_factors metric_denominator_floor =
      order_factor ⊘ (f.sum all_order_factors ⊕ metric_denominator_floor)

  unfoldable pub atom_nrmse : List (List F) → List (List F) → F → Result F
  unfolding zip_strict euclidean_norm
  atom_nrmse emhi_atoms hofd_atoms metric_denominator_floor = do
    raise_if (not (length emhi_atoms == length hofd_atoms) || (length emhi_atoms == 0)) value_error
    pairs ← zip_strict emhi_atoms hofd_atoms
    squares ← traverse squared_norm_of_difference pairs
    let difference = f.sqrt (f.sum squares ⊘ number_of emhi_atoms)
    let reference = f.sqrt (f.sum (squared_norms emhi_atoms) ⊘ number_of emhi_atoms)
    ok (difference ⊘ (reference ⊕ metric_denominator_floor))

  unfoldable pub atom_cosine_similarity : List (List F) → List (List F) → F → Result F
  unfolding zip_strict euclidean_norm
  atom_cosine_similarity emhi_atoms hofd_atoms metric_denominator_floor = do
    raise_if (not (length emhi_atoms == length hofd_atoms) || (length emhi_atoms == 0)) value_error
    pairs ← zip_strict emhi_atoms hofd_atoms
    products ← traverse inner_product pairs
    let denominator =
        f.sqrt (f.sum (squared_norms emhi_atoms)) ⊗ f.sqrt (f.sum (squared_norms hofd_atoms))
    ok (f.sum products ⊘ (denominator ⊕ metric_denominator_floor))

  unfoldable pub pfa_difference : F → F → F
  pfa_difference emhi_pfa comparison_pfa = emhi_pfa ⊖ comparison_pfa

  unfoldable pub conditional_rank_mae : List F → List F → Result F
  unfolding zip_strict
  conditional_rank_mae estimated_ranks truth_ranks = do
    raise_if (not (length estimated_ranks == length truth_ranks)) value_error
    raise_if (length estimated_ranks == 0) value_error
    pairs ← zip_strict estimated_ranks truth_ranks
    ok (
        f.sum (map (λ (pair : F × F). magnitude (pair.0 ⊖ pair.1)) pairs)
        ⊘ number_of estimated_ranks)

  -- The set of the three lengths has one member.
  unfoldable pub projection_nrmse : List (List F) → List (List F) → List (List F) → F → Result F
  unfolding zip_strict euclidean_norm
  projection_nrmse fitted_projections population_projections tensor_rows floor = do
    raise_if
        (not (length fitted_projections == length population_projections)
          || not (length population_projections == length tensor_rows))
        value_error
    raise_if (length tensor_rows == 0) value_error
    pairs ← zip_strict fitted_projections population_projections
    squares ← traverse squared_norm_of_difference pairs
    let residual = f.sqrt (f.sum squares ⊘ number_of tensor_rows)
    let reference = f.sqrt (f.sum (squared_norms tensor_rows) ⊘ number_of tensor_rows)
    ok (residual ⊘ (reference ⊕ floor))

  unfoldable pub standardized_null_bias : List F → F → F → F
  unfolding euclidean_norm
  standardized_null_bias mean_atom covariance_trace_sqrt metric_denominator_floor =
      euclidean_norm mean_atom ⊘ larger covariance_trace_sqrt metric_denominator_floor

  unfoldable pub abstention_rate : F → F
  abstention_rate context_coverage_value = unity ⊖ context_coverage_value

  unfoldable pub common_mode_suppression : F → F → F → F
  common_mode_suppression emhi_pfa raw_mean_pfa metric_denominator_floor =
      unity ⊖ (emhi_pfa ⊘ (raw_mean_pfa ⊕ metric_denominator_floor))

  unfoldable pub outside_conditioning_power_loss : F → F → F
  outside_conditioning_power_loss no_outside_context_detection_rate emhi_detection_rate =
      no_outside_context_detection_rate ⊖ emhi_detection_rate
