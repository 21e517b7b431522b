-- ===== src/Comparators.antt =====
-- src/fedcampaign_emhi/comparators/sequential.py and src/fedcampaign_emhi/comparators/fusion.py: the CUSUM
-- of the ranks, the eligibility of a comparator and the choice of the strongest.
pub mod Strongest
use fed_campaign_emhi.Prelude.{
  ℕ, zero, suc, Bool, true, false, not, ◌&&◌, ◌||◌, List, [], ◌∷◌, ◌==◌, if◌then◌else◌, length,
  Result, ok, err, value_error, raise_if, ◌>>=◌, ◌>>◌,
}
use fed_campaign_emhi.Prelude.Str.{Str, str_eq, str_le}
use fed_campaign_emhi.Prelude.Float.{Float, nought, magnitude, larger, negated, ◌⊕◌, ◌⊖◌, ◌⊘◌}
use fed_campaign_emhi.Thresholds.{Ppf, clopper_pearson_one_sided_upper_bound}

abbrev str_lt : Str → Str → Bool
str_lt a b = str_le a b && not (str_eq a b)

-- The name of a method stands for its string.
pub record CompositionCandidateResult (F : Type 0) : Type 0 where
  pub method_name : Str
  pub invariants_pass : Bool
  pub calibration_succeeded : Bool
  pub heldout_false_stops : ℕ
  pub heldout_horizons : ℕ
  pub mean_standardized_error : F
  pub median_runtime_seconds : F

module _ {F : Type 0} ⦃f : Float F⦄ where
  unfoldable pub centered_rank_increment : F → F → F
  centered_rank_increment rank rank_center = rank ⊖ rank_center

  unfoldable pub next_cusum_state : F → F → F → F → F
  unfolding centered_rank_increment
  next_cusum_state previous_state rank rank_center drift_subtraction =
      let candidate =
        (previous_state ⊕ centered_rank_increment rank rank_center) ⊖ drift_subtraction in
      if f.lt candidate nought then nought else candidate

  -- `max` of floats, from its first.
  abbrev pub max_from : F → List F → F
  max_from greatest [] = greatest
  max_from greatest (x ∷ rest) = max_from (larger greatest x) rest

  abbrev pub max_or_raise : List F → Result F
  max_or_raise [] = err value_error
  max_or_raise (x ∷ rest) = ok (max_from x rest)

  unfoldable pub global_cusum_score : List F → Result F
  global_cusum_score client_states = max_or_raise client_states

  unfoldable pub max_rank_fusion : List F → Result F
  max_rank_fusion ranks = max_or_raise ranks

  unfoldable pub mean_rank_fusion : List F → Result F
  mean_rank_fusion ranks = do
    raise_if (length ranks == 0) value_error
    ok (f.sum ranks ⊘ f.of_ℕ (length ranks))

  unfoldable pub mean_standardized_error_of : List F → Result F
  mean_standardized_error_of per_seed_errors = do
    raise_if (length per_seed_errors == 0) value_error
    ok (f.sum per_seed_errors ⊘ f.of_ℕ (length per_seed_errors))

  unfoldable pub candidate_is_eligible : Ppf F → CompositionCandidateResult F → F → F → Result Bool
  candidate_is_eligible ppf candidate_result confidence target_pfa =
      if not candidate_result.invariants_pass || not candidate_result.calibration_succeeded
      then ok false
      else do
        upper ←
            clopper_pearson_one_sided_upper_bound ppf candidate_result.heldout_false_stops
              candidate_result.heldout_horizons confidence
        ok (f.le upper target_pfa)

  unfoldable pub prefer_candidate : F → F → Str → F → F → Str → F → F → Bool
  prefer_candidate candidate_error candidate_runtime candidate_name selected_error selected_runtime
        selected_name error_tie_tolerance runtime_tie_tolerance =
      let error_delta = candidate_error ⊖ selected_error in
      let runtime_delta = candidate_runtime ⊖ selected_runtime in
      if f.lt error_delta (negated error_tie_tolerance)
      then true
      else if f.lt error_tie_tolerance (magnitude error_delta)
      then false
      else if f.lt runtime_delta (negated runtime_tie_tolerance)
      then true
      else f.le (magnitude runtime_delta) runtime_tie_tolerance
        && str_lt candidate_name selected_name

  -- The loop over the candidates that are left, with what is selected so far.
  select_loop : F → F → Str → F → F → List Str → List F → List F → Str
  select_loop error_tie runtime_tie selected error runtime [] errors runtimes = selected
  select_loop error_tie runtime_tie selected error runtime (c ∷ candidates) [] runtimes = selected
  select_loop error_tie runtime_tie selected error runtime (c ∷ candidates) (e ∷ errors) [] =
      selected
  select_loop error_tie runtime_tie selected error runtime (c ∷ candidates) (e ∷ errors)
        (r ∷ runtimes) =
      let preferred = select_loop error_tie runtime_tie c e r candidates errors runtimes in
      let kept =
        select_loop error_tie runtime_tie selected error runtime candidates errors runtimes in
      if prefer_candidate e r c error runtime selected error_tie runtime_tie
      then preferred
      else kept

  select_from : F → F → List Str → List F → List F → Result Str
  unfolding select_loop
  select_from error_tie runtime_tie [] errors runtimes = err value_error
  select_from error_tie runtime_tie (c ∷ candidates) [] runtimes = err value_error
  select_from error_tie runtime_tie (c ∷ candidates) (e ∷ errors) [] = err value_error
  select_from error_tie runtime_tie (c ∷ candidates) (e ∷ errors) (r ∷ runtimes) =
      ok (select_loop error_tie runtime_tie c e r candidates errors runtimes)

  unfoldable pub select_strongest_comparator : List Str → List F → List F → F → F → Result Str
  unfolding select_from
  select_strongest_comparator candidates standardized_errors runtimes_seconds error_tie_tolerance
        runtime_tie_tolerance =
      do
        raise_if (length candidates == 0) value_error
        raise_if
            (not (length candidates == length standardized_errors)
              || not (length candidates == length runtimes_seconds))
            value_error
        select_from error_tie_tolerance runtime_tie_tolerance candidates standardized_errors
            runtimes_seconds
