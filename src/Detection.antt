-- ===== src/Detection.antt =====
-- src/fedcampaign_emhi/detection.py: the round-robin choice of a detector for each client, the score
-- artifact, and the local persistence policy of a client. The detectors themselves
-- (src/fedcampaign_emhi/models, scikit-learn and PyTorch), the seed derivation and `numpy.quantile`
-- are parameters.
pub mod Families
pub mod Persistence
pub mod Policy
use fed_campaign_emhi.Prelude.{
  ℕ, zero, suc, ◌-◌, ◌%◌, Bool, true, false, not, Option, none, some, List, [], ◌∷◌, map, ltb, leb,
  ◌==◌, if◌then◌else◌, is_some, length, take, take_last, zip, keep, count_if, Result, ok, err,
  value_error, raise_if, traverse, ◌>>=◌, ◌>>◌,
}
use fed_campaign_emhi.Prelude.Int.{ℤ}
use fed_campaign_emhi.Prelude.Str.{Str, str_eq, str_le}
use fed_campaign_emhi.Prelude.Sets.{int_eq, contains}
use fed_campaign_emhi.Prelude.Float.{Float}
use fed_campaign_emhi.Prelude.Order.{sorted}
use fed_campaign_emhi.Prelude.Selection.{select_first}
use fed_campaign_emhi.Domain.Enums.{
  DatasetName, DetectorFamily, isolation_forest, one_class_svm, autoencoder,
}
use fed_campaign_emhi.Domain.Types.{DetectorFamilyAssignment, LocalPolicyArtifact}
use fed_campaign_emhi.Domain.Records.{
  ClientDetectorScoreStream, DetectorScoreArtifactRecord, PreparedEpochRecord, DatasetSplitRecord,
}
use fed_campaign_emhi.Thresholds.{Ppf, meets_target}

-- `DetectorFamilyRemainder(remainder)` and `_FAMILY_BY_REMAINDER`, for a remainder below 3.
unfoldable pub family_by_remainder : ℕ → DetectorFamily
family_by_remainder remainder =
    if remainder == 0
    then isolation_forest
    else if remainder == 1
    then one_class_svm
    else autoencoder

assign_from : ℕ → List Str → List DetectorFamilyAssignment
assign_from index [] = []
assign_from index (client_id ∷ rest) =
    record {
      client_id = client_id;
      zero_based_index = index;
      family = family_by_remainder (index % 3);
    }
    ∷ assign_from (suc index) rest

unfoldable pub assign_detector_families : List Str → List DetectorFamilyAssignment
unfolding assign_from
assign_detector_families client_ids = assign_from 0 (sorted str_le client_ids)

unfoldable pub score_stream_isolation_check : ℕ → ℕ → Result (Unit {0})
score_stream_isolation_check score_count epoch_count =
    raise_if (not (score_count == epoch_count)) value_error

-- What `build_detector_score_artifact` calls: `detector_seed`, and `score_client`, which fits the
-- family's detector on the first rows and scores the second.
pub record Detectors (F : Type 0) : Type 0 where
  pub detector_seed : ℕ → DatasetName → Str → ℕ
  pub score_client : DetectorFamily → List (List F) → List (List F) → ℕ → Str → Result (List F)

module _ {F : Type 0} (detectors : Detectors F) where
  open detectors use {detector_seed, score_client}

  build_stream :
      List (PreparedEpochRecord F)
      → DatasetSplitRecord
      → DatasetName
      → ℕ
      → DetectorFamilyAssignment
      → Result (ClientDetectorScoreStream F)
  build_stream epochs split dataset_name root_seed assignment = do
    let client_rows = keep (λ row. str_eq row.client_id assignment.client_id) epochs
    let fit_rows =
        map (λ row. row.feature_values)
          (keep (λ row. contains split.detector_fit_epochs row.epoch_index) client_rows)
    raise_if (length fit_rows == 0) value_error
    let score_rows = map (λ row. row.feature_values) client_rows
    let seed = detector_seed root_seed dataset_name assignment.client_id
    scores ← score_client assignment.family fit_rows score_rows seed assignment.client_id
    score_stream_isolation_check (length scores) (length client_rows)
    ok (record {
      client_id = assignment.client_id;
      detector_family = assignment.family;
      detector_seed = seed;
      epoch_indexes = map (λ row. row.epoch_index) client_rows;
      scores = scores;
    })

  -- `epochs` is `prepared.epochs`.
  unfoldable pub build_detector_score_artifact :
      List (PreparedEpochRecord F)
      → DatasetSplitRecord
      → DatasetName
      → ℕ
      → Str
      → Result (DetectorScoreArtifactRecord F)
  unfolding build_stream
  build_detector_score_artifact epochs split dataset_name root_seed dependency_fingerprint = do
    streams ←
        traverse (build_stream epochs split dataset_name root_seed)
          (assign_detector_families split.selected_client_ids)
    ok (record {
      dataset_name = dataset_name;
      root_seed = root_seed;
      selected_client_ids = split.selected_client_ids;
      client_streams = streams;
      dependency_fingerprint = dependency_fingerprint;
    })

unfoldable pub persistence_is_triggered : List Bool → ℕ → ℕ → Result Bool
persistence_is_triggered exceedances required_exceedances window_epochs = do
  raise_if (window_epochs == 0) value_error
  let examined = take_last window_epochs exceedances
  ok (
      if ltb (length examined) required_exceedances
      then false
      else leb required_exceedances (count_if (λ exceeded. exceeded) examined))

-- The rounds of `for end_index in range(1, len(exceedances) + 1)` that are left, and `end_index`.
local_stop_loop : List Bool → ℕ → ℕ → ℕ → ℕ → Result (Option ℕ)
local_stop_loop exceedances required_exceedances window_epochs zero end_index = ok none
local_stop_loop exceedances required_exceedances window_epochs (suc rounds) end_index =
    let later =
      local_stop_loop exceedances required_exceedances window_epochs rounds (suc end_index) in
    persistence_is_triggered (take end_index exceedances) required_exceedances window_epochs
    >>= λ triggered. if triggered then ok (some (end_index - 1)) else later

unfoldable pub first_local_stop_epoch : List Bool → ℕ → ℕ → Result (Option ℕ)
unfolding local_stop_loop
first_local_stop_epoch exceedances required_exceedances window_epochs =
    local_stop_loop exceedances required_exceedances window_epochs (length exceedances) 1

-- The artifact of the pair that the loop ends at.
abbrev pub policy_of :
    {F : Type 0} → Option (LocalPolicyArtifact F × ℕ) → Option (LocalPolicyArtifact F)
policy_of none = none
policy_of (some pair) = some pair.0

module _ {F : Type 0} ⦃f : Float F⦄ where
  unfoldable pub score_exceeds_threshold : F → F → Bool
  score_exceeds_threshold score threshold = f.le threshold score

  -- `quantile` is `numpy.quantile` of one array.
  unfoldable pub candidate_thresholds_from_nuisance_scores :
      (quantile : List F → F → F) → List F → List F → Result (List F)
  candidate_thresholds_from_nuisance_scores quantile nuisance_scores quantiles = do
    raise_if (length nuisance_scores == 0) value_error
    ok (map (quantile nuisance_scores) quantiles)

  -- Tuples compare at the first place where they differ.
  unfoldable pub policy_le : LocalPolicyArtifact F → LocalPolicyArtifact F → Bool
  policy_le a b =
      if f.eq a.threshold b.threshold
      then if a.required_exceedances == b.required_exceedances
        then leb a.window_epochs b.window_epochs
        else ltb a.required_exceedances b.required_exceedances
      else f.lt a.threshold b.threshold

  unfoldable pub select_immutable_local_policy :
      Ppf F
      → List (LocalPolicyArtifact F)
      → List ℕ
      → ℕ
      → F
      → F
      → Result (Option (LocalPolicyArtifact F))
  select_immutable_local_policy ppf candidates calibration_false_stop_counts horizon_count
        confidence target_pfa =
      do
        raise_if (not (length candidates == length calibration_false_stop_counts)) value_error
        selected ←
            select_first
              (λ (pair : LocalPolicyArtifact F × ℕ).
                meets_target ppf confidence horizon_count target_pfa pair.1)
              (sorted (λ (a b : LocalPolicyArtifact F × ℕ). policy_le a.0 b.0)
                (zip candidates calibration_false_stop_counts))
        ok (policy_of selected)

stop_counts : ℕ → List (List Bool) → ℕ → ℕ → Result ℕ
stop_counts stops [] required_exceedances window_epochs = ok stops
stop_counts stops (horizon ∷ rest) required_exceedances window_epochs =
    first_local_stop_epoch horizon required_exceedances window_epochs >>= λ stop.
    stop_counts (if is_some stop then suc stops else stops) rest required_exceedances window_epochs

unfoldable pub heldout_false_stop_count : List (List Bool) → ℕ → ℕ → Result ℕ
unfolding stop_counts
heldout_false_stop_count heldout_exceedance_horizons required_exceedances window_epochs =
    stop_counts 0 heldout_exceedance_horizons required_exceedances window_epochs
