-- ===== src/Domain/Records.antt =====
-- src/fedcampaign_emhi/artifacts/records.py and src/fedcampaign_emhi/evaluation/records.py: what the
-- stages of the detector hand to each other.
use fed_campaign_emhi.Prelude.{ℕ, Option, Bool, List}
use fed_campaign_emhi.Prelude.Int.{ℤ}
use fed_campaign_emhi.Prelude.Str.{Str}
use fed_campaign_emhi.Domain.Enums.{
  CoalitionOrder, ContextMethodName, DatasetName, DetectorFamily, FitStatus, GroundTruthClass,
}
use fed_campaign_emhi.Domain.Types.{LocalPolicyArtifact}

pub record PreparedEpochRecord (F : Type 0) : Type 0 where
  pub dataset_name : DatasetName
  pub client_id : Str
  pub epoch_index : ℤ
  pub unscaled_feature_values : List F
  pub feature_values : List F
  pub ground_truth : GroundTruthClass
  pub raw_event_count : ℕ
  pub ambiguous_event_count : ℕ
  pub malicious_attack_types : List Str

pub record DatasetSplitRecord : Type 0 where
  pub dataset_name : DatasetName
  pub selected_client_ids : List Str
  pub eligible_client_ids : List Str
  pub has_sufficient_clients : Bool
  pub detector_fit_epochs : List ℤ
  pub nuisance_fit_epochs : List ℤ
  pub threshold_calibration_epochs : List ℤ
  pub heldout_benign_epochs : List ℤ

pub record BenignHorizonRecord : Type 0 where
  pub start_epoch : ℤ
  pub epoch_indexes : List ℤ

pub record BenignPartitionRecord : Type 0 where
  pub dataset_name : DatasetName
  pub calibration_horizons : List BenignHorizonRecord
  pub heldout_horizons : List BenignHorizonRecord

pub record ClientDetectorScoreStream (F : Type 0) : Type 0 where
  pub client_id : Str
  pub detector_family : DetectorFamily
  pub detector_seed : ℕ
  pub epoch_indexes : List ℤ
  pub scores : List F

pub record DetectorScoreArtifactRecord (F : Type 0) : Type 0 where
  pub dataset_name : DatasetName
  pub root_seed : ℕ
  pub selected_client_ids : List Str
  pub client_streams : List (ClientDetectorScoreStream F)
  pub dependency_fingerprint : Str

pub record ClientMarginalRankStream (F : Type 0) : Type 0 where
  pub client_id : Str
  pub nuisance_reference_scores : List F
  pub epoch_indexes : List ℤ
  pub ranks : List F

pub record MarginalRankArtifactRecord (F : Type 0) : Type 0 where
  pub dataset_name : DatasetName
  pub root_seed : ℕ
  pub selected_client_ids : List Str
  pub client_streams : List (ClientMarginalRankStream F)
  pub dependency_fingerprint : Str

pub record OrderContextFitRecord (F : Type 0) : Type 0 where
  pub coalition_order : CoalitionOrder
  pub context_method : ContextMethodName
  pub centroids : List (List F)
  pub state : FitStatus

pub record ConditionalRankReferenceRecord (F : Type 0) : Type 0 where
  pub client_id : Str
  pub context_cell : ℕ
  pub reference_ranks : List F

pub record ProjectionCellFitRecord (F : Type 0) : Type 0 where
  pub context_cell : ℕ
  pub conditional_rank_references : List (ConditionalRankReferenceRecord F)
  pub selected_ridge_penalty : Option F
  pub complete_nuisance_coefficients : List (List F)
  pub coordinate_means : List F
  pub coordinate_deviations : List F
  pub operational_norm_reference : Option F
  pub state : FitStatus
  pub numerical_failure : Bool

pub record CoalitionFitRecord (F : Type 0) : Type 0 where
  pub coalition_client_ids : List Str
  pub coalition_order : CoalitionOrder
  pub cells : List (ProjectionCellFitRecord F)
  pub state : FitStatus

pub record CoalitionEpochEvidence (F : Type 0) : Type 0 where
  pub coalition_client_ids : List Str
  pub coalition_order : CoalitionOrder
  pub evidence_factor : F

pub record EpochOperationalEvidence (F : Type 0) : Type 0 where
  pub epoch_index : ℤ
  pub global_evidence_factor : F
  pub order_factors : List (CoalitionOrder × F)
  pub coalition_factors : List (CoalitionEpochEvidence F)
  pub materially_active_client_ids : List Str
  pub scored_coalition_count : ℕ
  pub eligible_coalition_count : ℕ

pub record SequentialTrajectory (F : Type 0) : Type 0 where
  pub epochs : List (EpochOperationalEvidence F)
  pub support_predicates : List Bool

pub record CalibratedGlobalOperatingPoint (F : Type 0) : Type 0 where
  pub threshold : Option F
  pub calibration_false_stop_counts : List ℕ
  pub calibration_horizon_count : ℕ
  pub heldout_false_stop_count : ℕ
  pub heldout_horizon_count : ℕ
  pub heldout_upper_pfa : Option F

pub record ClientLocalOperatingPoint (F : Type 0) : Type 0 where
  pub client_id : Str
  pub policy : Option (LocalPolicyArtifact F)
  pub calibration_false_stop_count : Option ℕ
  pub heldout_false_stop_count : Option ℕ
  pub heldout_horizon_count : ℕ
  pub heldout_upper_pfa : Option F
