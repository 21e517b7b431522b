-- ===== src/Domain/Types.antt =====
-- src/fedcampaign_emhi/domain/types.py: the value objects of the modelled code. Counts are native
-- numbers, since their types exclude negative values; epochs are integers; floats are values of `F`.
use fed_campaign_emhi.Prelude.{ℕ, Option, Bool, List}
use fed_campaign_emhi.Prelude.Int.{ℤ}
use fed_campaign_emhi.Prelude.Str.{Str}
use fed_campaign_emhi.Domain.Enums.{
  CampaignEligibilityStatus, CoalitionOrder, DatasetName, DetectorFamily, ExperimentState,
}

pub record DetectorFamilyAssignment : Type 0 where
  pub client_id : Str
  pub zero_based_index : ℕ
  pub family : DetectorFamily

pub record StrictOdiOutcome : Type 0 where
  pub global_stop_epoch : Option ℤ
  pub earliest_local_stop_epoch : Option ℤ
  pub indicator : ℕ
  pub global_detection_indicator : ℕ

pub record ChronologicalPartitionLengths : Type 0 where
  pub detector_fit : ℕ
  pub nuisance_fit : ℕ
  pub threshold_and_policy_calibration : ℕ
  pub heldout_benign : ℕ

pub record RetainedEvent (F : Type 0) : Type 0 where
  pub dataset_name : DatasetName
  pub client_id : Str
  pub timestamp_seconds : F
  pub event_type : Str
  pub payload : Str
  pub unique_identifier : Option Str
  pub original_order : ℕ

pub record DeduplicationOutcome (F : Type 0) : Type 0 where
  pub retained_events : List (RetainedEvent F)
  pub duplicate_count : ℕ
  pub experiment_state : ExperimentState

pub record ChronologicalBenignPartitions : Type 0 where
  pub detector_fit : List ℤ
  pub nuisance_fit : List ℤ
  pub threshold_and_policy_calibration : List ℤ
  pub heldout_benign : List ℤ

pub record BenignHorizon : Type 0 where
  pub start_epoch : ℤ
  pub epoch_indexes : List ℤ

pub record LocalPolicyArtifact (F : Type 0) : Type 0 where
  pub threshold : F
  pub required_exceedances : ℕ
  pub window_epochs : ℕ

pub record CoalitionMembers : Type 0 where
  pub client_ids : List Str
  pub order : CoalitionOrder

pub record RankReference (F : Type 0) : Type 0 where
  pub scores : List F

pub record OutsideContextHistogram (F : Type 0) : Type 0 where
  pub bin_mass : List F
  pub available_client_ids : List Str
  pub abstained : Bool

pub record ClientMaliciousEpochs : Type 0 where
  pub client_id : Str
  pub malicious_epochs : List ℤ
  pub earliest_observed_epoch : ℤ
  pub fully_benign_epochs : List ℤ
  pub attack_types_by_epoch : List (ℤ × List Str)

pub record EpochIndex (F : Type 0) : Type 0 where
  pub unix_timestamp_seconds : F
  pub epoch_seconds : ℕ
  pub index : ℤ

pub record ClientEligibilityRecord : Type 0 where
  pub client_id : Str
  pub benign_event_count : ℕ
  pub benign_nonempty_epoch_count : ℕ
  pub is_eligible : Bool

pub record ClientBenignTally : Type 0 where
  pub client_id : Str
  pub benign_event_count : ℕ
  pub observed_epoch_indexes : List ℤ

-- `integrity_checksum` is a hash of the other fields.
pub record CampaignRegistryEntry : Type 0 where
  pub dataset : DatasetName
  pub start_epoch : ℤ
  pub end_epoch : ℤ
  pub sorted_participating_client_ids : List Str
  pub warmup_epochs : ℕ
  pub evaluation_horizon_epochs : ℕ
  pub eligibility_status : CampaignEligibilityStatus
  pub ineligibility_reason : Option Str
  pub attack_types : List Str

pub record ArtifactDependencyNode : Type 0 where
  pub artifact_id : Str
  pub material_fingerprint : Str
  pub upstream_ids : List Str
