-- ===== src/Domain/Enums.antt =====
-- src/fedcampaign_emhi/domain/enums.py: the enumerations that the modelled code branches on. `is` and
-- `==` between members are the instances of `Eq`.
use fed_campaign_emhi.Prelude.{ℕ, ◌≡◌, ◌↔◌, true, List, [], ◌∷◌, arith, ◌==◌}
use fed_campaign_emhi.Prelude.Sets.{Eq}

pub data DatasetName : Type 0 where
  ton_iot_network edge_iiotset : DatasetName

abbrev dataset_name_index : DatasetName → ℕ
dataset_name_index DatasetName.ton_iot_network = 0
dataset_name_index DatasetName.edge_iiotset = 1

pub DatasetName-beq_iff :
    (a b : DatasetName) → ((dataset_name_index a == dataset_name_index b) ≡ true) ↔ (a ≡ b)
DatasetName-beq_iff a b = ground arith

instance abbrev pub dataset_name_eq : Eq DatasetName
dataset_name_eq = record {
  beq = λ a b. dataset_name_index a == dataset_name_index b;
  beq_iff = DatasetName-beq_iff;
}

pub data ContextMethodName : Type 0 where
  inclusive_context leave_one_out_insufficient_exclusion partial_coalition_exclusion :
      ContextMethodName
  exact_coalition_exclusion oracle_outside_latent_context no_outside_context : ContextMethodName
  shuffled_outside_context local_history_only_context forced_no_abstention : ContextMethodName

abbrev context_method_name_index : ContextMethodName → ℕ
context_method_name_index ContextMethodName.inclusive_context = 0
context_method_name_index ContextMethodName.leave_one_out_insufficient_exclusion = 1
context_method_name_index ContextMethodName.partial_coalition_exclusion = 2
context_method_name_index ContextMethodName.exact_coalition_exclusion = 3
context_method_name_index ContextMethodName.oracle_outside_latent_context = 4
context_method_name_index ContextMethodName.no_outside_context = 5
context_method_name_index ContextMethodName.shuffled_outside_context = 6
context_method_name_index ContextMethodName.local_history_only_context = 7
context_method_name_index ContextMethodName.forced_no_abstention = 8

pub ContextMethodName-beq_iff :
    (a b : ContextMethodName)
    → ((context_method_name_index a == context_method_name_index b) ≡ true) ↔ (a ≡ b)
ContextMethodName-beq_iff a b = ground arith

instance abbrev pub context_method_name_eq : Eq ContextMethodName
context_method_name_eq = record {
  beq = λ a b. context_method_name_index a == context_method_name_index b;
  beq_iff = ContextMethodName-beq_iff;
}

pub data DetectorFamily : Type 0 where
  isolation_forest one_class_svm autoencoder : DetectorFamily

abbrev detector_family_index : DetectorFamily → ℕ
detector_family_index DetectorFamily.isolation_forest = 0
detector_family_index DetectorFamily.one_class_svm = 1
detector_family_index DetectorFamily.autoencoder = 2

pub DetectorFamily-beq_iff :
    (a b : DetectorFamily) → ((detector_family_index a == detector_family_index b) ≡ true) ↔ (a ≡ b)
DetectorFamily-beq_iff a b = ground arith

instance abbrev pub detector_family_eq : Eq DetectorFamily
detector_family_eq = record {
  beq = λ a b. detector_family_index a == detector_family_index b;
  beq_iff = DetectorFamily-beq_iff;
}

pub data PartitionRole : Type 0 where
  detector_fit nuisance_fit threshold_and_policy_calibration heldout_benign : PartitionRole

abbrev partition_role_index : PartitionRole → ℕ
partition_role_index PartitionRole.detector_fit = 0
partition_role_index PartitionRole.nuisance_fit = 1
partition_role_index PartitionRole.threshold_and_policy_calibration = 2
partition_role_index PartitionRole.heldout_benign = 3

pub PartitionRole-beq_iff :
    (a b : PartitionRole) → ((partition_role_index a == partition_role_index b) ≡ true) ↔ (a ≡ b)
PartitionRole-beq_iff a b = ground arith

instance abbrev pub partition_role_eq : Eq PartitionRole
partition_role_eq = record {
  beq = λ a b. partition_role_index a == partition_role_index b;
  beq_iff = PartitionRole-beq_iff;
}

pub data ExecutionRole : Type 0 where
  development confirmatory validation development_only : ExecutionRole

abbrev execution_role_index : ExecutionRole → ℕ
execution_role_index ExecutionRole.development = 0
execution_role_index ExecutionRole.confirmatory = 1
execution_role_index ExecutionRole.validation = 2
execution_role_index ExecutionRole.development_only = 3

pub ExecutionRole-beq_iff :
    (a b : ExecutionRole) → ((execution_role_index a == execution_role_index b) ≡ true) ↔ (a ≡ b)
ExecutionRole-beq_iff a b = ground arith

instance abbrev pub execution_role_eq : Eq ExecutionRole
execution_role_eq = record {
  beq = λ a b. execution_role_index a == execution_role_index b;
  beq_iff = ExecutionRole-beq_iff;
}

pub data ExperimentState : Type 0 where
  not_started blocked ready running completed failed invalid : ExperimentState

abbrev experiment_state_index : ExperimentState → ℕ
experiment_state_index ExperimentState.not_started = 0
experiment_state_index ExperimentState.blocked = 1
experiment_state_index ExperimentState.ready = 2
experiment_state_index ExperimentState.running = 3
experiment_state_index ExperimentState.completed = 4
experiment_state_index ExperimentState.failed = 5
experiment_state_index ExperimentState.invalid = 6

pub ExperimentState-beq_iff :
    (a b : ExperimentState)
    → ((experiment_state_index a == experiment_state_index b) ≡ true) ↔ (a ≡ b)
ExperimentState-beq_iff a b = ground arith

instance abbrev pub experiment_state_eq : Eq ExperimentState
experiment_state_eq = record {
  beq = λ a b. experiment_state_index a == experiment_state_index b;
  beq_iff = ExperimentState-beq_iff;
}

pub data FitStatus : Type 0 where
  fitted insufficient_data : FitStatus

abbrev fit_status_index : FitStatus → ℕ
fit_status_index FitStatus.fitted = 0
fit_status_index FitStatus.insufficient_data = 1

pub FitStatus-beq_iff :
    (a b : FitStatus) → ((fit_status_index a == fit_status_index b) ≡ true) ↔ (a ≡ b)
FitStatus-beq_iff a b = ground arith

instance abbrev pub fit_status_eq : Eq FitStatus
fit_status_eq = record {
  beq = λ a b. fit_status_index a == fit_status_index b;
  beq_iff = FitStatus-beq_iff;
}

pub data OverwritePolicy : Type 0 where
  reuse_compatible overwrite : OverwritePolicy

abbrev overwrite_policy_index : OverwritePolicy → ℕ
overwrite_policy_index OverwritePolicy.reuse_compatible = 0
overwrite_policy_index OverwritePolicy.overwrite = 1

pub OverwritePolicy-beq_iff :
    (a b : OverwritePolicy)
    → ((overwrite_policy_index a == overwrite_policy_index b) ≡ true) ↔ (a ≡ b)
OverwritePolicy-beq_iff a b = ground arith

instance abbrev pub overwrite_policy_eq : Eq OverwritePolicy
overwrite_policy_eq = record {
  beq = λ a b. overwrite_policy_index a == overwrite_policy_index b;
  beq_iff = OverwritePolicy-beq_iff;
}

pub data ArtifactLifecycleState : Type 0 where
  missing valid stale malformed incomplete failed blocked : ArtifactLifecycleState

abbrev artifact_lifecycle_state_index : ArtifactLifecycleState → ℕ
artifact_lifecycle_state_index ArtifactLifecycleState.missing = 0
artifact_lifecycle_state_index ArtifactLifecycleState.valid = 1
artifact_lifecycle_state_index ArtifactLifecycleState.stale = 2
artifact_lifecycle_state_index ArtifactLifecycleState.malformed = 3
artifact_lifecycle_state_index ArtifactLifecycleState.incomplete = 4
artifact_lifecycle_state_index ArtifactLifecycleState.failed = 5
artifact_lifecycle_state_index ArtifactLifecycleState.blocked = 6

pub ArtifactLifecycleState-beq_iff :
    (a b : ArtifactLifecycleState)
    → ((artifact_lifecycle_state_index a == artifact_lifecycle_state_index b) ≡ true) ↔ (a ≡ b)
ArtifactLifecycleState-beq_iff a b = ground arith

instance abbrev pub artifact_lifecycle_state_eq : Eq ArtifactLifecycleState
artifact_lifecycle_state_eq = record {
  beq = λ a b. artifact_lifecycle_state_index a == artifact_lifecycle_state_index b;
  beq_iff = ArtifactLifecycleState-beq_iff;
}

pub data CoalitionOrder : Type 0 where
  one two three : CoalitionOrder

abbrev coalition_order_index : CoalitionOrder → ℕ
coalition_order_index CoalitionOrder.one = 0
coalition_order_index CoalitionOrder.two = 1
coalition_order_index CoalitionOrder.three = 2

pub CoalitionOrder-beq_iff :
    (a b : CoalitionOrder) → ((coalition_order_index a == coalition_order_index b) ≡ true) ↔ (a ≡ b)
CoalitionOrder-beq_iff a b = ground arith

instance abbrev pub coalition_order_eq : Eq CoalitionOrder
coalition_order_eq = record {
  beq = λ a b. coalition_order_index a == coalition_order_index b;
  beq_iff = CoalitionOrder-beq_iff;
}

-- `CoalitionOrder` is an `IntEnum`: its members are the numbers 1, 2 and 3.
abbrev pub order_value : CoalitionOrder → ℕ
order_value CoalitionOrder.one = 1
order_value CoalitionOrder.two = 2
order_value CoalitionOrder.three = 3

-- `for order in CoalitionOrder`.
abbrev pub coalition_orders : List CoalitionOrder
coalition_orders = CoalitionOrder.one ∷ CoalitionOrder.two ∷ CoalitionOrder.three ∷ []

pub data GroundTruthClass : Type 0 where
  benign malicious ambiguous : GroundTruthClass

pub data CampaignEligibilityStatus : Type 0 where
  eligible : CampaignEligibilityStatus
