-- ===== src/Datasets/Campaigns.antt =====
-- src/fedcampaign_emhi/datasets/campaigns.py: the runs of malicious epochs and the registry of campaigns.
pub mod Gaps
pub mod Runs
pub mod Activity
pub mod Warmup
pub mod Registry
use fed_campaign_emhi.Prelude.{
  ℕ, Bool, true, false, not, ◌&&◌, ◌||◌, Option, none, some, List, [], ◌∷◌, ◌++◌, map, ltb, leb,
  if◌then◌else◌, length, keep, any, all, flat_map, traverse, Result, ok, err, value_error,
  key_error, ◌>>=◌,
}
use fed_campaign_emhi.Prelude.Int.{ℤ, pos, pos_part, ◌+ℤ◌, ◌-ℤ◌, leb_ℤ, ltb_ℤ, range_ℤ}
use fed_campaign_emhi.Prelude.Extrema.{min_ℤ, max_ℤ}
use fed_campaign_emhi.Prelude.Str.{Str, str_le}
use fed_campaign_emhi.Prelude.Sets.{int_eq, str_eq_instance, contains, set_of}
use fed_campaign_emhi.Prelude.Order.{sorted}
use fed_campaign_emhi.Prelude.Dict.{dict_get}
use fed_campaign_emhi.Domain.Enums.{DatasetName, eligible}
use fed_campaign_emhi.Domain.Types.{ClientMaliciousEpochs, CampaignRegistryEntry}

-- `range(start, end)`.
abbrev pub epoch_range : ℤ → ℤ → List ℤ
epoch_range start end = range_ℤ start (pos_part (end -ℤ start))

-- The test on an epoch after `previous`: the gap is short, and all its epochs are fully benign.
unfoldable pub joins_run : ℕ → List ℤ → ℤ → ℤ → Bool
joins_run merge_max_intervening_benign_epochs benign previous epoch =
    leb_ℤ (epoch -ℤ previous -ℤ pos 1) (pos merge_max_intervening_benign_epochs)
    && all (contains benign) (epoch_range (previous +ℤ pos 1) epoch)

-- The loop over the epochs that are left, from `start` and `previous`; the runs that it appends.
merge_loop : ℕ → List ℤ → ℤ → ℤ → List ℤ → List (ℤ × ℤ)
merge_loop max_gap benign start previous [] = (start, previous) ∷ []
merge_loop max_gap benign start previous (epoch ∷ rest) =
    let extended = merge_loop max_gap benign start epoch rest in
    let closed = (start, previous) ∷ merge_loop max_gap benign epoch epoch rest in
    if joins_run max_gap benign previous epoch then extended else closed

runs_of : ℕ → List ℤ → List ℤ → List (ℤ × ℤ)
unfolding merge_loop
runs_of max_gap benign [] = []
runs_of max_gap benign (epoch ∷ rest) = merge_loop max_gap benign epoch epoch rest

unfoldable pub merge_malicious_runs : List ℤ → ℕ → List ℤ → List (ℤ × ℤ)
unfolding runs_of
merge_malicious_runs malicious_epochs merge_max_intervening_benign_epochs fully_benign_epochs =
    runs_of merge_max_intervening_benign_epochs fully_benign_epochs
      (sorted leb_ℤ (set_of malicious_epochs))

unfoldable pub campaign_duration_epochs : ℤ → ℤ → ℤ
campaign_duration_epochs start_epoch end_epoch = (end_epoch -ℤ start_epoch) +ℤ pos 1

-- The arguments of `build_campaign_registry` that no step changes.
pub record CampaignRules : Type 0 where
  pub dataset : DatasetName
  pub selected_client_ids : List Str
  pub client_malicious_epochs : List ClientMaliciousEpochs
  pub merge_max_intervening_benign_epochs : ℕ
  pub minimum_clients : ℕ
  pub distributed_first_activity_window_epochs : ℕ
  pub minimum_duration_epochs : ℕ
  pub prestart_warmup_epochs : ℕ
  pub fully_benign_epochs : List ℤ
  pub evaluation_horizon_epochs : ℕ

abbrev pub epochs_by_client : CampaignRules → List (Str × List ℤ)
epochs_by_client rules =
    map (λ (r : ClientMaliciousEpochs). (r.client_id, r.malicious_epochs))
      rules.client_malicious_epochs

abbrev pub earliest_observed_epoch_by_client : CampaignRules → List (Str × ℤ)
earliest_observed_epoch_by_client rules =
    map (λ (r : ClientMaliciousEpochs). (r.client_id, r.earliest_observed_epoch))
      rules.client_malicious_epochs

-- `start <= epoch <= end`.
abbrev pub within : ℤ → ℤ → ℤ → Bool
within start end epoch = leb_ℤ start epoch && leb_ℤ epoch end

-- `epochs_by_client.get(client_id, ())`.
abbrev pub or_no_epochs : Option (List ℤ) → List ℤ
or_no_epochs none = []
or_no_epochs (some epochs) = epochs

unfoldable pub epochs_of : CampaignRules → Str → List ℤ
epochs_of rules client_id = or_no_epochs (dict_get (epochs_by_client rules) client_id)

abbrev pub participants_of : CampaignRules → ℤ → ℤ → List Str
participants_of rules start end =
    keep (λ client_id. any (within start end) (epochs_of rules client_id)) rules.selected_client_ids

-- `min` and `max` of no epochs raise.
abbrev pub min_epoch : List ℤ → Result ℤ
min_epoch [] = err value_error
min_epoch (epoch ∷ rest) = ok (min_ℤ epoch rest)

abbrev pub max_epoch : List ℤ → Result ℤ
max_epoch [] = err value_error
max_epoch (epoch ∷ rest) = ok (max_ℤ epoch rest)

-- `min(epoch for epoch in epochs_by_client[client_id] if start <= epoch <= end)`.
abbrev pub first_epoch_of : CampaignRules → ℤ → ℤ → Str → Result ℤ
first_epoch_of rules start end client_id = elim (dict_get (epochs_by_client rules) client_id) [
  | none ↦ err key_error
  | some epochs ↦ min_epoch (keep (within start end) epochs)
]

-- `all(...)` over the clients stops at the first that fails, and a client without a record raises.
unfoldable pub warmup_observed : List (Str × ℤ) → ℤ → List Str → Result Bool
warmup_observed earliest warmup_start [] = ok true
warmup_observed earliest warmup_start (client_id ∷ rest) =
    let later = warmup_observed earliest warmup_start rest in
    elim (dict_get earliest client_id) [
      | none ↦ err key_error
      | some epoch ↦ if leb_ℤ epoch warmup_start then later else ok false
    ]

abbrev pub warmup_clean : CampaignRules → ℤ → ℤ → Bool
warmup_clean rules warmup_start start =
    all
      (λ client_id.
        not (
          any (λ epoch. leb_ℤ warmup_start epoch && ltb_ℤ epoch start) (epochs_of rules client_id)))
      rules.selected_client_ids

abbrev pub attack_types_within : ℤ → ℤ → List (ℤ × List Str) → List Str
attack_types_within start end [] = []
attack_types_within start end ((epoch, attack_types) ∷ rest) =
    let later = attack_types_within start end rest in
    if within start end epoch then attack_types ++ later else later

abbrev pub attack_types_of : CampaignRules → ℤ → ℤ → List Str
attack_types_of rules start end = sorted str_le (
    set_of (
      flat_map
        (λ (r : ClientMaliciousEpochs). attack_types_within start end r.attack_types_by_epoch)
        rules.client_malicious_epochs))

abbrev pub entry_of : CampaignRules → ℤ → ℤ → CampaignRegistryEntry
entry_of rules start end = record {
  dataset = rules.dataset;
  start_epoch = start;
  end_epoch = end;
  sorted_participating_client_ids = sorted str_le (participants_of rules start end);
  warmup_epochs = rules.prestart_warmup_epochs;
  evaluation_horizon_epochs = rules.evaluation_horizon_epochs;
  eligibility_status = eligible;
  ineligibility_reason = none;
  attack_types = attack_types_of rules start end;
}

-- The last two guards of the body.
unfoldable pub warmed_up : CampaignRules → ℤ → ℤ → Result Bool
unfolding warmup_observed
warmed_up rules start end = do
  let warmup_start = start -ℤ pos rules.prestart_warmup_epochs
  observed ←
      warmup_observed (earliest_observed_epoch_by_client rules) warmup_start
        rules.selected_client_ids
  ok (observed && warmup_clean rules warmup_start start)

-- `max(first_epochs) - min(first_epochs) > window`.
unfoldable pub spread_too_wide : CampaignRules → ℤ → ℤ → Result Bool
spread_too_wide rules start end = do
  first_epochs ← traverse (first_epoch_of rules start end) (participants_of rules start end)
  last ← max_epoch first_epochs
  first ← min_epoch first_epochs
  ok (ltb_ℤ (pos rules.distributed_first_activity_window_epochs) (last -ℤ first))

-- The guards of the loop body, in order; `false` is `continue`.
unfoldable pub admits : CampaignRules → ℤ → ℤ → Result Bool
unfolding spread_too_wide warmed_up
admits rules start end =
    if ltb (length (participants_of rules start end)) rules.minimum_clients then ok false else do
      wide ← spread_too_wide rules start end
      if wide || ltb_ℤ ((end -ℤ start) +ℤ pos 1) (pos rules.minimum_duration_epochs)
          then ok false
          else warmed_up rules start end

registry_loop : CampaignRules → List (ℤ × ℤ) → Result (List CampaignRegistryEntry)
registry_loop rules [] = ok []
registry_loop rules ((start, end) ∷ runs) = do
  admitted ← admits rules start end
  rest ← registry_loop rules runs
  ok (if admitted then entry_of rules start end ∷ rest else rest)

unfoldable pub build_campaign_registry : CampaignRules → Result (List CampaignRegistryEntry)
unfolding registry_loop
build_campaign_registry rules = registry_loop rules (
    merge_malicious_runs
      (flat_map (λ (r : ClientMaliciousEpochs). r.malicious_epochs) rules.client_malicious_epochs)
      rules.merge_max_intervening_benign_epochs rules.fully_benign_epochs)
