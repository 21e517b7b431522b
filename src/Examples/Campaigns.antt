-- ===== src/Examples/Campaigns.antt =====
-- The examples of campaigns, eligibility and stops.
use fed_campaign_emhi.Prelude.{
  ℕ, ◌≡◌, ◌≢◌, ◌⊎◌, false, Option, some, none, List, [], ◌∷◌, arith, flat_map, ok, length, ltb,
}
use fed_campaign_emhi.Prelude.Int.{ℤ, pos}
use fed_campaign_emhi.Prelude.Str.{Str}
use fed_campaign_emhi.Prelude.Sets.{str_eq_instance}
use fed_campaign_emhi.Prelude.Dict.{keys}
use fed_campaign_emhi.Prelude.Membership.{In}
use fed_campaign_emhi.Prelude.Order.{IsSorted}
use fed_campaign_emhi.Prelude.Float.{milli, milli-IsOrdered, unity}
use fed_campaign_emhi.Domain.Enums.{CoalitionOrder, one, two, three, ton_iot_network}
use fed_campaign_emhi.Domain.Types.{
  ClientMaliciousEpochs, CampaignRegistryEntry, ClientBenignTally, ClientEligibilityRecord,
}
use fed_campaign_emhi.Datasets.Campaigns.{
  CampaignRules, merge_malicious_runs, build_campaign_registry, earliest_observed_epoch_by_client,
}
use fed_campaign_emhi.Datasets.Campaigns.Registry.{Registers, build_campaign_registry-Registers}
use fed_campaign_emhi.Datasets.Eligibility.{build_eligibility_records}
use fed_campaign_emhi.Datasets.Eligibility.Records.{
  Records, record_le, build_eligibility_records-Records,
}
use fed_campaign_emhi.Datasets.Campaigns.Runs.{IsMerged, merge_malicious_runs-IsMerged}
use fed_campaign_emhi.Evaluation.Metrics.{strict_odi_outcome, decisive_order}
use fed_campaign_emhi.Evaluation.Metrics.Stops.{
  IsEarliest, StopsFirst, strict_odi_outcome-StopsFirst,
}
use fed_campaign_emhi.Evaluation.Metrics.Decisive.{Decides, decisive_order-Decides}
use fed_campaign_emhi.Examples.Data.{ann, bob}

abbrev attacked : List ℤ
attacked = pos 12 ∷ pos 10 ∷ pos 11 ∷ pos 30 ∷ pos 14 ∷ []

merge_malicious_runs-IsMerged_example :
    IsMerged 1 attacked (pos 13 ∷ []) (merge_malicious_runs attacked 1 (pos 13 ∷ []))
merge_malicious_runs-IsMerged_example = merge_malicious_runs-IsMerged attacked 1 (pos 13 ∷ [])

abbrev attack_on : Str → List ℤ → ClientMaliciousEpochs
attack_on client_id epochs = record {
  client_id = client_id;
  malicious_epochs = epochs;
  earliest_observed_epoch = pos 0;
  fully_benign_epochs = [];
  attack_types_by_epoch = [];
}

abbrev rules : CampaignRules
rules = record {
  dataset = ton_iot_network;
  selected_client_ids = ann ∷ bob ∷ [];
  client_malicious_epochs =
      attack_on ann (pos 10 ∷ pos 11 ∷ []) ∷ attack_on bob (pos 11 ∷ pos 12 ∷ []) ∷ [];
  merge_max_intervening_benign_epochs = 1;
  minimum_clients = 2;
  distributed_first_activity_window_epochs = 3;
  minimum_duration_epochs = 2;
  prestart_warmup_epochs = 5;
  fully_benign_epochs = [];
  evaluation_horizon_epochs = 20;
}

all_recorded :
    (client_id : Str)
    → In client_id rules.selected_client_ids
    → In client_id (keys (earliest_observed_epoch_by_client rules))
all_recorded client_id i = i

some_clients : rules.minimum_clients ≢ 0
some_clients = λ e. omega arith

build_campaign_registry-Registers_example :
    (entries : List CampaignRegistryEntry) × (build_campaign_registry rules ≡ ok entries)
    × Registers rules
        (merge_malicious_runs
          (flat_map
            (λ (r : ClientMaliciousEpochs). r.malicious_epochs)
            rules.client_malicious_epochs)
          1
          [])
        entries
build_campaign_registry-Registers_example =
    build_campaign_registry-Registers rules all_recorded some_clients

abbrev tallies : List ClientBenignTally
tallies =
    record { client_id = bob; benign_event_count = 9; observed_epoch_indexes = pos 1 ∷ pos 2 ∷ [] }
    ∷ record { client_id = ann; benign_event_count = 4; observed_epoch_indexes = pos 1 ∷ [] }
    ∷ []

build_eligibility_records-Records_example :
    (length (build_eligibility_records tallies 5 2) ≡ length tallies)
    × IsSorted record_le (build_eligibility_records tallies 5 2)
    × ((r : ClientEligibilityRecord)
        → In r (build_eligibility_records tallies 5 2)
        → (tally : ClientBenignTally) × In tally tallies × Records 5 2 tally r)
    × ((tally : ClientBenignTally)
        → In tally tallies
        → (r : ClientEligibilityRecord) × In r (build_eligibility_records tallies 5 2)
          × Records 5 2 tally r)
build_eligibility_records-Records_example = build_eligibility_records-Records tallies 5 2

abbrev local_stops : List (Option ℤ)
local_stops = none ∷ some (pos 9) ∷ some (pos 7) ∷ []

strict_odi_outcome-StopsFirst_example :
    IsEarliest local_stops (strict_odi_outcome (some (pos 5)) local_stops).earliest_local_stop_epoch
    × (((strict_odi_outcome (some (pos 5)) local_stops).indicator ≡ 1)
          × StopsFirst (some (pos 5)) local_stops
        ⊎ ((strict_odi_outcome (some (pos 5)) local_stops).indicator ≡ 0)
          × ¬ StopsFirst (some (pos 5)) local_stops)
strict_odi_outcome-StopsFirst_example = strict_odi_outcome-StopsFirst (some (pos 5)) local_stops

abbrev stop_factors : List (CoalitionOrder × ℕ)
stop_factors = (three, 4000) ∷ (two, 3990) ∷ (one, 900) ∷ []

decisive_order-Decides_example :
    (((pair : CoalitionOrder × ℕ) → In pair stop_factors → ltb (unity {F = ℕ}) pair.1 ≡ false)
      × (decisive_order stop_factors 20 ≡ ok none))
    ⊎ ((best : CoalitionOrder × ℕ) × (order : CoalitionOrder) × (decisive_order stop_factors 20
          ≡ ok (some order))
        × Decides 20 stop_factors best order)
decisive_order-Decides_example =
    decisive_order-Decides stop_factors 20 milli-IsOrdered (λ a. ground arith)
