-- ===== src/Examples/Datasets.antt =====
-- The examples of the datasets.
use fed_campaign_emhi.Prelude.{
  ℕ, ◌+◌, ◌≤◌, ◌<◌, ◌≡◌, ◌≢◌, ◌⊎◌, some, List, [], ◌∷◌, length, ok, err, value_error,
}
use fed_campaign_emhi.Prelude.Str.{Str}
use fed_campaign_emhi.Prelude.Membership.{In}
use fed_campaign_emhi.Prelude.Order.{IsSorted}
use fed_campaign_emhi.Prelude.Float.{milli, milli-IsOrdered}
use fed_campaign_emhi.Domain.Enums.{ready, invalid, ton_iot_network}
use fed_campaign_emhi.Domain.Types.{
  RetainedEvent, ChronologicalPartitionLengths, ChronologicalBenignPartitions, BenignHorizon,
}
use fed_campaign_emhi.Datasets.Deduplication.{retain_first_chronological}
use fed_campaign_emhi.Datasets.Deduplication.Groups.{Firsts, no_later}
use mathlib.Core.List.{Perm}
use fed_campaign_emhi.Datasets.Deduplication.Kept.{HasConflict, retain_first_chronological-Retains}
use fed_campaign_emhi.Datasets.Partitions.{
  floor_of, chronological_partition_lengths, chronological_benign_partitions,
  complete_benign_horizons,
}
use fed_campaign_emhi.Datasets.Partitions.Covering.{
  Partitions, Blocks, chronological_partition_lengths-Partitions, complete_benign_horizons-Blocks,
}
use fed_campaign_emhi.Examples.Data.{ann, bob, epochs}

abbrev event_at : ℕ → ℕ → Str → RetainedEvent ℕ
event_at time order payload = record {
  dataset_name = ton_iot_network;
  client_id = ann;
  timestamp_seconds = time;
  event_type = bob;
  payload = payload;
  unique_identifier = some payload;
  original_order = order;
}

abbrev events : List (RetainedEvent ℕ)
events = event_at 5 0 ann ∷ event_at 3 1 bob ∷ event_at 4 2 ann ∷ []

retain_first_chronological-Retains_example :
    (ordered : List (RetainedEvent ℕ)) × Perm ordered events
    × IsSorted no_later ordered
    × ((¬ HasConflict (λ a. In a events)
          × Firsts [] ordered (retain_first_chronological events).retained_events
          × (length (retain_first_chronological events).retained_events
                + (retain_first_chronological events).duplicate_count
              ≡ length events)
          × ((retain_first_chronological events).experiment_state ≡ ready))
        ⊎ (HasConflict (λ a. In a events)
            × ((retain_first_chronological events).retained_events ≡ [])
            × ((retain_first_chronological events).experiment_state ≡ invalid)))
retain_first_chronological-Retains_example =
    retain_first_chronological-Retains milli-IsOrdered events

chronological_partition_lengths-Partitions_example :
    ((floor_of {F = ℕ} 400 (length epochs)
          + floor_of {F = ℕ} 400 (length epochs)
          + floor_of {F = ℕ} 100 (length epochs)
        ≤ length epochs)
      × ((lengths : ChronologicalPartitionLengths) × (chronological_partition_lengths {F = ℕ}
              (length epochs)
              400
              400
              100
            ≡ ok lengths)
          × ((parts : ChronologicalBenignPartitions) × (chronological_benign_partitions epochs
                  lengths
                ≡ ok parts)
              × Partitions epochs lengths parts)))
    ⊎ ((length epochs
          < floor_of {F = ℕ} 400 (length epochs)
            + floor_of {F = ℕ} 400 (length epochs)
            + floor_of {F = ℕ} 100 (length epochs))
        × (chronological_partition_lengths {F = ℕ} (length epochs) 400 400 100 ≡ err value_error))
chronological_partition_lengths-Partitions_example =
    chronological_partition_lengths-Partitions epochs 400 400 100

complete_benign_horizons-Blocks_example :
    ((◌≢◌ {A = ℕ} 2 0)
      × ((horizons : List BenignHorizon) × (complete_benign_horizons epochs 2 ≡ ok horizons)
          × Blocks epochs 2 horizons))
    ⊎ ((◌≡◌ {A = ℕ} 2 0) × (complete_benign_horizons epochs 2 ≡ err value_error))
complete_benign_horizons-Blocks_example = complete_benign_horizons-Blocks epochs 2
