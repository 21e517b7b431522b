-- ===== src/Datasets/Eligibility.antt =====
-- src/fedcampaign_emhi/datasets/eligibility.py and src/fedcampaign_emhi/datasets/partitions.py: which
-- clients have enough benign events, and the epoch of a timestamp.
pub mod Records
use fed_campaign_emhi.Prelude.{
  ℕ, ◌&&◌, List, map, leb, ◌==◌, Result, ok, value_error, raise_if, ◌>>=◌, ◌>>◌, length, Bool,
}
use fed_campaign_emhi.Prelude.Str.{str_le}
use fed_campaign_emhi.Prelude.Order.{sorted}
use fed_campaign_emhi.Prelude.Float.{Float, ◌⊘◌}
use fed_campaign_emhi.Domain.Types.{ClientBenignTally, ClientEligibilityRecord, EpochIndex}

-- The key of `sorted` is the client.
abbrev pub by_client : ClientBenignTally → ClientBenignTally → Bool
by_client a b = str_le a.client_id b.client_id

unfoldable pub eligibility_record : ℕ → ℕ → ClientBenignTally → ClientEligibilityRecord
eligibility_record minimum_benign_event_records minimum_nonempty_benign_epochs tally =
    let nonempty_epochs = length tally.observed_epoch_indexes in
    record {
      client_id = tally.client_id;
      benign_event_count = tally.benign_event_count;
      benign_nonempty_epoch_count = nonempty_epochs;
      is_eligible =
          leb minimum_benign_event_records tally.benign_event_count
          && leb minimum_nonempty_benign_epochs nonempty_epochs;
    }

unfoldable pub build_eligibility_records :
    List ClientBenignTally → ℕ → ℕ → List ClientEligibilityRecord
unfolding eligibility_record
build_eligibility_records tallies minimum_benign_event_records minimum_nonempty_benign_epochs =
    map (eligibility_record minimum_benign_event_records minimum_nonempty_benign_epochs)
      (sorted by_client tallies)

-- `epoch_seconds` is an integer that is not negative.
unfoldable pub epoch_index : {F : Type 0} ⦃f : Float F⦄ → F → ℕ → Result (EpochIndex F)
epoch_index ⦃f⦄ unix_timestamp_seconds epoch_seconds = do
  raise_if (epoch_seconds == 0) value_error
  ok (record {
    unix_timestamp_seconds = unix_timestamp_seconds;
    epoch_seconds = epoch_seconds;
    index = f.floor (unix_timestamp_seconds ⊘ f.of_ℕ epoch_seconds);
  })
