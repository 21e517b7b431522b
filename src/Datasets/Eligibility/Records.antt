-- ===== src/Datasets/Eligibility/Records.antt =====
-- Which clients are recorded as eligible.
use fed_campaign_emhi.Prelude.{
  ℕ, Bool, ◌≤◌, ◌≡◌, refl, ◌∙◌, ◌↔◌, true, List, [], ◌∷◌, map, leb, length, true_and, leb→le,
  le→leb, length-map,
}
use fed_campaign_emhi.Prelude.Str.{str_le, str_le-IsOrder}
use fed_campaign_emhi.Prelude.Membership.{In, In-map, All}
use fed_campaign_emhi.Prelude.Order.{
  sorted, IsOrder, IsSorted, In-sorted, sorted-IsSorted, length-sorted,
}
use fed_campaign_emhi.Domain.Types.{ClientBenignTally, ClientEligibilityRecord}
use fed_campaign_emhi.Datasets.Eligibility.{
  by_client, eligibility_record, build_eligibility_records,
}

by_client-IsOrder : IsOrder by_client
by_client-IsOrder = record {
  total = λ a b. str_le-IsOrder.total a.client_id b.client_id;
  trans = λ a b c. str_le-IsOrder.trans a.client_id b.client_id c.client_id;
}

abbrev pub record_le : ClientEligibilityRecord → ClientEligibilityRecord → Bool
record_le a b = str_le a.client_id b.client_id

-- `record` is what is recorded of `tally`: the client is eligible if both counts reach their minimum.
pub record Records (minimum_events minimum_epochs : ℕ) (tally : ClientBenignTally)
    (r : ClientEligibilityRecord) : Type 0 where
  pub client : r.client_id ≡ tally.client_id
  pub events : r.benign_event_count ≡ tally.benign_event_count
  pub epochs : r.benign_nonempty_epoch_count ≡ length tally.observed_epoch_indexes
  pub eligible :
      (r.is_eligible ≡ true)
      ↔ ((minimum_events ≤ r.benign_event_count) × (minimum_epochs ≤ r.benign_nonempty_epoch_count))

eligibility_record-Records :
    (minimum_events minimum_epochs : ℕ) (tally : ClientBenignTally)
    → Records minimum_events minimum_epochs tally
        (eligibility_record minimum_events minimum_epochs tally)
unfolding eligibility_record
eligibility_record-Records minimum_events minimum_epochs tally = record {
  client = refl;
  events = refl;
  epochs = refl;
  eligible = (
    λ q.
        let (a, b) = true_and (leb minimum_events tally.benign_event_count) _ q in
        (leb→le _ _ a, leb→le _ _ b),
    λ (a, b). rw (le→leb _ _ a, le→leb _ _ b) refl,
  );
}

IsSorted-map_record :
    (minimum_events minimum_epochs : ℕ) (tallies : List ClientBenignTally)
    → IsSorted by_client tallies
    → IsSorted record_le (map (eligibility_record minimum_events minimum_epochs) tallies)
unfolding eligibility_record
IsSorted-map_record minimum_events minimum_epochs [] s = tt
IsSorted-map_record minimum_events minimum_epochs (tally ∷ tallies) (low, s) =
    (all_after tallies low, IsSorted-map_record minimum_events minimum_epochs tallies s)
  where
    all_after :
        (rest : List ClientBenignTally)
        → All (λ t. by_client tally t ≡ true) rest
        → All
            (λ r. record_le (eligibility_record minimum_events minimum_epochs tally) r ≡ true)
            (map (eligibility_record minimum_events minimum_epochs) rest)
    all_after [] h = tt
    all_after (t ∷ rest) (h, hs) = (h, all_after rest hs)

-- There is a record for every tally and no other, a client is eligible exactly if its events and its
-- epochs with events both reach their minimum, and the records are in the order of the clients.
pub build_eligibility_records-Records :
    (tallies : List ClientBenignTally) (minimum_events minimum_epochs : ℕ)
    → (length (build_eligibility_records tallies minimum_events minimum_epochs) ≡ length tallies)
      × IsSorted record_le (build_eligibility_records tallies minimum_events minimum_epochs)
      × ((r : ClientEligibilityRecord)
          → In r (build_eligibility_records tallies minimum_events minimum_epochs)
          → (tally : ClientBenignTally) × In tally tallies
            × Records minimum_events minimum_epochs tally r)
      × ((tally : ClientBenignTally)
          → In tally tallies
          → (r : ClientEligibilityRecord) × In r
              (build_eligibility_records tallies minimum_events minimum_epochs)
            × Records minimum_events minimum_epochs tally r)
unfolding build_eligibility_records
build_eligibility_records-Records tallies minimum_events minimum_epochs =
    let made = eligibility_record minimum_events minimum_epochs in
    let ordered = sorted by_client tallies in
    (
      length-map made ordered ∙ length-sorted by_client tallies,
      IsSorted-map_record minimum_events minimum_epochs ordered
          (sorted-IsSorted by_client by_client-IsOrder tallies),
      λ r i.
          let (tally, j, e) = (In-map made ordered r).0 i in
          (
            tally,
            (In-sorted by_client tallies tally).0 j,
            rw e (eligibility_record-Records minimum_events minimum_epochs tally),
          ),
      λ tally i. (
        made tally,
        (In-map made ordered (made tally)).1 (tally, (In-sorted by_client tallies tally).1 i, refl),
        eligibility_record-Records minimum_events minimum_epochs tally,
      ),
    )
