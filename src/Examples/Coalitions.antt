-- ===== src/Examples/Coalitions.antt =====
-- The examples of coalitions, midranks and rank lookups.
use mathlib.Core.Bool.{false≢true}
use fed_campaign_emhi.Prelude.{
  ℕ, ◌<◌, ◌≤◌, ◌≡◌, refl, ◌↔◌, List, [], ◌∷◌, arith, length, traverse, ok,
}
use fed_campaign_emhi.Prelude.Int.{ℤ, pos}
use fed_campaign_emhi.Prelude.Membership.{In}
use fed_campaign_emhi.Prelude.Str.{Str, str_eq, str_le}
use fed_campaign_emhi.Prelude.Order.{sorted}
use fed_campaign_emhi.Prelude.Float.{milli, milli-IsOrdered}
use fed_campaign_emhi.Domain.Enums.{two, three, order_value, ton_iot_network}
use fed_campaign_emhi.Domain.Types.{CoalitionMembers}
use fed_campaign_emhi.Domain.Records.{MarginalRankArtifactRecord}
use fed_campaign_emhi.Structure.Coalitions.{
  enumerate_coalitions, coalition_count, proper_subset_members,
}
use fed_campaign_emhi.Structure.Coalitions.Count.{length-enumerate_coalitions}
use fed_campaign_emhi.Structure.Coalitions.Picked.{
  Picks, In-enumerate_coalitions, In-proper_subset_members,
}
use fed_campaign_emhi.Structure.Ranks.{
  clipped_midrank, sorted_clipped_midrank, batch_clipped_midrank,
}
use fed_campaign_emhi.Structure.Ranks.Batch.{
  sorted_clipped_midrank-eq-clipped_midrank, batch_clipped_midrank-eq-traverse,
}
use fed_campaign_emhi.Structure.Lookup.{rank_in_stream, clear_rank_lookup_cache}
use fed_campaign_emhi.Structure.Lookup.Found.{Increasing, rank_beside, rank_in_stream_lem}
use fed_campaign_emhi.Structure.Lookup.Cached.{
  lookups, uncached_lookups, FingerprintsIdentify, Agree, lookups-eq-uncached,
}
use fed_campaign_emhi.Examples.Data.{ann, bob, cy, everyone, reference, epochs}

length-enumerate_coalitions_example :
    length (enumerate_coalitions everyone two) ≡ coalition_count (length everyone) two
length-enumerate_coalitions_example = length-enumerate_coalitions everyone two

abbrev trio : CoalitionMembers
trio = record { client_ids = ann ∷ bob ∷ cy ∷ []; order = three }

abbrev pair : CoalitionMembers
pair = record { client_ids = ann ∷ cy ∷ []; order = two }

In-enumerate_coalitions_example : In pair (enumerate_coalitions everyone two) ↔ (
    Picks (sorted str_le everyone) pair.client_ids
    × (length pair.client_ids ≡ order_value pair.order)
    × (order_value pair.order ≤ order_value two))
In-enumerate_coalitions_example = In-enumerate_coalitions everyone two pair

In-proper_subset_members_example : In pair (proper_subset_members trio) ↔ (
    Picks trio.client_ids pair.client_ids
    × (length pair.client_ids ≡ order_value pair.order)
    × (length pair.client_ids < order_value trio.order))
In-proper_subset_members_example = In-proper_subset_members trio pair

sorted_clipped_midrank-eq-clipped_midrank_example :
    sorted_clipped_midrank 250 (sorted milli.le reference.scores) 10
    ≡ clipped_midrank 250 reference 10
sorted_clipped_midrank-eq-clipped_midrank_example =
    sorted_clipped_midrank-eq-clipped_midrank milli-IsOrdered 250 reference 10

batch_clipped_midrank-eq-traverse_example :
    batch_clipped_midrank (250 ∷ 50 ∷ []) reference 10
    ≡ traverse (λ score. clipped_midrank score reference 10) (250 ∷ 50 ∷ [])
batch_clipped_midrank-eq-traverse_example =
    batch_clipped_midrank-eq-traverse milli-IsOrdered (250 ∷ 50 ∷ []) reference 10
      (λ e. omega arith)

abbrev high_rank : ℕ
high_rank = 995

epochs-Increasing : Increasing epochs
epochs-Increasing = ((omega arith, (omega arith, tt)), ((omega arith, tt), (tt, tt)))

abbrev three_ranks : List ℕ
three_ranks = 100 ∷ 200 ∷ 300 ∷ []

rank_in_stream_lem_example :
    rank_in_stream epochs three_ranks (pos 6) ≡ ok (rank_beside epochs three_ranks (pos 6))
rank_in_stream_lem_example = rank_in_stream_lem epochs three_ranks (pos 6) epochs-Increasing refl

abbrev artifact : Str → ℕ → MarginalRankArtifactRecord ℕ
artifact fingerprint rank = record {
  dataset_name = ton_iot_network;
  root_seed = 1;
  selected_client_ids = ann ∷ [];
  client_streams =
      record {
        client_id = ann;
        nuisance_reference_scores = [];
        epoch_indexes = pos 4 ∷ [];
        ranks = rank ∷ [];
      }
      ∷ [];
  dependency_fingerprint = fingerprint;
}

abbrev requests : List (MarginalRankArtifactRecord ℕ × Str × ℤ)
requests = (artifact ann 100, ann, pos 4) ∷ (artifact bob 200, ann, pos 4) ∷ []

requests-FingerprintsIdentify : FingerprintsIdentify requests
unfolding FingerprintsIdentify Agree str_eq
requests-FingerprintsIdentify = ((λ e. absurd (false≢true e), tt), (tt, tt))

lookups-eq-uncached_example : lookups requests clear_rank_lookup_cache ≡ uncached_lookups requests
lookups-eq-uncached_example = lookups-eq-uncached requests requests-FingerprintsIdentify
