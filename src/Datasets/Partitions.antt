-- ===== src/Datasets/Partitions.antt =====
-- src/fedcampaign_emhi/datasets/preprocessing.py: the chronological partitions of the common benign
-- epochs, and their complete horizons. Fractions are not negative, so their floors are counts.
pub mod Covering
use fed_campaign_emhi.Prelude.{
  ℕ, zero, suc, ◌+◌, ◌-◌, ◌*◌, ◌/◌, ◌%◌, ◌≤◌, ◌<◌, ◌≡◌, refl, sym, ap, ◌∙◌, subst, ◌≢◌, ◌↔◌, ◌⊎◌,
  inl, inr, Bool, true, false, not, ◌&&◌, ◌||◌, Option, none, some, List, [], ◌∷◌, ◌++◌, map, arith,
  ltb, leb, ◌==◌, if◌then◌else◌, Bool-cases, Option-cases, is_some, true_and, length, get_elem?,
  take, drop, take_last, replicate, set, keep, count_if, any, all, find_first, zip, flat_map,
  length-append, take-append-drop, length-take, length-drop, length-map, Error, Result, ok, err,
  value_error, key_error, index_error, raise_if, traverse, ◌>>=◌, ◌>>◌,
}
use fed_campaign_emhi.Prelude.Int.{
  ℤ, pos, negsuc, pos_part, neg_part, ◌+ℤ◌, ◌-ℤ◌, ◌≤ℤ◌, ◌<ℤ◌, leb_ℤ, ltb_ℤ, eqb_ℤ, range_ℤ,
  int_laws, leb_ℤ_iff, ltb_ℤ_iff, eqb_ℤ_iff,
}
use fed_campaign_emhi.Prelude.Str.{Str, str_eq, str_le}
use fed_campaign_emhi.Prelude.Sets.{
  Eq, nat_eq, int_eq, str_eq_instance, contains, contains_iff, contains_not, set_of, In-set_of,
  set_of-Distinct, Distinct-snoc, Distinct-keep,
}
use fed_campaign_emhi.Prelude.Membership.{
  All, In, Distinct, All-mono, All-append, All-In, All-of_In, In-append, In-keep, any_iff, all_iff,
  In-map, In-flat_map,
}
use fed_campaign_emhi.Prelude.Order.{
  sorted, IsOrder, IsSorted, sorted-IsSorted, length-sorted, In-sorted,
}
use fed_campaign_emhi.Prelude.Dict.{dict_get}
use fed_campaign_emhi.Prelude.Float.{Float, IsOrdered, nought, unity, ◌⊕◌, ◌⊖◌, ◌⊗◌, ◌⊘◌}
use fed_campaign_emhi.Domain.Types.{
  ChronologicalPartitionLengths, ChronologicalBenignPartitions, BenignHorizon,
}

-- What is left of the epochs is held out.
abbrev pub lengths_of : ℕ → ℕ → ℕ → ℕ → ChronologicalPartitionLengths
lengths_of common_benign_epoch_count detector_fit nuisance_fit threshold = record {
  detector_fit = detector_fit;
  nuisance_fit = nuisance_fit;
  threshold_and_policy_calibration = threshold;
  heldout_benign = common_benign_epoch_count - (detector_fit + nuisance_fit + threshold);
}

module _ {F : Type 0} ⦃f : Float F⦄ where
  -- `floor(fraction * count)`.
  abbrev pub floor_of : F → ℕ → ℕ
  floor_of fraction count = pos_part (f.floor (fraction ⊗ f.of_ℕ count))

  unfoldable pub chronological_partition_lengths :
      ℕ → F → F → F → Result ChronologicalPartitionLengths
  chronological_partition_lengths common_benign_epoch_count detector_fit_fraction
        nuisance_fit_fraction threshold_fraction =
      do
        let detector_fit = floor_of detector_fit_fraction common_benign_epoch_count
        let nuisance_fit = floor_of nuisance_fit_fraction common_benign_epoch_count
        let threshold = floor_of threshold_fraction common_benign_epoch_count
        raise_if (ltb common_benign_epoch_count (detector_fit + nuisance_fit + threshold))
            value_error
        ok (lengths_of common_benign_epoch_count detector_fit nuisance_fit threshold)

-- `epochs[start:end]`.
abbrev pub slice : {A : Type 0} → ℕ → ℕ → List A → List A
slice start end xs = drop start (take end xs)

abbrev pub cut_at : ChronologicalPartitionLengths → List ℤ → ChronologicalBenignPartitions
cut_at lengths epoch_indexes =
    let detector_end = lengths.detector_fit in
    let nuisance_end = detector_end + lengths.nuisance_fit in
    let threshold_end = nuisance_end + lengths.threshold_and_policy_calibration in
    record {
      detector_fit = take detector_end epoch_indexes;
      nuisance_fit = slice detector_end nuisance_end epoch_indexes;
      threshold_and_policy_calibration = slice nuisance_end threshold_end epoch_indexes;
      heldout_benign = drop threshold_end epoch_indexes;
    }

unfoldable pub chronological_benign_partitions :
    List ℤ → ChronologicalPartitionLengths → Result ChronologicalBenignPartitions
chronological_benign_partitions epoch_indexes lengths = do
  let expected =
      lengths.detector_fit + lengths.nuisance_fit + lengths.threshold_and_policy_calibration
      + lengths.heldout_benign
  raise_if (not (length epoch_indexes == expected)) value_error
  ok (cut_at lengths epoch_indexes)

unfoldable pub inclusive_epoch_range : ℤ → ℤ → List ℤ
inclusive_epoch_range start_epoch end_epoch =
    if ltb_ℤ end_epoch start_epoch
    then []
    else range_ℤ start_epoch (pos_part ((end_epoch +ℤ pos 1) -ℤ start_epoch))

unfoldable pub complete_horizon_count : ℕ → ℕ → Result ℕ
complete_horizon_count epoch_count horizon_length = do
  raise_if (horizon_length == 0) value_error
  ok (epoch_count / horizon_length)

-- `block[0]` raises on an empty block.
abbrev pub horizon_of_block : List ℤ → Result BenignHorizon
horizon_of_block [] = err index_error
horizon_of_block (start ∷ rest) = ok (record { start_epoch = start; epoch_indexes = start ∷ rest })

-- The rounds of `for index in range(complete)` that are left, and `index`.
horizon_loop : List ℤ → ℕ → ℕ → ℕ → Result (List BenignHorizon)
horizon_loop epoch_indexes horizon_length zero index = ok []
horizon_loop epoch_indexes horizon_length (suc rounds) index = do
  let start = index * horizon_length
  horizon ← horizon_of_block (slice start (start + horizon_length) epoch_indexes)
  rest ← horizon_loop epoch_indexes horizon_length rounds (suc index)
  ok (horizon ∷ rest)

unfoldable pub complete_benign_horizons : List ℤ → ℕ → Result (List BenignHorizon)
unfolding horizon_loop
complete_benign_horizons epoch_indexes horizon_length = do
  complete ← complete_horizon_count (length epoch_indexes) horizon_length
  horizon_loop epoch_indexes horizon_length complete 0
