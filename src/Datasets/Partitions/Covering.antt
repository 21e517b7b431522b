-- ===== src/Datasets/Partitions/Covering.antt =====
-- The partitions and the horizons cover their epochs in order.
use native.Mathlib.Nat.{suc-mul, div-mul-le_self}
use fed_campaign_emhi.Prelude.{
  ℕ, zero, suc, ◌+◌, ◌-◌, ◌*◌, ◌/◌, ◌≤◌, ◌<◌, ◌≡◌, refl, sym, ap, ◌∙◌, ◌≢◌, ◌⊎◌, inl, inr, true,
  false, some, List, [], ◌∷◌, ◌++◌, arith, ltb, ◌==◌, Bool-cases, length, get_elem?, take, drop,
  flat_map, take-append-drop, length-take, length-drop, ok, err, value_error,
}
use fed_campaign_emhi.Prelude.Int.{ℤ}
use fed_campaign_emhi.Prelude.Sets.{nat_eq, int_eq, str_eq_instance}
use fed_campaign_emhi.Prelude.Membership.{All}
use fed_campaign_emhi.Prelude.Float.{Float}
use fed_campaign_emhi.Domain.Types.{
  ChronologicalPartitionLengths, ChronologicalBenignPartitions, BenignHorizon,
}
use fed_campaign_emhi.Datasets.Partitions.{
  slice, floor_of, lengths_of, cut_at, chronological_partition_lengths,
  chronological_benign_partitions, complete_horizon_count, horizon_of_block, horizon_loop,
  complete_benign_horizons,
}

-- The partitions have the lengths and are the epochs, cut in order.
pub Partitions : List ℤ → ChronologicalPartitionLengths → ChronologicalBenignPartitions → Type 0
Partitions epochs lengths parts =
    (parts.detector_fit
        ++ (parts.nuisance_fit ++ (parts.threshold_and_policy_calibration ++ parts.heldout_benign))
      ≡ epochs)
    × (length parts.detector_fit ≡ lengths.detector_fit)
    × (length parts.nuisance_fit ≡ lengths.nuisance_fit)
    × (length parts.threshold_and_policy_calibration ≡ lengths.threshold_and_policy_calibration)
    × (length parts.heldout_benign ≡ lengths.heldout_benign)

module _ {A : Type 0} where
  slice-append-drop :
      (start end : ℕ) (xs : List A)
      → start ≤ end
      → slice start end xs ++ drop end xs ≡ drop start xs
  slice-append-drop zero end xs h = take-append-drop end xs
  slice-append-drop (suc start) zero xs h = absurd (omega arith)
  slice-append-drop (suc start) (suc end) [] h = refl
  slice-append-drop (suc start) (suc end) (x ∷ xs) h = slice-append-drop start end xs (omega arith)

  length-slice :
      (start end : ℕ) (xs : List A)
      → start ≤ end
      → end ≤ length xs
      → length (slice start end xs) ≡ end - start
  length-slice start end xs h k = omega (arith, length-drop start (take end xs), length-take end xs)

  cut_in_four :
      (a b c : ℕ) (xs : List A)
      → a ≤ b
      → b ≤ c
      → take a xs ++ (slice a b xs ++ (slice b c xs ++ drop c xs)) ≡ xs
  cut_in_four a b c xs h k =
      rw (slice-append-drop b c xs k, slice-append-drop a b xs h) (take-append-drop a xs)

  slice_empty : (start : ℕ) (xs : List A) → slice start start xs ≡ []
  slice_empty zero xs = refl
  slice_empty (suc start) [] = refl
  slice_empty (suc start) (x ∷ xs) = slice_empty start xs

  slice-append-slice :
      (start middle end : ℕ) (xs : List A)
      → start ≤ middle
      → middle ≤ end
      → slice start middle xs ++ slice middle end xs ≡ slice start end xs
  slice-append-slice zero zero end xs h k = refl
  slice-append-slice zero (suc middle) zero xs h k = absurd (omega arith)
  slice-append-slice zero (suc middle) (suc end) [] h k = refl
  slice-append-slice zero (suc middle) (suc end) (x ∷ xs) h k =
      ap (◌∷◌ x) (slice-append-slice zero middle end xs (omega arith) (omega arith))
  slice-append-slice (suc start) zero end xs h k = absurd (omega arith)
  slice-append-slice (suc start) (suc middle) zero xs h k = absurd (omega arith)
  slice-append-slice (suc start) (suc middle) (suc end) [] h k = refl
  slice-append-slice (suc start) (suc middle) (suc end) (x ∷ xs) h k =
      slice-append-slice start middle end xs (omega arith) (omega arith)

chronological_benign_partitions-Partitions :
    (epochs : List ℤ) (lengths : ChronologicalPartitionLengths)
    → length epochs
      ≡ lengths.detector_fit + lengths.nuisance_fit + lengths.threshold_and_policy_calibration
        + lengths.heldout_benign
    → (parts : ChronologicalBenignPartitions) × (chronological_benign_partitions epochs lengths
        ≡ ok parts)
      × Partitions epochs lengths parts
unfolding chronological_benign_partitions Partitions
chronological_benign_partitions-Partitions epochs lengths h =
    let q : (length epochs
          == lengths.detector_fit + lengths.nuisance_fit + lengths.threshold_and_policy_calibration
            + lengths.heldout_benign)
        ≡ true =
      ground arith in
    let a = lengths.detector_fit in
    let b = a + lengths.nuisance_fit in
    let c = b + lengths.threshold_and_policy_calibration in
    (
      cut_at lengths epochs,
      rw q refl,
      (
        cut_in_four a b c epochs (omega arith) (omega arith),
        omega (arith, length-take a epochs),
        omega (arith, length-slice a b epochs (omega arith) (omega arith)),
        omega (arith, length-slice b c epochs (omega arith) (omega arith)),
        omega (arith, length-drop c epochs),
      ),
    )

module _ {F : Type 0} ⦃f : Float F⦄ where
  -- If the floors of the three fractions fit into the number of epochs, the lengths exist, and they cut
  -- the epochs, in order, into four partitions that are all of them; otherwise the lengths raise
  -- `ValueError`.
  pub chronological_partition_lengths-Partitions :
      (epochs : List ℤ) (detector nuisance threshold : F)
      → ((floor_of detector (length epochs)
              + floor_of nuisance (length epochs)
              + floor_of threshold (length epochs)
            ≤ length epochs)
          × ((lengths : ChronologicalPartitionLengths) × (chronological_partition_lengths
                  (length epochs)
                  detector
                  nuisance
                  threshold
                ≡ ok lengths)
              × ((parts : ChronologicalBenignPartitions) × (chronological_benign_partitions epochs
                      lengths
                    ≡ ok parts)
                  × Partitions epochs lengths parts)))
        ⊎ ((length epochs
              < floor_of detector (length epochs)
                + floor_of nuisance (length epochs)
                + floor_of threshold (length epochs))
            × (chronological_partition_lengths (length epochs) detector nuisance threshold
                ≡ err value_error))
  unfolding chronological_partition_lengths
  chronological_partition_lengths-Partitions epochs detector nuisance threshold =
      let n = length epochs in
      elim (Bool-cases (ltb n (floor_of detector n + floor_of nuisance n + floor_of threshold n))) [
        | inl q ↦ inr (ground arith, rw q refl)
        | inr q ↦ inl (
          ground arith,
          (
            lengths_of n (floor_of detector n) (floor_of nuisance n) (floor_of threshold n),
            rw q refl,
            chronological_benign_partitions-Partitions epochs
                (lengths_of n (floor_of detector n) (floor_of nuisance n) (floor_of threshold n))
                (ground arith),
          ),
        )
      ]

-- The horizons are the blocks of one length that the epochs start with, in order.
pub record Blocks (epochs : List ℤ) (horizon_length : ℕ) (horizons : List BenignHorizon)
    : Type 0 where
  pub number : length horizons ≡ length epochs / horizon_length
  pub covered :
      flat_map (λ horizon. horizon.epoch_indexes) horizons
      ≡ take (length epochs / horizon_length * horizon_length) epochs
  pub lengths : All (λ horizon. length horizon.epoch_indexes ≡ horizon_length) horizons
  pub starts :
      All (λ horizon. get_elem? horizon.epoch_indexes 0 ≡ some horizon.start_epoch) horizons

horizon_of_block-ok :
    (block : List ℤ)
    → 0 < length block
    → (horizon : BenignHorizon) × (horizon_of_block block ≡ ok horizon)
      × (horizon.epoch_indexes ≡ block)
      × (get_elem? horizon.epoch_indexes 0 ≡ some horizon.start_epoch)
horizon_of_block-ok [] h = absurd (omega arith)
horizon_of_block-ok (start ∷ rest) h =
    (record { start_epoch = start; epoch_indexes = start ∷ rest }, refl, refl, refl)

-- The positions that the loop reads up to: `(index + rounds) * horizon_length`.
end_of_rounds : (horizon_length rounds index : ℕ) → ℕ
end_of_rounds h zero index = index * h
end_of_rounds h (suc rounds) index = end_of_rounds h rounds (suc index)

end_of_rounds_lem : (h rounds index : ℕ) → end_of_rounds h rounds index ≡ (index + rounds) * h
unfolding end_of_rounds
end_of_rounds_lem h zero index = ap (λ n. n * h) (omega arith)
end_of_rounds_lem h (suc rounds) index =
    end_of_rounds_lem h rounds (suc index) ∙ ap (λ n. n * h) (omega arith)

end_from_zero : (h rounds : ℕ) → end_of_rounds h rounds 0 ≡ rounds * h
end_from_zero h rounds = end_of_rounds_lem h rounds 0 ∙ ap (λ n. n * h) (omega arith)

start-le-end : (h rounds index : ℕ) → index * h ≤ end_of_rounds h rounds index
unfolding end_of_rounds
start-le-end h zero index = omega arith
start-le-end h (suc rounds) index =
    omega (arith, start-le-end h rounds (suc index), suc-mul index h)

horizon_loop-Blocks :
    (epochs : List ℤ) (horizon_length rounds index : ℕ)
    → 0 < horizon_length
    → end_of_rounds horizon_length rounds index ≤ length epochs
    → (horizons : List BenignHorizon) × (horizon_loop epochs horizon_length rounds index
        ≡ ok horizons)
      × (length horizons ≡ rounds)
      × (flat_map (λ horizon. horizon.epoch_indexes) horizons
          ≡ slice (index * horizon_length) (end_of_rounds horizon_length rounds index) epochs)
      × All (λ horizon. length horizon.epoch_indexes ≡ horizon_length) horizons
      × All (λ horizon. get_elem? horizon.epoch_indexes 0 ≡ some horizon.start_epoch) horizons
unfolding horizon_loop end_of_rounds
horizon_loop-Blocks epochs h zero index pos_h fits =
    ([], refl, refl, sym (slice_empty (index * h) epochs), tt, tt)
horizon_loop-Blocks epochs h (suc rounds) index pos_h fits =
    let start = index * h in
    let end = end_of_rounds h rounds (suc index) in
    let far = start-le-end h rounds (suc index) in
    let step : suc index * h ≡ start + h = suc-mul index h in
    let len = length-slice start (start + h) epochs (omega arith) (omega arith) in
    let (horizon, e, block, head) =
      horizon_of_block-ok (slice start (start + h) epochs) (omega (arith, len)) in
    let (horizons, r, n, cover, lens, heads) =
      horizon_loop-Blocks epochs h rounds (suc index) pos_h fits in
    let joined = slice-append-slice start (start + h) end epochs (omega arith) (omega arith) in
    (
      horizon ∷ horizons,
      rw (e, r) refl,
      ap suc n,
      rw (block, cover, step) joined,
      (ap length block ∙ omega (arith, len), lens),
      (head, heads),
    )

-- With a positive length the horizons exist, and they are all the complete blocks of that length, from
-- the first epoch on. A length of 0 raises `ValueError`.
pub complete_benign_horizons-Blocks :
    (epochs : List ℤ) (horizon_length : ℕ)
    → ((horizon_length ≢ 0)
        × ((horizons : List BenignHorizon) × (complete_benign_horizons epochs horizon_length
              ≡ ok horizons)
            × Blocks epochs horizon_length horizons))
      ⊎ ((horizon_length ≡ 0) × (complete_benign_horizons epochs horizon_length ≡ err value_error))
unfolding complete_benign_horizons complete_horizon_count
complete_benign_horizons-Blocks epochs zero = inr (refl, refl)
complete_benign_horizons-Blocks epochs (suc h) =
    let n = length epochs in
    let k = suc h in
    let fits : end_of_rounds k (n / k) 0 ≤ n =
      omega (arith, end_from_zero k (n / k), div-mul-le_self n k) in
    let (horizons, r, m, cover, lens, heads) =
      horizon_loop-Blocks epochs k (n / k) 0 (omega arith) fits in
    let positive : (suc h == 0) ≡ false = ground arith in
    let from_zero : slice (0 * k) (end_of_rounds k (n / k) 0) epochs ≡ take (n / k * k) epochs =
      ap (λ start. slice start (end_of_rounds k (n / k) 0) epochs) {y = 0} (omega arith)
      ∙ ap (λ end. take end epochs) (end_from_zero k (n / k)) in
    inl (
      (λ e. omega arith),
      (
        horizons,
        rw positive r,
        record { number = m; covered = cover ∙ from_zero; lengths = lens; starts = heads },
      ),
    )
