-- ===== src/Contexts.antt =====
-- src/fedcampaign_emhi/emhi/contexts.py: which clients are the context of a coalition, the histogram of
-- their lagged ranks, and the context cell that it falls into. The pseudorandom
-- permutation, the hash that ranks training rows and a restart of k-means are parameters.
pub mod Members
pub mod Bins
pub mod Masses
pub mod Sufficient
pub mod Histogram
pub mod Cells
use fed_campaign_emhi.Prelude.{
  ℕ, zero, suc, ◌+◌, ◌-◌, ◌*◌, ◌/◌, ◌%◌, ◌≤◌, ◌<◌, ◌≡◌, refl, sym, ap, ◌∙◌, subst, ◌≢◌, ◌↔◌, ◌⊎◌,
  inl, inr, Bool, true, false, not, ◌&&◌, ◌||◌, Option, none, some, List, [], ◌∷◌, ◌++◌, map, arith,
  ltb, leb, ◌==◌, if◌then◌else◌, Bool-cases, Option-cases, is_some, true_and, length, get_elem?,
  take, drop, take_last, replicate, set, keep, count_if, any, all, find_first, zip, flat_map,
  length-append, take-append-drop, length-take, length-drop, length-map, Error, Result, ok, err,
  value_error, key_error, index_error, zero_division_error, raise_if, traverse, ◌>>=◌, ◌>>◌,
}
use fed_campaign_emhi.Prelude.Int.{
  ℤ, pos, negsuc, pos_part, neg_part, ◌+ℤ◌, ◌-ℤ◌, ◌≤ℤ◌, ◌<ℤ◌, leb_ℤ, ltb_ℤ, eqb_ℤ, range_ℤ,
  int_laws, leb_ℤ_iff, ltb_ℤ_iff, eqb_ℤ_iff,
}
use fed_campaign_emhi.Prelude.Str.{Str, str_eq, str_le}
use fed_campaign_emhi.Prelude.Sets.{
  Eq, nat_eq, int_eq, str_eq_instance, contains, contains_iff, contains_not, set_of, In-set_of,
  set_of-Distinct, Distinct-snoc, Distinct-keep,
}
use fed_campaign_emhi.Prelude.Membership.{
  All, In, Distinct, All-mono, All-append, All-In, All-of_In, In-append, In-keep, any_iff, all_iff,
  In-map, In-flat_map,
}
use fed_campaign_emhi.Prelude.Order.{
  sorted, IsOrder, IsSorted, sorted-IsSorted, length-sorted, In-sorted,
}
use fed_campaign_emhi.Prelude.Dict.{dict_get}
use fed_campaign_emhi.Prelude.Float.{Float, IsOrdered, nought, unity, ◌⊕◌, ◌⊖◌, ◌**◌, ◌⊗◌, ◌⊘◌}
use fed_campaign_emhi.Domain.Enums.{CoalitionOrder, one, two, three}
use fed_campaign_emhi.Domain.Types.{OutsideContextHistogram}
use fed_campaign_emhi.Structure.Coalitions.{complement_members}

unfoldable pub exact_exclusion_members : List Str → List Str → List Str
exact_exclusion_members selected_client_ids coalition_client_ids =
    complement_members selected_client_ids coalition_client_ids

unfoldable pub inclusive_context_members : List Str → List Str → List Str
inclusive_context_members selected_client_ids coalition_client_ids =
    sorted str_le selected_client_ids

-- `min(xs)` of client ids, from its first.
abbrev pub least_id : Str → List Str → Str
least_id least [] = least
least_id least (id ∷ rest) = least_id (if str_le least id then least else id) rest

unfoldable pub leave_one_out_context_members : List Str → List Str → Result (List Str)
leave_one_out_context_members selected_client_ids [] = err value_error
leave_one_out_context_members selected_client_ids (id ∷ rest) =
    ok (complement_members selected_client_ids (least_id id rest ∷ []))

unfoldable pub partial_coalition_context_members : List Str → List Str → Result (List Str)
partial_coalition_context_members selected_client_ids coalition_client_ids = do
  let ordered = sorted str_le coalition_client_ids
  raise_if (ltb (length ordered) 2) value_error
  let removed_count = if leb 3 (length ordered) then 2 else 1
  ok (complement_members selected_client_ids (take removed_count ordered))

unfoldable pub lagged_context_epoch : ℤ → ℕ → ℤ
lagged_context_epoch epoch_index outside_lag_epochs = epoch_index -ℤ pos outside_lag_epochs

-- `permutation` is that of `shuffled_context_permutation`, for the rows of these epochs.
abbrev pub shuffled_entry : List ℤ → List ℕ → ℕ → ℤ × ℕ → Result (ℤ × ℤ)
shuffled_entry split_epochs permutation outside_lag_epochs (epoch_index, position) =
    elim (get_elem? permutation position) [
      | none ↦ err index_error
      | some row ↦ elim (get_elem? split_epochs row) [
        | none ↦ err index_error
        | some epoch ↦ ok (epoch_index, lagged_context_epoch epoch outside_lag_epochs)
      ]
    ]

abbrev pub enumerate_from : {A : Type 0} → ℕ → List A → List (A × ℕ)
enumerate_from index [] = []
enumerate_from index (x ∷ xs) = (x, index) ∷ enumerate_from (suc index) xs

unfoldable pub shuffled_outside_context_lag_lookup : List ℤ → List ℕ → ℕ → Result (List (ℤ × ℤ))
shuffled_outside_context_lag_lookup split_epochs permutation outside_lag_epochs = do
  raise_if (length split_epochs == 0) value_error
  traverse (shuffled_entry split_epochs permutation outside_lag_epochs)
      (enumerate_from 0 split_epochs)

unfoldable pub minimum_support_epochs_for_order : CoalitionOrder → ℕ → ℕ → ℕ → ℕ
minimum_support_epochs_for_order one order_one order_two order_three = order_one
minimum_support_epochs_for_order two order_one order_two order_three = order_two
minimum_support_epochs_for_order three order_one order_two order_three = order_three

module _ {F : Type 0} where
  unfoldable pub local_history_context_member_ranks : List Str → List (Str × F) → List F
  local_history_context_member_ranks coalition_client_ids lagged_ranks =
      map (λ (entry : Str × F). entry.1)
        (keep (λ (entry : Str × F). contains coalition_client_ids entry.0) lagged_ranks)

module _ {F : Type 0} ⦃f : Float F⦄ where
  -- `max(minimum, ceil(fraction * complement_size))`; neither is negative.
  unfoldable pub required_outside_client_count : ℕ → ℕ → F → ℕ
  required_outside_client_count complement_size minimum_available_outside_clients
        minimum_available_outside_fraction =
      let fractional =
        pos_part (f.ceil (minimum_available_outside_fraction ⊗ f.of_ℕ complement_size)) in
      if leb fractional minimum_available_outside_clients
      then minimum_available_outside_clients
      else fractional

  -- A rank is not negative, so `int` is its floor, and a bin count is positive.
  unfoldable pub histogram_bin_index : F → ℕ → ℕ
  histogram_bin_index rank bin_count =
      let raw_index = pos_part (f.floor (rank ⊗ f.of_ℕ bin_count)) in
      let last_index = bin_count - 1 in if ltb last_index raw_index then last_index else raw_index

  -- The positions from `index` on, `count` of them.
  abbrev pub one_hot_from : ℕ → ℕ → ℕ → List F
  one_hot_from assigned index zero = []
  one_hot_from assigned index (suc count) =
      (if index == assigned then unity else nought) ∷ one_hot_from assigned (suc index) count

  unfoldable pub histogram_one_hot : F → ℕ → List F
  histogram_one_hot rank bin_count = one_hot_from (histogram_bin_index rank bin_count) 0 bin_count

  unfoldable pub outside_availability_is_sufficient : List Str → List Str → ℕ → F → Bool
  outside_availability_is_sufficient available_client_ids complement_client_ids minimum_clients
        minimum_fraction =
      if any (λ client_id. not (contains complement_client_ids client_id)) available_client_ids
      then false
      else leb
          (required_outside_client_count (length complement_client_ids) minimum_clients
            minimum_fraction)
          (length available_client_ids)

  -- `mass[index] += contribution` for every index.
  abbrev pub add_masses : List F → List F → List F
  add_masses mass one_hot = map (λ (pair : F × F). pair.0 ⊕ pair.1) (zip mass one_hot)

  abbrev pub mass_of : ℕ → List F → List F → List F
  mass_of bin_count mass [] = mass
  mass_of bin_count mass (rank ∷ ranks) =
      mass_of bin_count (add_masses mass (histogram_one_hot rank bin_count)) ranks

  abbrev pub selected_ranks : List (Str × F) → List Str → List F
  selected_ranks lagged_ranks available_client_ids =
      map (λ (entry : Str × F). entry.1)
        (keep (λ (entry : Str × F). contains available_client_ids entry.0) lagged_ranks)

  -- `1.0 / len(available_client_ids)` raises without available clients.
  unfoldable pub outside_context_histogram :
      List (Str × F) → List Str → List Str → ℕ → ℕ → F → Result (OutsideContextHistogram F)
  outside_context_histogram lagged_ranks available_client_ids complement_client_ids bin_count
        minimum_clients minimum_fraction =
      if not (
        outside_availability_is_sufficient available_client_ids complement_client_ids
          minimum_clients minimum_fraction)
      then ok (record {
        bin_mass = replicate bin_count nought;
        available_client_ids = available_client_ids;
        abstained = true;
      })
      else do
        let mass =
            mass_of bin_count (replicate bin_count nought)
              (selected_ranks lagged_ranks available_client_ids)
        raise_if (length available_client_ids == 0) zero_division_error
        ok (record {
          bin_mass = map (λ total. (unity ⊘ f.of_ℕ (length available_client_ids)) ⊗ total) mass;
          available_client_ids = available_client_ids;
          abstained = false;
        })

  -- `(left[index] - right[index]) ** 2 for index in range(len(left))`.
  squared_differences : List F → List F → Result (List F)
  squared_differences [] right = ok []
  squared_differences (l ∷ left) [] = err index_error
  squared_differences (l ∷ left) (r ∷ right) = do
    rest ← squared_differences left right
    ok (((l ⊖ r) ** 2) ∷ rest)

  unfoldable pub euclidean_distance : List F → List F → Result F
  unfolding squared_differences
  euclidean_distance left right = do
    squares ← squared_differences left right
    ok (f.sqrt (f.sum squares))

  -- `min(distances)`, from its first.
  abbrev pub least_of : F → List F → F
  least_of least [] = least
  least_of least (d ∷ rest) = least_of (if f.lt d least then d else least) rest

  -- The first index whose distance is within the tolerance of the least.
  abbrev pub first_tied : F → F → ℕ → List F → Option ℕ
  first_tied best tolerance index [] = none
  first_tied best tolerance index (d ∷ rest) =
      let later = first_tied best tolerance (suc index) rest in
      if f.le (d ⊖ best) tolerance then some index else later

  -- `min` and `tied[0]` of the distances.
  unfoldable pub nearest_within : List F → F → Result ℕ
  nearest_within [] tolerance = err value_error
  nearest_within (d ∷ rest) tolerance = elim (first_tied (least_of d rest) tolerance 0 (d ∷ rest)) [
    | none ↦ err index_error
    | some index ↦ ok index
  ]

  unfoldable pub assign_context_cell : List F → List (List F) → F → Result ℕ
  unfolding euclidean_distance
  assign_context_cell histogram centroids assignment_tie_tolerance = do
    distances ← traverse (euclidean_distance histogram) centroids
    nearest_within distances assignment_tie_tolerance

  -- The loop of `fit_context_centroids` over the results of the restarts.
  abbrev pub best_restart : {C : Type 0} → Option (C × F) → List (C × F) → Option (C × F)
  best_restart best [] = best
  best_restart none (result ∷ rest) = best_restart (some result) rest
  best_restart (some best) (result ∷ rest) =
      best_restart (some (if f.lt result.1 best.1 then result else best)) rest

  -- The restarts from `index` on, `count` of them.
  abbrev pub results_of : {C : Type 0} → (ℕ → C × F) → ℕ → ℕ → List (C × F)
  results_of restart index zero = []
  results_of restart index (suc count) = restart index ∷ results_of restart (suc index) count

  -- `restart` is `_lloyd_kmeans_restart` at the seed of a restart: centroids with their inertia.
  unfoldable pub fit_context_centroids :
      {C : Type 0} → (restart : ℕ → C × F) → (row_count cell_count n_init : ℕ) → Option C
  fit_context_centroids restart row_count cell_count n_init =
      if ltb row_count cell_count
      then none
      else elim (best_restart none (results_of restart 0 n_init)) [
        | none ↦ none
        | some best ↦ some best.0
      ]
