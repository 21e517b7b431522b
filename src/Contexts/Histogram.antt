-- ===== src/Contexts/Histogram.antt =====
-- The one-hot vector of a rank, and the histogram of the lagged ranks of available clients.
use fed_campaign_emhi.Prelude.{
  ℕ, zero, suc, ◌<◌, ◌≡◌, refl, sym, ap, ◌∙◌, ◌≢◌, ◌⊎◌, inl, inr, true, false, some, List, [], ◌∷◌,
  map, arith, ◌==◌, if◌then◌else◌, Bool-cases, length, get_elem?, replicate, zip, length-map, ◌≤◌,
  true≢false, ok,
}
use fed_campaign_emhi.Prelude.Str.{Str}
use fed_campaign_emhi.Prelude.Sets.{str_eq_instance}
use fed_campaign_emhi.Prelude.Membership.{All}
use fed_campaign_emhi.Contexts.Bins.{in_bin, one_hot-in_bin}
use fed_campaign_emhi.Contexts.Sufficient.{
  IsSufficient, outside_availability_is_sufficient-IsSufficient,
}
use fed_campaign_emhi.Contexts.Masses.{
  IsRank, ranks_in_bin, ranks_in_bin-count, length-selected_ranks, selected_ranks-All, mass_of-at,
  get_elem?-replicate, get_elem?-map,
}
use fed_campaign_emhi.Prelude.Float.{
  Float, IsOrdered, IsExact, exact_limit, nought, unity, ◌⊕◌, ◌⊗◌, ◌⊘◌,
}
use fed_campaign_emhi.Domain.Types.{OutsideContextHistogram}
use fed_campaign_emhi.Contexts.{
  histogram_bin_index, one_hot_from, histogram_one_hot, outside_availability_is_sufficient,
  add_masses, mass_of, selected_ranks, outside_context_histogram,
}

length-replicate : {A : Type 0} (n : ℕ) (a : A) → length (replicate n a) ≡ n
length-replicate zero a = refl
length-replicate (suc n) a = ap suc (length-replicate n a)

length-zip :
    {A B : Type 0} (xs : List A) (ys : List B)
    → length xs ≡ length ys
    → length (zip xs ys) ≡ length xs
length-zip [] ys h = refl
length-zip (x ∷ xs) [] h = absurd (omega arith)
length-zip (x ∷ xs) (y ∷ ys) h = ap suc (length-zip xs ys (omega arith))

length-one_hot_from :
    (F : Type 0) ⦃f : Float F⦄ (assigned index count : ℕ)
    → length (one_hot_from {F = F} assigned index count) ≡ count
length-one_hot_from F assigned index zero = refl
length-one_hot_from F assigned index (suc count) =
    ap suc (length-one_hot_from F assigned (suc index) count)

module _ {F : Type 0} ⦃f : Float F⦄ where
  -- For a number of bins up to 2 ** 53 and a rank whose product with it is not negative, the
  -- one-hot vector has an entry for each bin; entry `i` is 1.0 if the product reaches `i` and stays below
  -- `i + 1`, where the last bin has no upper end, and 0.0 if not. (Comparisons of doubles are an order,
  -- and integers up to 2 ** 53 are exact.)
  pub histogram_one_hot-at :
      (o : IsOrdered F) (x : IsExact F) (rank : F) (bin_count : ℕ)
      → bin_count ≤ exact_limit
      → f.le nought (rank ⊗ f.of_ℕ bin_count) ≡ true
      → (length (histogram_one_hot rank bin_count) ≡ bin_count)
        × ((i : ℕ)
            → i < bin_count
            → get_elem? (histogram_one_hot rank bin_count) i
              ≡ some (if in_bin bin_count i rank then unity else nought))
  unfolding histogram_one_hot
  histogram_one_hot-at o x rank bin_count l k = (
    length-one_hot_from F (histogram_bin_index rank bin_count) 0 bin_count,
    λ i b. one_hot-in_bin o x bin_count i rank l b k,
  )

  length-mass_of :
      (bin_count : ℕ) (mass ranks : List F)
      → length mass ≡ bin_count
      → length (mass_of bin_count mass ranks) ≡ bin_count
  unfolding histogram_one_hot
  length-mass_of bin_count mass [] h = h
  length-mass_of bin_count mass (rank ∷ ranks) h =
      let one_hot = histogram_one_hot rank bin_count in
      let n = length-one_hot_from F (histogram_bin_index rank bin_count) 0 bin_count in
      length-mass_of bin_count (add_masses mass one_hot) ranks (
        length-map (λ (pair : F × F). pair.0 ⊕ pair.1) (zip mass one_hot)
        ∙ length-zip mass one_hot (h ∙ sym n)
        ∙ h)

  -- For at least one available client, available clients, bins and lagged ranks up to 2 ** 53 of each, and
  -- ranks whose product with the number of bins is not negative, the histogram exists, with the available
  -- clients and a mass for each bin. If every available client is in the complement, and they are at
  -- least the minimum and at least the fraction of the complement, it does not abstain, and the mass of
  -- bin `i` is `1.0 / len(available)` times the number of lagged ranks of available clients in the bin; if
  -- not, it abstains and every mass is 0.0. (Comparisons of doubles are an order, and integers up to
  -- 2 ** 53 are exact.)
  pub outside_context_histogram-masses :
      (o : IsOrdered F) (x : IsExact F) (lagged_ranks : List (Str × F))
      (available complement : List Str) (bin_count minimum : ℕ) (fraction : F)
      → length available ≢ 0
      → length available ≤ exact_limit
      → length lagged_ranks ≤ exact_limit
      → bin_count ≤ exact_limit
      → All (λ (entry : Str × F). IsRank bin_count entry.1) lagged_ranks
      → (histogram : OutsideContextHistogram F) × (outside_context_histogram lagged_ranks available
            complement bin_count minimum fraction
          ≡ ok histogram)
        × (length histogram.bin_mass ≡ bin_count)
        × (histogram.available_client_ids ≡ available)
        × ((IsSufficient available complement minimum fraction
              × (histogram.abstained ≡ false)
              × ((i : ℕ)
                  → i < bin_count
                  → get_elem? histogram.bin_mass i
                    ≡ some (
                        (unity ⊘ f.of_ℕ (length available))
                        ⊗ f.of_ℕ (ranks_in_bin bin_count i lagged_ranks available))))
            ⊎ (¬ IsSufficient available complement minimum fraction
                × (histogram.abstained ≡ true)
                × ((i : ℕ) → i < bin_count → get_elem? histogram.bin_mass i ≡ some nought)))
  unfolding outside_context_histogram
  outside_context_histogram-masses o x lagged_ranks available complement bin_count minimum fraction
        h la ll lb ranks =
      let some_available : (length available == 0) ≡ false = ground arith in
      let selected = selected_ranks lagged_ranks available in
      let few = length-selected_ranks lagged_ranks available in
      let start = replicate bin_count nought in
      let mass = mass_of bin_count start selected in
      let sufficient =
        outside_availability_is_sufficient-IsSufficient x available complement minimum fraction
          la in
      let scaled : F → F = λ total. (unity ⊘ f.of_ℕ (length available)) ⊗ total in
      elim (Bool-cases (outside_availability_is_sufficient available complement minimum fraction)) [
        | inl q ↦ (
          record {
            bin_mass = map scaled mass;
            available_client_ids = available;
            abstained = false;
          },
          rw (q, some_available) refl,
          length-map scaled mass
              ∙ length-mass_of bin_count start selected (length-replicate bin_count nought),
          refl,
          inl (
            sufficient.0 q,
            refl,
            λ i b.
                get_elem?-map scaled mass i (
                  mass_of-at o x bin_count i lb b 0 start selected (omega (arith, few))
                    (selected_ranks-All bin_count lagged_ranks available ranks)
                    (get_elem?-replicate bin_count i nought b))
                ∙ ap (λ n. some (scaled (f.of_ℕ n)))
                    (omega (arith, ranks_in_bin-count bin_count i lagged_ranks available)),
          ),
        )
        | inr q ↦ (
          record { bin_mass = start; available_client_ids = available; abstained = true },
          rw q refl,
          length-replicate bin_count nought,
          refl,
          inr (
            λ s. true≢false (sym (sufficient.1 s) ∙ q),
            refl,
            λ i b. get_elem?-replicate bin_count i nought b,
          ),
        )
      ]
