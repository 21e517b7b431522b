-- ===== src/Contexts/Bins.antt =====
-- The bin of a rank, told by comparisons of doubles, and the sums of one-hot vectors.
use fed_campaign_emhi.Prelude.{
  ℕ, zero, suc, ◌+◌, ◌-◌, ltb, ◌≤◌, ◌<◌, ◌≡◌, sym, ap, ◌∙◌, ◌↔◌, Bool, true, false, ◌&&◌, ◌||◌,
  some, arith, ◌==◌, if◌then◌else◌, get_elem?, not,
}
use fed_campaign_emhi.Prelude.Int.{ℤ, pos, pos_part, ◌≤ℤ◌}
use fed_campaign_emhi.Prelude.Float.{Float, IsOrdered, IsExact, exact_limit, nought, unity, ◌⊗◌}
use fed_campaign_emhi.Contexts.{histogram_bin_index, one_hot_from, histogram_one_hot}

-- The clamped floor is `i` if it reaches `i`, and does not pass it or is clamped to it.
clamped_floor-eq :
    (floor : ℤ) (bin_count i : ℕ) (reaches passes : Bool)
    → i < bin_count
    → pos 0 ≤ℤ floor
    → (pos i ≤ℤ floor) ↔ (reaches ≡ true)
    → (pos (suc i) ≤ℤ floor) ↔ (passes ≡ true)
    → (i == (if ltb (bin_count - 1) (pos_part floor) then bin_count - 1 else pos_part floor))
      ≡ (reaches && (suc i == bin_count || not passes))
clamped_floor-eq floor bin_count i true true h z here next = ground arith
clamped_floor-eq floor bin_count i true false h z here next = ground arith
clamped_floor-eq floor bin_count i false true h z here next = ground arith
clamped_floor-eq floor bin_count i false false h z here next = ground arith

module _ {F : Type 0} ⦃f : Float F⦄ where
  -- A rank times the number of bins reaches `i`, and it stays below `i + 1` unless `i` is the last bin.
  abbrev pub in_bin : ℕ → ℕ → F → Bool
  in_bin bin_count i rank =
      f.le (f.of_ℕ i) (rank ⊗ f.of_ℕ bin_count)
      && (suc i == bin_count || f.lt (rank ⊗ f.of_ℕ bin_count) (f.of_ℕ (suc i)))

  one_hot_from-at :
      (assigned index count i : ℕ)
      → i < count
      → get_elem? (one_hot_from {F = F} assigned index count) i
        ≡ some (if index + i == assigned then unity else nought)
  one_hot_from-at assigned index zero i h = absurd (omega arith)
  one_hot_from-at assigned index (suc count) zero h =
      ap (λ j. some (if j == assigned then unity else nought)) (omega arith)
  one_hot_from-at assigned index (suc count) (suc i) h =
      one_hot_from-at assigned (suc index) count i (omega arith)
      ∙ ap (λ j. some (if j == assigned then unity else nought)) (omega arith)

  module _ (o : IsOrdered F) (x : IsExact F) where
    in_bin-eq :
        (bin_count i : ℕ) (rank : F)
        → bin_count ≤ exact_limit
        → i < bin_count
        → f.le nought (rank ⊗ f.of_ℕ bin_count) ≡ true
        → (i == histogram_bin_index rank bin_count) ≡ in_bin bin_count i rank
    unfolding histogram_bin_index
    in_bin-eq bin_count i rank l h k =
        let p = rank ⊗ f.of_ℕ bin_count in
        clamped_floor-eq (f.floor p) bin_count i (f.le (f.of_ℕ i) p) (f.le (f.of_ℕ (suc i)) p) h
          ((x.floor_iff p 0 (omega arith)).1 k) (x.floor_iff p i (omega arith))
          (x.floor_iff p (suc i) (omega arith))
        ∙ ap (λ b. f.le (f.of_ℕ i) p && (suc i == bin_count || b))
            (sym (o.lt-eq-not-le p (f.of_ℕ (suc i))))

    pub one_hot-in_bin :
        (bin_count i : ℕ) (rank : F)
        → bin_count ≤ exact_limit
        → i < bin_count
        → f.le nought (rank ⊗ f.of_ℕ bin_count) ≡ true
        → get_elem? (histogram_one_hot rank bin_count) i
          ≡ some (if in_bin bin_count i rank then unity else nought)
    unfolding histogram_one_hot
    one_hot-in_bin bin_count i rank l h k =
        one_hot_from-at (histogram_bin_index rank bin_count) 0 bin_count i h
        ∙ ap (λ j. some (if j == histogram_bin_index rank bin_count then unity else nought))
            (omega arith)
        ∙ ap (λ b. some (if b then unity else nought)) (in_bin-eq bin_count i rank l h k)
