-- ===== src/Contexts/Masses.antt =====
-- The sums of one-hot vectors count the ranks of each bin.
use fed_campaign_emhi.Prelude.{
  ℕ, zero, suc, ◌+◌, ◌≤◌, ◌<◌, ◌≡◌, refl, ap, ◌∙◌, Bool, true, false, ◌&&◌, some, List, [], ◌∷◌,
  map, arith, if◌then◌else◌, length, get_elem?, replicate, zip, count_if, Bool-cases, inl, inr,
}
use fed_campaign_emhi.Prelude.Membership.{All}
use fed_campaign_emhi.Prelude.Float.{
  Float, IsOrdered, IsExact, exact_limit, nought, unity, ◌⊕◌, ◌⊗◌,
}
use fed_campaign_emhi.Contexts.{histogram_one_hot, add_masses, mass_of, selected_ranks}
use fed_campaign_emhi.Contexts.Bins.{in_bin, one_hot-in_bin}
use fed_campaign_emhi.Prelude.Str.{Str}
use fed_campaign_emhi.Prelude.Sets.{contains, str_eq_instance}

pub get_elem?-replicate :
    {A : Type 0} (n i : ℕ) (a : A) → i < n → get_elem? (replicate n a) i ≡ some a
get_elem?-replicate zero i a h = absurd (omega arith)
get_elem?-replicate (suc n) zero a h = refl
get_elem?-replicate (suc n) (suc i) a h = get_elem?-replicate n i a (omega arith)

pub get_elem?-map :
    {A B : Type 0} (g : A → B) (xs : List A) (i : ℕ) {a : A}
    → get_elem? xs i ≡ some a
    → get_elem? (map g xs) i ≡ some (g a)
get_elem?-map g [] i h = ground arith
get_elem?-map g (x ∷ xs) zero h = ground arith
get_elem?-map g (x ∷ xs) (suc i) h = get_elem?-map g xs i h

get_elem?-zip :
    {A B : Type 0} (xs : List A) (ys : List B) (i : ℕ) {a : A} {b : B}
    → get_elem? xs i ≡ some a
    → get_elem? ys i ≡ some b
    → get_elem? (zip xs ys) i ≡ some (a, b)
get_elem?-zip [] ys i h k = ground arith
get_elem?-zip (x ∷ xs) [] i h k = ground arith
get_elem?-zip (x ∷ xs) (y ∷ ys) zero h k = ground arith
get_elem?-zip (x ∷ xs) (y ∷ ys) (suc i) h k = get_elem?-zip xs ys i h k

module _ {F : Type 0} ⦃f : Float F⦄ where
  -- A rank of a client times the number of bins is not negative.
  abbrev pub IsRank : ℕ → F → Type 0
  IsRank bin_count rank = f.le nought (rank ⊗ f.of_ℕ bin_count) ≡ true

  -- How many lagged ranks of available clients are in bin `i`.
  abbrev pub ranks_in_bin : ℕ → ℕ → List (Str × F) → List Str → ℕ
  ranks_in_bin bin_count i lagged_ranks available =
      count_if (λ (entry : Str × F). contains available entry.0 && in_bin bin_count i entry.1)
        lagged_ranks

  pub ranks_in_bin-count :
      (bin_count i : ℕ) (lagged_ranks : List (Str × F)) (available : List Str)
      → count_if (in_bin bin_count i) (selected_ranks lagged_ranks available)
        ≡ ranks_in_bin bin_count i lagged_ranks available
  ranks_in_bin-count bin_count i [] available = refl
  ranks_in_bin-count bin_count i (entry ∷ rest) available =
      let ih = ranks_in_bin-count bin_count i rest available in ground (arith, ih)

  pub length-selected_ranks :
      (lagged_ranks : List (Str × F)) (available : List Str)
      → length (selected_ranks lagged_ranks available) ≤ length lagged_ranks
  length-selected_ranks [] available = omega arith
  length-selected_ranks (entry ∷ rest) available =
      let ih = length-selected_ranks rest available in ground (arith, ih)

  pub selected_ranks-All :
      (bin_count : ℕ) (lagged_ranks : List (Str × F)) (available : List Str)
      → All (λ (entry : Str × F). IsRank bin_count entry.1) lagged_ranks
      → All (IsRank bin_count) (selected_ranks lagged_ranks available)
  selected_ranks-All bin_count [] available h = tt
  selected_ranks-All bin_count (entry ∷ rest) available (h, hs) =
      let ih = selected_ranks-All bin_count rest available hs in
      elim (Bool-cases (contains available entry.0)) [ inl q ↦ rw q (h, ih) | inr q ↦ rw q ih ]

  module _ (o : IsOrdered F) (x : IsExact F) where
    add_one :
        (c : ℕ) (inside : Bool)
        → c < exact_limit
        → f.of_ℕ c ⊕ (if inside then unity else nought) ≡ f.of_ℕ (c + (if inside then 1 else 0))
    add_one c true h = x.add_unity c h ∙ ap f.of_ℕ (omega arith)
    add_one c false h = x.add_nought c (omega arith) ∙ ap f.of_ℕ (omega arith)

    pub mass_of-at :
        (bin_count i : ℕ)
        → bin_count ≤ exact_limit
        → i < bin_count
        → (c : ℕ) (mass ranks : List F) → c + length ranks ≤ exact_limit
        → All (IsRank bin_count) ranks
        → get_elem? mass i ≡ some (f.of_ℕ c)
        → get_elem? (mass_of bin_count mass ranks) i
          ≡ some (f.of_ℕ (c + count_if (in_bin bin_count i) ranks))
    mass_of-at bin_count i l b c mass [] n h e = e ∙ ap (λ m. some (f.of_ℕ m)) (omega arith)
    mass_of-at bin_count i l b c mass (rank ∷ ranks) n (h, hs) e =
        let one_hot = histogram_one_hot rank bin_count in
        let inside = in_bin bin_count i rank in
        let added =
          get_elem?-map (λ (pair : F × F). pair.0 ⊕ pair.1) (zip mass one_hot) i
            (get_elem?-zip mass one_hot i e (one_hot-in_bin o x bin_count i rank l b h))
          ∙ ap some (add_one c inside (omega arith)) in
        mass_of-at bin_count i l b (c + (if inside then 1 else 0)) (add_masses mass one_hot) ranks
          (ground arith) hs added
        ∙ ap (λ m. some (f.of_ℕ m)) (omega arith)
