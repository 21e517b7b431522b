-- ===== src/Datasets/Campaigns/Gaps.antt =====
-- Which epochs join a run: what the test on the gap before them says.
use fed_campaign_emhi.Prelude.{
  ℕ, zero, suc, ◌≡◌, refl, sym, ◌∙◌, inl, inr, true, false, List, arith, Bool-cases, all, true_and,
}
use fed_campaign_emhi.Prelude.Int.{
  ℤ, pos, pos_part, ◌+ℤ◌, ◌-ℤ◌, ◌≤ℤ◌, ◌<ℤ◌, leb_ℤ, ltb_ℤ, range_ℤ, leb_ℤ_iff, ltb_ℤ_iff, int_laws,
  eq_of_parts, pos_part_zero, pos_part_or_neg_part,
}
use fed_campaign_emhi.Prelude.Sets.{int_eq, contains, contains_iff}
use fed_campaign_emhi.Prelude.Membership.{In, all_iff}
use fed_campaign_emhi.Datasets.Campaigns.{epoch_range, joins_run}

In-range_ℤ :
    (start : ℤ) (n : ℕ) (epoch : ℤ)
    → start ≤ℤ epoch
    → epoch <ℤ start +ℤ pos n
    → In epoch (range_ℤ start n)
In-range_ℤ start zero epoch h k = absurd (omega int_laws)
In-range_ℤ start (suc n) epoch h k = elim (Bool-cases (ltb_ℤ start epoch)) [
  | inl q ↦
      let after = (ltb_ℤ_iff start epoch).0 q in
      inr (In-range_ℤ (start +ℤ pos 1) n epoch (omega int_laws) (omega int_laws))
  | inr q ↦ inl (eq_of_parts epoch start (ground arith))
]

-- An epoch of `range(start, end)`.
In-epoch_range :
    (start end epoch : ℤ) → start ≤ℤ epoch → epoch <ℤ end → In epoch (epoch_range start end)
In-epoch_range start end epoch h k =
    In-range_ℤ start (pos_part (end -ℤ start)) epoch h (omega int_laws)

range_ℤ-bounds :
    (start : ℤ) (n : ℕ) (epoch : ℤ)
    → In epoch (range_ℤ start n)
    → (start ≤ℤ epoch) × (epoch <ℤ start +ℤ pos n)
range_ℤ-bounds start zero epoch i = absurd i
range_ℤ-bounds start (suc n) epoch (inl e) = rw e (omega int_laws, omega int_laws)
range_ℤ-bounds start (suc n) epoch (inr i) =
    let (h, k) = range_ℤ-bounds (start +ℤ pos 1) n epoch i in (omega int_laws, omega int_laws)

-- At most `max_gap` epochs lie between the two, and all of them are fully benign.
abbrev pub Joinable : ℕ → List ℤ → ℤ → ℤ → Type 0
Joinable max_gap benign previous epoch =
    (epoch ≤ℤ previous +ℤ pos (suc max_gap))
    × ((gap : ℤ) → previous <ℤ gap → gap <ℤ epoch → In gap benign)

abbrev gap_length : ℤ → ℤ → ℕ
gap_length previous epoch = pos_part (epoch -ℤ (previous +ℤ pos 1))

-- What lies in the range after `previous` lies before `epoch`.
before :
    (previous epoch gap : ℤ)
    → previous +ℤ pos 1 ≤ℤ gap
    → gap <ℤ (previous +ℤ pos 1) +ℤ pos (gap_length previous epoch)
    → gap <ℤ epoch
before previous epoch gap h k = elim (Bool-cases (ltb_ℤ gap epoch)) [
  | inl q ↦ (ltb_ℤ_iff gap epoch).0 q
  | inr q ↦
      let late : epoch ≤ℤ gap = ground arith in
      let part = pos_part_or_neg_part (epoch -ℤ (previous +ℤ pos 1)) in
      absurd (elim part [ inl z ↦ omega int_laws | inr z ↦ omega int_laws ])
]

module _ (max_gap : ℕ) (benign : List ℤ) where
  -- An epoch that is not after `previous` joins.
  pub not_joined :
      (previous epoch : ℤ)
      → previous ≤ℤ epoch
      → joins_run max_gap benign previous epoch ≡ false
      → previous <ℤ epoch
  unfolding joins_run
  not_joined previous epoch h q = elim (Bool-cases (ltb_ℤ previous epoch)) [
    | inl later ↦ (ltb_ℤ_iff previous epoch).0 later
    | inr same ↦
        let none_between : pos_part (epoch -ℤ (previous +ℤ pos 1)) ≡ 0 =
          pos_part_zero (epoch -ℤ (previous +ℤ pos 1)) (omega (int_laws, not_after same)) in
        let short : leb_ℤ (epoch -ℤ previous -ℤ pos 1) (pos max_gap) ≡ true =
          (leb_ℤ_iff (epoch -ℤ previous -ℤ pos 1) (pos max_gap)).1
            (omega (int_laws, not_after same)) in
        let joined : joins_run max_gap benign previous epoch ≡ true =
          rw (short, none_between) refl in
        absurd (let w : true ≡ false = sym joined ∙ q in cc)
  ]
    where
      not_after : ltb_ℤ previous epoch ≡ false → epoch ≤ℤ previous
      not_after s = ground arith

  pub not_joins :
      (previous epoch : ℤ)
      → joins_run max_gap benign previous epoch ≡ false
      → ¬ Joinable max_gap benign previous epoch
  unfolding joins_run
  not_joins previous epoch q (short, filled) =
      let length_ok : leb_ℤ (epoch -ℤ previous -ℤ pos 1) (pos max_gap) ≡ true =
        (leb_ℤ_iff (epoch -ℤ previous -ℤ pos 1) (pos max_gap)).1 (omega int_laws) in
      let inside : all (contains benign) (epoch_range (previous +ℤ pos 1) epoch) ≡ true =
        (all_iff (contains benign) (epoch_range (previous +ℤ pos 1) epoch)).1 (λ gap i.
          let (h, k) = range_ℤ-bounds (previous +ℤ pos 1) (gap_length previous epoch) gap i in
          (contains_iff benign gap).1
            (filled gap (omega int_laws) (before previous epoch gap h k))) in
      let joined : joins_run max_gap benign previous epoch ≡ true = rw (length_ok, inside) refl in
      absurd (let w : true ≡ false = sym joined ∙ q in cc)

  pub joined_gap :
      (previous epoch : ℤ)
      → joins_run max_gap benign previous epoch ≡ true
      → (gap : ℤ) → previous <ℤ gap
      → gap <ℤ epoch
      → In gap benign
  unfolding joins_run
  joined_gap previous epoch q gap h k =
      let (short, inside) =
        true_and (leb_ℤ (epoch -ℤ previous -ℤ pos 1) (pos max_gap))
          (all (contains benign) (epoch_range (previous +ℤ pos 1) epoch)) q in
      (contains_iff benign gap).0 (
        (all_iff (contains benign) (epoch_range (previous +ℤ pos 1) epoch)).0 inside gap
          (In-epoch_range (previous +ℤ pos 1) epoch gap (omega int_laws) k))
