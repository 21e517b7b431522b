-- ===== src/Detection/Families.antt =====
-- The round-robin assignment of detector families.
use fed_campaign_emhi.Prelude.{
  ℕ, suc, ◌+◌, ◌/◌, ◌≡◌, refl, ap, List, [], ◌∷◌, map, arith, length, count_if,
}
use fed_campaign_emhi.Prelude.Order.{sorted, length-sorted}
use fed_campaign_emhi.Prelude.Str.{Str, str_le}
use fed_campaign_emhi.Domain.Enums.{
  DetectorFamily, isolation_forest, one_class_svm, autoencoder, detector_family_eq,
}
use fed_campaign_emhi.Domain.Types.{DetectorFamilyAssignment}
use fed_campaign_emhi.Detection.{assign_detector_families, assign_from, family_by_remainder}

-- How many assignments are of a family.
abbrev pub assigned : DetectorFamily → List DetectorFamilyAssignment → ℕ
assigned family = count_if (λ a. detector_family_eq.beq a.family family)

assign_from-ids :
    (index : ℕ) (ids : List Str) → map (λ a. a.client_id) (assign_from index ids) ≡ ids
unfolding assign_from
assign_from-ids index [] = refl
assign_from-ids index (c ∷ cs) = ap (◌∷◌ c) (assign_from-ids (suc index) cs)

assigned-assign_from :
    (index : ℕ) (ids : List Str)
    → (assigned isolation_forest (assign_from index ids) + (index + 2) / 3
        ≡ (index + length ids + 2) / 3)
      × (assigned one_class_svm (assign_from index ids) + (index + 1) / 3
          ≡ (index + length ids + 1) / 3)
      × (assigned autoencoder (assign_from index ids) + index / 3 ≡ (index + length ids) / 3)
unfolding assign_from family_by_remainder
assigned-assign_from index [] = omega arith
assigned-assign_from index (c ∷ cs) = ground (arith, assigned-assign_from (suc index) cs)

-- The clients are assigned in sorted order, each once, and of `n` clients ⌈n/3⌉ get an isolation
-- forest, ⌈(n-1)/3⌉ a one-class SVM and ⌊n/3⌋ an autoencoder.
pub assign_detector_families-balanced :
    (client_ids : List Str)
    → (map (λ a. a.client_id) (assign_detector_families client_ids) ≡ sorted str_le client_ids)
      × (assigned isolation_forest (assign_detector_families client_ids)
          ≡ (length client_ids + 2) / 3)
      × (assigned one_class_svm (assign_detector_families client_ids) ≡ (length client_ids + 1) / 3)
      × (assigned autoencoder (assign_detector_families client_ids) ≡ length client_ids / 3)
unfolding assign_detector_families
assign_detector_families-balanced client_ids =
    let (a, b, c) = assigned-assign_from 0 (sorted str_le client_ids) in
    let n = length-sorted str_le client_ids in
    (assign_from-ids 0 (sorted str_le client_ids), omega arith, omega arith, omega arith)
