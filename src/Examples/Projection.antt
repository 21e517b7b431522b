-- ===== src/Examples/Projection.antt =====
-- The examples of tensors, designs and folds.
use fed_campaign_emhi.Prelude.{
  ℕ, ◌^◌, ◌/◌, ◌≤◌, ◌<◌, ◌≡◌, ◌≢◌, ◌⊎◌, refl, List, [], ◌∷◌, arith, length, ok, err, value_error,
}
use fed_campaign_emhi.Prelude.Float.{milli}
use fed_campaign_emhi.Domain.Enums.{three}
use fed_campaign_emhi.Structure.Tensor.{tensor_representation}
use fed_campaign_emhi.Structure.Tensor.Lengths.{tensor_representation-length}
use fed_campaign_emhi.Projection.{
  proper_subset_design_row, proper_subset_design_column_count, blocked_fold_bounds,
}
use fed_campaign_emhi.Projection.Design.{proper_subset_design_row-columns}
use fed_campaign_emhi.Projection.Folds.{Chain, Balanced, blocked_fold_bounds-Chain}

abbrev three_ranks : List ℕ
three_ranks = 250 ∷ 500 ∷ 750 ∷ []

low : 1 ≤ 2
low = omega arith

high : 2 ≤ 4
high = omega arith

tensor_representation-length_example :
    ((three_ranks ≡ []) × (tensor_representation {F = ℕ} three_ranks 2 ≡ err value_error))
    ⊎ ((tensor : List ℕ) × (tensor_representation {F = ℕ} three_ranks 2 ≡ ok tensor)
        × (length tensor ≡ 2 ^ length three_ranks))
tensor_representation-length_example = tensor_representation-length three_ranks 2 low high

proper_subset_design_row-columns_example :
    (row : List ℕ) × (proper_subset_design_row {F = ℕ} three_ranks 2 ≡ ok row)
    × (length row ≡ proper_subset_design_column_count three 2)
proper_subset_design_row-columns_example =
    proper_subset_design_row-columns 2 low high three_ranks three refl

three≢0 : ◌≢◌ {A = ℕ} 3 0
three≢0 = λ e. omega arith

blocked_fold_bounds-Chain_example :
    ((3 ≤ 11)
      × ((folds : List (ℕ × ℕ)) × (blocked_fold_bounds 11 3 ≡ ok folds)
          × (length folds ≡ 3)
          × Chain 0 folds 11
          × Balanced (11 / 3) folds))
    ⊎ ((11 < 3) × (blocked_fold_bounds 11 3 ≡ err value_error))
blocked_fold_bounds-Chain_example = blocked_fold_bounds-Chain 11 3 three≢0
