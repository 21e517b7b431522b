-- ===== src/Projection.antt =====
-- src/fedcampaign_emhi/emhi/projection.py: the design of the proper subsets, the folds of a blocked
-- cross-validation and the choice of the ridge penalty. The condition number of a Gram matrix and the
-- ridge fit are calls of numpy and are not modelled.
pub mod Design
pub mod Folds
use fed_campaign_emhi.Prelude.{
  ℕ, zero, suc, ◌+◌, ◌*◌, ◌/◌, ◌%◌, ◌^◌, Bool, not, ◌&&◌, ◌||◌, List, [], ◌∷◌, ◌++◌, map, ltb, leb,
  ◌==◌, if◌then◌else◌, length, zip, Result, ok, err, value_error, raise_if, ◌>>=◌, ◌>>◌, ◌-◌,
}
use mathlib.Core.List.{foldr}
use fed_campaign_emhi.Prelude.Order.{sorted}
use fed_campaign_emhi.Prelude.Float.{Float, unity, magnitude, ◌⊕◌, ◌⊖◌, ◌⊗◌, ◌⊘◌}
use fed_campaign_emhi.Domain.Enums.{CoalitionOrder, one, two, three, order_value}
use fed_campaign_emhi.Structure.Tensor.{bounded_basis, tensor_representation}

pub record ProperSubsetDesignShape : Type 0 where
  pub design_column_count : ℕ
  pub tensor_dimension : ℕ

unfoldable pub proper_subset_design_column_count : CoalitionOrder → ℕ → ℕ
proper_subset_design_column_count one basis_size = 1
proper_subset_design_column_count two basis_size = 1 + 2 * basis_size
proper_subset_design_column_count three basis_size =
    1 + 3 * basis_size + 3 * (basis_size * basis_size)

unfoldable pub proper_subset_design_shape : CoalitionOrder → ℕ → ProperSubsetDesignShape
proper_subset_design_shape coalition_order basis_size = record {
  design_column_count = proper_subset_design_column_count coalition_order basis_size;
  tensor_dimension = basis_size ^ order_value coalition_order;
}

-- `CoalitionOrder(order)`.
abbrev pub to_order : ℕ → Result CoalitionOrder
to_order zero = err value_error
to_order (suc zero) = ok one
to_order (suc (suc zero)) = ok two
to_order (suc (suc (suc zero))) = ok three
to_order (suc (suc (suc (suc more)))) = err value_error

module _ {F : Type 0} ⦃f : Float F⦄ where
  singletons : ℕ → List F → Result (List F)
  singletons basis_size [] = ok []
  singletons basis_size (rank ∷ ranks) = do
    basis ← bounded_basis rank basis_size
    rest ← singletons basis_size ranks
    ok (basis ++ rest)

  -- The inner loop, for one left rank.
  pairs_with : ℕ → F → List F → Result (List F)
  pairs_with basis_size left [] = ok []
  pairs_with basis_size left (right ∷ ranks) = do
    tensor ← tensor_representation (left ∷ right ∷ []) basis_size
    rest ← pairs_with basis_size left ranks
    ok (tensor ++ rest)

  pair_coordinates : ℕ → List F → Result (List F)
  unfolding pairs_with
  pair_coordinates basis_size [] = ok []
  pair_coordinates basis_size (left ∷ ranks) = do
    here ← pairs_with basis_size left ranks
    rest ← pair_coordinates basis_size ranks
    ok (here ++ rest)

  -- The row, if it has the expected number of columns.
  abbrev pub with_columns : ℕ → List F → Result (List F)
  with_columns expected row = do raise_if (not (length row == expected)) value_error; ok row

  -- The row of an order: the intercept, the singletons from order 2 on, the pairs for order 3.
  unfoldable pub design_row_of_order : CoalitionOrder → List F → ℕ → Result (List F)
  unfolding singletons pair_coordinates
  design_row_of_order one member_ranks basis_size =
      with_columns (proper_subset_design_column_count one basis_size) (unity ∷ [])
  design_row_of_order two member_ranks basis_size = do
    singles ← singletons basis_size member_ranks
    with_columns (proper_subset_design_column_count two basis_size) (unity ∷ singles)
  design_row_of_order three member_ranks basis_size = do
    singles ← singletons basis_size member_ranks
    pairs ← pair_coordinates basis_size member_ranks
    with_columns (proper_subset_design_column_count three basis_size) (unity ∷ (singles ++ pairs))

  unfoldable pub proper_subset_design_row : List F → ℕ → Result (List F)
  unfolding design_row_of_order
  proper_subset_design_row member_ranks basis_size = do
    order ← to_order (length member_ranks)
    design_row_of_order order member_ranks basis_size

  unfoldable pub fold_size_weighted_mse : List F → List ℕ → Result F
  fold_size_weighted_mse fold_mses fold_sizes = do
    raise_if (not (length fold_mses == length fold_sizes)) value_error
    let total = foldr ◌+◌ 0 fold_sizes
    raise_if (total == 0) value_error
    ok (
        f.sum (map (λ (pair : F × ℕ). pair.0 ⊗ f.of_ℕ pair.1) (zip fold_mses fold_sizes))
        ⊘ f.of_ℕ total)

  -- The loop over the candidates that are left, from `selected` and `selected_mse`.
  ridge_loop : F → F → F → List (F × F) → F
  ridge_loop tie_tolerance selected selected_mse [] = selected
  ridge_loop tie_tolerance selected selected_mse ((penalty, mse) ∷ rest) =
      let better = ridge_loop tie_tolerance penalty mse rest in
      let tied =
        ridge_loop tie_tolerance penalty (if f.lt mse selected_mse then mse else selected_mse)
          rest in
      let worse = ridge_loop tie_tolerance selected selected_mse rest in
      if f.lt (mse ⊕ tie_tolerance) selected_mse
      then better
      else if f.le (magnitude (mse ⊖ selected_mse)) tie_tolerance && f.lt selected penalty
      then tied
      else worse

  abbrev pub by_penalty : F × F → F × F → Bool
  by_penalty a b = f.le a.0 b.0

  ridge_from : F → List (F × F) → Result F
  unfolding ridge_loop
  ridge_from tie_tolerance [] = err value_error
  ridge_from tie_tolerance ((penalty, mse) ∷ rest) = ok (ridge_loop tie_tolerance penalty mse rest)

  unfoldable pub select_ridge_penalty : List F → List F → F → Result F
  unfolding ridge_from
  select_ridge_penalty candidates weighted_mses tie_tolerance = do
    raise_if ((length candidates == 0) || not (length candidates == length weighted_mses))
        value_error
    ridge_from tie_tolerance (sorted by_penalty (zip candidates weighted_mses))

unfoldable pub blocked_fit_is_supported : ℕ → ℕ → Bool
blocked_fit_is_supported observation_count fold_count = leb fold_count observation_count

-- The rounds of `for fold_index in range(fold_count)` that are left, with `fold_index` and `start`.
bounds_loop : ℕ → ℕ → ℕ → ℕ → ℕ → List (ℕ × ℕ)
bounds_loop quotient remainder zero fold_index start = []
bounds_loop quotient remainder (suc rounds) fold_index start =
    let end = start + (if ltb fold_index remainder then quotient + 1 else quotient) in
    (start, end) ∷ bounds_loop quotient remainder rounds (suc fold_index) end

-- A fold count is positive.
unfoldable pub blocked_fold_bounds : ℕ → ℕ → Result (List (ℕ × ℕ))
unfolding bounds_loop
blocked_fold_bounds observation_count fold_count = do
  raise_if (ltb observation_count fold_count) value_error
  ok (bounds_loop (observation_count / fold_count) (observation_count % fold_count) fold_count 0 0)

unfoldable pub blocked_fold_sizes : ℕ → ℕ → Result (List ℕ)
unfolding blocked_fold_bounds
blocked_fold_sizes observation_count fold_count = do
  bounds ← blocked_fold_bounds observation_count fold_count
  ok (map (λ (fold : ℕ × ℕ). fold.1 - fold.0) bounds)
