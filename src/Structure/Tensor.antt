-- ===== src/Structure/Tensor.antt =====
-- src/fedcampaign_emhi/emhi/structure.py: the shifted Legendre basis and the tensor of the ranks of a
-- coalition. A basis size lies between 1 and 4.
pub mod Lengths
use fed_campaign_emhi.Prelude.{
  ℕ, zero, suc, ◌*◌, ◌^◌, List, [], ◌∷◌, map, flat_map, Result, ok, err, value_error, ◌>>=◌,
}
use fed_campaign_emhi.Prelude.Float.{Float, unity, ◌⊕◌, ◌⊖◌, ◌⊗◌, ◌**◌}
use fed_campaign_emhi.Domain.Enums.{CoalitionOrder, order_value}

module _ {F : Type 0} ⦃f : Float F⦄ where
  unfoldable pub shifted_legendre_phi_one : F → F
  shifted_legendre_phi_one rank = f.sqrt (f.of_ℕ 3) ⊗ ((f.of_ℕ 2 ⊗ rank) ⊖ unity)

  unfoldable pub shifted_legendre_phi_two : F → F
  shifted_legendre_phi_two rank =
      f.sqrt (f.of_ℕ 5) ⊗ (((f.of_ℕ 6 ⊗ (rank ** 2)) ⊖ (f.of_ℕ 6 ⊗ rank)) ⊕ unity)

  unfoldable pub shifted_legendre_phi_three : F → F
  shifted_legendre_phi_three rank =
      f.sqrt (f.of_ℕ 7)
      ⊗ ((((f.of_ℕ 20 ⊗ (rank ** 3)) ⊖ (f.of_ℕ 30 ⊗ (rank ** 2))) ⊕ (f.of_ℕ 12 ⊗ rank)) ⊖ unity)

  unfoldable pub shifted_legendre_phi_four : F → F
  shifted_legendre_phi_four rank =
      f.of_ℕ 3
      ⊗ (((((f.of_ℕ 70 ⊗ (rank ** 4)) ⊖ (f.of_ℕ 140 ⊗ (rank ** 3))) ⊕ (f.of_ℕ 90 ⊗ (rank ** 2)))
            ⊖ (f.of_ℕ 20 ⊗ rank))
          ⊕ unity)

  unfoldable pub bounded_basis : F → ℕ → Result (List F)
  bounded_basis rank zero = err value_error
  bounded_basis rank (suc zero) = ok (shifted_legendre_phi_one rank ∷ [])
  bounded_basis rank (suc (suc zero)) =
      ok (shifted_legendre_phi_one rank ∷ shifted_legendre_phi_two rank ∷ [])
  bounded_basis rank (suc (suc (suc zero))) = ok (
      shifted_legendre_phi_one rank
      ∷ shifted_legendre_phi_two rank
      ∷ shifted_legendre_phi_three rank
      ∷ [])
  bounded_basis rank (suc (suc (suc (suc zero)))) = ok (
      shifted_legendre_phi_one rank
      ∷ shifted_legendre_phi_two rank
      ∷ shifted_legendre_phi_three rank
      ∷ shifted_legendre_phi_four rank
      ∷ [])
  bounded_basis rank (suc (suc (suc (suc (suc more))))) = err value_error

  -- `left * right` for every left coordinate, and for it every right one.
  abbrev pub expand : List F → List F → List F
  expand coordinates member_basis =
      flat_map (λ left. map (λ right. left ⊗ right) member_basis) coordinates

  tensor_loop : ℕ → List F → List F → Result (List F)
  tensor_loop basis_size coordinates [] = ok coordinates
  tensor_loop basis_size coordinates (rank ∷ ranks) = do
    member_basis ← bounded_basis rank basis_size
    tensor_loop basis_size (expand coordinates member_basis) ranks

  unfoldable pub tensor_representation : List F → ℕ → Result (List F)
  unfolding tensor_loop
  tensor_representation [] basis_size = err value_error
  tensor_representation (rank ∷ ranks) basis_size =
      tensor_loop basis_size (unity ∷ []) (rank ∷ ranks)

unfoldable pub tensor_dimension : ℕ → CoalitionOrder → ℕ
tensor_dimension basis_size coalition_order = basis_size ^ order_value coalition_order
