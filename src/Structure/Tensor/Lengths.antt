-- ===== src/Structure/Tensor/Lengths.antt =====
-- How many coordinates a basis and a tensor have.
use native.Mathlib.Nat.{pow-suc, pow-zero, mul-one, mul_assoc, mul_comm}
use fed_campaign_emhi.Prelude.{
  ℕ, zero, suc, ◌*◌, ◌^◌, ◌≤◌, ◌≡◌, refl, sym, ap, ◌∙◌, List, [], ◌∷◌, map, arith, length,
  length-map, length-append, ok, err, value_error, ◌⊎◌, inl, inr, ◌<◌,
}
use fed_campaign_emhi.Prelude.Float.{Float, unity, ◌⊗◌}
use fed_campaign_emhi.Structure.Tensor.{bounded_basis, expand, tensor_loop, tensor_representation}

module _ {F : Type 0} ⦃f : Float F⦄ where
  -- A basis of 1 to 4 coordinates has as many; other sizes raise.
  pub bounded_basis-length :
      (rank : F) (basis_size : ℕ)
      → ((1 ≤ basis_size)
          × (basis_size ≤ 4)
          × ((basis : List F) × (bounded_basis rank basis_size ≡ ok basis)
              × (length basis ≡ basis_size)))
        ⊎ (((basis_size ≡ 0) ⊎ (4 < basis_size))
            × (bounded_basis rank basis_size ≡ err value_error))
  unfolding bounded_basis
  bounded_basis-length rank zero = inr (inl refl, refl)
  bounded_basis-length rank (suc zero) = inl (omega arith, omega arith, (_, refl, refl))
  bounded_basis-length rank (suc (suc zero)) = inl (omega arith, omega arith, (_, refl, refl))
  bounded_basis-length rank (suc (suc (suc zero))) = inl (omega arith, omega arith, (_, refl, refl))
  bounded_basis-length rank (suc (suc (suc (suc zero)))) =
      inl (omega arith, omega arith, (_, refl, refl))
  bounded_basis-length rank (suc (suc (suc (suc (suc more))))) = inr (inr (omega arith), refl)

  pub bounded_basis-ok :
      (rank : F) (basis_size : ℕ)
      → 1 ≤ basis_size
      → basis_size ≤ 4
      → (basis : List F) × (bounded_basis rank basis_size ≡ ok basis) × (length basis ≡ basis_size)
  bounded_basis-ok rank basis_size low high = elim (bounded_basis-length rank basis_size) [
    | inl (_, _, found) ↦ found
    | inr (bad, _) ↦ absurd (elim bad [ inl z ↦ omega arith | inr z ↦ omega arith ])
  ]

  length-expand :
      (coordinates basis : List F)
      → length (expand coordinates basis) ≡ length coordinates * length basis
  length-expand [] basis = omega arith
  length-expand (left ∷ rest) basis =
      length-append (map (λ right. left ⊗ right) basis) (expand rest basis)
      ∙ omega (arith, length-map (λ right. left ⊗ right) basis, length-expand rest basis)

  tensor_loop-length :
      (basis_size : ℕ) (coordinates ranks : List F)
      → 1 ≤ basis_size
      → basis_size ≤ 4
      → (tensor : List F) × (tensor_loop basis_size coordinates ranks ≡ ok tensor)
        × (length tensor ≡ length coordinates * basis_size ^ length ranks)
  unfolding tensor_loop
  tensor_loop-length basis_size coordinates [] low high = (
    coordinates,
    refl,
    sym (ap (λ k. length coordinates * k) (pow-zero basis_size) ∙ mul-one (length coordinates)),
  )
  tensor_loop-length basis_size coordinates (rank ∷ ranks) low high =
      let (basis, e, size) = bounded_basis-ok rank basis_size low high in
      let (tensor, e', product) =
        tensor_loop-length basis_size (expand coordinates basis) ranks low high in
      let powers = basis_size ^ length ranks in
      (
        tensor,
        rw e e',
        product
            ∙ ap (λ k. k * powers)
                (length-expand coordinates basis ∙ ap (λ k. length coordinates * k) size)
            ∙ mul_assoc (length coordinates) basis_size powers
            ∙ ap (λ k. length coordinates * k)
                (mul_comm basis_size powers ∙ sym (pow-suc basis_size (length ranks))),
      )

  -- For a basis size of 1 to 4 the tensor of at least one rank exists, and it has a coordinate for every
  -- choice of a basis function for each rank: the basis size to the power of the number of ranks.
  -- Without ranks it raises `ValueError`.
  pub tensor_representation-length :
      (ranks : List F) (basis_size : ℕ)
      → 1 ≤ basis_size
      → basis_size ≤ 4
      → ((ranks ≡ []) × (tensor_representation ranks basis_size ≡ err value_error))
        ⊎ ((tensor : List F) × (tensor_representation ranks basis_size ≡ ok tensor)
            × (length tensor ≡ basis_size ^ length ranks))
  unfolding tensor_representation
  tensor_representation-length [] basis_size low high = inl (refl, refl)
  tensor_representation-length (rank ∷ ranks) basis_size low high =
      let (tensor, e, size) = tensor_loop-length basis_size (unity ∷ []) (rank ∷ ranks) low high in
      inr (tensor, e, omega (arith, size))
