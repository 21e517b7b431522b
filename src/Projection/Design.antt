-- ===== src/Projection/Design.antt =====
-- The row of the proper-subset design has the columns of its shape.
use native.Mathlib.Nat.{pow-suc, pow-zero}
use fed_campaign_emhi.Prelude.{
  ℕ, zero, suc, ◌+◌, ◌*◌, ◌≤◌, ◌≡◌, refl, ap, ◌∙◌, inl, inr, List, [], ◌∷◌, ◌++◌, arith, ◌==◌,
  length, length-append, ok, true, ◌^◌, ==_iff,
}
use fed_campaign_emhi.Prelude.Float.{Float, unity}
use fed_campaign_emhi.Domain.Enums.{CoalitionOrder, one, two, three, order_value}
use fed_campaign_emhi.Structure.Tensor.{tensor_representation}
use fed_campaign_emhi.Structure.Tensor.Lengths.{bounded_basis-ok, tensor_representation-length}
use fed_campaign_emhi.Projection.{
  proper_subset_design_column_count, singletons, pairs_with, pair_coordinates, with_columns,
  proper_subset_design_row,
}

-- The number of pairs of different members.
abbrev pair_number : ℕ → ℕ
pair_number zero = 0
pair_number (suc n) = n + pair_number n

module _ {F : Type 0} ⦃f : Float F⦄ (basis_size : ℕ) (low : 1 ≤ basis_size)
    (high : basis_size ≤ 4) where
  singletons-length :
      (ranks : List F)
      → (row : List F) × (singletons basis_size ranks ≡ ok row)
        × (length row ≡ length ranks * basis_size)
  unfolding singletons
  singletons-length [] = ([], refl, omega arith)
  singletons-length (rank ∷ ranks) =
      let (basis, e, size) = bounded_basis-ok rank basis_size low high in
      let (row, e', sizes) = singletons-length ranks in
      (basis ++ row, rw (e, e') refl, omega (arith, length-append basis row, size, sizes))

  pair-length :
      (left right : F)
      → (tensor : List F) × (tensor_representation (left ∷ right ∷ []) basis_size ≡ ok tensor)
        × (length tensor ≡ basis_size * basis_size)
  pair-length left right =
      elim (tensor_representation-length (left ∷ right ∷ []) basis_size low high) [
        | inl (bad, _) ↦ absurd (cc)
        | inr (tensor, e, size) ↦ (tensor, e, size ∙ square basis_size)
      ]
    where
      square : (n : ℕ) → n ^ 2 ≡ n * n
      square n =
          pow-suc n 1 ∙ ap (λ k. k * n) (pow-suc n 0 ∙ ap (λ k. k * n) (pow-zero n)) ∙ omega arith

  pairs_with-length :
      (left : F) (ranks : List F)
      → (row : List F) × (pairs_with basis_size left ranks ≡ ok row)
        × (length row ≡ length ranks * (basis_size * basis_size))
  unfolding pairs_with
  pairs_with-length left [] = ([], refl, omega arith)
  pairs_with-length left (right ∷ ranks) =
      let (tensor, e, size) = pair-length left right in
      let (row, e', sizes) = pairs_with-length left ranks in
      (tensor ++ row, rw (e, e') refl, length-append tensor row ∙ (rw (size, sizes) (omega arith)))

  pair_coordinates-length :
      (ranks : List F)
      → (row : List F) × (pair_coordinates basis_size ranks ≡ ok row)
        × (length row ≡ pair_number (length ranks) * (basis_size * basis_size))
  unfolding pair_coordinates
  pair_coordinates-length [] = ([], refl, omega arith)
  pair_coordinates-length (left ∷ ranks) =
      let (here, e, size) = pairs_with-length left ranks in
      let (rest, e', sizes) = pair_coordinates-length ranks in
      (here ++ rest, rw (e, e') refl, length-append here rest ∙ (rw (size, sizes) (omega arith)))

  with_columns-ok :
      (expected : ℕ) (row : List F) → length row ≡ expected → with_columns expected row ≡ ok row
  with_columns-ok expected row e =
      let same : (length row == expected) ≡ true = (==_iff (length row) expected).1 e in
      rw same refl

  -- For a basis size of 1 to 4 and one to three members the row exists, and it has as many columns as
  -- the shape of the design says: none of the checks on its shape fails.
  pub proper_subset_design_row-columns :
      (member_ranks : List F) (order : CoalitionOrder)
      → length member_ranks ≡ order_value order
      → (row : List F) × (proper_subset_design_row member_ranks basis_size ≡ ok row)
        × (length row ≡ proper_subset_design_column_count order basis_size)
  unfolding proper_subset_design_row proper_subset_design_column_count
  proper_subset_design_row-columns ranks one e = (unity ∷ [], rw e refl, refl)
  proper_subset_design_row-columns ranks two e =
      let (singles, p, size) = singletons-length ranks in
      let columns : length (unity ∷ singles) ≡ 1 + 2 * basis_size = rw (size, e) (omega arith) in
      (
        unity ∷ singles,
        rw (e, p) (with_columns-ok (1 + 2 * basis_size) (unity ∷ singles) columns),
        columns,
      )
  proper_subset_design_row-columns ranks three e =
      let (singles, p, size) = singletons-length ranks in
      let (pairs, p', size') = pair_coordinates-length ranks in
      let expected = 1 + 3 * basis_size + 3 * (basis_size * basis_size) in
      let columns : length (unity ∷ (singles ++ pairs)) ≡ expected =
        ap suc (length-append singles pairs) ∙ rw (size, size', e) (omega arith) in
      (
        unity ∷ (singles ++ pairs),
        rw (e, p, p') (with_columns-ok expected (unity ∷ (singles ++ pairs)) columns),
        columns,
      )
