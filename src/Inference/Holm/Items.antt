-- ===== src/Inference/Holm/Items.antt =====
-- The items of a family: their indexes tell them apart.
use fed_campaign_emhi.Prelude.{
  ℕ, zero, suc, ◌+◌, ◌≤◌, ◌<◌, ◌≡◌, refl, sym, ap, ◌∙◌, inl, inr, List, [], ◌∷◌, arith, some,
  get_elem?, length,
}
use fed_campaign_emhi.Prelude.Str.{Str}
use fed_campaign_emhi.Prelude.Membership.{In, Distinct}
use fed_campaign_emhi.Inference.Holm.{HolmItem, items_from}

module _ {F : Type 0} where
  index_bounds :
      (start : ℕ) (identifiers : List Str) (raws : List F) (x : HolmItem F)
      → In x (items_from start identifiers raws)
      → (start ≤ x.original_index) × (x.original_index < start + length identifiers)
  index_bounds start [] raws x i = absurd i
  index_bounds start (identifier ∷ identifiers) [] x i = absurd i
  index_bounds start (identifier ∷ identifiers) (raw ∷ raws) x (inl e) =
      let here : x.original_index ≡ start = ap (λ (y : HolmItem F). y.original_index) e in
      (omega arith, omega arith)
  index_bounds start (identifier ∷ identifiers) (raw ∷ raws) x (inr i) =
      let (low, high) = index_bounds (suc start) identifiers raws x i in (omega arith, omega arith)

  -- Two items with one index are the same.
  pub items_from_injective :
      (start : ℕ) (identifiers : List Str) (raws : List F) (x y : HolmItem F)
      → In x (items_from start identifiers raws)
      → In y (items_from start identifiers raws)
      → x.original_index ≡ y.original_index
      → x ≡ y
  items_from_injective start [] raws x y i j e = absurd i
  items_from_injective start (identifier ∷ identifiers) [] x y i j e = absurd i
  items_from_injective start (identifier ∷ identifiers) (raw ∷ raws) x y (inl p) (inl q) e =
      p ∙ sym q
  items_from_injective start (identifier ∷ identifiers) (raw ∷ raws) x y (inl p) (inr j) e =
      let here : x.original_index ≡ start = ap (λ (z : HolmItem F). z.original_index) p in
      let (low, high) = index_bounds (suc start) identifiers raws y j in absurd (omega arith)
  items_from_injective start (identifier ∷ identifiers) (raw ∷ raws) x y (inr i) (inl q) e =
      let here : y.original_index ≡ start = ap (λ (z : HolmItem F). z.original_index) q in
      let (low, high) = index_bounds (suc start) identifiers raws x i in absurd (omega arith)
  items_from_injective start (identifier ∷ identifiers) (raw ∷ raws) x y (inr i) (inr j) e =
      items_from_injective (suc start) identifiers raws x y i j e

  pub items_from-Distinct :
      (start : ℕ) (identifiers : List Str) (raws : List F)
      → Distinct (items_from start identifiers raws)
  items_from-Distinct start [] raws = tt
  items_from-Distinct start (identifier ∷ identifiers) [] = tt
  items_from-Distinct start (identifier ∷ identifiers) (raw ∷ raws) = (
    (λ i. let (low, high) = index_bounds (suc start) identifiers raws _ i in omega arith),
    items_from-Distinct (suc start) identifiers raws,
  )

  -- Every raw p-value is that of an item with its index.
  pub items_from-at :
      (start i : ℕ) (identifiers : List Str) (raws : List F) (p : F)
      → length identifiers ≡ length raws
      → get_elem? raws i ≡ some p
      → (x : HolmItem F) × In x (items_from start identifiers raws)
        × (x.raw_p_value ≡ p)
        × (x.original_index ≡ start + i)
  items_from-at start i [] [] p e h = absurd (cc)
  items_from-at start i [] (raw ∷ raws) p e h = absurd (omega arith)
  items_from-at start i (identifier ∷ identifiers) [] p e h = absurd (omega arith)
  items_from-at start zero (identifier ∷ identifiers) (raw ∷ raws) p e h =
      (_, inl refl, some_injective h, omega arith)
    where
      some_injective : some raw ≡ some p → raw ≡ p
      some_injective q = cc
  items_from-at start (suc i) (identifier ∷ identifiers) (raw ∷ raws) p e h =
      let (x, j, q, index) = items_from-at (suc start) i identifiers raws p (omega arith) h in
      (x, inr j, q, omega arith)

  pub index-lt :
      (identifiers : List Str) (raws : List F) (x : HolmItem F)
      → In x (items_from 0 identifiers raws)
      → x.original_index < length identifiers
  index-lt identifiers raws x i =
      let (low, high) = index_bounds 0 identifiers raws x i in omega arith
