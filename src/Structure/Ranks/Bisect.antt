-- ===== src/Structure/Ranks/Bisect.antt =====
-- The binary search counts the elements that pass.
use fed_campaign_emhi.Prelude.{
  ℕ, zero, suc, ◌+◌, ◌/◌, ◌≤◌, ◌<◌, ◌≡◌, refl, sym, ◌∙◌, Bool, true, false, List, [], ◌∷◌, arith,
  ltb, length, count_if, Bool-cases, inl, inr,
}
use fed_campaign_emhi.Structure.Ranks.{passes_at, bisect_loop, bisect}

module _ {A : Type 0} (test : A → Bool) where
  -- Once an element fails, all later ones fail.
  abbrev pub IsMonotone : List A → Type 0
  IsMonotone xs = (i j : ℕ) → i ≤ j → passes_at test xs j ≡ true → passes_at test xs i ≡ true

  -- The elements below `n` pass, and no others.
  record Splits (xs : List A) (n : ℕ) : Type 0 where
    below : (i : ℕ) → i < n → passes_at test xs i ≡ true
    above : (i : ℕ) → n ≤ i → passes_at test xs i ≡ false

  count_if-Splits : (xs : List A) (n : ℕ) → Splits xs n → count_if test xs ≡ n
  count_if-Splits [] zero s = refl
  count_if-Splits [] (suc n) s = absurd (let h : false ≡ true = s.below 0 (omega arith) in cc)
  count_if-Splits (x ∷ xs) zero s =
      let h : test x ≡ false = s.above 0 (omega arith) in
      rw h (
        omega (
          arith,
          count_if-Splits xs 0 (record {
            below = λ i b. absurd (omega arith);
            above = λ i a. s.above (suc i) (omega arith);
          }),
        ))
  count_if-Splits (x ∷ xs) (suc n) s =
      let h : test x ≡ true = s.below 0 (omega arith) in
      rw h (
        omega (
          arith,
          count_if-Splits xs n (record {
            below = λ i b. s.below (suc i) (omega arith);
            above = λ i a. s.above (suc i) (omega arith);
          }),
        ))

  bisect_loop-Splits :
      (xs : List A) (fuel lo hi : ℕ)
      → IsMonotone xs
      → lo ≤ hi
      → hi ≤ lo + fuel
      → ((i : ℕ) → i < lo → passes_at test xs i ≡ true)
      → ((i : ℕ) → hi ≤ i → passes_at test xs i ≡ false)
      → Splits xs (bisect_loop test xs fuel lo hi)
  unfolding bisect_loop
  bisect_loop-Splits xs zero lo hi mono le enough below above = record {
    below = below;
    above = λ i h. above i (omega arith);
  }
  bisect_loop-Splits xs (suc fuel) lo hi mono le enough below above =
      let mid = (lo + hi) / 2 in
      elim (Bool-cases (ltb lo hi)) [
        | inr stop ↦ rw stop (record { below = below; above = λ i h. above i (ground arith) })
        | inl go ↦
            let lt : lo < hi = ground arith in
            elim (Bool-cases (passes_at test xs ((lo + hi) / 2))) [
              | inl p ↦
                  rw (go, p)
                    (bisect_loop-Splits xs fuel ((lo + hi) / 2 + 1) hi mono (omega arith)
                      (omega arith) (λ i h. mono i ((lo + hi) / 2) (omega arith) p) above)
              | inr p ↦
                  rw (go, p)
                    (bisect_loop-Splits xs fuel lo ((lo + hi) / 2) mono (omega arith) (omega arith)
                      below (λ i h. fails_above xs mono ((lo + hi) / 2) i h p))
            ]
      ]
    where
      fails_above :
          (xs : List A)
          → IsMonotone xs
          → (m i : ℕ) → m ≤ i
          → passes_at test xs m ≡ false
          → passes_at test xs i ≡ false
      fails_above xs mono m i h p = elim (Bool-cases (passes_at test xs i)) [
        | inr q ↦ q
        | inl q ↦ absurd (let e : true ≡ false = sym (mono m i h q) ∙ p in cc)
      ]

  passes_at_past : (xs : List A) (i : ℕ) → length xs ≤ i → passes_at test xs i ≡ false
  passes_at_past [] i h = refl
  passes_at_past (x ∷ xs) zero h = absurd (omega arith)
  passes_at_past (x ∷ xs) (suc i) h = passes_at_past xs i (omega arith)

  -- On a list whose passing elements come first, the search returns their number.
  pub bisect-eq-count_if : (xs : List A) → IsMonotone xs → bisect test xs ≡ count_if test xs
  unfolding bisect
  bisect-eq-count_if xs mono = sym (
      count_if-Splits xs _ (
        bisect_loop-Splits xs (length xs) 0 (length xs) mono (omega arith) (omega arith)
          (λ i h. absurd (omega arith)) (passes_at_past xs)))
