-- ===== src/Projection/Folds.antt =====
-- The folds of a blocked cross-validation.
use native.Mathlib.Nat.{div-add-mod, mod-lt, le-div_iff_mul-le}
use fed_campaign_emhi.Prelude.{
  ℕ, zero, suc, ◌+◌, ◌-◌, ◌*◌, ◌/◌, ◌%◌, ◌≤◌, ◌<◌, ◌≡◌, refl, ap, ◌≢◌, ◌⊎◌, inl, inr, List, [], ◌∷◌,
  arith, ltb, length, ok, err, value_error, Bool-cases, ltb→lt, subst,
}
use fed_campaign_emhi.Prelude.Membership.{All}
use fed_campaign_emhi.Projection.{bounds_loop, blocked_fold_bounds}

-- The folds go from `start` to `end` without a gap, and none is empty.
abbrev pub Chain : ℕ → List (ℕ × ℕ) → ℕ → Type 0
Chain start [] end = start ≡ end
Chain start ((first, last) ∷ rest) end = (first ≡ start) × (first < last) × Chain last rest end

-- The folds are of the size `quotient`, or one more.
abbrev pub Balanced : ℕ → List (ℕ × ℕ) → Type 0
Balanced quotient folds =
    All (λ (fold : ℕ × ℕ). (fold.1 ≡ fold.0 + quotient) ⊎ (fold.1 ≡ fold.0 + quotient + 1)) folds

bounds_loop-Chain :
    (quotient remainder rounds fold_index start : ℕ)
    → quotient ≢ 0
    → remainder ≤ fold_index + rounds
    → Chain start
        (bounds_loop quotient remainder rounds fold_index start)
        (start + rounds * quotient + (remainder - fold_index))
      × Balanced quotient (bounds_loop quotient remainder rounds fold_index start)
      × (length (bounds_loop quotient remainder rounds fold_index start) ≡ rounds)
unfolding bounds_loop
bounds_loop-Chain quotient remainder zero fold_index start h k = (omega arith, tt, refl)
bounds_loop-Chain quotient remainder (suc rounds) fold_index start h k =
    elim (Bool-cases (ltb fold_index remainder)) [
      | inl q ↦
          let (chain, balanced, number) =
            bounds_loop-Chain quotient remainder rounds (suc fold_index) (start + (quotient + 1)) h
              (omega arith) in
          rw q (
            (
              refl,
              omega arith,
              subst
                  (Chain (start + (quotient + 1)) (
                    bounds_loop quotient remainder rounds (suc fold_index)
                      (start + (quotient + 1))))
                  (let before = ltb→lt fold_index remainder q in omega arith) chain,
            ),
            (inr (omega arith), balanced),
            ap suc number,
          )
      | inr q ↦
          let (chain, balanced, number) =
            bounds_loop-Chain quotient remainder rounds (suc fold_index) (start + quotient) h
              (omega arith) in
          rw q (
            (
              refl,
              omega arith,
              subst
                  (Chain (start + quotient)
                    (bounds_loop quotient remainder rounds (suc fold_index) (start + quotient)))
                  (let after : remainder ≤ fold_index = ground arith in omega arith) chain,
            ),
            (inl (omega arith), balanced),
            ap suc number,
          )
    ]

-- With a positive number of folds and at least as many observations, there are as many folds as asked
-- for; they cut the observations into consecutive blocks that are not empty and whose sizes differ by
-- at most one. With fewer observations it raises `ValueError`.
pub blocked_fold_bounds-Chain :
    (observation_count fold_count : ℕ)
    → fold_count ≢ 0
    → ((fold_count ≤ observation_count)
        × ((folds : List (ℕ × ℕ)) × (blocked_fold_bounds observation_count fold_count ≡ ok folds)
            × (length folds ≡ fold_count)
            × Chain 0 folds observation_count
            × Balanced (observation_count / fold_count) folds))
      ⊎ ((observation_count < fold_count)
          × (blocked_fold_bounds observation_count fold_count ≡ err value_error))
unfolding blocked_fold_bounds
blocked_fold_bounds-Chain n k h = elim (Bool-cases (ltb n k)) [
  | inl q ↦ inr (ltb→lt n k q, rw q refl)
  | inr q ↦
      let enough : k ≤ n = ground arith in
      let positive : 0 < k = omega arith in
      let below : n % k < k = mod-lt n positive in
      let some_each : 1 ≤ n / k = (le-div_iff_mul-le positive).1 (omega arith) in
      let (chain, balanced, number) =
        bounds_loop-Chain (n / k) (n % k) k 0 0 (λ z. omega arith) (omega arith) in
      inl (
        enough,
        (
          bounds_loop (n / k) (n % k) k 0 0,
          rw q refl,
          number,
          subst (Chain 0 (bounds_loop (n / k) (n % k) k 0 0)) (omega (arith, div-add-mod n k))
              chain,
          balanced,
        ),
      )
]
