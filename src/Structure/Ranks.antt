-- ===== src/Structure/Ranks.antt =====
-- src/fedcampaign_emhi/emhi/structure.py: midranks against a reference, by counting and by the binary
-- search of Python's `bisect` module.
pub mod Bisect
pub mod Batch
use fed_campaign_emhi.Prelude.{
  ℕ, zero, suc, ◌+◌, ◌-◌, ◌/◌, Bool, not, Option, none, some, List, [], ◌∷◌, map, ltb, ◌==◌,
  if◌then◌else◌, length, get_elem?, count_if, Result, ok, err, value_error, raise_if, traverse,
  ◌>>=◌, ◌>>◌,
}
use fed_campaign_emhi.Prelude.Float.{Float, unity, ◌⊕◌, ◌⊖◌, ◌⊗◌, ◌⊘◌}
use fed_campaign_emhi.Prelude.Order.{sorted}
use fed_campaign_emhi.Domain.Types.{RankReference}

-- `xs[i]` passes the test; positions out of range do not.
abbrev pub passes_at {ℓ} : {A : Type ℓ} → (A → Bool) → List A → ℕ → Bool
passes_at test xs i = elim (get_elem? xs i) [ none ↦ Bool.false | some a ↦ test a ]

-- The loop of `bisect`: `while lo < hi: mid = (lo + hi) // 2`, and then `lo = mid + 1` where the
-- element at `mid` passes the test and `hi = mid` where it does not.
bisect_loop {ℓ} : {A : Type ℓ} → (A → Bool) → List A → ℕ → ℕ → ℕ → ℕ
bisect_loop test xs zero lo hi = lo
bisect_loop test xs (suc fuel) lo hi =
    let mid = (lo + hi) / 2 in
    let next =
      bisect_loop test xs fuel (if passes_at test xs mid then mid + 1 else lo)
        (if passes_at test xs mid then hi else mid) in
    if ltb lo hi then next else lo

-- The interval shrinks in every round, so its length is fuel enough.
unfoldable pub bisect {ℓ} : {A : Type ℓ} → (A → Bool) → List A → ℕ
unfolding bisect_loop
bisect test xs = bisect_loop test xs (length xs) 0 (length xs)

module _ {F : Type 0} ⦃f : Float F⦄ where
  abbrev pub bisect_left : List F → F → ℕ
  bisect_left xs x = bisect (λ a. f.lt a x) xs

  abbrev pub bisect_right : List F → F → ℕ
  bisect_right xs x = bisect (λ a. not (f.lt x a)) xs

  unfoldable pub clip_rank : F → F → F
  clip_rank rank epsilon =
      if f.lt rank epsilon
      then epsilon
      else let upper = unity ⊖ epsilon in if f.lt upper rank then upper else rank

  -- `(less + (0.5 * equal) + 0.5) / (observation_count + 1)`.
  abbrev pub rank_of_counts : ℕ → ℕ → ℕ → F
  rank_of_counts less equal observation_count =
      ((f.of_ℕ less ⊕ (f.half ⊗ f.of_ℕ equal)) ⊕ f.half) ⊘ f.of_ℕ (observation_count + 1)

  unfoldable pub midrank : F → RankReference F → Result F
  midrank score reference = do
    raise_if (length reference.scores == 0) value_error
    let less = count_if (λ reference_score. f.lt reference_score score) reference.scores
    let equal = count_if (λ reference_score. f.eq reference_score score) reference.scores
    ok (rank_of_counts less equal (length reference.scores))

  unfoldable pub clipped_midrank : F → RankReference F → F → Result F
  clipped_midrank score reference epsilon = do
    rank ← midrank score reference
    ok (clip_rank rank epsilon)

  -- The rank of a score among sorted scores, by two binary searches.
  abbrev pub bisected_rank : List F → F → F
  bisected_rank sorted_scores score =
      let less = bisect_left sorted_scores score in
      rank_of_counts less (bisect_right sorted_scores score - less) (length sorted_scores)

  unfoldable pub sorted_clipped_midrank : F → List F → F → Result F
  sorted_clipped_midrank score sorted_reference_scores epsilon = do
    raise_if (length sorted_reference_scores == 0) value_error
    ok (clip_rank (bisected_rank sorted_reference_scores score) epsilon)

  unfoldable pub coalition_conditioned_residual_rank : F → RankReference F → F → Result F
  coalition_conditioned_residual_rank marginal_rank context_reference epsilon =
      clipped_midrank marginal_rank context_reference epsilon

  unfoldable pub batch_clipped_midrank : List F → RankReference F → F → Result (List F)
  batch_clipped_midrank scores reference epsilon = do
    raise_if (length reference.scores == 0) value_error
    let sorted_reference = sorted f.le reference.scores
    ok (map (λ score. clip_rank (bisected_rank sorted_reference score) epsilon) scores)
