-- ===== src/Structure/Ranks/Batch.antt =====
-- The ranks by binary search are the ranks by counting, and clipped ranks stay in their interval.
use fed_campaign_emhi.Prelude.{
  ℕ, zero, suc, ◌+◌, ◌-◌, ◌≡◌, ◌≢◌, refl, sym, ap, ◌∙◌, Bool, true, false, not, List, [], ◌∷◌, map,
  arith, ◌==◌, length, count_if, ok, traverse, Bool-cases, inl, inr,
}
use fed_campaign_emhi.Prelude.Membership.{All}
use fed_campaign_emhi.Prelude.Order.{
  IsSorted, sorted, sorted-IsSorted, count_if-sorted, length-sorted,
}
use fed_campaign_emhi.Prelude.Float.{Float, IsOrdered, unity, ◌⊖◌}
use fed_campaign_emhi.Domain.Types.{RankReference}
use fed_campaign_emhi.Structure.Ranks.{
  passes_at, bisect_left, bisect_right, bisected_rank, rank_of_counts, clip_rank, midrank,
  clipped_midrank, sorted_clipped_midrank, batch_clipped_midrank,
}
use fed_campaign_emhi.Structure.Ranks.Bisect.{IsMonotone, bisect-eq-count_if}

module _ {A : Type 0} (le : A → A → Bool) (test : A → Bool)
    (closed : (a b : A) → le a b ≡ true → test b ≡ true → test a ≡ true) where
  below_head :
      (x : A) (xs : List A) (j : ℕ)
      → All (λ y. le x y ≡ true) xs
      → passes_at test xs j ≡ true
      → test x ≡ true
  below_head x [] j low h = ground arith
  below_head x (y ∷ ys) zero low h = closed x y low.0 h
  below_head x (y ∷ ys) (suc j) low h = below_head x ys j low.1 h

  pub IsSorted-IsMonotone : (xs : List A) → IsSorted le xs → IsMonotone test xs
  IsSorted-IsMonotone [] s i j h p = p
  IsSorted-IsMonotone (x ∷ xs) s zero zero h p = p
  IsSorted-IsMonotone (x ∷ xs) s zero (suc j) h p = below_head x xs j s.0 p
  IsSorted-IsMonotone (x ∷ xs) s (suc i) zero h p = absurd (omega arith)
  IsSorted-IsMonotone (x ∷ xs) s (suc i) (suc j) h p =
      IsSorted-IsMonotone xs s.1 i j (omega arith) p

module _ {F : Type 0} ⦃f : Float F⦄ (o : IsOrdered F) where
  lt-closed : (x a b : F) → f.le a b ≡ true → f.lt b x ≡ true → f.lt a x ≡ true
  lt-closed x a b h k = ground (arith, o.lt-eq-not-le b x, o.lt-eq-not-le a x, o.order.trans x a b)

  not_lt-closed : (x a b : F) → f.le a b ≡ true → not (f.lt x b) ≡ true → not (f.lt x a) ≡ true
  not_lt-closed x a b h k =
      ground (arith, o.lt-eq-not-le x b, o.lt-eq-not-le x a, o.order.trans a b x)

  bisect_left-sorted :
      (xs : List F) (x : F) → bisect_left (sorted f.le xs) x ≡ count_if (λ a. f.lt a x) xs
  bisect_left-sorted xs x =
      bisect-eq-count_if (λ a. f.lt a x) (sorted f.le xs)
        (IsSorted-IsMonotone f.le (λ a. f.lt a x) (lt-closed x) (sorted f.le xs)
          (sorted-IsSorted f.le o.order xs))
      ∙ count_if-sorted f.le (λ a. f.lt a x) xs

  bisect_right-sorted :
      (xs : List F) (x : F) → bisect_right (sorted f.le xs) x ≡ count_if (λ a. not (f.lt x a)) xs
  bisect_right-sorted xs x =
      bisect-eq-count_if (λ a. not (f.lt x a)) (sorted f.le xs)
        (IsSorted-IsMonotone f.le (λ a. not (f.lt x a)) (not_lt-closed x) (sorted f.le xs)
          (sorted-IsSorted f.le o.order xs))
      ∙ count_if-sorted f.le (λ a. not (f.lt x a)) xs

  -- What is not above `x` is below it or equal to it.
  count_not_above :
      (xs : List F) (x : F)
      → count_if (λ a. not (f.lt x a)) xs
        ≡ count_if (λ a. f.lt a x) xs + count_if (λ a. f.eq a x) xs
  count_not_above [] x = refl
  count_not_above (a ∷ xs) x = ground (
    arith,
    count_not_above xs x,
    o.lt-eq-not-le x a,
    o.lt-eq-not-le a x,
    o.eq-eq-le-le a x,
    o.order.total a x,
  )

  bisected_rank-sorted :
      (xs : List F) (x : F)
      → bisected_rank (sorted f.le xs) x
        ≡ rank_of_counts (count_if (λ a. f.lt a x) xs) (count_if (λ a. f.eq a x) xs) (length xs)
  bisected_rank-sorted xs x =
      let l = bisect_left-sorted xs x in
      let r = bisect_right-sorted xs x in
      let n = count_not_above xs x in
      let e : bisect_right (sorted f.le xs) x - bisect_left (sorted f.le xs) x
          ≡ count_if (λ a. f.eq a x) xs =
        omega arith in
      λ i. rank_of_counts (l i) (e i) (length-sorted f.le xs i)

  -- On a sorted reference the two binary searches give the rank that counting gives on the
  -- reference in any order; both raise `ValueError` on an empty one.
  pub sorted_clipped_midrank-eq-clipped_midrank :
      (score : F) (reference : RankReference F) (epsilon : F)
      → sorted_clipped_midrank score (sorted f.le reference.scores) epsilon
        ≡ clipped_midrank score reference epsilon
  unfolding sorted_clipped_midrank clipped_midrank midrank
  sorted_clipped_midrank-eq-clipped_midrank score reference epsilon =
      let n = length-sorted f.le reference.scores in
      let e = bisected_rank-sorted reference.scores score in
      elim (Bool-cases (length reference.scores == 0)) [
        | inl q ↦ rw (n, q)
        | inr q ↦ rw (n, q) (ap (λ r. ok (clip_rank r epsilon)) (rw n at e))
      ]

  batch_lem :
      (scores : List F) (reference : RankReference F) (epsilon : F)
      → (length reference.scores == 0) ≡ false
      → traverse (λ score. clipped_midrank score reference epsilon) scores
        ≡ ok (
            map
              (λ score. clip_rank (bisected_rank (sorted f.le reference.scores) score) epsilon)
              scores)
  unfolding clipped_midrank midrank
  batch_lem [] reference epsilon q = refl
  batch_lem (score ∷ scores) reference epsilon q =
      rw (q, batch_lem scores reference epsilon q)
        (ap
          (λ r. ok (
            clip_rank r epsilon
            ∷ map (λ s. clip_rank (bisected_rank (sorted f.le reference.scores) s) epsilon) scores))
          (sym (bisected_rank-sorted reference.scores score)))

  -- On a reference that is not empty the batch, which sorts the reference once and searches it, gives
  -- the ranks of the single calls, which count through the reference for every score.
  pub batch_clipped_midrank-eq-traverse :
      (scores : List F) (reference : RankReference F) (epsilon : F)
      → length reference.scores ≢ 0
      → batch_clipped_midrank scores reference epsilon
        ≡ traverse (λ score. clipped_midrank score reference epsilon) scores
  unfolding batch_clipped_midrank
  batch_clipped_midrank-eq-traverse scores reference epsilon h =
      let q : (length reference.scores == 0) ≡ false = ground arith in
      rw (q, batch_lem scores reference epsilon q)

  -- Where the clipping interval is not empty, a clipped rank lies in it, and a rank that lies in it
  -- is not changed.
  clip_rank_bounds :
      (rank epsilon : F)
      → f.le epsilon (unity ⊖ epsilon) ≡ true
      → (f.le epsilon (clip_rank rank epsilon) ≡ true)
        × (f.le (clip_rank rank epsilon) (unity ⊖ epsilon) ≡ true)
        × (f.le epsilon rank ≡ true
            → f.le rank (unity ⊖ epsilon) ≡ true
            → clip_rank rank epsilon ≡ rank)
  unfolding clip_rank
  clip_rank_bounds rank epsilon h =
      let upper = unity ⊖ epsilon in
      let a = o.lt-eq-not-le rank epsilon in
      let b = o.lt-eq-not-le upper rank in
      let c = o.order.total epsilon epsilon in
      let d = o.order.total upper upper in
      (
        ground (arith, a, b, c, d),
        ground (arith, a, b, c, d),
        λ p q. ground (arith, a, b, c, d, p, q),
      )
