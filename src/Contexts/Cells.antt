-- ===== src/Contexts/Cells.antt =====
-- The cell of a context, and the restart of k-means that is kept.
use mathlib.Core.Bool.{false≢true}
use fed_campaign_emhi.Prelude.{
  ℕ, zero, suc, ◌≤◌, ◌<◌, ◌≡◌, refl, sym, ap, ◌∙◌, ◌≢◌, ◌⊎◌, inl, inr, Bool, true, false, Option,
  none, some, List, [], ◌∷◌, arith, ltb, if◌then◌else◌, Bool-cases, get_elem?, all, ok,
}
use fed_campaign_emhi.Prelude.Sets.{nat_eq, int_eq, str_eq_instance}
use fed_campaign_emhi.Prelude.Membership.{In}
use fed_campaign_emhi.Prelude.Float.{Float, IsOrdered, ◌⊖◌}
use fed_campaign_emhi.Prelude.Least.{
  IsLeast, IsLeast-here, IsLeast-later, shift, shift_zero, shift-suc,
}
use fed_campaign_emhi.Contexts.{
  least_of, first_tied, nearest_within, best_restart, results_of, fit_context_centroids,
}

module _ {F : Type 0} ⦃f : Float F⦄ where
  -- The distance at an index is within the tolerance of `best`.
  abbrev pub ties_at : F → F → List F → ℕ → Bool
  ties_at best tolerance distances index = elim (get_elem? distances index) [
    | none ↦ false
    | some d ↦ f.le (d ⊖ best) tolerance
  ]

  first_tied-IsLeast :
      (best tolerance : F) (index : ℕ) (distances : List F)
      → (r : Option ℕ) × (first_tied best tolerance index distances ≡ shift index r)
        × IsLeast (ties_at best tolerance distances) r
  first_tied-IsLeast best tolerance index [] = (none, refl, λ n. refl)
  first_tied-IsLeast best tolerance index (d ∷ distances) =
      let (r, e, least) = first_tied-IsLeast best tolerance (suc index) distances in
      let p = ties_at best tolerance (d ∷ distances) in
      elim (Bool-cases (f.le (d ⊖ best) tolerance)) [
        | inl q ↦ (some 0, rw q (ap some (omega arith)), IsLeast-here p q)
        | inr q ↦ (shift 1 r, rw q (e ∙ shift-suc index r), IsLeast-later p r q least)
      ]

  -- The lesser of two distances.
  lesser : F → F → F
  lesser d least = if f.lt d least then d else least

  lesser-le :
      (o : IsOrdered F) (d least : F)
      → ((lesser d least ≡ least) ⊎ (lesser d least ≡ d))
        × (f.le (lesser d least) least ≡ true)
        × (f.le (lesser d least) d ≡ true)
  unfolding lesser
  lesser-le o d least =
      let self = o.order.total d d in
      let self' = o.order.total least least in
      elim (Bool-cases (f.lt d least)) [
        | inl q ↦ rw q (
          inr refl,
          ground (arith, o.lt-eq-not-le d least, o.order.total d least),
          ground (arith, self),
        )
        | inr q ↦ rw q (inl refl, ground (arith, self'), ground (arith, o.lt-eq-not-le d least))
      ]

  least_of-le :
      (o : IsOrdered F) (least : F) (xs : List F)
      → In (least_of least xs) (least ∷ xs)
        × (f.le (least_of least xs) least ≡ true)
        × ((x : F) → In x xs → f.le (least_of least xs) x ≡ true)
  unfolding lesser
  least_of-le o least [] =
      (inl refl, elim (o.order.total least least) [ inl h ↦ h | inr h ↦ h ], λ x i. absurd i)
  least_of-le o least (d ∷ xs) =
      let m = lesser d least in
      let (which, under, under') = lesser-le o d least in
      let (i, below, all) = least_of-le o m xs in
      (
        elim i [
          | inl e ↦ elim which [ inl w ↦ inl (e ∙ w) | inr w ↦ inr (inl (e ∙ w)) ]
          | inr j ↦ inr (inr j)
        ],
        o.order.trans (least_of m xs) m least below under,
        λ x j. elim j [
          | inl e ↦ rw e (o.order.trans (least_of m xs) m d below under')
          | inr k ↦ all x k
        ],
      )

  In-get_elem? : (xs : List F) (a : F) → In a xs → (i : ℕ) × (get_elem? xs i ≡ some a)
  In-get_elem? [] a i = absurd i
  In-get_elem? (x ∷ xs) a (inl e) = (0, ap some (sym e))
  In-get_elem? (x ∷ xs) a (inr i) = let (n, q) = In-get_elem? xs a i in (suc n, q)

  -- The least distance ties, so an index is found.
  nearest_within-found :
      (best tolerance d : F) (rest : List F) (r : Option ℕ)
      → f.le (best ⊖ best) tolerance ≡ true
      → In best (d ∷ rest)
      → best ≡ least_of d rest
      → first_tied best tolerance 0 (d ∷ rest) ≡ shift 0 r
      → IsLeast (ties_at best tolerance (d ∷ rest)) r
      → (index : ℕ) × (nearest_within (d ∷ rest) tolerance ≡ ok index)
        × IsLeast (ties_at best tolerance (d ∷ rest)) (some index)
  unfolding nearest_within
  nearest_within-found best tolerance d rest none self i same e least =
      let (n, q) = In-get_elem? (d ∷ rest) best i in
      let tied : ties_at best tolerance (d ∷ rest) n ≡ true = rw (ties_at, q) self in
      absurd (false≢true (sym (least n) ∙ tied))
  nearest_within-found best tolerance d rest (some index) self i same e least =
      let first : first_tied (least_of d rest) tolerance 0 (d ∷ rest) ≡ some index =
        ap (λ b. first_tied b tolerance 0 (d ∷ rest)) (sym same) ∙ e ∙ shift_zero (some index) in
      (index, rw (nearest_within, first) refl, least)

  -- Where no distance exceeds itself by more than the tolerance, the choice among some distances is the
  -- first index whose distance exceeds the least distance by no more than the tolerance.
  pub nearest_within-IsLeast :
      (d : F) (rest : List F) (tolerance : F)
      → IsOrdered F
      → ((a : F) → f.le (a ⊖ a) tolerance ≡ true)
      → (best : F) × (index : ℕ) × In best (d ∷ rest)
        × ((x : F) → In x (d ∷ rest) → f.le best x ≡ true)
        × (nearest_within (d ∷ rest) tolerance ≡ ok index)
        × IsLeast (ties_at best tolerance (d ∷ rest)) (some index)
  unfolding nearest_within
  nearest_within-IsLeast d rest tolerance o self =
      let (i, below, all) = least_of-le o d rest in
      let best = least_of d rest in
      let (r, e, least) = first_tied-IsLeast best tolerance 0 (d ∷ rest) in
      let (index, returned, first) =
        nearest_within-found best tolerance d rest r (self best) i refl e least in
      (best, index, i, λ x j. elim j [ inl q ↦ rw q below | inr k ↦ all x k ], returned, first)

  best_restart-le :
      {C : Type 0} (o : IsOrdered F) (best : C × F) (results : List (C × F))
      → (kept : C × F) × (best_restart (some best) results ≡ some kept)
        × In kept (best ∷ results)
        × (f.le kept.1 best.1 ≡ true)
        × ((result : C × F) → In result results → f.le kept.1 result.1 ≡ true)
  best_restart-le o best [] = (
    best,
    refl,
    inl refl,
    elim (o.order.total best.1 best.1) [ inl h ↦ h | inr h ↦ h ],
    λ x i. absurd i,
  )
  best_restart-le o best (result ∷ results) = elim (Bool-cases (f.lt result.1 best.1)) [
    | inl q ↦
        let (kept, e, i, below, all) = best_restart-le o result results in
        let less = under_best o result best q in
        (
          kept,
          rw q e,
          inr i,
          o.order.trans kept.1 result.1 best.1 below less,
          λ x j. elim j [ inl w ↦ ap (λ (y : _ × F). f.le kept.1 y.1) w ∙ below | inr k ↦ all x k ],
        )
    | inr q ↦
        let (kept, e, i, below, all) = best_restart-le o best results in
        let less = not_under_best o result best q in
        (
          kept,
          rw q e,
          elim i [ inl w ↦ inl w | inr j ↦ inr (inr j) ],
          below,
          λ x j. elim j [
            | inl w ↦
                ap (λ (y : _ × F). f.le kept.1 y.1) w
                ∙ o.order.trans kept.1 best.1 result.1 below less
            | inr k ↦ all x k
          ],
        )
  ]
    where
      under_best :
          {C : Type 0} (o : IsOrdered F) (a b : C × F) → f.lt a.1 b.1 ≡ true → f.le a.1 b.1 ≡ true
      under_best o a b q = ground (arith, o.lt-eq-not-le a.1 b.1, o.order.total a.1 b.1)

      not_under_best :
          {C : Type 0} (o : IsOrdered F) (a b : C × F) → f.lt a.1 b.1 ≡ false → f.le b.1 a.1 ≡ true
      not_under_best o a b q = ground (arith, o.lt-eq-not-le a.1 b.1)

  -- With fewer rows than cells there are no centroids. Otherwise, of at least one restart, the centroids
  -- are those of a restart whose inertia no other restart goes below.
  pub fit_context_centroids-least :
      {C : Type 0} (restart : ℕ → C × F) (row_count cell_count n_init : ℕ)
      → IsOrdered F
      → n_init ≢ 0
      → ((row_count < cell_count)
          × (fit_context_centroids restart row_count cell_count n_init ≡ none))
        ⊎ ((cell_count ≤ row_count)
            × ((kept : C × F) × (fit_context_centroids restart row_count cell_count n_init
                  ≡ some kept.0)
                × In kept (results_of restart 0 n_init)
                × ((result : C × F)
                    → In result (results_of restart 0 n_init)
                    → f.le kept.1 result.1 ≡ true)))
  unfolding fit_context_centroids
  fit_context_centroids-least restart row_count cell_count zero o h = absurd (h refl)
  fit_context_centroids-least restart row_count cell_count (suc n) o h =
      let (kept, e, i, below, all) = best_restart-le o (restart 0) (results_of restart 1 n) in
      elim (Bool-cases (ltb row_count cell_count)) [
        | inl q ↦ inl (ground arith, rw q refl)
        | inr q ↦ inr (
          ground arith,
          (
            kept,
            rw (q, e) refl,
            i,
            λ x j. elim j [
              | inl w ↦ ap (λ (y : _ × F). f.le kept.1 y.1) w ∙ below
              | inr k ↦ all x k
            ],
          ),
        )
      ]
