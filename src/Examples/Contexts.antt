-- ===== src/Examples/Contexts.antt =====
-- The examples of context members, histograms and cells.
use fed_campaign_emhi.Prelude.{
  ℕ, zero, suc, true, ◌≤◌, ◌<◌, ◌≡◌, ◌≢◌, ◌↔◌, ◌⊎◌, refl, false, some, none, List, [], ◌∷◌, arith,
  length, get_elem?, if◌then◌else◌, leb, ok, err, value_error,
}
use fed_campaign_emhi.Prelude.Str.{Str}
use fed_campaign_emhi.Prelude.Membership.{In}
use fed_campaign_emhi.Prelude.Least.{IsLeast}
use fed_campaign_emhi.Prelude.Float.{
  milli, milli-IsOrdered, milli-IsExact, exact_limit, nought, unity, ◌⊗◌, ◌⊘◌,
}
use fed_campaign_emhi.Contexts.Bins.{in_bin}
use fed_campaign_emhi.Contexts.Masses.{ranks_in_bin}
use fed_campaign_emhi.Contexts.Sufficient.{IsSufficient}
use fed_campaign_emhi.Domain.Types.{OutsideContextHistogram}
use fed_campaign_emhi.Contexts.{
  leave_one_out_context_members, histogram_one_hot, outside_context_histogram, nearest_within,
  fit_context_centroids, results_of,
}
use fed_campaign_emhi.Contexts.Members.{IsLeastId, leave_one_out_context_members-leaves}
use fed_campaign_emhi.Contexts.Histogram.{histogram_one_hot-at, outside_context_histogram-masses}
use fed_campaign_emhi.Contexts.Cells.{ties_at, nearest_within-IsLeast, fit_context_centroids-least}
use fed_campaign_emhi.Examples.Data.{ann, bob, cy, everyone}

leave_one_out_context_members-leaves_example :
    (((bob ∷ ann ∷ []) ≡ [])
      × (leave_one_out_context_members everyone (bob ∷ ann ∷ []) ≡ err value_error))
    ⊎ ((left_out : Str) × (members : List Str) × IsLeastId (bob ∷ ann ∷ []) left_out
        × (leave_one_out_context_members everyone (bob ∷ ann ∷ []) ≡ ok members)
        × ((a : Str) → In a members ↔ (In a everyone × ¬ (a ≡ left_out))))
leave_one_out_context_members-leaves_example =
    leave_one_out_context_members-leaves everyone (bob ∷ ann ∷ [])

abbrev bins : ℕ
bins = 4

bins_exact : bins ≤ exact_limit
unfolding exact_limit
bins_exact = omega arith

histogram_one_hot-at_example :
    (length (histogram_one_hot {F = ℕ} 600 bins) ≡ bins)
    × ((i : ℕ)
        → i < bins
        → get_elem? (histogram_one_hot {F = ℕ} 600 bins) i
          ≡ some (if in_bin {F = ℕ} bins i 600 then unity {F = ℕ} else nought {F = ℕ}))
histogram_one_hot-at_example =
    histogram_one_hot-at milli-IsOrdered milli-IsExact 600 bins bins_exact refl

abbrev outside : List Str
outside = ann ∷ bob ∷ []

abbrev lagged : List (Str × ℕ)
lagged = (ann, 600) ∷ (bob, 100) ∷ (cy, 900) ∷ []

outside≢0 : length outside ≢ 0
outside≢0 = λ e. omega arith

outside_exact : length outside ≤ exact_limit
unfolding exact_limit
outside_exact = omega arith

lagged_exact : length lagged ≤ exact_limit
unfolding exact_limit
lagged_exact = omega arith

outside_context_histogram-masses_example :
    (histogram : OutsideContextHistogram ℕ) × (outside_context_histogram lagged outside outside bins
        1 500
      ≡ ok histogram)
    × (length histogram.bin_mass ≡ bins)
    × (histogram.available_client_ids ≡ outside)
    × ((IsSufficient {F = ℕ} outside outside 1 500
          × (histogram.abstained ≡ false)
          × ((i : ℕ)
              → i < bins
              → get_elem? histogram.bin_mass i
                ≡ some (
                    (unity {F = ℕ} ⊘ milli.of_ℕ (length outside))
                    ⊗ milli.of_ℕ (ranks_in_bin {F = ℕ} bins i lagged outside))))
        ⊎ (¬ IsSufficient {F = ℕ} outside outside 1 500
            × (histogram.abstained ≡ true)
            × ((i : ℕ) → i < bins → get_elem? histogram.bin_mass i ≡ some (nought {F = ℕ}))))
outside_context_histogram-masses_example =
    outside_context_histogram-masses milli-IsOrdered milli-IsExact lagged outside outside bins 1 500
      outside≢0 outside_exact lagged_exact bins_exact (refl, (refl, (refl, tt)))

nearest_within-IsLeast_example :
    (best : ℕ) × (index : ℕ) × In best (700 ∷ 310 ∷ 300 ∷ [])
    × ((x : ℕ) → In x (700 ∷ 310 ∷ 300 ∷ []) → leb best x ≡ true)
    × (nearest_within {F = ℕ} (700 ∷ 310 ∷ 300 ∷ []) 20 ≡ ok index)
    × IsLeast (ties_at best 20 (700 ∷ 310 ∷ 300 ∷ [])) (some index)
nearest_within-IsLeast_example =
    nearest_within-IsLeast 700 (310 ∷ 300 ∷ []) 20 milli-IsOrdered (λ a. ground arith)

-- A restart of each number of cells has an inertia of its own.
abbrev restarts : ℕ → ℕ × ℕ
restarts zero = (7, 900)
restarts (suc index) = (8, 400)

three_restarts≢0 : ◌≢◌ {A = ℕ} 3 0
three_restarts≢0 = λ e. omega arith

fit_context_centroids-least_example :
    ((5 < 2) × (fit_context_centroids restarts 5 2 3 ≡ none))
    ⊎ ((2 ≤ 5)
        × ((kept : ℕ × ℕ) × (fit_context_centroids restarts 5 2 3 ≡ some kept.0)
            × In kept (results_of restarts 0 3)
            × ((result : ℕ × ℕ)
                → In result (results_of restarts 0 3)
                → leb kept.1 result.1 ≡ true)))
fit_context_centroids-least_example =
    fit_context_centroids-least restarts 5 2 3 milli-IsOrdered three_restarts≢0
