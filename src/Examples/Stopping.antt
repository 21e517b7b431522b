-- ===== src/Examples/Stopping.antt =====
-- The examples of the global and the local detector.
use fed_campaign_emhi.Prelude.{
  ℕ, ◌+◌, ◌/◌, ◌≤◌, ◌≡◌, refl, ◌≢◌, ◌⊎◌, ◌↔◌, Bool, true, false, Option, some, List, [], ◌∷◌, map,
  arith, length, zip, take_last, leb, count_if, ok, err, value_error,
}
use fed_campaign_emhi.Prelude.Membership.{In, Distinct}
use fed_campaign_emhi.Prelude.Str.{Str, str_le}
use fed_campaign_emhi.Prelude.Order.{sorted}
use fed_campaign_emhi.Prelude.Least.{IsLeast}
use fed_campaign_emhi.Prelude.Selection.{IsBest}
use fed_campaign_emhi.Prelude.Float.{milli, milli-IsOrdered, nought}
use fed_campaign_emhi.Domain.Enums.{isolation_forest, one_class_svm, autoencoder}
use fed_campaign_emhi.Domain.Types.{LocalPolicyArtifact}
use fed_campaign_emhi.Sequential.{
  next_global_state, threshold_predicate, first_global_stop_epoch,
  trailing_support_window_client_ids,
}
use fed_campaign_emhi.Sequential.Stop.{
  stops_at, first_global_stop_epoch-IsLeast, first_global_stop_epoch_mono,
}
use fed_campaign_emhi.Sequential.Support.{ActiveIn, trailing_support_window_client_ids-members}
use fed_campaign_emhi.Thresholds.{select_calibrated_threshold, threshold_of}
use fed_campaign_emhi.Thresholds.Selected.{meets, select_calibrated_threshold-IsBest}
use fed_campaign_emhi.Detection.{
  assign_detector_families, first_local_stop_epoch, heldout_false_stop_count,
  select_immutable_local_policy, policy_of,
}
use fed_campaign_emhi.Detection.Families.{assigned, assign_detector_families-balanced}
use fed_campaign_emhi.Detection.Persistence.{
  fires_at, MarksStops, first_local_stop_epoch-IsLeast, heldout_false_stop_count-marks,
}
use fed_campaign_emhi.Detection.Policy.{precedes, select_immutable_local_policy-IsBest}
use fed_campaign_emhi.Examples.Data.{
  everyone, history, factors, supports, coarse_ppf, exceedances, support_window, persistence_window,
  strict_policy, loose_policy,
}

first_global_stop_epoch-IsLeast_example :
    ((length factors ≡ length supports)
      × ((r : Option ℕ) × (first_global_stop_epoch factors supports 3000 ≡ ok r)
          × IsLeast (stops_at 3000 (nought {F = ℕ}) factors supports) r))
    ⊎ ((length factors ≢ length supports)
        × (first_global_stop_epoch factors supports 3000 ≡ err value_error))
first_global_stop_epoch-IsLeast_example = first_global_stop_epoch-IsLeast factors supports 3000

stop_at_high : first_global_stop_epoch factors supports 4500 ≡ ok (some 2)
unfolding first_global_stop_epoch threshold_predicate next_global_state
stop_at_high = refl

first_global_stop_epoch_mono_example :
    (m : ℕ) × (first_global_stop_epoch factors supports 3000 ≡ ok (some m)) × (m ≤ 2)
first_global_stop_epoch_mono_example =
    first_global_stop_epoch_mono factors supports 3000 4500 2 milli-IsOrdered refl stop_at_high

trailing_support_window_client_ids-members_example :
    ((support_window ≢ 0)
      × ((union : List Str) × (trailing_support_window_client_ids history support_window ≡ ok union)
          × Distinct union
          × ((a : Str) → In a union ↔ ActiveIn a (take_last support_window history))))
    ⊎ ((support_window ≡ 0)
        × (trailing_support_window_client_ids history support_window ≡ err value_error))
trailing_support_window_client_ids-members_example =
    trailing_support_window_client_ids-members history support_window

support_window≢0 : support_window ≢ 0
support_window≢0 = λ e. omega arith

select_calibrated_threshold-IsBest_example :
    (best : Option (ℕ × ℕ)) × (select_calibrated_threshold coarse_ppf
        (2000 ∷ 1000 ∷ [])
        (0 ∷ 2 ∷ [])
        2
        50
        100
      ≡ ok (threshold_of best))
    × IsBest
        (λ a b. leb a.0 b.0)
        (λ pair. meets coarse_ppf 50 2 100 pair.1)
        (zip (2000 ∷ 1000 ∷ []) (0 ∷ 2 ∷ []))
        best
select_calibrated_threshold-IsBest_example =
    select_calibrated_threshold-IsBest coarse_ppf (2000 ∷ 1000 ∷ []) (0 ∷ 2 ∷ []) 2 50 100
      milli-IsOrdered refl (omega arith) (omega arith, (omega arith, tt))

assign_detector_families-balanced_example :
    (map (λ a. a.client_id) (assign_detector_families everyone) ≡ sorted str_le everyone)
    × (assigned isolation_forest (assign_detector_families everyone) ≡ (length everyone + 2) / 3)
    × (assigned one_class_svm (assign_detector_families everyone) ≡ (length everyone + 1) / 3)
    × (assigned autoencoder (assign_detector_families everyone) ≡ length everyone / 3)
assign_detector_families-balanced_example = assign_detector_families-balanced everyone

persistence_window≢0 : persistence_window ≢ 0
persistence_window≢0 = λ e. omega arith

first_local_stop_epoch-IsLeast_example :
    (r : Option ℕ) × (first_local_stop_epoch exceedances 2 persistence_window ≡ ok r)
    × IsLeast (fires_at exceedances 2 persistence_window) r
first_local_stop_epoch-IsLeast_example =
    first_local_stop_epoch-IsLeast exceedances 2 persistence_window persistence_window≢0

heldout_false_stop_count-marks_example :
    (marks : List Bool) × MarksStops 2 persistence_window marks
      (exceedances ∷ (false ∷ true ∷ []) ∷ [])
    × (heldout_false_stop_count (exceedances ∷ (false ∷ true ∷ []) ∷ []) 2 persistence_window
        ≡ ok (count_if (λ mark. mark) marks))
heldout_false_stop_count-marks_example =
    heldout_false_stop_count-marks (exceedances ∷ (false ∷ true ∷ []) ∷ []) 2 persistence_window
      persistence_window≢0

select_immutable_local_policy-IsBest_example :
    (best : Option (LocalPolicyArtifact ℕ × ℕ)) × (select_immutable_local_policy coarse_ppf
        (strict_policy ∷ loose_policy ∷ [])
        (0 ∷ 2 ∷ [])
        2
        50
        100
      ≡ ok (policy_of best))
    × IsBest
        (λ a b. precedes {F = ℕ} a.0 b.0)
        (λ pair. meets coarse_ppf 50 2 100 pair.1)
        (zip (strict_policy ∷ loose_policy ∷ []) (0 ∷ 2 ∷ []))
        best
select_immutable_local_policy-IsBest_example =
    select_immutable_local_policy-IsBest milli-IsOrdered coarse_ppf
      (strict_policy ∷ loose_policy ∷ []) (0 ∷ 2 ∷ []) 2 50 100 refl (omega arith)
      (omega arith, (omega arith, tt))
