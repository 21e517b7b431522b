-- ===== src/Thresholds/Selected.antt =====
-- Which threshold `select_calibrated_threshold` returns.
use fed_campaign_emhi.Prelude.{
  ℕ, ◌+◌, ◌-◌, ◌≤◌, ◌<◌, ◌≡◌, Bool, not, Option, List, arith, ltb, ◌==◌, ==_iff, ◌&&◌,
  if◌then◌else◌, length, zip, ok, err, value_error,
}
use fed_campaign_emhi.Prelude.Float.{Float, IsOrdered, unity}
use fed_campaign_emhi.Prelude.Membership.{All, All-In}
use fed_campaign_emhi.Prelude.Order.{IsOrder}
use fed_campaign_emhi.Prelude.Selection.{IsBest, select_first-IsBest}
use fed_campaign_emhi.Thresholds.{
  Ppf, clopper_pearson_one_sided_upper_bound, meets_target, select_calibrated_threshold,
  threshold_of,
}

module _ {F : Type 0} ⦃f : Float F⦄ (ppf : Ppf F) where
  -- The bound where it is defined.
  abbrev pub upper_bound : ℕ → ℕ → F → F
  upper_bound false_stop_count horizon_count confidence =
      if false_stop_count == horizon_count
      then unity
      else ppf confidence (false_stop_count + 1) (horizon_count - false_stop_count)

  -- The bound is defined exactly for at least one horizon and at most as many stops as horizons.
  clopper_pearson_one_sided_upper_bound_lem :
      (false_stop_count horizon_count : ℕ) (confidence : F)
      → clopper_pearson_one_sided_upper_bound ppf false_stop_count horizon_count confidence ≡ (
          if ltb 0 horizon_count && not (ltb horizon_count false_stop_count)
          then ok (upper_bound false_stop_count horizon_count confidence)
          else err value_error)
  unfolding clopper_pearson_one_sided_upper_bound
  clopper_pearson_one_sided_upper_bound_lem false_stop_count horizon_count confidence = ground arith

  -- A count meets the target.
  abbrev pub meets : F → ℕ → F → ℕ → Bool
  meets confidence horizon_count target_pfa false_stop_count =
      f.le (upper_bound false_stop_count horizon_count confidence) target_pfa

  pub meets_target-ok :
      (confidence : F) (horizon_count : ℕ) (target_pfa : F) (false_stop_count : ℕ)
      → 0 < horizon_count
      → false_stop_count ≤ horizon_count
      → meets_target ppf confidence horizon_count target_pfa false_stop_count
        ≡ ok (meets confidence horizon_count target_pfa false_stop_count)
  unfolding meets_target
  meets_target-ok confidence horizon_count target_pfa false_stop_count h k =
      rw (clopper_pearson_one_sided_upper_bound_lem false_stop_count horizon_count confidence)
        (ground arith)

  -- With as many counts as candidates, at least one horizon and no count above the number of
  -- horizons, the selection returns: the least candidate whose bound meets the target, or `none` if
  -- no candidate meets it.
  pub select_calibrated_threshold-IsBest :
      (candidates : List F) (counts : List ℕ) (horizon_count : ℕ) (confidence target_pfa : F)
      → IsOrdered F
      → length candidates ≡ length counts
      → 0 < horizon_count
      → All (λ pair. pair.1 ≤ horizon_count) (zip candidates counts)
      → (best : Option (F × ℕ)) × (select_calibrated_threshold ppf candidates counts horizon_count
            confidence target_pfa
          ≡ ok (threshold_of best))
        × IsBest
            (λ a b. f.le a.0 b.0)
            (λ pair. meets confidence horizon_count target_pfa pair.1)
            (zip candidates counts)
            best
  unfolding select_calibrated_threshold
  select_calibrated_threshold-IsBest candidates counts horizon_count confidence target_pfa o same h
        fits =
      let (best, e, least) =
        select_first-IsBest (λ (a b : F × ℕ). f.le a.0 b.0) by_threshold
          (λ pair. meets_target ppf confidence horizon_count target_pfa pair.1)
          (λ pair. meets confidence horizon_count target_pfa pair.1) (zip candidates counts)
          (λ pair i.
            meets_target-ok confidence horizon_count target_pfa pair.1 h
              (All-In (λ (pair : F × ℕ). pair.1 ≤ horizon_count) (zip candidates counts) fits i)) in
      (best, rw ((==_iff (length candidates) (length counts)).1 same, e), least)
    where
      by_threshold : IsOrder (λ (a b : F × ℕ). f.le a.0 b.0)
      by_threshold = record {
        total = λ a b. o.order.total a.0 b.0;
        trans = λ a b c. o.order.trans a.0 b.0 c.0;
      }
