-- ===== src/Detection/Policy.antt =====
-- Which local policy a client is given.
use fed_campaign_emhi.Prelude.{
  ℕ, ◌≤◌, ◌<◌, ◌≡◌, true, Option, List, arith, ==_iff, length, zip, ok, ◌⊎◌, Bool, ◌&&◌, ◌||◌, ltb,
  leb, ◌==◌,
}
use fed_campaign_emhi.Prelude.Float.{Float, IsOrdered}
use fed_campaign_emhi.Prelude.Membership.{All, All-In}
use fed_campaign_emhi.Prelude.Order.{IsOrder}
use fed_campaign_emhi.Prelude.Selection.{IsBest, IsBest-implied, select_first-IsBest}
use fed_campaign_emhi.Domain.Types.{LocalPolicyArtifact}
use fed_campaign_emhi.Thresholds.{Ppf, meets_target}
use fed_campaign_emhi.Thresholds.Selected.{meets, meets_target-ok}
use fed_campaign_emhi.Detection.{policy_le, policy_of, select_immutable_local_policy}

module _ {F : Type 0} ⦃f : Float F⦄ where
  -- By threshold, then by required exceedances, then by window.
  abbrev pub precedes : LocalPolicyArtifact F → LocalPolicyArtifact F → Bool
  precedes a b =
      f.lt a.threshold b.threshold
      || (f.eq a.threshold b.threshold
          && (ltb a.required_exceedances b.required_exceedances
              || ((a.required_exceedances == b.required_exceedances)
                  && leb a.window_epochs b.window_epochs)))

module _ {F : Type 0} ⦃f : Float F⦄ (o : IsOrdered F) where
  policy_le-precedes : (a b : LocalPolicyArtifact F) → policy_le a b ≡ true → precedes a b ≡ true
  unfolding policy_le
  policy_le-precedes a b h = ground arith

  policy_le-total : (a b : LocalPolicyArtifact F) → (policy_le a b ≡ true) ⊎ (policy_le b a ≡ true)
  unfolding policy_le
  policy_le-total a b = ground (
    arith,
    o.eq-eq-le-le a.threshold b.threshold,
    o.eq-eq-le-le b.threshold a.threshold,
    o.lt-eq-not-le a.threshold b.threshold,
    o.lt-eq-not-le b.threshold a.threshold,
    o.order.total a.threshold b.threshold,
  )

  policy_le_trans :
      (a b c : LocalPolicyArtifact F)
      → policy_le a b ≡ true
      → policy_le b c ≡ true
      → policy_le a c ≡ true
  unfolding policy_le
  policy_le_trans a b c h k = ground (
    arith,
    o.eq-eq-le-le a.threshold b.threshold,
    o.eq-eq-le-le b.threshold c.threshold,
    o.eq-eq-le-le a.threshold c.threshold,
    o.lt-eq-not-le a.threshold b.threshold,
    o.lt-eq-not-le b.threshold c.threshold,
    o.lt-eq-not-le a.threshold c.threshold,
    o.order.total a.threshold b.threshold,
    o.order.total b.threshold c.threshold,
    o.order.total a.threshold c.threshold,
    o.order.trans a.threshold b.threshold c.threshold,
    o.order.trans c.threshold a.threshold b.threshold,
    o.order.trans b.threshold c.threshold a.threshold,
    o.order.trans c.threshold b.threshold a.threshold,
  )

  -- With as many counts as candidates, at least one horizon and no count above the number of
  -- horizons, the selection returns: among the candidates whose bound meets the target one that is
  -- least by threshold, then by required exceedances, then by window, or `none` if there is none.
  pub select_immutable_local_policy-IsBest :
      (ppf : Ppf F) (candidates : List (LocalPolicyArtifact F)) (counts : List ℕ)
      (horizon_count : ℕ) (confidence target_pfa : F)
      → length candidates ≡ length counts
      → 0 < horizon_count
      → All (λ pair. pair.1 ≤ horizon_count) (zip candidates counts)
      → (best : Option (LocalPolicyArtifact F × ℕ)) × (select_immutable_local_policy ppf candidates
            counts horizon_count confidence target_pfa
          ≡ ok (policy_of best))
        × IsBest
            (λ a b. precedes a.0 b.0)
            (λ pair. meets ppf confidence horizon_count target_pfa pair.1)
            (zip candidates counts)
            best
  unfolding select_immutable_local_policy
  select_immutable_local_policy-IsBest ppf candidates counts horizon_count confidence target_pfa
        same h fits =
      let (best, e, least) =
        select_first-IsBest (λ (a b : LocalPolicyArtifact F × ℕ). policy_le a.0 b.0) by_policy
          (λ pair. meets_target ppf confidence horizon_count target_pfa pair.1)
          (λ pair. meets ppf confidence horizon_count target_pfa pair.1) (zip candidates counts)
          (λ pair i. meets_target-ok ppf confidence horizon_count target_pfa pair.1 h (
            All-In (λ (pair : LocalPolicyArtifact F × ℕ). pair.1 ≤ horizon_count)
              (zip candidates counts) fits i)) in
      (
        best,
        rw ((==_iff (length candidates) (length counts)).1 same, e),
        IsBest-implied (λ (a b : LocalPolicyArtifact F × ℕ). policy_le a.0 b.0)
            (λ a b. precedes a.0 b.0) (λ pair. meets ppf confidence horizon_count target_pfa pair.1)
            (zip candidates counts) best (λ a b. policy_le-precedes a.0 b.0) least,
      )
    where
      by_policy : IsOrder (λ (a b : LocalPolicyArtifact F × ℕ). policy_le a.0 b.0)
      by_policy = record {
        total = λ a b. policy_le-total a.0 b.0;
        trans = λ a b c. policy_le_trans a.0 b.0 c.0;
      }
