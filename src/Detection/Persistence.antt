-- ===== src/Detection/Persistence.antt =====
-- When a local persistence policy fires.
use fed_campaign_emhi.Prelude.{
  ℕ, zero, suc, ◌+◌, ◌≤◌, ◌≡◌, ◌≢◌, refl, ap, ◌∙◌, Bool, true, ◌&&◌, Option, none, some, List, [],
  ◌∷◌, arith, ltb, leb, ◌==◌, if◌then◌else◌, is_some, length, take, take_last, count_if,
  count_if-le-length, ok, err, value_error, Bool-cases, inl, inr, lt→ltb, ◌↔◌,
}
use fed_campaign_emhi.Prelude.Least.{
  IsLeast, shift, shift-suc, shift_zero, IsLeast-here, IsLeast-later, IsLeast-resp,
}
use fed_campaign_emhi.Detection.{
  persistence_is_triggered, local_stop_loop, first_local_stop_epoch, stop_counts,
  heldout_false_stop_count,
}

-- Of the last `window` values, at least `required` are exceedances.
abbrev pub fires : List Bool → ℕ → ℕ → Bool
fires exceedances required window =
    leb required (count_if (λ exceeded. exceeded) (take_last window exceedances))

-- The test on the number of examined epochs changes nothing: fewer epochs than required exceedances
-- hold fewer exceedances. A window of no epochs raises `ValueError`.
persistence_is_triggered_lem :
    (exceedances : List Bool) (required window : ℕ)
    → persistence_is_triggered exceedances required window
      ≡ (if window == 0 then err value_error else ok (fires exceedances required window))
unfolding persistence_is_triggered
persistence_is_triggered_lem exceedances required window =
    ground (arith, count_if-le-length (λ exceeded. exceeded) (take_last window exceedances))

persistence_is_triggered-ok :
    (exceedances : List Bool) (required window : ℕ)
    → window ≢ 0
    → persistence_is_triggered exceedances required window ≡ ok (fires exceedances required window)
persistence_is_triggered-ok exceedances required window h =
    ground (arith, persistence_is_triggered_lem exceedances required window)

module _ (exceedances : List Bool) (required window : ℕ) where
  -- The policy fires at epoch `n` of the stream, seeing the epochs up to it.
  abbrev pub fires_at : ℕ → Bool
  fires_at n = ltb n (length exceedances) && fires (take (suc n) exceedances) required window

  local_stop_loop-IsLeast :
      (rounds start : ℕ)
      → window ≢ 0
      → start + rounds ≡ length exceedances
      → (r : Option ℕ) × (local_stop_loop exceedances required window rounds (suc start)
          ≡ ok (shift start r))
        × IsLeast (λ n. fires_at (start + n)) r
  unfolding local_stop_loop
  local_stop_loop-IsLeast zero start h e = (none, refl, λ n. ground arith)
  local_stop_loop-IsLeast (suc rounds) start h e =
      let (r, q, least) = local_stop_loop-IsLeast rounds (suc start) h (omega arith) in
      let p : ℕ → Bool = λ n. fires_at (start + n) in
      let here : ltb start (length exceedances) ≡ true = lt→ltb _ _ (omega arith) in
      let call = persistence_is_triggered-ok (take (suc start) exceedances) required window h in
      let at_zero : fires_at (start + 0) ≡ fires_at start = ap fires_at (omega arith) in
      elim (Bool-cases (fires (take (suc start) exceedances) required window)) [
        | inl fires ↦ (
          some 0,
          rw (call, fires) (ap (λ n. ok (some n)) (omega arith)),
          IsLeast-here p (at_zero ∙ rw (here, fires)),
        )
        | inr quiet ↦ (
          shift 1 r,
          rw (call, quiet) (q ∙ ap ok (shift-suc start r)),
          IsLeast-later p r (at_zero ∙ rw (here, quiet))
              (IsLeast-resp _ _ r (λ n. ap fires_at (omega arith)) least),
        )
      ]

  -- With a positive window the search returns the first epoch at which, among the last `window`
  -- epochs up to it, at least `required` are exceedances, and `none` if there is no such epoch.
  pub first_local_stop_epoch-IsLeast :
      window ≢ 0
      → (r : Option ℕ) × (first_local_stop_epoch exceedances required window ≡ ok r)
        × IsLeast fires_at r
  unfolding first_local_stop_epoch
  first_local_stop_epoch-IsLeast h =
      let (r, e, least) = local_stop_loop-IsLeast (length exceedances) 0 h (omega arith) in
      (r, e ∙ ap ok (shift_zero r), IsLeast-resp _ _ r (λ n. ap fires_at (omega arith)) least)

-- The policy fires somewhere in a horizon.
abbrev pub Stops : ℕ → ℕ → List Bool → Type 0
Stops required window horizon = (n : ℕ) × (fires_at horizon required window n ≡ true)

-- The horizons that a list of marks selects: a mark is set where, and only where, the policy fires.
abbrev pub MarksStops : ℕ → ℕ → List Bool → List (List Bool) → Type 0
MarksStops required window [] [] = Unit
MarksStops required window (mark ∷ marks) (horizon ∷ horizons) =
    ((mark ≡ true) ↔ Stops required window horizon) × MarksStops required window marks horizons
MarksStops required window _ _ = ⊥

mark_iff :
    (required window : ℕ) (horizon : List Bool) (r : Option ℕ)
    → IsLeast (fires_at horizon required window) r
    → (is_some r ≡ true) ↔ Stops required window horizon
mark_iff required window horizon none l = (λ h. ground arith, λ (n, q). ground (arith, l n))
mark_iff required window horizon (some m) l = (λ h. (m, l.0), λ s. refl)

stop_counts-marks :
    (stops required window : ℕ) (horizons : List (List Bool))
    → window ≢ 0
    → (marks : List Bool) × MarksStops required window marks horizons
      × (stop_counts stops horizons required window ≡ ok (stops + count_if (λ mark. mark) marks))
unfolding stop_counts
stop_counts-marks stops required window [] h = ([], tt, ap ok (omega arith))
stop_counts-marks stops required window (horizon ∷ rest) h =
    let (r, e, least) = first_local_stop_epoch-IsLeast horizon required window h in
    let (marks, all, q) =
      stop_counts-marks (if is_some r then suc stops else stops) required window rest h in
    (
      is_some r ∷ marks,
      (mark_iff required window horizon r least, all),
      rw e (q ∙ ap ok (sum (is_some r) stops (count_if (λ mark. mark) marks))),
    )
  where
    sum :
        (b : Bool) (stops n : ℕ)
        → (if b then suc stops else stops) + n ≡ stops + ((if b then 1 else 0) + n)
    sum b stops n = ground arith

-- With a positive window the count is that of the horizons in which the policy fires at some epoch.
pub heldout_false_stop_count-marks :
    (horizons : List (List Bool)) (required window : ℕ)
    → window ≢ 0
    → (marks : List Bool) × MarksStops required window marks horizons
      × (heldout_false_stop_count horizons required window ≡ ok (count_if (λ mark. mark) marks))
unfolding heldout_false_stop_count
heldout_false_stop_count-marks horizons required window h =
    let (marks, all, e) = stop_counts-marks 0 required window horizons h in
    (marks, all, e ∙ ap ok (omega arith))

MarksStops-length :
    (required window : ℕ) (marks : List Bool) (horizons : List (List Bool))
    → MarksStops required window marks horizons
    → length marks ≡ length horizons
MarksStops-length required window [] [] m = refl
MarksStops-length required window [] (h ∷ hs) m = absurd m
MarksStops-length required window (b ∷ bs) [] m = absurd m
MarksStops-length required window (b ∷ bs) (h ∷ hs) m =
    ap suc (MarksStops-length required window bs hs m.1)

-- The count never exceeds the number of horizons, as the Clopper-Pearson bound demands of it.
pub heldout_false_stop_count-le :
    (horizons : List (List Bool)) (required window : ℕ)
    → window ≢ 0
    → (n : ℕ) × (heldout_false_stop_count horizons required window ≡ ok n) × (n ≤ length horizons)
heldout_false_stop_count-le horizons required window h =
    let (marks, all, e) = heldout_false_stop_count-marks horizons required window h in
    (
      _,
      e,
      omega (
        arith,
        count_if-le-length (λ mark. mark) marks,
        MarksStops-length required window marks horizons all,
      ),
    )
