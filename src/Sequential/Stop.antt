-- ===== src/Sequential/Stop.antt =====
-- When the global detector stops.
use fed_campaign_emhi.Prelude.{
  ℕ, zero, suc, ◌≤◌, ◌≡◌, ◌≢◌, refl, sym, ap, ◌∙◌, Bool, true, false, ◌&&◌, Option, none, some,
  List, [], ◌∷◌, arith, take, ◌==◌, length, zip, ok, err, value_error, Bool-cases, inl, inr, ◌⊎◌,
  true_and,
}
use fed_campaign_emhi.Prelude.Least.{
  IsLeast, shift, shift-suc, shift_zero, IsLeast-here, IsLeast-later, IsLeast-mono,
}
use fed_campaign_emhi.Prelude.Float.{Float, IsOrdered, nought, unity, ◌⊕◌, ◌⊗◌}
use mathlib.Core.List.{foldl}
use fed_campaign_emhi.Sequential.{
  next_global_state, threshold_predicate, stop_loop, first_global_stop_epoch,
}

-- The predicate at a position; it does not hold out of range.
abbrev pub supported_at : List Bool → ℕ → Bool
supported_at [] n = false
supported_at (supported ∷ rest) zero = supported
supported_at (supported ∷ rest) (suc n) = supported_at rest n

module _ {F : Type 0} ⦃f : Float F⦄ where
  -- The state after the first `n + 1` factors, from a start state.
  abbrev pub state_at : F → List F → ℕ → F
  state_at state factors n =
      foldl (λ sum factor. (sum ⊕ unity) ⊗ factor) state (take (suc n) factors)

  -- The detector would stop at position `n`: the state there has reached the threshold, and the
  -- support predicate holds.
  abbrev pub stops_at : F → F → List F → List Bool → ℕ → Bool
  stops_at threshold state factors supports n =
      f.le threshold (state_at state factors n) && supported_at supports n

  never_stops :
      (threshold state : F) (factors : List F) (n : ℕ)
      → stops_at threshold state factors [] n ≡ false
  never_stops threshold state factors n = ground arith

  stop_loop-IsLeast :
      (threshold state : F) (index : ℕ) (factors : List F) (supports : List Bool)
      → length factors ≡ length supports
      → (r : Option ℕ) × (stop_loop threshold state index (zip factors supports) ≡ shift index r)
        × IsLeast (stops_at threshold state factors supports) r
  unfolding stop_loop next_global_state threshold_predicate
  stop_loop-IsLeast threshold state index [] [] e = (none, refl, never_stops threshold state [])
  stop_loop-IsLeast threshold state index [] (supported ∷ supports) e = absurd (omega arith)
  stop_loop-IsLeast threshold state index (factor ∷ factors) [] e = absurd (omega arith)
  stop_loop-IsLeast threshold state index (factor ∷ factors) (supported ∷ supports) same =
      let next = (state ⊕ unity) ⊗ factor in
      let p = stops_at threshold state (factor ∷ factors) (supported ∷ supports) in
      let (r, e, least) =
        stop_loop-IsLeast threshold next (suc index) factors supports (omega arith) in
      elim (Bool-cases (f.le threshold next && supported)) [
        | inl q ↦ (some 0, rw q (ap some (omega arith)), IsLeast-here p q)
        | inr q ↦ (shift 1 r, rw q (e ∙ shift-suc index r), IsLeast-later p r q least)
      ]

  -- On factors and predicates of one length the search returns, and what it returns is the least
  -- position at which the sum, which starts at 0.0 and to which each factor adds one and multiplies,
  -- reaches the threshold while the predicate holds: `none` if there is no such position. On other
  -- lengths it raises `ValueError`.
  pub first_global_stop_epoch-IsLeast :
      (factors : List F) (supports : List Bool) (threshold : F)
      → ((length factors ≡ length supports)
          × ((r : Option ℕ) × (first_global_stop_epoch factors supports threshold ≡ ok r)
              × IsLeast (stops_at threshold nought factors supports) r))
        ⊎ ((length factors ≢ length supports)
            × (first_global_stop_epoch factors supports threshold ≡ err value_error))
  unfolding first_global_stop_epoch
  first_global_stop_epoch-IsLeast factors supports threshold =
      elim (Bool-cases (length factors == length supports)) [
        | inl q ↦
            let same : length factors ≡ length supports = ground arith in
            let (r, e, least) = stop_loop-IsLeast threshold nought 0 factors supports same in
            inl (same, (r, rw q (ap ok (e ∙ shift_zero r)), least))
        | inr q ↦ inr (ground arith, rw q)
      ]

  -- Raising the threshold can only postpone the stop.
  stops_at_mono :
      IsOrdered F
      → (low high state : F) (factors : List F) (supports : List Bool) (n : ℕ)
      → f.le low high ≡ true
      → stops_at high state factors supports n ≡ true
      → stops_at low state factors supports n ≡ true
  stops_at_mono o low high state factors supports n h s =
      let (p, q) = true_and _ _ s in rw (o.order.trans low high (state_at state factors n) h p, q)

  -- If the detector stops at a threshold, then at every lower threshold it stops, and no later.
  pub first_global_stop_epoch_mono :
      (factors : List F) (supports : List Bool) (low high : F) (n : ℕ)
      → IsOrdered F
      → f.le low high ≡ true
      → first_global_stop_epoch factors supports high ≡ ok (some n)
      → (m : ℕ) × (first_global_stop_epoch factors supports low ≡ ok (some m)) × (m ≤ n)
  first_global_stop_epoch_mono factors supports low high n o h e =
      elim (first_global_stop_epoch-IsLeast factors supports high) [
        | inr (_, r) ↦ absurd (let q : err value_error ≡ ok (some n) = sym r ∙ e in cc)
        | inl (same, at_high) ↦ elim (first_global_stop_epoch-IsLeast factors supports low) [
          | inr (ne, _) ↦ absurd (ne same)
          | inl (_, at_low) ↦
              let (m, q, le) =
                IsLeast-mono _ _ at_low.0 at_high.0
                  (λ k. stops_at_mono o low high nought factors supports k h) at_low.2 at_high.2
                  (stop (sym at_high.1 ∙ e)) in
              (m, at_low.1 ∙ ap ok q, le)
        ]
      ]
    where
      stop : {r : Option ℕ} → ok r ≡ ok (some n) → r ≡ some n
      stop q = cc
