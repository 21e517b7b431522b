-- ===== src/Evaluation/Metrics/Stops.antt =====
-- What a strict ODI outcome says of the stops.
use fed_campaign_emhi.Prelude.{
  ◌≡◌, refl, sym, ap, ◌∙◌, ◌↔◌, ◌⊎◌, inl, inr, true, false, Option, none, some, List, [], ◌∷◌,
  arith, Bool-cases,
}
use fed_campaign_emhi.Prelude.Int.{ℤ, ltb_ℤ, ltb_ℤ_iff, ◌≤ℤ◌, ◌<ℤ◌}
use fed_campaign_emhi.Prelude.Membership.{In}
use fed_campaign_emhi.Prelude.Extrema.{min_ℤ, min_ℤ-IsMin}
use fed_campaign_emhi.Evaluation.Metrics.{
  finite_stops, earliest_of, earliest_local_stop, odi_indicator, strict_odi_outcome,
}

-- A stop is among the stops that are not `None`.
In-finite_stops :
    (stops : List (Option ℤ)) (stop : ℤ) → In (some stop) stops ↔ In stop (finite_stops stops)
In-finite_stops stops stop = (to stops, from stops)
  where
    to : (stops : List (Option ℤ)) → In (some stop) stops → In stop (finite_stops stops)
    to [] i = i
    to (none ∷ rest) (inl e) = absurd (let w : some stop ≡ none = e in cc)
    to (none ∷ rest) (inr i) = to rest i
    to (some epoch ∷ rest) (inl e) = inl (cc)
    to (some epoch ∷ rest) (inr i) = inr (to rest i)

    from : (stops : List (Option ℤ)) → In stop (finite_stops stops) → In (some stop) stops
    from [] i = i
    from (none ∷ rest) i = inr (from rest i)
    from (some epoch ∷ rest) (inl e) = inl (ap some e)
    from (some epoch ∷ rest) (inr i) = inr (from rest i)

-- The earliest local stop is a least one among the local stops that are not `None`, and `None` if there
-- is none.
abbrev pub IsEarliest : List (Option ℤ) → Option ℤ → Type 0
IsEarliest stops none = (stop : ℤ) → ¬ In (some stop) stops
IsEarliest stops (some earliest) =
    In (some earliest) stops × ((stop : ℤ) → In (some stop) stops → earliest ≤ℤ stop)

earliest_local_stop-IsEarliest :
    (stops : List (Option ℤ)) → IsEarliest stops (earliest_local_stop stops)
unfolding earliest_local_stop
earliest_local_stop-IsEarliest stops = go (finite_stops stops) (In-finite_stops stops)
  where
    go :
        (finite : List ℤ)
        → ((stop : ℤ) → In (some stop) stops ↔ In stop finite)
        → IsEarliest stops (earliest_of finite)
    go [] same = λ stop i. (same stop).0 i
    go (epoch ∷ rest) same =
        let (member, below) = min_ℤ-IsMin epoch rest in
        ((same (min_ℤ epoch rest)).1 member, λ stop i. below stop ((same stop).0 i))

-- The detector stops, and before every local stop.
abbrev pub StopsFirst : Option ℤ → List (Option ℤ) → Type 0
StopsFirst global_stop stops =
    (stop : ℤ) × (global_stop ≡ some stop) × ((local : ℤ) → In (some local) stops → stop <ℤ local)

odi_indicator-StopsFirst :
    (global_stop : Option ℤ) (stops : List (Option ℤ)) (earliest : Option ℤ)
    → IsEarliest stops earliest
    → ((odi_indicator global_stop earliest ≡ 1) × StopsFirst global_stop stops)
      ⊎ ((odi_indicator global_stop earliest ≡ 0) × ¬ StopsFirst global_stop stops)
odi_indicator-StopsFirst none stops earliest h =
    inr (refl, λ s. absurd (let e : none ≡ some s.0 = s.1 in cc))
odi_indicator-StopsFirst (some stop) stops none h =
    inl (refl, (stop, refl, λ local i. absurd (h local i)))
odi_indicator-StopsFirst (some stop) stops (some earliest) (member, below) =
    elim (Bool-cases (ltb_ℤ stop earliest)) [
      | inl q ↦ inl (
        rw q refl,
        (stop, refl, λ local i. omega (arith, (ltb_ℤ_iff stop earliest).0 q, below local i)),
      )
      | inr q ↦ inr (
        rw q refl,
        λ s.
            let e : stop ≡ s.0 = (let w : some stop ≡ some s.0 = s.1 in cc) in
            let before : stop <ℤ earliest = rw e (s.2 earliest member) in
            false_is_true q ((ltb_ℤ_iff stop earliest).1 before),
      )
    ]
  where
    false_is_true : ltb_ℤ stop earliest ≡ false → ltb_ℤ stop earliest ≡ true → ⊥
    false_is_true p q = let w : true ≡ false = sym q ∙ p in cc

-- The outcome reports the earliest local stop, and its indicator is 1 if the detector stops strictly
-- before every local stop, and 0 if it does not.
pub strict_odi_outcome-StopsFirst :
    (global_stop : Option ℤ) (stops : List (Option ℤ))
    → IsEarliest stops (strict_odi_outcome global_stop stops).earliest_local_stop_epoch
      × (((strict_odi_outcome global_stop stops).indicator ≡ 1) × StopsFirst global_stop stops
          ⊎ ((strict_odi_outcome global_stop stops).indicator ≡ 0) × ¬ StopsFirst global_stop stops)
unfolding strict_odi_outcome
strict_odi_outcome-StopsFirst global_stop stops =
    let earliest = earliest_local_stop-IsEarliest stops in
    (earliest, odi_indicator-StopsFirst global_stop stops (earliest_local_stop stops) earliest)
