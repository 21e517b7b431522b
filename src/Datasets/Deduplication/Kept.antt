-- ===== src/Datasets/Deduplication/Kept.antt =====
-- What the deduplication keeps, and when it gives up.
use fed_campaign_emhi.Prelude.{
  ◌+◌, ◌≡◌, refl, sym, ap, ◌∙◌, subst, ◌↔◌, ◌⊎◌, inl, inr, List, [], ◌∷◌, ◌++◌, arith, length,
  append_nil, append_assoc, Option-cases,
}
use fed_campaign_emhi.Prelude.Sets.{str_eq_instance}
use fed_campaign_emhi.Prelude.Membership.{In}
use fed_campaign_emhi.Prelude.Dict.{dict_get}
use fed_campaign_emhi.Prelude.Float.{Float, IsOrdered}
use fed_campaign_emhi.Domain.Types.{RetainedEvent}
use fed_campaign_emhi.Datasets.Deduplication.{
  Seen, count_duplicate, nothing_seen, retain_loop, retain_first_chronological, chronological_le,
}
use fed_campaign_emhi.Datasets.Deduplication.Groups.{
  SharesIdentifier, Agrees, Firsts, no_later, sorted-no_later,
}
use fed_campaign_emhi.Datasets.Deduplication.Sees.{Knows, conflicts, counts, keeps, IsKnown}
use fed_campaign_emhi.Datasets.Deduplication.Steps.{see_event-Sees}
use fed_campaign_emhi.Prelude.Order.{sorted, IsSorted, length-sorted, sorted-Perm, In-sorted}
use fed_campaign_emhi.Domain.Enums.{ready, invalid}
use fed_campaign_emhi.Domain.Types.{DeduplicationOutcome}
use mathlib.Core.List.{Perm}

module _ {F : Type 0} ⦃f : Float F⦄ where
  -- Two of the events share an identifier and differ.
  abbrev pub HasConflict : (RetainedEvent F → Type 0) → Type 0
  HasConflict IsEvent =
      (a : RetainedEvent F) × (b : RetainedEvent F) × IsEvent a
      × IsEvent b
      × SharesIdentifier a b
      × ¬ Agrees a b

  -- What is kept of the events after those before them, or that two of them all conflict.
  abbrev Retains :
      (before : List (RetainedEvent F)) (seen : Seen F) (events : List (RetainedEvent F))
      (outcome : DeduplicationOutcome F)
      → Type 0
  Retains before seen events outcome =
      (((kept : List (RetainedEvent F)) × Firsts before events kept
          × (outcome.retained_events ≡ seen.retained ++ kept))
        × (length outcome.retained_events + outcome.duplicate_count ≡ length before + length events)
        × (outcome.experiment_state ≡ ready)
        × ¬ HasConflict (λ a. In a before ⊎ In a events))
      ⊎ (HasConflict (λ a. In a before ⊎ In a events)
          × (outcome.retained_events ≡ [])
          × (outcome.experiment_state ≡ invalid))

  -- The first event of an identifier agrees with the others, so they agree with one another.
  no_conflict :
      (before : List (RetainedEvent F)) (seen : Seen F)
      → Knows before seen
      → ¬ HasConflict (λ a. In a before)
  no_conflict before seen k (a, b, i, j, (name, mine, other), differ) =
      elim (Option-cases (dict_get seen.identified name)) [
        | inl absent ↦ subst (IsKnown before name) absent (k.identified name) a i mine
        | inr (first, present) ↦
            let (_, _, all) = subst (IsKnown before name) present (k.identified name) in
            let (p, q, r) = all a i mine in
            let (p', q', r') = all b j other in differ (sym p ∙ p', sym q ∙ q', sym r ∙ r')
      ]

  moved :
      (before events : List (RetainedEvent F)) (event a : RetainedEvent F)
      → (In a (event ∷ before) ⊎ In a events) ↔ (In a before ⊎ In a (event ∷ events))
  moved before events event a = (
    λ i. elim i [ inl (inl p) ↦ inr (inl p) | inl (inr j) ↦ inl j | inr j ↦ inr (inr j) ],
    λ i. elim i [ inl j ↦ inl (inr j) | inr (inl p) ↦ inl (inl p) | inr (inr j) ↦ inr j ],
  )

  HasConflict-implied :
      (P Q : RetainedEvent F → Type 0)
      → ((a : RetainedEvent F) → P a → Q a)
      → HasConflict P
      → HasConflict Q
  HasConflict-implied P Q h (a, b, i, j, shared, differ) = (a, b, h a i, h b j, shared, differ)

  conflict_moved :
      (before events : List (RetainedEvent F)) (event : RetainedEvent F)
      → HasConflict (λ a. In a (event ∷ before) ⊎ In a events)
        ↔ HasConflict (λ a. In a before ⊎ In a (event ∷ events))
  conflict_moved before events event = (
    HasConflict-implied _ _ (λ a. (moved before events event a).0),
    HasConflict-implied _ _ (λ a. (moved before events event a).1),
  )

  -- One event further: what `step` makes of the events kept from there on.
  passed :
      (before : List (RetainedEvent F)) (seen next : Seen F) (event : RetainedEvent F)
      (events : List (RetainedEvent F)) (outcome : DeduplicationOutcome F)
      → ((kept : List (RetainedEvent F))
          → Firsts (event ∷ before) events kept
          → outcome.retained_events ≡ next.retained ++ kept
          → (whole : List (RetainedEvent F)) × Firsts before (event ∷ events) whole
            × (outcome.retained_events ≡ seen.retained ++ whole))
      → Retains (event ∷ before) next events outcome
      → Retains before seen (event ∷ events) outcome
  passed before seen next event events outcome step
        (inl ((kept, firsts, e), size, state, none_differ)) =
      inl (
        step kept firsts e,
        size ∙ omega arith,
        state,
        λ conflict. none_differ ((conflict_moved before events event).1 conflict),
      )
  passed before seen next event events outcome step (inr (conflict, e, state)) =
      inr ((conflict_moved before events event).0 conflict, e, state)

  module _ (o : IsOrdered F) where
    retain_loop-Retains :
        (before : List (RetainedEvent F)) (seen : Seen F) (events : List (RetainedEvent F))
        → Knows before seen
        → Retains before seen events (retain_loop seen events)
    unfolding retain_loop
    retain_loop-Retains before seen [] k = inl (
      ([], refl, sym (append_nil seen.retained)),
      (let c = k.counted in omega arith),
      refl,
      λ conflict.
          no_conflict before seen k
            (HasConflict-implied _ _ (λ a i. elim i [ inl j ↦ j | inr j ↦ absurd j ]) conflict),
    )
    retain_loop-Retains before seen (event ∷ events) k =
        elim (see_event-Sees o before seen event k) [
          | conflicts first i shared differ q ↦
              rw (retain_loop, q)
                (inr ((first, event, inl i, inr (inl refl), shared, differ), refl, refl))
          | counts earlier q k' ↦
              rw (retain_loop, q)
                (passed before seen (count_duplicate seen) event events
                  (retain_loop (count_duplicate seen) events)
                  (λ kept firsts e. (kept, inl (earlier, firsts), e))
                  (retain_loop-Retains (event ∷ before) (count_duplicate seen) events k'))
          | keeps next new q added k' ↦
              rw (retain_loop, q)
                (passed before seen next event events (retain_loop next events)
                  (λ kept firsts e. (
                    event ∷ kept,
                    inr (new, (kept, refl, firsts)),
                    e ∙ ap (λ xs. xs ++ kept) added ∙ append_assoc seen.retained (event ∷ []) kept,
                  ))
                  (retain_loop-Retains (event ∷ before) next events k'))
        ]

    nothing_seen-Knows : Knows {F = F} [] nothing_seen
    unfolding dict_get
    nothing_seen-Knows = record {
      identified = λ i b j. absurd j;
      listed = λ a j. absurd j;
      covered = λ b j. absurd j;
      counted = omega arith;
    }

    -- For ordered timestamps there is an order of the events by time, and at one time by their place in
    -- the input. If no two events share an identifier and differ in payload, client or type, the outcome
    -- is `READY`, the events kept are in that order, and they are those that repeat no earlier one: an
    -- event repeats another if they share an identifier, or if both have none and they are alike in
    -- dataset, client, time, type and payload. With the duplicates counted they are as many as the
    -- events. If two events share an identifier and differ, the outcome is `INVALID` and keeps nothing.
    pub retain_first_chronological-Retains :
        (events : List (RetainedEvent F))
        → (ordered : List (RetainedEvent F)) × Perm ordered events
          × IsSorted no_later ordered
          × ((¬ HasConflict (λ a. In a events)
                × Firsts [] ordered (retain_first_chronological events).retained_events
                × (length (retain_first_chronological events).retained_events
                      + (retain_first_chronological events).duplicate_count
                    ≡ length events)
                × ((retain_first_chronological events).experiment_state ≡ ready))
              ⊎ (HasConflict (λ a. In a events)
                  × ((retain_first_chronological events).retained_events ≡ [])
                  × ((retain_first_chronological events).experiment_state ≡ invalid)))
    unfolding retain_first_chronological
    retain_first_chronological-Retains events =
        let ordered = sorted chronological_le events in
        (
          ordered,
          sorted-Perm chronological_le events,
          sorted-no_later o events,
          elim (retain_loop-Retains [] nothing_seen ordered nothing_seen-Knows) [
            | inl ((kept, firsts, e), size, state, none_differ) ↦ inl (
              (λ conflict. none_differ (
                  HasConflict-implied _ _ (λ a i. inr ((In-sorted chronological_le events a).1 i))
                    conflict)),
              subst (Firsts [] ordered) (sym e) firsts,
              omega (arith, size, length-sorted chronological_le events),
              state,
            )
            | inr (conflict, e, state) ↦ inr (
              HasConflict-implied _ _
                  (λ a i. elim i [
                    | inl j ↦ absurd j
                    | inr j ↦ (In-sorted chronological_le events a).0 j
                  ])
                  conflict,
              e,
              state,
            )
          ],
        )
