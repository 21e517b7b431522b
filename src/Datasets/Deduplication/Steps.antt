-- ===== src/Datasets/Deduplication/Steps.antt =====
-- What the body of the loop does with an event.
use fed_campaign_emhi.Prelude.{
  ◌≡◌, refl, sym, ap, ◌∙◌, subst, inl, inr, false, none, some, List, [], ◌∷◌, arith, any,
  length-append, Bool-cases, Option-cases,
}
use fed_campaign_emhi.Prelude.Str.{Str}
use fed_campaign_emhi.Prelude.Sets.{str_eq_instance}
use fed_campaign_emhi.Prelude.Membership.{In, any_iff}
use fed_campaign_emhi.Prelude.Dict.{dict_get}
use fed_campaign_emhi.Prelude.Float.{Float, IsOrdered}
use fed_campaign_emhi.Domain.Types.{RetainedEvent}
use fed_campaign_emhi.Datasets.Deduplication.{
  Seen, count_duplicate, keep_identified, keep_anonymous, same_identity, identifier_conflicts,
  see_identified, see_anonymous, see_by, see_event,
}
use fed_campaign_emhi.Datasets.Deduplication.Groups.{
  IsCopy, identifier_conflicts-false, identifier_conflicts-true, IsCopy-refl, IsCopy-trans,
  same_identity_iff,
}
use fed_campaign_emhi.Datasets.Deduplication.Sees.{
  Knows, HasEarlier, Sees, conflicts, counts, keeps, IsKnown, none≢some, unidentified, known-counts,
  new-keeps,
}

module _ {F : Type 0} ⦃f : Float F⦄ (o : IsOrdered F) where
  copy-counts :
      (before : List (RetainedEvent F)) (seen : Seen F) (event a : RetainedEvent F)
      → Knows before seen
      → event.unique_identifier ≡ none
      → In a seen.anonymous
      → IsCopy event a
      → Knows (event ∷ before) (count_duplicate seen)
  copy-counts before seen event a k e i copy = record {
    identified = λ j. unidentified before event j (dict_get seen.identified j) e (k.identified j);
    listed = λ b j. let (m, q) = k.listed b j in (inr m, q);
    covered = λ b j q. elim j [
      | inl p ↦ (a, i, subst (λ x. IsCopy x a) (sym p) copy)
      | inr m ↦ k.covered b m q
    ];
    counted = let c = k.counted in omega arith;
  }

  original-keeps :
      (before : List (RetainedEvent F)) (seen : Seen F) (event : RetainedEvent F)
      → Knows before seen
      → event.unique_identifier ≡ none
      → Knows (event ∷ before) (keep_anonymous seen event)
  original-keeps before seen event k e = record {
    identified = λ j. unidentified before event j (dict_get seen.identified j) e (k.identified j);
    listed = λ b j. elim j [
      | inl p ↦ (inl p, ap (λ (x : RetainedEvent F). x.unique_identifier) p ∙ e)
      | inr m ↦ let (n, q) = k.listed b m in (inr n, q)
    ];
    covered = λ b j q. elim j [
      | inl p ↦ (event, inl refl, subst (λ x. IsCopy x event) (sym p) (IsCopy-refl o event e))
      | inr m ↦ let (a, n, copy) = k.covered b m q in (a, inr n, copy)
    ];
    counted = let c = k.counted in omega (arith, length-append seen.retained (event ∷ []));
  }

  no_earlier_copy :
      (before : List (RetainedEvent F)) (seen : Seen F) (event : RetainedEvent F)
      → Knows before seen
      → event.unique_identifier ≡ none
      → any (same_identity event) seen.anonymous ≡ false
      → ¬ HasEarlier before event
  no_earlier_copy before seen event k e q (b, i, inl (name, own, other)) = none≢some (sym e ∙ own)
  no_earlier_copy before seen event k e q (b, i, inr copy) =
      let (a, j, copy') = k.covered b i copy.1 in
      let (_, unnamed) = k.listed a j in
      let same = (same_identity_iff event a e unnamed).1 (IsCopy-trans o event b a copy copy') in
      let found = (any_iff (same_identity event) seen.anonymous).1 (a, j, same) in ground arith

  see_anonymous-Sees :
      (before : List (RetainedEvent F)) (seen : Seen F) (event : RetainedEvent F)
      → Knows before seen
      → event.unique_identifier ≡ none
      → Sees before seen event
  unfolding see_event see_by see_anonymous
  see_anonymous-Sees before seen event k e =
      elim (Bool-cases (any (same_identity event) seen.anonymous)) [
        | inl q ↦
            let (a, i, same) = (any_iff (same_identity event) seen.anonymous).0 q in
            let (j, unnamed) = k.listed a i in
            let copy = (same_identity_iff event a e unnamed).0 same in
            counts (a, j, inr copy) (rw (see_event, e, q) refl)
              (copy-counts before seen event a k e i copy)
        | inr q ↦
            keeps (keep_anonymous seen event) (no_earlier_copy before seen event k e q)
              (rw (see_event, e, q) refl) refl (original-keeps before seen event k e)
      ]

  see_new-Sees :
      (before : List (RetainedEvent F)) (seen : Seen F) (event : RetainedEvent F) (own : Str)
      → Knows before seen
      → event.unique_identifier ≡ some own
      → dict_get seen.identified own ≡ none
      → Sees before seen event
  unfolding see_event see_by see_identified
  see_new-Sees before seen event own k e absent =
      keeps (keep_identified seen own event)
        (λ (b, i, again). elim again [
          | inl (name, mine, other) ↦ new b i (other ∙ sym mine ∙ e)
          | inr copy ↦ none≢some (sym copy.0 ∙ e)
        ])
        (rw (see_event, e, see_identified, absent) refl) refl
        (new-keeps before seen event own k e absent)
    where
      new : (b : RetainedEvent F) → In b before → ¬ (b.unique_identifier ≡ some own)
      new = subst (IsKnown before own) absent (k.identified own)

  see_known-Sees :
      (before : List (RetainedEvent F)) (seen : Seen F) (event first : RetainedEvent F) (own : Str)
      → Knows before seen
      → event.unique_identifier ≡ some own
      → dict_get seen.identified own ≡ some first
      → Sees before seen event
  unfolding see_event see_by see_identified identifier_conflicts
  see_known-Sees before seen event first own k e present =
      let (i, named, all) = subst (IsKnown before own) present (k.identified own) in
      elim (Bool-cases (identifier_conflicts first event)) [
        | inl q ↦
            conflicts first i (own, named, e) (identifier_conflicts-true first event q)
              (rw (see_event, e, see_identified, present, q) refl)
        | inr q ↦
            counts (first, i, inl (own, e, named))
              (rw (see_event, e, see_identified, present, q) refl)
              (known-counts before seen event first own k e present
                (identifier_conflicts-false first event q))
      ]

  pub see_event-Sees :
      (before : List (RetainedEvent F)) (seen : Seen F) (event : RetainedEvent F)
      → Knows before seen
      → Sees before seen event
  see_event-Sees before seen event k = elim (Option-cases event.unique_identifier) [
    | inl e ↦ see_anonymous-Sees before seen event k e
    | inr (own, e) ↦ elim (Option-cases (dict_get seen.identified own)) [
      | inl absent ↦ see_new-Sees before seen event own k e absent
      | inr (first, present) ↦ see_known-Sees before seen event first own k e present
    ]
  ]
