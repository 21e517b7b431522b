-- ===== src/Datasets/Deduplication/Sees.antt =====
-- What the loop knows of the events it has passed, and what it does with the next one.
use fed_campaign_emhi.Prelude.{
  ◌+◌, ◌≡◌, refl, sym, ap, ◌∙◌, subst, ◌⊎◌, inl, inr, true, false, Option, none, some, List, [],
  ◌∷◌, ◌++◌, arith, length, length-append, Bool-cases, if◌then◌else◌,
}
use fed_campaign_emhi.Prelude.Str.{Str, str_eq, str_eq_iff}
use fed_campaign_emhi.Prelude.Sets.{str_eq_instance}
use fed_campaign_emhi.Prelude.Membership.{In}
use fed_campaign_emhi.Prelude.Dict.{dict_get, dict_get-snoc}
use fed_campaign_emhi.Prelude.Float.{Float}
use fed_campaign_emhi.Domain.Types.{RetainedEvent}
use fed_campaign_emhi.Datasets.Deduplication.{Seen, count_duplicate, keep_identified, see_event}
use fed_campaign_emhi.Datasets.Deduplication.Groups.{SharesIdentifier, Agrees, IsCopy, Repeats}

pub some_injective : {A : Type 0} (a b : A) → some a ≡ some b → a ≡ b
some_injective a b e = cc

-- One event has one identifier.
pub one_identifier :
    {F : Type 0} (a b : RetainedEvent F) (x y : Option Str)
    → a ≡ b
    → a.unique_identifier ≡ x
    → b.unique_identifier ≡ y
    → x ≡ y
one_identifier {F} a b x y p e e' =
    sym e ∙ ap (λ (event : RetainedEvent F). event.unique_identifier) p ∙ e'

pub none≢some : {i : Str} → none ≡ some i → ⊥
none≢some e = cc

module _ {F : Type 0} ⦃f : Float F⦄ where
  -- What the dictionary says of an identifier, after the events `before`.
  abbrev pub IsKnown : List (RetainedEvent F) → Str → Option (RetainedEvent F) → Type 0
  IsKnown before i none = (b : RetainedEvent F) → In b before → ¬ (b.unique_identifier ≡ some i)
  IsKnown before i (some first) =
      In first before
      × (first.unique_identifier ≡ some i)
      × ((b : RetainedEvent F) → In b before → b.unique_identifier ≡ some i → Agrees first b)

  -- Every event passed is in the dictionary by its identifier, or a copy of one in the set.
  pub record Knows (before : List (RetainedEvent F)) (seen : Seen F) : Type 0 where
    pub identified : (i : Str) → IsKnown before i (dict_get seen.identified i)
    pub listed :
        (a : RetainedEvent F) → In a seen.anonymous → In a before × (a.unique_identifier ≡ none)
    pub covered :
        (b : RetainedEvent F)
        → In b before
        → b.unique_identifier ≡ none
        → (a : RetainedEvent F) × In a seen.anonymous × IsCopy b a
    pub counted : length seen.retained + seen.duplicate_count ≡ length before

  abbrev pub HasEarlier : List (RetainedEvent F) → RetainedEvent F → Type 0
  HasEarlier before event = (b : RetainedEvent F) × In b before × Repeats event b

  -- An event conflicts with an earlier one, repeats an earlier one and is counted, or is kept.
  pub data Sees (before : List (RetainedEvent F)) (seen : Seen F) (event : RetainedEvent F)
      : Type 0 where
    conflicts :
        (first : RetainedEvent F)
        → In first before
        → SharesIdentifier first event
        → ¬ Agrees first event
        → see_event seen event ≡ none
        → Sees before seen event
    counts :
        HasEarlier before event
        → see_event seen event ≡ some (count_duplicate seen)
        → Knows (event ∷ before) (count_duplicate seen)
        → Sees before seen event
    keeps :
        (next : Seen F)
        → ¬ HasEarlier before event
        → see_event seen event ≡ some next
        → next.retained ≡ seen.retained ++ event ∷ []
        → Knows (event ∷ before) next
        → Sees before seen event

  -- An event without an identifier changes nothing of the dictionary.
  pub unidentified :
      (before : List (RetainedEvent F)) (event : RetainedEvent F) (i : Str)
      (known : Option (RetainedEvent F))
      → event.unique_identifier ≡ none
      → IsKnown before i known
      → IsKnown (event ∷ before) i known
  unidentified before event i none e k = λ b j q. elim j [
    | inl p ↦ none≢some (sym (one_identifier b event (some i) none p q e))
    | inr m ↦ k b m q
  ]
  unidentified before event i (some first) e (m, own, all) = (
    inr m,
    own,
    λ b j q. elim j [
      | inl p ↦ absurd (none≢some (sym (one_identifier b event (some i) none p q e)))
      | inr n ↦ all b n q
    ],
  )

  -- Nor does one with another identifier.
  elsewhere :
      (before : List (RetainedEvent F)) (event : RetainedEvent F) (own i : Str)
      (known : Option (RetainedEvent F))
      → event.unique_identifier ≡ some own
      → ¬ (own ≡ i)
      → IsKnown before i known
      → IsKnown (event ∷ before) i known
  elsewhere before event own i none e n k = λ b j q. elim j [
    | inl p ↦ n (sym (some_injective i own (one_identifier b event (some i) (some own) p q e)))
    | inr m ↦ k b m q
  ]
  elsewhere before event own i (some first) e n (m, named, all) = (
    inr m,
    named,
    λ b j q. elim j [
      | inl p ↦
          absurd (n (sym (some_injective i own (one_identifier b event (some i) (some own) p q e))))
      | inr l ↦ all b l q
    ],
  )

  -- The set of an event with an identifier stays as it is.
  covered_on :
      (before : List (RetainedEvent F)) (seen : Seen F) (event : RetainedEvent F) (own : Str)
      → Knows before seen
      → event.unique_identifier ≡ some own
      → (b : RetainedEvent F) → In b (event ∷ before)
      → b.unique_identifier ≡ none
      → (a : RetainedEvent F) × In a seen.anonymous × IsCopy b a
  covered_on before seen event own k e b (inl p) q =
      absurd (none≢some (one_identifier b event none (some own) p q e))
  covered_on before seen event own k e b (inr j) q = k.covered b j q

  -- The event has the identifier of `first`, and agrees with it.
  pub known-counts :
      (before : List (RetainedEvent F)) (seen : Seen F) (event first : RetainedEvent F) (own : Str)
      → Knows before seen
      → event.unique_identifier ≡ some own
      → dict_get seen.identified own ≡ some first
      → Agrees first event
      → Knows (event ∷ before) (count_duplicate seen)
  known-counts before seen event first own k e present agrees = record {
    identified = λ i. by_name i (Bool-cases (str_eq own i));
    listed = λ a j. let (m, q) = k.listed a j in (inr m, q);
    covered = covered_on before seen event own k e;
    counted = let c = k.counted in omega arith;
  }
    where
      agreeing : IsKnown before own (some first) → IsKnown (event ∷ before) own (some first)
      agreeing (m, named, all) = (
        inr m,
        named,
        λ b j q. elim j [ inl p ↦ subst (λ x. Agrees first x) (sym p) agrees | inr n ↦ all b n q ],
      )

      by_name :
          (i : Str)
          → (str_eq own i ≡ true) ⊎ (str_eq own i ≡ false)
          → IsKnown (event ∷ before) i (dict_get seen.identified i)
      by_name i (inl same) =
          subst (λ j. IsKnown (event ∷ before) j (dict_get seen.identified j))
            ((str_eq_iff own i).0 same)
            (subst (IsKnown (event ∷ before) own) (sym present)
              (agreeing (subst (IsKnown before own) present (k.identified own))))
      by_name i (inr other) =
          elsewhere before event own i (dict_get seen.identified i) e
            (λ q. let same = (str_eq_iff own i).1 q in ground arith) (k.identified i)

  -- No event before has the identifier.
  pub new-keeps :
      (before : List (RetainedEvent F)) (seen : Seen F) (event : RetainedEvent F) (own : Str)
      → Knows before seen
      → event.unique_identifier ≡ some own
      → dict_get seen.identified own ≡ none
      → Knows (event ∷ before) (keep_identified seen own event)
  new-keeps before seen event own k e absent = record {
    identified = λ i.
        subst (IsKnown (event ∷ before) i) (sym (dict_get-snoc seen.identified own event i))
          (by_name i (Bool-cases (str_eq own i)));
    listed = λ a j. let (m, q) = k.listed a j in (inr m, q);
    covered = covered_on before seen event own k e;
    counted = let c = k.counted in omega (arith, length-append seen.retained (event ∷ []));
  }
    where
      new : (b : RetainedEvent F) → In b before → ¬ (b.unique_identifier ≡ some own)
      new = subst (IsKnown before own) absent (k.identified own)

      by_name :
          (i : Str)
          → (str_eq own i ≡ true) ⊎ (str_eq own i ≡ false)
          → IsKnown
              (event ∷ before)
              i
              (if str_eq own i then some event else dict_get seen.identified i)
      by_name i (inl same) =
          let q = (str_eq_iff own i).0 same in
          rw same (
            inl refl,
            e ∙ ap some q,
            λ b j named. elim j [
              | inl p ↦ subst (λ x. Agrees event x) (sym p) (refl, refl, refl)
              | inr m ↦ absurd (new b m (named ∙ ap some (sym q)))
            ],
          )
      by_name i (inr other) = rw other (
          elsewhere before event own i (dict_get seen.identified i) e
            (λ q. let same = (str_eq_iff own i).1 q in ground arith) (k.identified i))
