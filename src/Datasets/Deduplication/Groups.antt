-- ===== src/Datasets/Deduplication/Groups.antt =====
-- What it is for events to be duplicates of one another, and to be the first of their group.
use fed_campaign_emhi.Prelude.{
  ◌≡◌, refl, sym, ◌∙◌, ◌↔◌, ◌⊎◌, Bool, true, false, ◌&&◌, ◌||◌, none, some, List, [], ◌∷◌, arith,
  leb,
}
use fed_campaign_emhi.Prelude.Str.{Str, str_eq_iff}
use fed_campaign_emhi.Prelude.Membership.{In}
use fed_campaign_emhi.Prelude.Order.{IsOrder, IsSorted, IsSorted-implied, sorted, sorted-IsSorted}
use fed_campaign_emhi.Prelude.Float.{Float, IsOrdered}
use fed_campaign_emhi.Domain.Enums.{dataset_name_eq}
use fed_campaign_emhi.Domain.Types.{RetainedEvent}
use fed_campaign_emhi.Datasets.Deduplication.{identifier_conflicts, same_identity, chronological_le}

module _ {F : Type 0} where
  -- Both events have an identifier, and it is the same.
  abbrev pub SharesIdentifier : RetainedEvent F → RetainedEvent F → Type 0
  SharesIdentifier a b = (i : Str) × (a.unique_identifier ≡ some i) × (b.unique_identifier ≡ some i)

  abbrev pub Agrees : RetainedEvent F → RetainedEvent F → Type 0
  Agrees a b = (a.payload ≡ b.payload) × (a.client_id ≡ b.client_id) × (a.event_type ≡ b.event_type)

  pub identifier_conflicts-false :
      (a b : RetainedEvent F) → identifier_conflicts a b ≡ false → Agrees a b
  unfolding identifier_conflicts
  identifier_conflicts-false a b h = (
    (str_eq_iff a.payload b.payload).0 (ground arith),
    (str_eq_iff a.client_id b.client_id).0 (ground arith),
    (str_eq_iff a.event_type b.event_type).0 (ground arith),
  )

  pub identifier_conflicts-true :
      (a b : RetainedEvent F) → identifier_conflicts a b ≡ true → ¬ Agrees a b
  unfolding identifier_conflicts
  identifier_conflicts-true a b h (p, q, r) =
      let e = (str_eq_iff a.payload b.payload).1 p in
      let e' = (str_eq_iff a.client_id b.client_id).1 q in
      let e'' = (str_eq_iff a.event_type b.event_type).1 r in ground arith

module _ {F : Type 0} ⦃f : Float F⦄ where
  -- Neither event has an identifier, and they are alike in all but their place in the input.
  abbrev pub IsCopy : RetainedEvent F → RetainedEvent F → Type 0
  IsCopy a b =
      (a.unique_identifier ≡ none)
      × (b.unique_identifier ≡ none)
      × (a.dataset_name ≡ b.dataset_name)
      × (f.eq a.timestamp_seconds b.timestamp_seconds ≡ true)
      × Agrees a b

  abbrev pub Repeats : RetainedEvent F → RetainedEvent F → Type 0
  Repeats a b = SharesIdentifier a b ⊎ IsCopy a b

  -- After the events `before`, the events `kept` are those that repeat no event before them.
  abbrev pub Firsts : (before events kept : List (RetainedEvent F)) → Type 0
  Firsts before [] kept = kept ≡ []
  Firsts before (event ∷ events) kept =
      (((b : RetainedEvent F) × In b before × Repeats event b)
        × Firsts (event ∷ before) events kept)
      ⊎ (¬ ((b : RetainedEvent F) × In b before × Repeats event b)
          × ((rest : List (RetainedEvent F)) × (kept ≡ event ∷ rest)
              × Firsts (event ∷ before) events rest))

  -- By time, and at one time by the place in the input.
  abbrev pub no_later : RetainedEvent F → RetainedEvent F → Bool
  no_later a b =
      f.lt a.timestamp_seconds b.timestamp_seconds
      || (f.eq a.timestamp_seconds b.timestamp_seconds && leb a.original_order b.original_order)

  module _ (o : IsOrdered F) where
    chronological_le-no_later : (a b : RetainedEvent F) → chronological_le a b ≡ no_later a b
    unfolding chronological_le
    chronological_le-no_later a b = ground (
      arith,
      o.eq-eq-le-le a.timestamp_seconds b.timestamp_seconds,
      o.lt-eq-not-le a.timestamp_seconds b.timestamp_seconds,
    )

    no_later-IsOrder : IsOrder no_later
    no_later-IsOrder = record {
      total = λ a b. ground (
        arith,
        o.eq-eq-le-le a.timestamp_seconds b.timestamp_seconds,
        o.eq-eq-le-le b.timestamp_seconds a.timestamp_seconds,
        o.lt-eq-not-le a.timestamp_seconds b.timestamp_seconds,
        o.lt-eq-not-le b.timestamp_seconds a.timestamp_seconds,
        o.order.total a.timestamp_seconds b.timestamp_seconds,
      );
      trans = λ a b c h k. ground (
        arith,
        o.eq-eq-le-le a.timestamp_seconds b.timestamp_seconds,
        o.eq-eq-le-le b.timestamp_seconds c.timestamp_seconds,
        o.eq-eq-le-le a.timestamp_seconds c.timestamp_seconds,
        o.lt-eq-not-le a.timestamp_seconds b.timestamp_seconds,
        o.lt-eq-not-le b.timestamp_seconds c.timestamp_seconds,
        o.lt-eq-not-le a.timestamp_seconds c.timestamp_seconds,
        o.order.total a.timestamp_seconds b.timestamp_seconds,
        o.order.total b.timestamp_seconds c.timestamp_seconds,
        o.order.total a.timestamp_seconds c.timestamp_seconds,
        o.order.trans a.timestamp_seconds b.timestamp_seconds c.timestamp_seconds,
        o.order.trans c.timestamp_seconds a.timestamp_seconds b.timestamp_seconds,
        o.order.trans b.timestamp_seconds c.timestamp_seconds a.timestamp_seconds,
        o.order.trans c.timestamp_seconds b.timestamp_seconds a.timestamp_seconds,
      );
    }

    chronological_le-IsOrder : IsOrder (chronological_le {F = F})
    chronological_le-IsOrder = record {
      total = λ a b.
          rw (chronological_le-no_later a b, chronological_le-no_later b a)
            (no_later-IsOrder.total a b);
      trans = λ a b c h k. rw (chronological_le-no_later a c) (
          no_later-IsOrder.trans a b c (sym (chronological_le-no_later a b) ∙ h)
            (sym (chronological_le-no_later b c) ∙ k));
    }

    -- The program's order puts the events in the order of time.
    pub sorted-no_later :
        (events : List (RetainedEvent F)) → IsSorted no_later (sorted chronological_le events)
    sorted-no_later events =
        IsSorted-implied chronological_le no_later
          (λ a b h. sym (chronological_le-no_later a b) ∙ h) (sorted chronological_le events)
          (sorted-IsSorted chronological_le chronological_le-IsOrder events)

    eq_refl : (x : F) → f.eq x x ≡ true
    eq_refl x = ground (arith, o.eq-eq-le-le x x, o.order.total x x)

    eq_trans : (x y z : F) → f.eq x y ≡ true → f.eq y z ≡ true → f.eq x z ≡ true
    eq_trans x y z h k = ground (
      arith,
      o.eq-eq-le-le x y,
      o.eq-eq-le-le y z,
      o.eq-eq-le-le x z,
      o.order.trans x y z,
      o.order.trans z y x,
    )

    pub IsCopy-refl : (a : RetainedEvent F) → a.unique_identifier ≡ none → IsCopy a a
    IsCopy-refl a e = (e, e, refl, eq_refl a.timestamp_seconds, (refl, refl, refl))

    pub IsCopy-trans : (a b c : RetainedEvent F) → IsCopy a b → IsCopy b c → IsCopy a c
    IsCopy-trans a b c (x, y, d, t, (p, q, r)) (x', y', d', t', (p', q', r')) = (
      x,
      y',
      d ∙ d',
      eq_trans a.timestamp_seconds b.timestamp_seconds c.timestamp_seconds t t',
      (p ∙ p', q ∙ q', r ∙ r'),
    )

  pub same_identity_iff :
      (a b : RetainedEvent F)
      → a.unique_identifier ≡ none
      → b.unique_identifier ≡ none
      → (same_identity a b ≡ true) ↔ IsCopy a b
  same_identity_iff a b x y = (
    (λ h. (
      x,
      y,
      (dataset_name_eq.beq_iff a.dataset_name b.dataset_name).0 (ground arith),
      ground arith,
      (
        (str_eq_iff a.payload b.payload).0 (ground arith),
        (str_eq_iff a.client_id b.client_id).0 (ground arith),
        (str_eq_iff a.event_type b.event_type).0 (ground arith),
      ),
    )),
    λ (_, _, d, t, (p, q, r)).
        let e = (dataset_name_eq.beq_iff a.dataset_name b.dataset_name).1 d in
        let e1 = (str_eq_iff a.payload b.payload).1 p in
        let e2 = (str_eq_iff a.client_id b.client_id).1 q in
        let e3 = (str_eq_iff a.event_type b.event_type).1 r in rw (e, e2, t, e3, e1) refl,
  )
