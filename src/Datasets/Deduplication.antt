-- ===== src/Datasets/Deduplication.antt =====
-- src/fedcampaign_emhi/datasets/preprocessing.py: the first of every group of duplicate events is kept.
pub mod Groups
pub mod Sees
pub mod Steps
pub mod Kept
use fed_campaign_emhi.Prelude.{
  ℕ, zero, suc, ◌+◌, ◌-◌, ◌*◌, ◌/◌, ◌%◌, ◌≤◌, ◌<◌, ◌≡◌, refl, sym, ap, ◌∙◌, subst, ◌≢◌, ◌↔◌, ◌⊎◌,
  inl, inr, Bool, true, false, not, ◌&&◌, ◌||◌, Option, none, some, List, [], ◌∷◌, ◌++◌, map, arith,
  ltb, leb, ◌==◌, if◌then◌else◌, Bool-cases, Option-cases, is_some, true_and, length, get_elem?,
  take, drop, take_last, replicate, set, keep, count_if, any, all, find_first, zip, flat_map,
  length-append, take-append-drop, length-take, length-drop, length-map, Error, Result, ok, err,
  value_error, key_error, index_error, raise_if, traverse, ◌>>=◌, ◌>>◌,
}
use fed_campaign_emhi.Prelude.Int.{
  ℤ, pos, negsuc, pos_part, neg_part, ◌+ℤ◌, ◌-ℤ◌, ◌≤ℤ◌, ◌<ℤ◌, leb_ℤ, ltb_ℤ, eqb_ℤ, range_ℤ,
  int_laws, leb_ℤ_iff, ltb_ℤ_iff, eqb_ℤ_iff,
}
use fed_campaign_emhi.Prelude.Str.{Str, str_eq, str_le}
use fed_campaign_emhi.Prelude.Sets.{
  Eq, nat_eq, int_eq, str_eq_instance, contains, contains_iff, contains_not, set_of, In-set_of,
  set_of-Distinct, Distinct-snoc, Distinct-keep,
}
use fed_campaign_emhi.Prelude.Membership.{
  All, In, Distinct, All-mono, All-append, All-In, All-of_In, In-append, In-keep, any_iff, all_iff,
  In-map, In-flat_map,
}
use fed_campaign_emhi.Prelude.Order.{
  sorted, IsOrder, IsSorted, sorted-IsSorted, length-sorted, In-sorted,
}
use fed_campaign_emhi.Prelude.Dict.{dict_get}
use fed_campaign_emhi.Prelude.Float.{Float, IsOrdered, nought, unity, ◌⊕◌, ◌⊖◌, ◌⊗◌, ◌⊘◌}
use fed_campaign_emhi.Domain.Enums.{ExperimentState, ready, invalid, dataset_name_eq}
use fed_campaign_emhi.Domain.Types.{RetainedEvent, DeduplicationOutcome}

-- The loop variables of `retain_first_chronological`; an event in `anonymous` stands for its identity.
pub record Seen (F : Type 0) : Type 0 where
  pub retained : List (RetainedEvent F)
  pub identified : List (Str × RetainedEvent F)
  pub anonymous : List (RetainedEvent F)
  pub duplicate_count : ℕ

module _ {F : Type 0} where
  unfoldable pub identifier_conflicts : RetainedEvent F → RetainedEvent F → Bool
  identifier_conflicts existing incoming =
      not (str_eq existing.payload incoming.payload)
      || not (str_eq existing.client_id incoming.client_id)
      || not (str_eq existing.event_type incoming.event_type)

  abbrev pub nothing_seen : Seen F
  nothing_seen = record { retained = []; identified = []; anonymous = []; duplicate_count = 0 }

  abbrev pub count_duplicate : Seen F → Seen F
  count_duplicate seen = record {
    retained = seen.retained;
    identified = seen.identified;
    anonymous = seen.anonymous;
    duplicate_count = suc seen.duplicate_count;
  }

  abbrev pub keep_identified : Seen F → Str → RetainedEvent F → Seen F
  keep_identified seen identifier event = record {
    retained = seen.retained ++ event ∷ [];
    identified = seen.identified ++ (identifier, event) ∷ [];
    anonymous = seen.anonymous;
    duplicate_count = seen.duplicate_count;
  }

  abbrev pub keep_anonymous : Seen F → RetainedEvent F → Seen F
  keep_anonymous seen event = record {
    retained = seen.retained ++ event ∷ [];
    identified = seen.identified;
    anonymous = event ∷ seen.anonymous;
    duplicate_count = seen.duplicate_count;
  }

module _ {F : Type 0} ⦃f : Float F⦄ where
  -- The key of `sorted`: `(timestamp_seconds, original_order)`.
  unfoldable pub chronological_le : RetainedEvent F → RetainedEvent F → Bool
  chronological_le a b =
      if f.eq a.timestamp_seconds b.timestamp_seconds
      then leb a.original_order b.original_order
      else f.lt a.timestamp_seconds b.timestamp_seconds

  -- Two events have the same identity tuple.
  abbrev pub same_identity : RetainedEvent F → RetainedEvent F → Bool
  same_identity a b =
      dataset_name_eq.beq a.dataset_name b.dataset_name
      && str_eq a.client_id b.client_id
      && f.eq a.timestamp_seconds b.timestamp_seconds
      && str_eq a.event_type b.event_type
      && str_eq a.payload b.payload

  -- The body of the loop; `none` for `return` with the state `INVALID`.
  see_identified : Seen F → RetainedEvent F → Str → Option (Seen F)
  see_identified seen event identifier = elim (dict_get seen.identified identifier) [
    | some existing ↦
        if identifier_conflicts existing event then none else some (count_duplicate seen)
    | none ↦ some (keep_identified seen identifier event)
  ]

  see_anonymous : Seen F → RetainedEvent F → Option (Seen F)
  see_anonymous seen event =
      if any (same_identity event) seen.anonymous
      then some (count_duplicate seen)
      else some (keep_anonymous seen event)

  see_by : Seen F → RetainedEvent F → Option Str → Option (Seen F)
  unfolding see_identified see_anonymous
  see_by seen event none = see_anonymous seen event
  see_by seen event (some identifier) = see_identified seen event identifier

  pub see_event : Seen F → RetainedEvent F → Option (Seen F)
  unfolding see_by
  see_event seen event = see_by seen event event.unique_identifier

  retain_loop : Seen F → List (RetainedEvent F) → DeduplicationOutcome F
  retain_loop seen [] = record {
    retained_events = seen.retained;
    duplicate_count = seen.duplicate_count;
    experiment_state = ready;
  }
  retain_loop seen (event ∷ events) = elim (see_event seen event) [
    | none ↦ record {
      retained_events = [];
      duplicate_count = seen.duplicate_count;
      experiment_state = invalid;
    }
    | some next ↦ retain_loop next events
  ]

  unfoldable pub retain_first_chronological : List (RetainedEvent F) → DeduplicationOutcome F
  unfolding retain_loop see_event
  retain_first_chronological events = retain_loop nothing_seen (sorted chronological_le events)
