-- ===== src/Inference/Holm.antt =====
-- src/fedcampaign_emhi/analysis/statistics.py: the step-down correction of Holm, and a family of
-- hypotheses that is declared in advance.
pub mod Items
pub mod Steps
pub mod Adjusted
use fed_campaign_emhi.Prelude.{
  ℕ, zero, suc, ◌-◌, Bool, not, ◌||◌, ◌&&◌, Option, none, some, List, [], ◌∷◌, map, ◌==◌,
  if◌then◌else◌, length, replicate, set, zip, all, traverse, Result, ok, err, value_error,
  key_error, index_error, raise_if, ◌>>=◌, ◌>>◌, is_some, get_elem?,
}
use fed_campaign_emhi.Prelude.Str.{Str, str_le}
use fed_campaign_emhi.Prelude.Sets.{str_eq_instance, contains, set_of}
use fed_campaign_emhi.Prelude.Dict.{dict_get, keys}
use fed_campaign_emhi.Prelude.Order.{sorted}
use fed_campaign_emhi.Prelude.Float.{Float, nought, unity, larger, ◌⊗◌}

-- A triple of `zip(identifiers, raw_p_values, range(family_size))`.
pub record HolmItem (F : Type 0) : Type 0 where
  pub identifier : Str
  pub raw_p_value : F
  pub original_index : ℕ

pub record HolmHypothesisInput (F : Type 0) : Type 0 where
  pub identifier : Str
  pub raw_p_value : Option F
  pub meets_threshold : Bool

pub record HolmHypothesisResult (F : Type 0) : Type 0 where
  pub identifier : Str
  pub raw_p_value : Option F
  pub holm_input_p_value : F
  pub adjusted_p_value : Option F
  pub meets_threshold : Bool

module _ {F : Type 0} where
  abbrev pub items_from : ℕ → List Str → List F → List (HolmItem F)
  items_from start [] raw_p_values = []
  items_from start (identifier ∷ identifiers) [] = []
  items_from start (identifier ∷ identifiers) (raw_p_value ∷ raw_p_values) =
      (record { identifier = identifier; raw_p_value = raw_p_value; original_index = start })
      ∷ items_from (suc start) identifiers raw_p_values

module _ {F : Type 0} ⦃f : Float F⦄ where
  -- The key `(raw_p_value, identifier)`.
  unfoldable pub holm_le : HolmItem F → HolmItem F → Bool
  holm_le a b =
      if f.eq a.raw_p_value b.raw_p_value
      then str_le a.identifier b.identifier
      else f.lt a.raw_p_value b.raw_p_value

  -- `min(1.0, (family_size - rank) * ordered_values[rank])`.
  abbrev pub candidate_at : ℕ → ℕ → F → F
  candidate_at family_size rank raw_p_value =
      let scaled = f.of_ℕ (family_size - rank) ⊗ raw_p_value in
      if f.lt scaled unity then scaled else unity

  -- The loop over the items that are left, from `rank`, `running` and the values found so far.
  unfoldable pub adjust_loop : ℕ → ℕ → F → List (HolmItem F) → List F → List F
  adjust_loop family_size rank running [] adjusted = adjusted
  adjust_loop family_size rank running (item ∷ ordered) adjusted =
      let next = larger running (candidate_at family_size rank item.raw_p_value) in
      adjust_loop family_size (suc rank) next ordered (set adjusted item.original_index next)

  unfoldable pub holm_adjusted_p_values : List Str → List F → Result (List F)
  unfolding adjust_loop
  holm_adjusted_p_values identifiers raw_p_values = do
    raise_if (not (length identifiers == length raw_p_values)) value_error
    let family_size = length identifiers
    ok (
        adjust_loop family_size 0 nought (sorted holm_le (items_from 0 identifiers raw_p_values))
          (replicate family_size nought))

  abbrev pub holm_nonrejecting_input_p_value : F
  holm_nonrejecting_input_p_value = unity

  -- `{input.identifier: input for input in inputs}`.
  abbrev pub by_identifier : List (HolmHypothesisInput F) → List (Str × HolmHypothesisInput F)
  by_identifier inputs = map (λ (input : HolmHypothesisInput F). (input.identifier, input)) inputs

  -- The set of the keys is that of the declared identifiers, and no key occurs twice.
  abbrev pub declares : List Str → List (HolmHypothesisInput F) → Bool
  declares identifiers inputs =
      let names = keys (by_identifier inputs) in
      (length (set_of names) == length inputs)
      && all (contains identifiers) names
      && all (contains names) identifiers

  -- `by_identifier[identifier]`.
  abbrev pub input_of : List (HolmHypothesisInput F) → Str → Result (HolmHypothesisInput F)
  input_of inputs identifier = elim (dict_get (by_identifier inputs) identifier) [
    | none ↦ err key_error
    | some input ↦ ok input
  ]

  abbrev pub input_value : Option F → F
  input_value none = holm_nonrejecting_input_p_value
  input_value (some raw_p_value) = raw_p_value

  abbrev pub holm_input_of : List (HolmHypothesisInput F) → Str → Result F
  holm_input_of inputs identifier = do
    input ← input_of inputs identifier
    ok (input_value input.raw_p_value)

  -- `None if raw_p_value is None else adjusted[index]`.
  abbrev pub adjusted_of : Option F → F → Option F
  adjusted_of none adjusted = none
  adjusted_of (some raw_p_value) adjusted = some adjusted

  -- The comprehension over the identifiers that are left, with the values at their indexes.
  results_from :
      List (HolmHypothesisInput F)
      → List Str
      → List F
      → List F
      → Result (List (HolmHypothesisResult F))
  results_from inputs [] holm_inputs adjusted = ok []
  results_from inputs (identifier ∷ identifiers) [] adjusted = err index_error
  results_from inputs (identifier ∷ identifiers) (value ∷ holm_inputs) [] = err index_error
  results_from inputs (identifier ∷ identifiers) (value ∷ holm_inputs) (least ∷ adjusted) = do
    input ← input_of inputs identifier
    rest ← results_from inputs identifiers holm_inputs adjusted
    ok (
        (record {
          identifier = identifier;
          raw_p_value = input.raw_p_value;
          holm_input_p_value = value;
          adjusted_p_value = adjusted_of input.raw_p_value least;
          meets_threshold = input.meets_threshold;
        })
        ∷ rest)

  unfoldable pub fixed_holm_family :
      List Str → List (HolmHypothesisInput F) → Result (List (HolmHypothesisResult F))
  unfolding results_from
  fixed_holm_family identifiers inputs = do
    raise_if (not (declares identifiers inputs)) value_error
    holm_inputs ← traverse (holm_input_of inputs) identifiers
    adjusted ← holm_adjusted_p_values identifiers holm_inputs
    results_from inputs identifiers holm_inputs adjusted
