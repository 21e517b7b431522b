-- ===== src/Prelude/Dict.antt =====
-- Python's dictionaries built from pairs, in the order of insertion: the last value of a key counts.
use mathlib.Core.Option.{Option, none, some}
use mathlib.Core.List.{List, [], ◌∷◌, ◌++◌, map}
use fed_campaign_emhi.Prelude.Tests.{if◌then◌else◌}
use fed_campaign_emhi.Prelude.Sets.{Eq}
use mathlib.Core.Path.{◌≡◌, refl, sym, ◌∙◌}
use mathlib.Core.Logic.{◌⊎◌, inl, inr}
use mathlib.Core.Bool.{false≢true}
use fed_campaign_emhi.Prelude.Tests.{Bool-cases}
use fed_campaign_emhi.Prelude.Membership.{In}

module _ {K V : Type 0} ⦃e : Eq K⦄ where
  -- `d.get(key)`.
  unfoldable pub dict_get : List (K × V) → K → Option V
  dict_get [] key = none
  dict_get ((k, v) ∷ rest) key =
      let later = dict_get rest key in
      elim later [ some w ↦ some w | none ↦ if e.beq k key then some v else none ]

  abbrev pub keys : List (K × V) → List K
  keys d = map (λ (entry : K × V). entry.0) d

  -- A key is either absent or has a value.
  pub dict_get-cases :
      (d : List (K × V)) (key : K)
      → ((dict_get d key ≡ none) × ¬ In key (keys d))
        ⊎ ((v : V) × (dict_get d key ≡ some v) × In key (keys d))
  unfolding dict_get
  dict_get-cases [] key = inl (refl, λ i. i)
  dict_get-cases ((k, w) ∷ rest) key = elim (dict_get-cases rest key) [
    | inr (v, q, i) ↦ inr (v, rw q refl, inr i)
    | inl (q, n) ↦ elim (Bool-cases (e.beq k key)) [
      | inl same ↦ inr (w, rw (q, same) refl, inl (sym ((e.beq_iff k key).0 same)))
      | inr other ↦ inl (
        rw (q, other) refl,
        λ i. elim i [ inl p ↦ false≢true (sym other ∙ (e.beq_iff k key).1 (sym p)) | inr j ↦ n j ],
      )
    ]
  ]

  -- A pair that is added at the end counts for its key, and changes no other.
  pub dict_get-snoc :
      (d : List (K × V)) (key : K) (value : V) (other : K)
      → dict_get (d ++ (key, value) ∷ []) other
        ≡ (if e.beq key other then some value else dict_get d other)
  unfolding dict_get
  dict_get-snoc [] key value other = refl
  dict_get-snoc ((k, w) ∷ rest) key value other =
      let later = dict_get-snoc rest key value other in
      elim (Bool-cases (e.beq key other)) [
        | inl q ↦ rw (later, q) refl
        | inr q ↦ rw (later, q) refl
      ]
