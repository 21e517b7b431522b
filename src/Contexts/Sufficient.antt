-- ===== src/Contexts/Sufficient.antt =====
-- When the available clients outside a coalition are sufficient.
use fed_campaign_emhi.Prelude.{
  ℕ, ◌≡◌, refl, sym, ap, ◌∙◌, inl, inr, true, false, not, List, arith, if◌then◌else◌, Bool-cases,
  length, ◌≤◌, ◌↔◌, any, leb, Bool, true≢false,
}
use fed_campaign_emhi.Prelude.Str.{Str}
use fed_campaign_emhi.Prelude.Int.{ℤ, pos, negsuc, pos_part, ◌≤ℤ◌}
use fed_campaign_emhi.Prelude.Sets.{str_eq_instance, contains, contains_iff}
use fed_campaign_emhi.Prelude.Membership.{In, any_iff}
use fed_campaign_emhi.Prelude.Float.{Float, IsExact, exact_limit, ◌⊗◌}
use fed_campaign_emhi.Contexts.{outside_availability_is_sufficient, required_outside_client_count}

-- `max` of a minimum and a ceiling is at most `n` if, and only if, both are.
max_le_iff :
    (minimum n : ℕ) (ceiling : ℤ)
    → (leb (if leb (pos_part ceiling) minimum then minimum else pos_part ceiling) n ≡ true)
      ↔ ((minimum ≤ n) × (ceiling ≤ℤ pos n))
max_le_iff minimum n (pos m) = (λ h. (ground arith, ground arith), λ h. ground arith)
max_le_iff minimum n (negsuc m) = (λ h. (ground arith, ground arith), λ h. ground arith)

no_stray_iff :
    (available complement : List Str)
    → (any (λ client. not (contains complement client)) available ≡ false)
      ↔ ((client : Str) → In client available → In client complement)
no_stray_iff available complement = (to, from)
  where
    stray : Str → Bool
    stray client = not (contains complement client)

    to : any stray available ≡ false → (client : Str) → In client available → In client complement
    to h client i = elim (Bool-cases (contains complement client)) [
      | inl q ↦ (contains_iff complement client).0 q
      | inr q ↦
          let e : any stray available ≡ true = (any_iff stray available).1 (client, i, ap not q) in
          absurd (ground (arith, e, h))
    ]

    from :
        ((client : Str) → In client available → In client complement) → any stray available ≡ false
    from h = elim (Bool-cases (any stray available)) [
      | inl q ↦
          let (client, i, e) = (any_iff stray available).0 q in
          let c = (contains_iff complement client).1 (h client i) in
          absurd (ground (arith, sym (ap not c) ∙ e))
      | inr q ↦ q
    ]

module _ {F : Type 0} ⦃f : Float F⦄ where
  -- Every available client is in the complement, and the available clients are at least the minimum and
  -- at least the fraction of the complement.
  abbrev pub IsSufficient : List Str → List Str → ℕ → F → Type 0
  IsSufficient available complement minimum fraction =
      ((client : Str) → In client available → In client complement)
      × (minimum ≤ length available)
      × (f.le (fraction ⊗ f.of_ℕ (length complement)) (f.of_ℕ (length available)) ≡ true)

  required-le :
      (x : IsExact F) (available complement : List Str) (minimum : ℕ) (fraction : F)
      → length available ≤ exact_limit
      → (leb (required_outside_client_count (length complement) minimum fraction) (length available)
          ≡ true)
        ↔ ((minimum ≤ length available)
            × (f.le (fraction ⊗ f.of_ℕ (length complement)) (f.of_ℕ (length available)) ≡ true))
  unfolding required_outside_client_count
  required-le x available complement minimum fraction l =
      let required = fraction ⊗ f.of_ℕ (length complement) in
      let bound = max_le_iff minimum (length available) (f.ceil required) in
      let exact = x.ceil_iff required (length available) l in
      (
        λ h. let (least, most) = bound.0 h in (least, exact.0 most),
        λ (least, most). bound.1 (least, exact.1 most),
      )

  pub outside_availability_is_sufficient-IsSufficient :
      (x : IsExact F) (available complement : List Str) (minimum : ℕ) (fraction : F)
      → length available ≤ exact_limit
      → (outside_availability_is_sufficient available complement minimum fraction ≡ true)
        ↔ IsSufficient available complement minimum fraction
  unfolding outside_availability_is_sufficient
  outside_availability_is_sufficient-IsSufficient x available complement minimum fraction l =
      let stray : Str → Bool = λ client. not (contains complement client) in
      let required = required-le x available complement minimum fraction l in
      let known = no_stray_iff available complement in
      elim (Bool-cases (any stray available)) [
        | inl q ↦ (
          λ h. absurd (true≢false (sym h ∙ rw q refl)),
          λ (all_known, least, most). absurd (true≢false (sym q ∙ known.1 all_known)),
        )
        | inr q ↦ (
          λ h. let (least, most) = required.0 (sym (rw q refl) ∙ h) in (known.0 q, least, most),
          λ (all_known, least, most). rw q (required.1 (least, most)),
        )
      ]
