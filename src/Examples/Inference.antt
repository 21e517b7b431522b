-- ===== src/Examples/Inference.antt =====
-- The examples of sign patterns, adjusted p-values and the strongest comparator.
use fed_campaign_emhi.Prelude.{
  ℕ, ◌^◌, ◌≤◌, ◌<◌, ◌≡◌, ◌≢◌, ◌⊎◌, refl, sym, subst, inl, inr, arith, true, List, [], ◌∷◌, length,
  zip, get_elem?, some, leb, ltb, ok, err, value_error,
}
use fed_campaign_emhi.Prelude.Str.{Str, str_le, str_le-IsOrder, str_le_antisymm}
use fed_campaign_emhi.Prelude.Float.{milli, milli-IsOrdered}
use fed_campaign_emhi.Inference.{SignFlipDirection, exact_sign_pattern}
use fed_campaign_emhi.Inference.Patterns.{exact_sign_pattern-family}
use fed_campaign_emhi.Inference.Holm.{holm_adjusted_p_values}
use fed_campaign_emhi.Inference.Holm.Adjusted.{holm_adjusted_p_values_mono}
use fed_campaign_emhi.Comparators.{select_strongest_comparator}
use fed_campaign_emhi.Comparators.Strongest.{
  Triple, Beats, IsPreference, IsUnbeaten, select_strongest_comparator-IsUnbeaten,
}
use fed_campaign_emhi.Examples.Data.{ann, bob, cy}

exact_sign_pattern-family_example :
    ((pattern : List SignFlipDirection)
      → length pattern ≡ 3
      → (index : ℕ) × (index < 2 ^ 3)
        × (exact_sign_pattern index 3 ≡ ok pattern)
        × ((other : ℕ) → exact_sign_pattern other 3 ≡ ok pattern → other ≡ index))
    × ((index : ℕ)
        → index < 2 ^ 3
        → (pattern : List SignFlipDirection) × (exact_sign_pattern index 3 ≡ ok pattern)
          × (length pattern ≡ 3))
    × ((index : ℕ) → 2 ^ 3 ≤ index → exact_sign_pattern index 3 ≡ err value_error)
exact_sign_pattern-family_example = exact_sign_pattern-family 3

abbrev names : List Str
names = cy ∷ ann ∷ bob ∷ []

abbrev p_values : List ℕ
p_values = 40 ∷ 10 ∷ 900 ∷ []

holm_adjusted_p_values_mono_example :
    (adjusted : List ℕ) × (holm_adjusted_p_values {F = ℕ} names p_values ≡ ok adjusted)
    × (length adjusted ≡ length p_values)
    × ((i : ℕ) (p : ℕ)
        → get_elem? p_values i ≡ some p
        → (a : ℕ) × (get_elem? adjusted i ≡ some a) × (leb 0 a ≡ true) × (leb a 1000 ≡ true))
    × ((i j : ℕ) (p q : ℕ)
        → get_elem? p_values i ≡ some p
        → get_elem? p_values j ≡ some q
        → ltb p q ≡ true
        → (a b : ℕ) × (get_elem? adjusted i ≡ some a)
          × (get_elem? adjusted j ≡ some b)
          × (leb a b ≡ true))
holm_adjusted_p_values_mono_example =
    holm_adjusted_p_values_mono milli-IsOrdered names p_values refl refl

abbrev errors : List ℕ
errors = 300 ∷ 200 ∷ 200 ∷ []

abbrev runtimes : List ℕ
runtimes = 10 ∷ 90 ∷ 10 ∷ []

-- Without tolerances the preference is an order by name among those that are no worse.
no_ties-IsPreference : (triples : List (Triple ℕ)) → IsPreference 0 0 triples
no_ties-IsPreference triples = record {
  irreflexive = λ a i b. irreflexive a b;
  transitive = λ a b c i j k. transitive a b c;
}
  where
    irreflexive : (a : Triple ℕ) → ¬ Beats 0 0 a a
    irreflexive (c, (e, r)) (inl q) = ground arith
    irreflexive (c, (e, r)) (inr (tie, inl q)) = ground arith
    irreflexive (c, (e, r)) (inr (tie, inr (tie', before, other))) = other refl

    transitive : (a b c : Triple ℕ) → Beats 0 0 a b → Beats 0 0 b c → Beats 0 0 a c
    transitive (x, (e, r)) (y, (e', r')) (z, (e'', r'')) (inl q) k = absurd (ground arith)
    transitive (x, (e, r)) (y, (e', r')) (z, (e'', r'')) (inr (t, inl q)) k = absurd (ground arith)
    transitive (x, (e, r)) (y, (e', r')) (z, (e'', r'')) (inr h) (inl q) = absurd (ground arith)
    transitive (x, (e, r)) (y, (e', r')) (z, (e'', r'')) (inr h) (inr (t, inl q)) =
        absurd (ground arith)
    transitive (x, (e, r)) (y, (e', r')) (z, (e'', r'')) (inr (t, inr (u, le, ne)))
          (inr (t', inr (u', le', ne'))) =
        inr (
          ground arith,
          inr (
            ground arith,
            str_le-IsOrder.trans x y z le le',
            λ w. ne (str_le_antisymm x y le (subst (λ v. str_le y v ≡ true) (sym w) le')),
          ),
        )

select_strongest_comparator-IsUnbeaten_example :
    ((length names ≢ 0)
      × (length names ≡ length errors)
      × (length names ≡ length runtimes)
      × ((best : Triple ℕ) × (select_strongest_comparator names errors runtimes 0 0 ≡ ok best.0)
          × IsUnbeaten 0 0 (zip names (zip errors runtimes)) best))
    ⊎ (((length names ≡ 0) ⊎ (length names ≢ length errors) ⊎ (length names ≢ length runtimes))
        × (select_strongest_comparator names errors runtimes 0 0 ≡ err value_error))
select_strongest_comparator-IsUnbeaten_example =
    select_strongest_comparator-IsUnbeaten 0 0 milli-IsOrdered names errors runtimes
      (no_ties-IsPreference (zip names (zip errors runtimes)))
