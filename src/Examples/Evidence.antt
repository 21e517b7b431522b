-- ===== src/Examples/Evidence.antt =====
-- The examples of clipped statistics and running sums.
use fed_campaign_emhi.Prelude.{
  ℕ, suc, ◌<◌, ◌≡◌, ◌≢◌, refl, List, [], ◌∷◌, length, ok, err, value_error,
}
use fed_campaign_emhi.Prelude.Float.{milli, nought}
use fed_campaign_emhi.Evidence.{
  CumulativeAtomState, initial_cumulative_atom_state, advance_cumulative_atom_state,
}
use fed_campaign_emhi.Evidence.Cumulative.{
  advance_all, coordinate_of, total_of, advance_cumulative_atom_state-sums,
}

abbrev first_atom : List ℕ
first_atom = 100 ∷ 200 ∷ []

abbrev later_atoms : List (List ℕ)
later_atoms = (300 ∷ 400 ∷ []) ∷ (50 ∷ 60 ∷ []) ∷ []

advance_cumulative_atom_state-sums_example :
    (final : CumulativeAtomState ℕ) × (advance_all
        (initial_cumulative_atom_state {F = ℕ})
        (first_atom ∷ later_atoms)
      ≡ ok final)
    × (final.epoch_count ≡ suc (length later_atoms))
    × (length final.running_sum ≡ 2)
    × ((i : ℕ)
        → i < 2
        → coordinate_of {F = ℕ} i final.running_sum
          ≡ total_of {F = ℕ} i (nought {F = ℕ}) (first_atom ∷ later_atoms))
    × ((other : List ℕ)
        → length other ≢ 2
        → advance_cumulative_atom_state {F = ℕ} final other ≡ err value_error)
advance_cumulative_atom_state-sums_example =
    advance_cumulative_atom_state-sums {F = ℕ} 2 first_atom later_atoms refl (refl, (refl, tt))
