-- ===== src/Evidence/Cumulative.antt =====
-- The running sums of the atoms of a coalition.
use fed_campaign_emhi.Prelude.{
  ℕ, zero, suc, ◌≡◌, refl, false, List, [], ◌∷◌, map, length, ok, err, Result, value_error, ◌>>=◌,
  ap, sym, ◌∙◌, ◌==◌, ◌≢◌, subst, arith, ◌<◌, ◌+◌, ==_iff, length-map,
}
use fed_campaign_emhi.Prelude.Membership.{All}
use fed_campaign_emhi.Prelude.Float.{Float, nought, ◌⊕◌}
use fed_campaign_emhi.Evidence.{
  CumulativeAtomState, initial_cumulative_atom_state, advance_cumulative_atom_state, sums, base_of,
}

module _ {F : Type 0} ⦃f : Float F⦄ where
  -- The states over the atoms of the epochs, one after the other.
  abbrev pub advance_all : CumulativeAtomState F → List (List F) → Result (CumulativeAtomState F)
  advance_all state [] = ok state
  advance_all state (atom ∷ atoms) = do
    updated ← advance_cumulative_atom_state state atom
    advance_all updated atoms

  -- The entry of a coordinate, or 0.0.
  abbrev pub coordinate_of : ℕ → List F → F
  coordinate_of i [] = nought
  coordinate_of zero (value ∷ atom) = value
  coordinate_of (suc i) (value ∷ atom) = coordinate_of i atom

  -- The sum of one coordinate over the atoms, in their order.
  abbrev pub total_of : ℕ → F → List (List F) → F
  total_of i total [] = total
  total_of i total (atom ∷ atoms) = total_of i (total ⊕ coordinate_of i atom) atoms

  length-sums :
      (base atom : List F) → length base ≡ length atom → length (sums base atom) ≡ length atom
  length-sums [] [] e = refl
  length-sums [] (x ∷ atom) e = absurd (omega arith)
  length-sums (b ∷ base) [] e = absurd (omega arith)
  length-sums (b ∷ base) (x ∷ atom) e = ap suc (length-sums base atom (omega arith))

  coordinate_of-sums :
      (i : ℕ) (base atom : List F)
      → length base ≡ length atom
      → i < length atom
      → coordinate_of i (sums base atom) ≡ coordinate_of i base ⊕ coordinate_of i atom
  coordinate_of-sums i [] [] e h = absurd (omega arith)
  coordinate_of-sums i [] (x ∷ atom) e h = absurd (omega arith)
  coordinate_of-sums i (b ∷ base) [] e h = absurd (omega arith)
  coordinate_of-sums zero (b ∷ base) (x ∷ atom) e h = refl
  coordinate_of-sums (suc i) (b ∷ base) (x ∷ atom) e h =
      coordinate_of-sums i base atom (omega arith) (omega arith)

  -- What `advance_all` leads to from a state whose sum has the dimension of the atoms.
  abbrev Advanced : ℕ → CumulativeAtomState F → List F → List (List F) → Type 0
  Advanced dimension state base atoms =
      (final : CumulativeAtomState F) × (advance_all state atoms ≡ ok final)
      × (final.epoch_count ≡ state.epoch_count + length atoms)
      × (length final.running_sum ≡ dimension)
      × ((i : ℕ)
          → i < dimension
          → coordinate_of i final.running_sum ≡ total_of i (coordinate_of i base) atoms)

  advance_cumulative_atom_state-ok :
      (state : CumulativeAtomState F) (atom : List F)
      → length (base_of state atom) ≡ length atom
      → advance_cumulative_atom_state state atom
        ≡ ok (record {
          running_sum = sums (base_of state atom) atom;
          epoch_count = suc state.epoch_count;
        })
  unfolding advance_cumulative_atom_state
  advance_cumulative_atom_state-ok state atom e =
      let same = (==_iff (length (base_of state atom)) (length atom)).1 e in rw same refl

  step :
      (dimension : ℕ) (state : CumulativeAtomState F) (atom : List F) (atoms : List (List F))
      → length (base_of state atom) ≡ length atom
      → length atom ≡ dimension
      → Advanced dimension
          (record {
            running_sum = sums (base_of state atom) atom;
            epoch_count = suc state.epoch_count;
          })
          (sums (base_of state atom) atom)
          atoms
      → Advanced dimension state (base_of state atom) (atom ∷ atoms)
  step dimension state atom atoms e size (final, run, epochs, wide, values) = (
    final,
    rw (advance_cumulative_atom_state-ok state atom e) run,
    omega arith,
    wide,
    λ i h.
        values i h
        ∙ ap (λ start. total_of i start atoms)
            (coordinate_of-sums i (base_of state atom) atom e (omega arith)),
  )

  base_of-suc :
      (state : CumulativeAtomState F) (atom : List F)
      → state.epoch_count ≢ 0
      → base_of state atom ≡ state.running_sum
  base_of-suc state atom h = ground arith

  started-Advanced :
      (dimension : ℕ) (state : CumulativeAtomState F) (atoms : List (List F))
      → state.epoch_count ≢ 0
      → length state.running_sum ≡ dimension
      → All (λ atom. length atom ≡ dimension) atoms
      → Advanced dimension state state.running_sum atoms
  started-Advanced dimension state [] h size sizes = (state, refl, omega arith, size, λ i k. refl)
  started-Advanced dimension state (atom ∷ atoms) h size (here, sizes) =
      let e = base_of-suc state atom h in
      subst (λ base. Advanced dimension state base (atom ∷ atoms)) e
        (step dimension state atom atoms (ap length e ∙ size ∙ sym here) here (
          started-Advanced dimension
            (record {
              running_sum = sums (base_of state atom) atom;
              epoch_count = suc state.epoch_count;
            })
            atoms (λ z. omega arith)
            (length-sums (base_of state atom) atom (ap length e ∙ size ∙ sym here) ∙ here) sizes))

  coordinate_of-noughts :
      (i : ℕ) (atom : List F) → coordinate_of i (map (λ value. nought) atom) ≡ nought
  coordinate_of-noughts i [] = refl
  coordinate_of-noughts zero (x ∷ atom) = refl
  coordinate_of-noughts (suc i) (x ∷ atom) = coordinate_of-noughts i atom

  mismatch-raises :
      (state : CumulativeAtomState F) (atom : List F)
      → state.epoch_count ≢ 0
      → length atom ≢ length state.running_sum
      → advance_cumulative_atom_state state atom ≡ err value_error
  unfolding advance_cumulative_atom_state
  mismatch-raises state atom h k =
      let e : length (base_of state atom) ≡ length state.running_sum =
        ap length (base_of-suc state atom h) in
      let differs : (length (base_of state atom) == length atom) ≡ false = ground arith in
      rw differs refl

  -- Over at least one atom, all of one dimension, the states advance without an error: the count is the
  -- number of atoms, each coordinate of the running sum is the sum of that coordinate over the atoms
  -- from 0.0 on, in their order, and then an atom of another dimension raises `ValueError`.
  pub advance_cumulative_atom_state-sums :
      (dimension : ℕ) (atom : List F) (atoms : List (List F))
      → length atom ≡ dimension
      → All (λ other. length other ≡ dimension) atoms
      → (final : CumulativeAtomState F) × (advance_all initial_cumulative_atom_state (atom ∷ atoms)
          ≡ ok final)
        × (final.epoch_count ≡ suc (length atoms))
        × (length final.running_sum ≡ dimension)
        × ((i : ℕ)
            → i < dimension
            → coordinate_of i final.running_sum ≡ total_of i nought (atom ∷ atoms))
        × ((other : List F)
            → length other ≢ dimension
            → advance_cumulative_atom_state final other ≡ err value_error)
  unfolding initial_cumulative_atom_state
  advance_cumulative_atom_state-sums dimension atom atoms here sizes =
      let state = initial_cumulative_atom_state {F = F} in
      let e = length-map (λ (value : F). nought) atom in
      let (final, run, epochs, wide, values) = step dimension state atom atoms e here (
        started-Advanced dimension
          (record { running_sum = sums (base_of state atom) atom; epoch_count = 1 }) atoms
          (λ z. omega arith) (length-sums (base_of state atom) atom e ∙ here) sizes) in
      (
        final,
        run,
        epochs ∙ omega arith,
        wide,
        (λ i h.
            values i h
            ∙ ap (λ start. total_of i start (atom ∷ atoms)) (coordinate_of-noughts i atom)),
        λ other k. mismatch-raises final other (λ z. omega arith) (λ z. k (z ∙ wide)),
      )
