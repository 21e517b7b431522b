-- ===== src/Execution/Counts.antt =====
-- The counts of the states of cells.
use fed_campaign_emhi.Prelude.{
  ℕ, suc, ◌+◌, ◌≡◌, refl, sym, ◌∙◌, ◌⊎◌, inl, inr, Bool, false, List, [], ◌∷◌, arith, length,
  count_if, Result, ok, err, Error, subst, value_error, if◌then◌else◌, Bool-cases, not,
}
use fed_campaign_emhi.Prelude.Str.{Str}
use fed_campaign_emhi.Prelude.Membership.{All}
use fed_campaign_emhi.Domain.Enums.{
  ExperimentState, not_started, blocked, ready, running, completed, failed, invalid,
  experiment_state_eq,
}
use fed_campaign_emhi.Execution.{
  ScientificCellRecord, CellCounts, has_digest, count_cell, add_by_state, add_invalid, count_loop,
  cell_state_counts,
}

-- A cell of the current digest is in a state.
abbrev pub is_current_in : ExperimentState → Str → Result ScientificCellRecord → Bool
is_current_in state digest (err error) = false
is_current_in state digest (ok cell) =
    if has_digest digest cell then experiment_state_eq.beq cell.state state else false

-- A cell of another digest.
abbrev pub is_stale : Str → Result ScientificCellRecord → Bool
is_stale digest (err error) = false
is_stale digest (ok cell) = not (has_digest digest cell)

abbrev one_if : Bool → ℕ
one_if b = if b then 1 else 0

abbrev all_counts : CellCounts → ℕ
all_counts c = c.completed_count + c.failed_count + c.invalid_count + c.stale_count

-- What one cell adds to the counts.
record Adds (digest : Str) (r : Result ScientificCellRecord) (c d : CellCounts) : Type 0 where
  completed_adds : d.completed_count ≡ c.completed_count + one_if (is_current_in completed digest r)
  failed_adds : d.failed_count ≡ c.failed_count + one_if (is_current_in failed digest r)
  stale_adds : d.stale_count ≡ c.stale_count + one_if (is_stale digest r)
  one_more : all_counts d ≡ suc (all_counts c)

add_by_state-counts :
    (state : ExperimentState) (c : CellCounts)
    → ((add_by_state state c).completed_count
        ≡ c.completed_count + one_if (experiment_state_eq.beq state completed))
      × ((add_by_state state c).failed_count
          ≡ c.failed_count + one_if (experiment_state_eq.beq state failed))
      × ((add_by_state state c).stale_count ≡ c.stale_count)
      × (all_counts (add_by_state state c) ≡ suc (all_counts c))
add_by_state-counts completed c = (omega arith, omega arith, refl, omega arith)
add_by_state-counts failed c = (omega arith, omega arith, refl, omega arith)
add_by_state-counts not_started c = (omega arith, omega arith, refl, omega arith)
add_by_state-counts blocked c = (omega arith, omega arith, refl, omega arith)
add_by_state-counts ready c = (omega arith, omega arith, refl, omega arith)
add_by_state-counts running c = (omega arith, omega arith, refl, omega arith)
add_by_state-counts invalid c = (omega arith, omega arith, refl, omega arith)

cell-Adds :
    (digest : Str) (cell : ScientificCellRecord) (c : CellCounts)
    → Adds digest (ok cell) c (count_cell digest cell c)
cell-Adds digest cell c = elim (Bool-cases (has_digest digest cell)) [
  | inl q ↦
      let (done, lost, same, more) = add_by_state-counts cell.state c in
      record {
        completed_adds = rw q done;
        failed_adds = rw q lost;
        stale_adds = rw q (same ∙ omega arith);
        one_more = rw q more;
      }
  | inr q ↦ record {
    completed_adds = rw q (omega arith);
    failed_adds = rw q (omega arith);
    stale_adds = rw q (omega arith);
    one_more = rw q (omega arith);
  }
]

unreadable-Adds :
    (digest : Str) (error : Error) (c : CellCounts) → Adds digest (err error) c (add_invalid c)
unreadable-Adds digest error c = record {
  completed_adds = omega arith;
  failed_adds = omega arith;
  stale_adds = omega arith;
  one_more = omega arith;
}

module _ (read_cell : Str → Result ScientificCellRecord) (digest : Str) where
  abbrev pub count_reads : (Result ScientificCellRecord → Bool) → List Str → ℕ
  count_reads p cell_paths = count_if (λ cell_path. p (read_cell cell_path)) cell_paths

  -- The record at a path can be read, or it is malformed.
  abbrev pub IsReadable : Str → Type 0
  IsReadable cell_path =
      ((cell : ScientificCellRecord) × (read_cell cell_path ≡ ok cell))
      ⊎ (read_cell cell_path ≡ err value_error)

  -- What the counts are after the paths.
  abbrev Counted : CellCounts → List Str → Type 0
  Counted c cell_paths =
      (d : CellCounts) × (count_loop read_cell digest c cell_paths ≡ ok d)
      × (d.completed_count
          ≡ c.completed_count + count_reads (is_current_in completed digest) cell_paths)
      × (d.failed_count ≡ c.failed_count + count_reads (is_current_in failed digest) cell_paths)
      × (d.stale_count ≡ c.stale_count + count_reads (is_stale digest) cell_paths)
      × (all_counts d ≡ all_counts c + length cell_paths)

  add-Counted :
      (c next : CellCounts) (cell_path : Str) (cell_paths : List Str)
      → Adds digest (read_cell cell_path) c next
      → count_loop read_cell digest c (cell_path ∷ cell_paths)
        ≡ count_loop read_cell digest next cell_paths
      → Counted next cell_paths
      → Counted c (cell_path ∷ cell_paths)
  add-Counted c next cell_path cell_paths adds e (d, run, done, lost, old, whole) =
      let a = adds.completed_adds in
      let b = adds.failed_adds in
      let s = adds.stale_adds in
      let m = adds.one_more in (d, e ∙ run, omega arith, omega arith, omega arith, omega arith)

  count_loop-Counted :
      (c : CellCounts) (cell_paths : List Str) → All IsReadable cell_paths → Counted c cell_paths
  unfolding count_loop
  count_loop-Counted c [] h = (c, refl, omega arith, omega arith, omega arith, omega arith)
  count_loop-Counted c (cell_path ∷ cell_paths) (inl (cell, e), h) =
      add-Counted c (count_cell digest cell c) cell_path cell_paths
        (subst (λ r. Adds digest r c (count_cell digest cell c)) (sym e) (cell-Adds digest cell c))
        (rw (e, count_loop) refl) (count_loop-Counted (count_cell digest cell c) cell_paths h)
  count_loop-Counted c (cell_path ∷ cell_paths) (inr e, h) =
      add-Counted c (add_invalid c) cell_path cell_paths
        (subst (λ r. Adds digest r c (add_invalid c)) (sym e)
          (unreadable-Adds digest value_error c))
        (rw (e, count_loop) refl) (count_loop-Counted (add_invalid c) cell_paths h)

  -- If every record can be read or is malformed, the counts exist: the completed and the failed cells
  -- are those of the current digest in that state, the stale ones those of another digest, and every
  -- path is counted exactly once.
  pub cell_state_counts-Counted :
      (cell_paths : List Str)
      → All IsReadable cell_paths
      → (d : CellCounts) × (cell_state_counts read_cell digest cell_paths ≡ ok d)
        × (d.completed_count ≡ count_reads (is_current_in completed digest) cell_paths)
        × (d.failed_count ≡ count_reads (is_current_in failed digest) cell_paths)
        × (d.stale_count ≡ count_reads (is_stale digest) cell_paths)
        × (d.completed_count + d.failed_count + d.invalid_count + d.stale_count ≡ length cell_paths)
  unfolding cell_state_counts
  cell_state_counts-Counted cell_paths h =
      let (d, run, done, lost, old, whole) = count_loop-Counted _ cell_paths h in
      (d, run, done ∙ omega arith, lost ∙ omega arith, old ∙ omega arith, whole ∙ omega arith)
