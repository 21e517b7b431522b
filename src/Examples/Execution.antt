-- ===== src/Examples/Execution.antt =====
-- The examples of a retried operation and of counted cells.
use fed_campaign_emhi.Prelude.{
  ℕ, zero, suc, ◌+◌, ◌≡◌, refl, inl, inr, some, [], ◌∷◌, Result, ok, err, os_error, value_error,
  if◌then◌else◌,
}
use fed_campaign_emhi.Prelude.Str.{Str, str_eq}
use fed_campaign_emhi.Domain.Enums.{completed, failed}
use fed_campaign_emhi.Execution.{
  ScientificCellRecord, CellCounts, with_technical_retry, cell_state_counts,
}
use fed_campaign_emhi.Execution.Retries.{Decides, world_after, with_technical_retry-Decides}
use fed_campaign_emhi.Execution.Counts.{
  is_current_in, is_stale, count_reads, cell_state_counts-Counted,
}
use fed_campaign_emhi.Examples.Data.{ann, bob, cy}

-- A disk that is full until as many attempts were made as the world says.
abbrev write_when_free : ℕ → Result ℕ × ℕ
write_when_free zero = (ok 7, 0)
write_when_free (suc n) = (err os_error, n)

with_technical_retry-Decides_example :
    (n : ℕ) × Decides write_when_free 3 n 2
    × (with_technical_retry write_when_free 3 2 ≡ write_when_free (world_after write_when_free n 2))
with_technical_retry-Decides_example = with_technical_retry-Decides write_when_free 3 2

-- The cell at the first path is complete; the records at other paths are malformed.
abbrev read_first : Str → Result ScientificCellRecord
read_first cell_path =
    if str_eq cell_path ann
    then ok (record { state = completed; semantic_dependency_digest = some cy })
    else err value_error

cell_state_counts-Counted_example :
    (d : CellCounts) × (cell_state_counts read_first cy (ann ∷ bob ∷ []) ≡ ok d)
    × (d.completed_count ≡ count_reads read_first cy (is_current_in completed cy) (ann ∷ bob ∷ []))
    × (d.failed_count ≡ count_reads read_first cy (is_current_in failed cy) (ann ∷ bob ∷ []))
    × (d.stale_count ≡ count_reads read_first cy (is_stale cy) (ann ∷ bob ∷ []))
    × (d.completed_count + d.failed_count + d.invalid_count + d.stale_count ≡ 2)
unfolding str_eq
cell_state_counts-Counted_example =
    cell_state_counts-Counted read_first cy (ann ∷ bob ∷ []) (inl (_, refl), (inr refl, tt))
