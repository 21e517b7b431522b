-- ===== src/Execution.antt =====
-- src/fedcampaign_emhi/experiments/technical_retry.py and src/fedcampaign_emhi/execution/status.py: the retry
-- of an operation, and the counts of the states of cells. The operation and the reading of a record are
-- parameters, and what they change is a state that is passed on.
pub mod Retries
pub mod Counts
use fed_campaign_emhi.Prelude.{
  ℕ, zero, suc, Option, none, some, List, [], ◌∷◌, not, if◌then◌else◌, Error, Result, ok, err,
  value_error, key_error, index_error, runtime_error, os_error, memory_error, zero_division_error,
  Bool, true, false, ◌>>=◌,
}
use fed_campaign_emhi.Prelude.Str.{Str, str_eq}
use fed_campaign_emhi.Domain.Enums.{
  ExperimentState, not_started, blocked, ready, running, completed, failed, invalid,
}

-- `except (OSError, MemoryError)`.
abbrev pub is_technical : Error → Bool
is_technical value_error = false
is_technical index_error = false
is_technical key_error = false
is_technical runtime_error = false
is_technical os_error = true
is_technical memory_error = true
is_technical zero_division_error = false

module _ {Value World : Type 0} (operation : World → Result Value × World) where
  -- `raise last_error`, or `RuntimeError` if there is none.
  abbrev pub raise_last : Option Error → Result Value
  raise_last none = err runtime_error
  raise_last (some error) = err error

  -- The attempts that are left, with the last error.
  unfoldable pub retry_loop : ℕ → Option Error → World → Result Value × World
  retry_loop zero last_error world = (raise_last last_error, world)
  retry_loop (suc attempts) last_error world =
      let (outcome, next) = operation world in
      elim outcome [
        | ok value ↦ (ok value, next)
        | err error ↦
            if is_technical error then retry_loop attempts (some error) next else (err error, next)
      ]

  unfoldable pub with_technical_retry : ℕ → World → Result Value × World
  unfolding retry_loop
  with_technical_retry retries world = retry_loop (suc retries) none world

-- What `_cell_state_counts` reads of a `ScientificCellRecord`.
pub record ScientificCellRecord : Type 0 where
  pub state : ExperimentState
  pub semantic_dependency_digest : Option Str

pub record CellCounts : Type 0 where
  pub completed_count : ℕ
  pub failed_count : ℕ
  pub invalid_count : ℕ
  pub stale_count : ℕ

abbrev no_cells : CellCounts
no_cells = record { completed_count = 0; failed_count = 0; invalid_count = 0; stale_count = 0 }

abbrev pub add_completed : CellCounts → CellCounts
add_completed c = record {
  completed_count = suc c.completed_count;
  failed_count = c.failed_count;
  invalid_count = c.invalid_count;
  stale_count = c.stale_count;
}

abbrev pub add_failed : CellCounts → CellCounts
add_failed c = record {
  completed_count = c.completed_count;
  failed_count = suc c.failed_count;
  invalid_count = c.invalid_count;
  stale_count = c.stale_count;
}

abbrev pub add_invalid : CellCounts → CellCounts
add_invalid c = record {
  completed_count = c.completed_count;
  failed_count = c.failed_count;
  invalid_count = suc c.invalid_count;
  stale_count = c.stale_count;
}

abbrev pub add_stale : CellCounts → CellCounts
add_stale c = record {
  completed_count = c.completed_count;
  failed_count = c.failed_count;
  invalid_count = c.invalid_count;
  stale_count = suc c.stale_count;
}

abbrev pub add_by_state : ExperimentState → CellCounts → CellCounts
add_by_state completed c = add_completed c
add_by_state failed c = add_failed c
add_by_state not_started c = add_invalid c
add_by_state blocked c = add_invalid c
add_by_state ready c = add_invalid c
add_by_state running c = add_invalid c
add_by_state invalid c = add_invalid c

-- `cell.semantic_dependency_digest == digest`.
abbrev pub has_digest : Str → ScientificCellRecord → Bool
has_digest digest cell = elim cell.semantic_dependency_digest [
  | none ↦ false
  | some recorded ↦ str_eq recorded digest
]

abbrev pub count_cell : Str → ScientificCellRecord → CellCounts → CellCounts
count_cell digest cell c = if has_digest digest cell then add_by_state cell.state c else add_stale c

-- `except (ValidationError, ValueError)`; pydantic's error is a `ValueError`.
abbrev pub is_value_error : Error → Bool
is_value_error value_error = true
is_value_error index_error = false
is_value_error key_error = false
is_value_error runtime_error = false
is_value_error os_error = false
is_value_error memory_error = false
is_value_error zero_division_error = false

-- `read_cell` reads a path and validates it; `digest` is `experiment_semantic_digest(experiment_name)`.
module _ (read_cell : Str → Result ScientificCellRecord) (digest : Str) where
  unfoldable pub count_loop : CellCounts → List Str → Result CellCounts
  count_loop counts [] = ok counts
  count_loop counts (cell_path ∷ cell_paths) = elim (read_cell cell_path) [
    | ok cell ↦ count_loop (count_cell digest cell counts) cell_paths
    | err error ↦
        if is_value_error error then count_loop (add_invalid counts) cell_paths else err error
  ]

  unfoldable pub cell_state_counts : List Str → Result CellCounts
  unfolding count_loop
  cell_state_counts cell_paths = count_loop no_cells cell_paths
