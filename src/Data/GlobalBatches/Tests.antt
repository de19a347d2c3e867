-- ===== src/Data/GlobalBatches/Tests.antt =====
-- global_batch_iterator.py: three trajectories, one of them in two rows, in batches of two.
use axrl.Prelude.{ℕ, false, ◌≡◌, refl, some, List, [], ◌∷◌, ok, get_elem?, arith}
use axrl.Data.TokenTrace.{arange}
use axrl.Data.GlobalBatches.{
  append_at, fill, group_row_indices, select_rows, pad_to_dp_multiple, every, slices,
  build_global_batches,
}
use axrl.Data.GlobalBatches.Rows.{rows_in, group_row_indices-rows}

program : Unit {0}
unfolding append_at fill group_row_indices select_rows pad_to_dp_multiple every slices
    build_global_batches arange
program = tt

abbrev groups : List (List ℕ)
groups = (0 ∷ 1 ∷ 2 ∷ []) ∷ (3 ∷ []) ∷ []

group_runs : group_row_indices (0 ∷ 1 ∷ 1 ∷ 2 ∷ []) 2 ≡ ok groups
unfolding program
group_runs = refl

-- The first of two ranks gets every second row; 99 is the padding.
slices_run :
    build_global_batches {A = ℕ}
      (λ seed n. [])
      99
      2
      0
      5
      false
      (10 ∷ 11 ∷ 12 ∷ 13 ∷ [])
      (some 0 ∷ some 1 ∷ some 1 ∷ some 2 ∷ [])
      2
    ≡ ok ((10 ∷ 12 ∷ []) ∷ (13 ∷ []) ∷ [])
unfolding program
slices_run = refl

group_row_indices-rows_example : get_elem? groups 0 ≡ some (rows_in 2 0 (0 ∷ 1 ∷ 1 ∷ 2 ∷ []) 0)
group_row_indices-rows_example =
    group_row_indices-rows 0 (1 ∷ 1 ∷ 2 ∷ []) 2 0 groups group_runs (omega arith)
