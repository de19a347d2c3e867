-- ===== src/Data/GlobalBatches.antt =====
-- axrl/data/global_batch_iterator.py: the global batches of a training window. A row of the tensor
-- dictionary is an element of a list, and a padding row is a given element. `torch.randperm` is an
-- argument: the permutation of a seed and a length. A trajectory id of -1 is `none`.
pub mod Rows
mod Tests
use axrl.Prelude.{
  ℕ, zero, suc, ◌+◌, ◌-◌, ◌/◌, ◌%◌, max, Bool, true, false, ◌&&◌, Option, none, some, List, [], ◌∷◌,
  ◌++◌, map, Result, ok, err, assert, ◌>>=◌, ◌>>◌, Error, length, replicate, get_elem?, drop, ltb,
  leb, ◌==◌, if◌then◌else◌,
}
use axrl.Data.TokenTrace.{arange}

-- `grouped[index].append(row)`; every index is below the number of batches.
unfoldable pub append_at : List (List ℕ) → ℕ → ℕ → List (List ℕ)
append_at [] index row = []
append_at (g ∷ gs) zero row = (g ++ row ∷ []) ∷ gs
append_at (g ∷ gs) (suc index) row = g ∷ append_at gs index row

-- The loop over the rows of `_group_row_indices_by_global_batch`, from `row` on.
unfoldable pub fill : ℕ → List (List ℕ) → List ℕ → ℕ → List (List ℕ)
unfolding append_at
fill size grouped [] row = grouped
fill size grouped (id ∷ ids) row = fill size (append_at grouped (id / size) row) ids (row + 1)

abbrev pub maximum : List ℕ → ℕ
maximum [] = 0
maximum (x ∷ xs) = max x (maximum xs)

abbrev pub contains : List ℕ → ℕ → Bool
contains [] x = false
contains (y ∷ ys) x = if y == x then true else contains ys x

-- `set(trajectory_ids) == set(range(n))`, for ids below n
abbrev pub covers : List ℕ → ℕ → Bool
covers ids zero = true
covers ids (suc n) = contains ids n && covers ids n

-- `(num_trajectories + global_batch_size - 1) // global_batch_size`
abbrev pub num_global_batches : List ℕ → ℕ → ℕ
num_global_batches ids size = (maximum ids + 1 + size - 1) / size

unfoldable pub group_row_indices : List ℕ → ℕ → Result (List (List ℕ))
unfolding fill
group_row_indices [] size = do assert (ltb 0 size); ok []
group_row_indices (id ∷ ids) size = do
  assert (ltb 0 size)
  assert (covers (id ∷ ids) (maximum (id ∷ ids) + 1))
  ok (fill size (replicate (num_global_batches (id ∷ ids) size) []) (id ∷ ids) 0)

-- The ids that the grouping is given: each row is its own trajectory where all are -1, and a row
-- of -1 beside others fails the assertion of the grouping.
abbrev pub all_missing : List (Option ℕ) → Bool
all_missing [] = true
all_missing (none ∷ ids) = all_missing ids
all_missing (some id ∷ ids) = false

abbrev pub present : List (Option ℕ) → Result (List ℕ)
present [] = ok []
present (none ∷ ids) = err Error.assertion_error
present (some id ∷ ids) = do more ← present ids; ok (id ∷ more)

-- `assert_trajectory_count_divisible`, with the minimum of no ids a RuntimeError
unfoldable pub assert_trajectory_count_divisible : List (Option ℕ) → ℕ → Result ℕ
assert_trajectory_count_divisible [] size = err Error.runtime_error
assert_trajectory_count_divisible (id ∷ ids) zero = do
  more ← present (id ∷ ids)
  err Error.zero_division_error
assert_trajectory_count_divisible (id ∷ ids) (suc size) = do
  more ← present (id ∷ ids)
  assert ((maximum more + 1) % suc size == 0)
  ok (maximum more + 1)

module _ {ℓ} {A : Type ℓ} where
  -- `select_sample_tensor_dict_rows`; an index out of range is an IndexError.
  unfoldable pub select_rows : List A → List ℕ → Result (List A)
  select_rows samples [] = ok []
  select_rows samples (i ∷ indices) = elim (get_elem? samples i) [
    | none ↦ err Error.index_error
    | some s ↦ do more ← select_rows samples indices; ok (s ∷ more)
  ]

  -- `_pad_to_dp_multiple`
  unfoldable pub pad_to_dp_multiple : List A → ℕ → A → Result (List A)
  pad_to_dp_multiple batch dp_size padding = do
    assert (ltb 0 (length batch))
    let remainder = length batch % dp_size
    ok (if remainder == 0 then batch else batch ++ replicate (dp_size - remainder) padding)

  -- `values[start::step]`, on fuel: each round drops at least one value.
  unfoldable pub every : ℕ → List A → ℕ → ℕ → List A
  every zero values start step = []
  every (suc f) values start step = elim (drop start values) [
    | [] ↦ []
    | v ∷ vs ↦ v ∷ every f vs (step - 1) step
  ]

module _ {ℓ} {A : Type ℓ} (randperm : ℕ → ℕ → List ℕ) (padding : A) (dp_size dp_rank seed : ℕ)
    (shuffle : Bool) where
  -- The loop over the groups in `build_global_batches_for_dp_rank`, from group `index` on.
  unfoldable pub slices : List A → List (List ℕ) → ℕ → Result (List (List A))
  unfolding select_rows pad_to_dp_multiple every arange
  slices samples [] index = ok []
  slices samples (rows ∷ groups) index = do
    assert (ltb 0 (length rows))
    chosen ← select_rows samples rows
    batch ← pad_to_dp_multiple chosen dp_size padding
    let perm = if shuffle then randperm (seed + index) (length batch) else arange 0 (length batch)
    slice ← select_rows batch (every (length perm) perm dp_rank dp_size)
    more ← slices samples groups (index + 1)
    ok (slice ∷ more)

  -- `build_global_batches_for_dp_rank`
  unfoldable pub build_global_batches : List A → List (Option ℕ) → ℕ → Result (List (List A))
  unfolding slices group_row_indices arange
  build_global_batches samples trajectory_ids size = do
    assert (ltb dp_rank dp_size)
    ids ←
        if all_missing trajectory_ids
        then ok (arange 0 (length trajectory_ids))
        else present trajectory_ids
    grouped ← group_row_indices ids size
    slices samples grouped 0
