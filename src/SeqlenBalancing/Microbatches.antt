-- ===== src/SeqlenBalancing/Microbatches.antt =====
-- seqlen_balancing.py: the micro-batches of a batch and back. A batch is a list of rows: a row stands
-- for what every key of the `TensorDict` holds at one index, and `seq_len_effective` is given
-- beside them. `is_merged` says that the batch has the non-tensor lists of merged samples too. `all_reduce` is what `dist.all_reduce` with `MAX` makes of the number of this rank,
-- where `dist` is initialized and `same_micro_num_in_dp` is set.
pub mod Rebuilt
pub mod Numbers
use axrl.Prelude.{
  ℕ, zero, suc, ◌+◌, ◌-◌, ◌*◌, ◌/◌, max, min, Bool, true, false, ◌&&◌, Option, none, some, List, [],
  ◌∷◌, ◌++◌, map, Result, ok, err, assert, ◌>>=◌, ◌>>◌, Error, length, get_elem?, set, ltb, leb,
  ◌==◌, if◌then◌else◌, sort_by, sum,
}
use axrl.Data.GlobalBatches.{maximum}
use axrl.SeqlenBalancing.Partitions.{flatten, get_seqlen_balanced_partitions}

-- `seq[i]`
abbrev pub item {ℓ} : {A : Type ℓ} → List A → ℕ → Result A
item xs i = elim (get_elem? xs i) [ none ↦ err Error.index_error | some x ↦ ok x ]

-- The rows of `_index_batch`.
unfoldable pub index_batch {ℓ} : {Row : Type ℓ} → List Row → List ℕ → Result (List Row)
index_batch batch [] = ok []
index_batch batch (i ∷ is) = do row ← item batch i; rows ← index_batch batch is; ok (row ∷ rows)

-- `_concat_micro_batches`: a merged batch has keys whose values are lists, which `torch.cat` refuses.
unfoldable pub concat_micro_batches {ℓ} :
    {Row : Type ℓ} → Bool → List (List Row) → Result (List Row)
concat_micro_batches is_merged [] = err Error.index_error
concat_micro_batches is_merged (micro_batch ∷ micro_batches) =
    if is_merged then err Error.type_error else ok (flatten (micro_batch ∷ micro_batches))

-- `_ceildiv`, for a divisor that is not 0
abbrev pub ceildiv : ℕ → ℕ → ℕ
ceildiv a b = (a + b - 1) / b

unfoldable pub roundup_divisible : ℕ → ℕ → ℕ
roundup_divisible a b = (a + b - 1) / b * b

-- The key of the sort: the sum of squares and the least index.
abbrev pub square_of : List ℕ → ℕ → ℕ
square_of seq_lens i = elim (get_elem? seq_lens i) [ none ↦ 0 | some n ↦ n * n ]

abbrev pub minimum : List ℕ → ℕ
minimum [] = 0
minimum (i ∷ []) = i
minimum (i ∷ j ∷ is) = min i (minimum (j ∷ is))

unfoldable pub workload : List ℕ → List ℕ → ℕ × ℕ
workload seq_lens partition = (sum (map (square_of seq_lens) partition), minimum partition)

abbrev pub key_lt : ℕ × ℕ → ℕ × ℕ → Bool
key_lt x y = if x.0 == y.0 then ltb x.1 y.1 else ltb x.0 y.0

-- `micro_bsz_idx.sort(key=..., reverse=True)`
unfoldable pub sort_by_workload : List ℕ → List (List ℕ) → List (List ℕ)
unfolding workload
sort_by_workload seq_lens partitions =
    sort_by (λ p other. key_lt (workload seq_lens other) (workload seq_lens p)) partitions

-- `if use_dynamic_bsz_balance`
unfoldable pub in_order : Bool → List ℕ → List (List ℕ) → List (List ℕ)
unfolding sort_by_workload
in_order balance seq_lens partitions =
    if balance then sort_by_workload seq_lens partitions else partitions

-- The arguments of `split_into_balanced_microbatches`; `max_seq_len` is the width of the attention
-- mask of a batch that is not merged.
pub record SplitArgs : Type 0 where
  pub max_token_len : ℕ
  pub vpp_size : Option ℕ
  pub min_num_micro_batch : Option ℕ
  pub microbatch_group_size : Option ℕ
  pub use_dynamic_bsz_balance : Bool
  pub is_merged : Bool
  pub max_seq_len : ℕ

-- `roundup_divisible` with an argument that may be missing
unfoldable pub roundup_to : Option ℕ → ℕ → Result ℕ
unfolding roundup_divisible
roundup_to none n = ok n
roundup_to (some zero) n = err Error.zero_division_error
roundup_to (some (suc size)) n = ok (roundup_divisible n (suc size))

unfoldable pub at_least : Option ℕ → ℕ → ℕ
at_least none n = n
at_least (some least) n = max least n

-- `max_seq_len`; `max` of an empty list fails.
unfoldable pub longest : SplitArgs → List ℕ → Result ℕ
longest a seq_lens =
    if a.is_merged
    then (if length seq_lens == 0 then err Error.value_error else ok (maximum seq_lens))
    else ok a.max_seq_len

-- The number up to `vpp_size`, for an `effective_max_token_len`.
unfoldable pub needed : (ℕ → ℕ) → SplitArgs → List ℕ → ℕ → Result ℕ
unfolding roundup_to at_least
needed all_reduce a seq_lens effective =
    let fewest = min (length seq_lens) (ceildiv (sum seq_lens) effective) in
    if effective == 0
    then err Error.zero_division_error
    else roundup_to a.vpp_size (all_reduce (at_least a.min_num_micro_batch fewest))

-- How many micro-batches there will be, up to the assertion.
unfoldable pub num_micro_batches : (ℕ → ℕ) → SplitArgs → List ℕ → Result ℕ
unfolding roundup_to needed longest
num_micro_batches all_reduce a seq_lens = do
  max_seq_len ← longest a seq_lens
  assert (if a.is_merged then true else leb max_seq_len a.max_token_len)
  n ← needed all_reduce a seq_lens (max a.max_token_len max_seq_len)
  n ← roundup_to a.microbatch_group_size n
  assert (leb n (length seq_lens))
  ok n

unfoldable pub index_each {ℓ} : {Row : Type ℓ} → List Row → List (List ℕ) → Result (List (List Row))
unfolding index_batch
index_each batch [] = ok []
index_each batch (partition ∷ partitions) = do
  micro_batch ← index_batch batch partition
  more ← index_each batch partitions
  ok (micro_batch ∷ more)

unfoldable pub split_into_balanced_microbatches {ℓ} :
    {Row : Type ℓ}
    → (ℕ → ℕ)
    → SplitArgs
    → List Row
    → List ℕ
    → Result (List (List Row) × List (List ℕ))
unfolding num_micro_batches get_seqlen_balanced_partitions in_order index_each
split_into_balanced_microbatches all_reduce a batch seq_lens = do
  n ← num_micro_batches all_reduce a seq_lens
  partitions ← get_seqlen_balanced_partitions seq_lens n false
  let micro_bsz_idx = in_order a.use_dynamic_bsz_balance seq_lens partitions
  micro_batches ← index_each batch micro_bsz_idx
  ok (micro_batches, micro_bsz_idx)

-- The loop of `_get_reverse_idx`, from position `i` on.
unfoldable pub reverse_from : ℕ → List ℕ → List ℕ → Result (List ℕ)
reverse_from i [] reverse_idx_map = ok reverse_idx_map
reverse_from i (idx ∷ idx_map) reverse_idx_map =
    if ltb idx (length reverse_idx_map)
    then reverse_from (i + 1) idx_map (set reverse_idx_map idx i)
    else err Error.index_error

unfoldable pub get_reverse_idx : List ℕ → Result (List ℕ)
unfolding reverse_from
get_reverse_idx idx_map = reverse_from 0 idx_map idx_map

unfoldable pub reconstruct_batch_from_microbatches {ℓ} :
    {Row : Type ℓ} → Bool → List (List Row) → List (List ℕ) → Result (List Row)
unfolding concat_micro_batches get_reverse_idx index_batch
reconstruct_batch_from_microbatches is_merged micro_batches micro_bsz_idx_lst = do
  batch ← concat_micro_batches is_merged micro_batches
  reverse_idx_map ← get_reverse_idx (flatten micro_bsz_idx_lst)
  index_batch batch reverse_idx_map
