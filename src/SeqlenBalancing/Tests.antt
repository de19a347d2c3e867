-- ===== src/SeqlenBalancing/Tests.antt =====
-- seqlen_balancing.py: runs and instances of the theorems.
use axrl.Prelude.{
  ℕ, ◌*◌, ◌≤◌, ◌<◌, ◌≡◌, refl, true, false, none, some, List, [], ◌∷◌, ok, err, Error, length, All,
  arith, sum,
}
use axrl.SeqlenBalancing.{
  karmarkar_karp, initial_states, push_each, sorted_seqlens, new_state, add_each, add, add_all,
  sorted_sets, set_lt, items_lt, pair_lt, heappush, state_lt, spread, merge_all, merge_states,
  merge_each, merge, final_state, get_partitions,
}
use axrl.SeqlenBalancing.Partitions.{
  get_seqlen_balanced_partitions, check_and_sort_partitions, IsPartition, IsSorted,
}
use axrl.SeqlenBalancing.Partitions.Balanced.{get_seqlen_balanced_partitions-ok}
use axrl.SeqlenBalancing.Partitions.Even.{get_seqlen_balanced_partitions-equal_size}
use axrl.SeqlenBalancing.Microbatches.{
  SplitArgs, num_micro_batches, needed, roundup_to, roundup_divisible, at_least, longest,
  split_into_balanced_microbatches, in_order, sort_by_workload, workload, index_each, index_batch,
}
use axrl.SeqlenBalancing.Microbatches.Numbers.{num_micro_batches-bounds, Divides, room}

abbrev lens : List ℕ
lens = 3 ∷ 9 ∷ 4 ∷ 8 ∷ []

balanced : get_seqlen_balanced_partitions lens 2 false ≡ ok ((2 ∷ 3 ∷ []) ∷ (0 ∷ 1 ∷ []) ∷ [])
unfolding get_seqlen_balanced_partitions check_and_sort_partitions karmarkar_karp initial_states
    push_each sorted_seqlens new_state add_each add add_all sorted_sets set_lt items_lt pair_lt
    heappush state_lt spread merge_all merge_states merge_each merge final_state get_partitions
balanced = refl

-- A partition for each sequence at most.
too_many : get_seqlen_balanced_partitions lens 5 false ≡ err Error.assertion_error
unfolding get_seqlen_balanced_partitions
too_many = refl

no_partition : get_seqlen_balanced_partitions lens 0 false ≡ err Error.index_error
unfolding get_seqlen_balanced_partitions check_and_sort_partitions karmarkar_karp initial_states
    push_each sorted_seqlens new_state add_each pair_lt
no_partition = refl

odd_sizes : get_seqlen_balanced_partitions lens 3 true ≡ err Error.assertion_error
unfolding get_seqlen_balanced_partitions karmarkar_karp initial_states
odd_sizes = refl

get_seqlen_balanced_partitions-ok_example :
    (partitions : List (List ℕ)) × (get_seqlen_balanced_partitions lens 2 false ≡ ok partitions)
    × (length partitions ≡ 2)
    × All (λ p. 0 < length p) partitions
    × All IsSorted partitions
    × IsPartition (length lens) partitions
get_seqlen_balanced_partitions-ok_example =
    get_seqlen_balanced_partitions-ok lens 2 (omega arith) (omega arith)

get_seqlen_balanced_partitions-equal_size_example :
    (partitions : List (List ℕ)) × (get_seqlen_balanced_partitions lens 2 true ≡ ok partitions)
    × (length partitions ≡ 2)
    × All (λ p. length p * 2 ≡ length lens) partitions
    × All IsSorted partitions
    × IsPartition (length lens) partitions
get_seqlen_balanced_partitions-equal_size_example =
    get_seqlen_balanced_partitions-equal_size lens 2 (omega arith) (omega arith) refl

abbrev args : SplitArgs
args = record {
  max_token_len = 10;
  vpp_size = none;
  min_num_micro_batch = some 1;
  microbatch_group_size = some 2;
  use_dynamic_bsz_balance = true;
  is_merged = false;
  max_seq_len = 9;
}

three_and_one : num_micro_batches (λ n. n) args lens ≡ ok 4
unfolding num_micro_batches needed roundup_to roundup_divisible at_least longest
three_and_one = refl

num_micro_batches-bounds_example :
    (4 ≤ length lens) × (1 ≤ 4) × Divides (some 2) 4 × (sum lens ≤ 4 * room args lens)
unfolding at_least
num_micro_batches-bounds_example =
    num_micro_batches-bounds (λ n. n) args lens 4 (λ m. omega arith)
      (λ not_merged. (omega arith, (omega arith, (omega arith, (omega arith, tt))))) three_and_one

abbrev rows : List ℕ
rows = 30 ∷ 90 ∷ 40 ∷ 80 ∷ []

-- `max_token_len` bounds a micro-batch on average only: here one has 6 tokens where 5 are allowed.
abbrev tight : SplitArgs
tight = record args { max_token_len = 5; microbatch_group_size = none; max_seq_len = 3 }

above_max_token_len :
    split_into_balanced_microbatches {Row = ℕ} (λ n. n) tight (3 ∷ 3 ∷ 3 ∷ []) (3 ∷ 3 ∷ 3 ∷ [])
    ≡ ok ((3 ∷ 3 ∷ []) ∷ (3 ∷ []) ∷ [], (0 ∷ 1 ∷ []) ∷ (2 ∷ []) ∷ [])
unfolding split_into_balanced_microbatches num_micro_batches needed roundup_to at_least longest
    get_seqlen_balanced_partitions check_and_sort_partitions karmarkar_karp initial_states push_each
    sorted_seqlens new_state add_each add add_all sorted_sets set_lt items_lt pair_lt heappush
    state_lt spread merge_all merge_states merge_each merge final_state get_partitions in_order
    sort_by_workload workload index_each index_batch
above_max_token_len = refl
