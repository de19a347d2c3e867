-- ===== src/SeqlenBalancing/Partitions.antt =====
-- seqlen_balancing.py: `_get_seqlen_balanced_partitions`.
mod Pushes
mod Contents
pub mod Balanced
pub mod Even
use axrl.Prelude.{
  ℕ, zero, suc, ◌≤◌, Bool, true, ◌&&◌, List, [], ◌∷◌, ◌++◌, map, Result, ok, assert, ◌>>=◌, ◌>>◌,
  length, All, leb, ltb, ◌==◌, sort_by, count, if◌then◌else◌, ◌≡◌,
}
use axrl.Data.GlobalBatches.{covers}
use axrl.SeqlenBalancing.{karmarkar_karp}

abbrev pub flatten {ℓ} : {A : Type ℓ} → List (List A) → List A
flatten [] = []
flatten (xs ∷ xss) = xs ++ flatten xss

abbrev pub all_filled : List (List ℕ) → Bool
all_filled [] = true
all_filled (partition ∷ partitions) = ltb 0 (length partition) && all_filled partitions

abbrev pub all_below : List ℕ → ℕ → Bool
all_below [] n = true
all_below (i ∷ is) n = ltb i n && all_below is n

-- `_check_and_sort_partitions`; every failure of the loop is the same error.
unfoldable pub check_and_sort_partitions : List (List ℕ) → ℕ → ℕ → Result (List (List ℕ))
check_and_sort_partitions partitions k n = do
  assert (length partitions == k)
  assert (all_filled partitions)
  assert (covers (flatten partitions) n && all_below (flatten partitions) n)
  ok (map (sort_by ltb) partitions)

unfoldable pub get_seqlen_balanced_partitions : List ℕ → ℕ → Bool → Result (List (List ℕ))
unfolding karmarkar_karp check_and_sort_partitions
get_seqlen_balanced_partitions seqlens k equal_size = do
  assert (leb k (length seqlens))
  partitions ← karmarkar_karp seqlens k equal_size
  check_and_sort_partitions partitions k (length seqlens)

-- There are `n` indices, each index below `n` stands in one place, and no other stands anywhere.
abbrev pub IsPartition : ℕ → List (List ℕ) → Type 0
IsPartition n partitions =
    (length (flatten partitions) ≡ n)
    × ((i : ℕ) → count i (flatten partitions) ≡ (if ltb i n then 1 else 0))

abbrev pub IsSorted : List ℕ → Type 0
IsSorted [] = Unit
IsSorted (i ∷ is) = All (λ j. i ≤ j) is × IsSorted is
