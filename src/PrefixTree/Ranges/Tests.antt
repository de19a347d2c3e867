-- ===== src/PrefixTree/Ranges/Tests.antt =====
-- prefix_tree.py: the metadata of merged samples on small trees.
use axrl.Prelude.{ℕ, ◌≡◌, refl, Option, none, some, [], ◌∷◌, ok}
use axrl.PrefixTree.Layout.{PrefixTreeNode, chain_up}
use axrl.PrefixTree.Ranges.{
  ancestor_range, own_range, ancestor_ranges, ranges_of, build_prefix_tree_ranges, chain_len,
  len_up, node_prefix_len, compute_max_path_length, PrefixMergeInfo, build_prefix_merge_info,
  merge_from, merge_prefix_merge_infos,
}
use axrl.PrefixTree.Ranges.Forest.{merge_prefix_merge_infos-built, IsBuilt}

abbrev node : ℕ → ℕ → Option ℕ → PrefixTreeNode
node start end parent = record { start = start; end = end; parent = parent }

-- The tree of the paths [1, 2, 3] and [1, 2, 4].
abbrev root_node : PrefixTreeNode
root_node = node 0 1 none

abbrev first_tail : PrefixTreeNode
first_tail = node 1 3 (some 0)

abbrev second_tail : PrefixTreeNode
second_tail = node 3 5 (some 0)

abbrev fork : PrefixMergeInfo
fork = record {
  nodes = root_node ∷ first_tail ∷ second_tail ∷ [];
  path_to_leaf = (some 1, 1) ∷ (some 2, 1) ∷ [];
  ranges =
      own_range root_node
      ∷ ancestor_range first_tail root_node
      ∷ own_range first_tail
      ∷ ancestor_range second_tail root_node
      ∷ own_range second_tail
      ∷ [];
  total_padded = 5;
  max_path_len = 3;
  turn_sample_lens = 3 ∷ 3 ∷ [];
  real_total = 5;
}

fork-IsBuilt : IsBuilt fork
unfolding build_prefix_merge_info build_prefix_tree_ranges ranges_of ancestor_ranges chain_up
    compute_max_path_length len_up chain_len
fork-IsBuilt = (refl, ((1, refl), ((2, refl), tt)))

tail_positions : node_prefix_len fork.nodes 2 ≡ ok 1
unfolding node_prefix_len len_up chain_up chain_len
tail_positions = refl

two_forks :
    (merge_prefix_merge_infos (fork ∷ fork ∷ [])).path_to_leaf
    ≡ (some 1, 1) ∷ (some 2, 1) ∷ (some 4, 1) ∷ (some 5, 1) ∷ []
unfolding merge_prefix_merge_infos merge_from
two_forks = refl

merge_prefix_merge_infos-built_example :
    build_prefix_merge_info
      (merge_prefix_merge_infos (fork ∷ fork ∷ [])).nodes
      (merge_prefix_merge_infos (fork ∷ fork ∷ [])).path_to_leaf
      (merge_prefix_merge_infos (fork ∷ fork ∷ [])).total_padded
      (merge_prefix_merge_infos (fork ∷ fork ∷ [])).turn_sample_lens
      (merge_prefix_merge_infos (fork ∷ fork ∷ [])).real_total
    ≡ ok (merge_prefix_merge_infos (fork ∷ fork ∷ []))
merge_prefix_merge_infos-built_example =
    merge_prefix_merge_infos-built (fork ∷ fork ∷ []) (fork-IsBuilt, (fork-IsBuilt, tt))

-- A path without tokens has no leaf; after the merge it has the last node of the tree before.
abbrev no_tokens : PrefixMergeInfo
no_tokens = record {
  nodes = [];
  path_to_leaf = (none, 0) ∷ [];
  ranges = [];
  total_padded = 0;
  max_path_len = 0;
  turn_sample_lens = 0 ∷ [];
  real_total = 0;
}

leaf_of_other_tree :
    (merge_prefix_merge_infos (fork ∷ no_tokens ∷ [])).path_to_leaf
    ≡ (some 1, 1) ∷ (some 2, 1) ∷ (some 2, 0) ∷ []
unfolding merge_prefix_merge_infos merge_from
leaf_of_other_tree = refl
