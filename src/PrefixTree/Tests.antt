-- ===== src/PrefixTree/Tests.antt =====
-- prefix_tree.py: the module on small inputs.
use axrl.Prelude.{ℕ, ◌≡◌, ◌↔◌, refl, some, List, [], ◌∷◌, map, length, get_elem?, arith}
use axrl.PrefixTree.{
  MergingTree, empty, add_path, add_paths, get_packed_len_if_add_path, insert, split, shared_len,
  label_aware_common_prefix_len, common_prefix_len, same_head, added_len, added_len_after_split,
}
use axrl.PrefixTree.Estimate.{packed_len-add_path}
use axrl.PrefixTree.Paths.{total}
use axrl.PrefixTree.Build.{HasPath, add_paths-HasPath, packed_len-eq-total}
use axrl.PrefixTree.Layout.{
  build_tree_packed_sequence, emit, emit_node, set_leaves, unpack_tensor_from_merged, unpack_path,
}
use axrl.PrefixTree.Layout.Unpack.{unpack-build_tree}
use axrl.PrefixTree.Labels.{build_tree_fork}

program : Unit {0}
unfolding insert split shared_len label_aware_common_prefix_len common_prefix_len same_head
    added_len added_len_after_split add_path add_paths get_packed_len_if_add_path
    build_tree_packed_sequence emit emit_node set_leaves unpack_tensor_from_merged unpack_path
program = tt

abbrev two_paths : List (List ℕ)
two_paths = (1 ∷ 2 ∷ 3 ∷ []) ∷ (1 ∷ 2 ∷ 4 ∷ []) ∷ []

-- The position before the fork is not shared.
two_paths_packed : (build_tree_packed_sequence two_paths).packed ≡ 1 ∷ 2 ∷ 3 ∷ 2 ∷ 4 ∷ []
unfolding program
two_paths_packed = refl

two_paths_leaves :
    (build_tree_packed_sequence two_paths).path_to_leaf ≡ (some 1, 1) ∷ (some 2, 1) ∷ []
unfolding program
two_paths_leaves = refl

abbrev one_path_tree : MergingTree
one_path_tree = add_paths empty ((1 ∷ 2 ∷ 3 ∷ []) ∷ [])

estimate_runs : get_packed_len_if_add_path one_path_tree (1 ∷ 2 ∷ 4 ∷ []) ≡ 5
unfolding program
estimate_runs = refl

packed_len-add_path_example :
    get_packed_len_if_add_path one_path_tree (1 ∷ 2 ∷ 4 ∷ [])
    ≡ (add_path one_path_tree (1 ∷ 2 ∷ 4 ∷ [])).packed_len
packed_len-add_path_example = packed_len-add_path one_path_tree (1 ∷ 2 ∷ 4 ∷ [])

add_paths-HasPath_example :
    HasPath (add_paths empty two_paths) 1 (1 ∷ 2 ∷ 4 ∷ [])
    ↔ (get_elem? two_paths 1 ≡ some (1 ∷ 2 ∷ 4 ∷ []))
add_paths-HasPath_example = add_paths-HasPath two_paths 1 (1 ∷ 2 ∷ 4 ∷ [])

unpack-build_tree_example :
    unpack_tensor_from_merged 0
      (build_tree_packed_sequence two_paths).packed
      (build_tree_packed_sequence two_paths).nodes
      (build_tree_packed_sequence two_paths).path_to_leaf
      (map length two_paths)
    ≡ some two_paths
unpack-build_tree_example = unpack-build_tree two_paths (λ e. cc, (λ e. cc, tt))

-- The second and the third path continue after 2 with different tokens, and share it.
build_tree_fork_example :
    (build_tree_packed_sequence
      ((1 ∷ 2 ∷ []) ∷ (1 ∷ 2 ∷ 3 ∷ 5 ∷ []) ∷ (1 ∷ 2 ∷ 4 ∷ []) ∷ [])).packed
    ≡ 1 ∷ 2 ∷ 3 ∷ 5 ∷ 4 ∷ []
build_tree_fork_example = build_tree_fork 1 (2 ∷ []) 3 (5 ∷ []) 4 [] (omega arith)

-- With the prefix last, its last position is not shared by the two paths before it.
prefix_last :
    (build_tree_packed_sequence ((1 ∷ 2 ∷ 3 ∷ []) ∷ (1 ∷ 2 ∷ 4 ∷ []) ∷ (1 ∷ 2 ∷ []) ∷ [])).packed
    ≡ 1 ∷ 2 ∷ 3 ∷ 2 ∷ 4 ∷ []
unfolding program
prefix_last = refl

packed_len-eq-total_example :
    (add_paths empty two_paths).packed_len ≡ total (add_paths empty two_paths).children
packed_len-eq-total_example = packed_len-eq-total two_paths
