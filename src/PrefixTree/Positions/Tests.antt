-- ===== src/PrefixTree/Positions/Tests.antt =====
-- prefix_tree.py: padding, positions and segments of small trees.
use axrl.Prelude.{
  ℕ, ◌+◌, ◌%◌, ◌<◌, ◌≡◌, refl, List, [], ◌∷◌, none, some, [], ◌∷◌, length, take, ok, err, Error,
  arith,
}
use axrl.PrefixTree.Layout.{Layout, chain_up, path_chain_root_to_leaf}
use axrl.PrefixTree.Ranges.{node_prefix_len, len_up, chain_len}
use axrl.PrefixTree.Positions.{
  Padded, pad_to, pad_layout, pack_tree_aligned, fill_positions, fill_each,
  compute_tree_rel_positions, Segment, segments_of, segments_from, iter_path_segments_in_packed,
}
use axrl.PrefixTree.Positions.Padding.{last_end, pad_layout-IsAligned}
use axrl.PrefixTree.Positions.Segments.{Follow, segments_of-Follow}

-- The tree of the paths [1, 2, 3] and [1, 2, 4].
abbrev fork : Layout
fork = record {
  packed = 1 ∷ 2 ∷ 3 ∷ 2 ∷ 4 ∷ [];
  nodes =
      record { start = 0; end = 1; parent = none }
      ∷ record { start = 1; end = 3; parent = some 0 }
      ∷ record { start = 3; end = 5; parent = some 0 }
      ∷ [];
  path_to_leaf = (some 1, 1) ∷ (some 2, 1) ∷ [];
}

padded_to_four : (pad_layout fork 4 0).packed ≡ 1 ∷ 2 ∷ 3 ∷ 2 ∷ 4 ∷ 0 ∷ 0 ∷ 0 ∷ []
unfolding pad_layout pad_to
padded_to_four = refl

no_alignment : pack_tree_aligned fork 0 0 ≡ err Error.zero_division_error
unfolding pack_tree_aligned
no_alignment = refl

lcm_of_both : (p : Padded) × (pack_tree_aligned fork 96 0 ≡ ok p) × (p.total_padded ≡ 384)
unfolding pack_tree_aligned pad_layout pad_to
lcm_of_both = (_, refl, refl)

pad_layout-IsAligned_example :
    ((pad_layout fork 4 0).total_padded % 4 ≡ 0)
    × ((pad_layout fork 4 0).total_padded < 5 + 4)
    × (length (pad_layout fork 4 0).packed ≡ (pad_layout fork 4 0).total_padded)
    × (last_end (pad_layout fork 4 0).nodes ≡ (pad_layout fork 4 0).total_padded)
    × (take 5 (pad_layout fork 4 0).packed ≡ fork.packed)
pad_layout-IsAligned_example = pad_layout-IsAligned fork 4 0 (omega arith) (λ e. cc) refl

-- Both tails go on from the shared token.
fork_positions : compute_tree_rel_positions fork.nodes 5 ≡ ok (0 ∷ 1 ∷ 2 ∷ 1 ∷ 2 ∷ [])
unfolding compute_tree_rel_positions fill_each fill_positions node_prefix_len len_up chain_len
    chain_up
fork_positions = refl

too_short : compute_tree_rel_positions fork.nodes 4 ≡ err Error.index_error
unfolding compute_tree_rel_positions fill_each fill_positions node_prefix_len len_up chain_len
    chain_up
too_short = refl

abbrev segment : ℕ → ℕ → ℕ → ℕ → Segment
segment path write read taken = record {
  path_idx = path;
  write_start = write;
  read_start = read;
  take = taken;
}

fork_segments :
    iter_path_segments_in_packed fork.nodes fork.path_to_leaf (3 ∷ 2 ∷ [])
    ≡ ok (segment 0 0 0 1 ∷ segment 0 1 1 2 ∷ segment 1 0 0 1 ∷ segment 1 3 1 1 ∷ [])
unfolding iter_path_segments_in_packed segments_from segments_of path_chain_root_to_leaf chain_up
fork_segments = refl

-- The path of two tokens stops within the second node.
segments_of-Follow_example :
    (segments : List Segment) × (segments_of fork.nodes 1 2 0 (0 ∷ 2 ∷ []) ≡ ok segments)
    × Follow 1 0 segments 2
unfolding chain_len
segments_of-Follow_example =
    segments_of-Follow fork.nodes 1 2 0 3 (0 ∷ 2 ∷ []) (omega arith)
      (omega arith, (omega arith, (omega arith, tt))) refl
