-- ===== src/PrefixTree/Ranges.antt =====
-- prefix_tree.py: the attention ranges and path lengths of a packed layout, and the metadata of a
-- merged sample. `chain_up` gives a node with its ancestors, from the node up; a lookup that fails
-- is an IndexError.
pub mod Shifted
pub mod Forest
mod Tests
use axrl.Prelude.{
  ℕ, zero, suc, ◌+◌, ◌-◌, max, Option, none, some, List, [], ◌∷◌, ◌++◌, map, Result, ok, err,
  assert, ◌>>=◌, ◌>>◌, Error, length, get_elem?, leb, ◌==◌, if◌then◌else◌,
}
use axrl.PrefixTree.Layout.{PrefixTreeNode, chain_up}

-- An entry of `q_ranges`, of `k_ranges` and of `attn_type_map`, 1 for causal.
pub record Range : Type 0 where
  pub queries : ℕ × ℕ
  pub keys : ℕ × ℕ
  pub attn_type : ℕ

abbrev pub looked_up {ℓ} : {A : Type ℓ} → Option A → Result A
looked_up none = err Error.index_error
looked_up (some a) = ok a

abbrev pub ancestor_range : PrefixTreeNode → PrefixTreeNode → Range
ancestor_range node an = record {
  queries = (node.start, node.end);
  keys = (an.start, an.end);
  attn_type = 0;
}

abbrev pub own_range : PrefixTreeNode → Range
own_range node = record {
  queries = (node.start, node.end);
  keys = (node.start, node.end);
  attn_type = 1;
}

-- The loop over the ancestors of a node.
unfoldable pub ancestor_ranges : List PrefixTreeNode → PrefixTreeNode → List ℕ → Result (List Range)
ancestor_ranges nodes node [] = ok []
ancestor_ranges nodes node (a ∷ ancestors) = do
  an ← looked_up (get_elem? nodes a)
  ranges ← ancestor_ranges nodes node ancestors
  ok (if leb an.end an.start then ranges else ancestor_range node an ∷ ranges)

-- `build_prefix_tree_ranges_as_lists`, from the nodes still to come
unfoldable pub ranges_of : List PrefixTreeNode → List PrefixTreeNode → Result (List Range)
unfolding ancestor_ranges chain_up
ranges_of nodes [] = ok []
ranges_of nodes (node ∷ more) = do
  ancestors ← looked_up (chain_up (length nodes) nodes node.parent)
  ranges ← ancestor_ranges nodes node ancestors
  rest ← ranges_of nodes more
  ok (ranges ++ own_range node ∷ rest)

unfoldable pub build_prefix_tree_ranges : List PrefixTreeNode → Result (List Range)
unfolding ranges_of
build_prefix_tree_ranges nodes = ranges_of nodes nodes

-- The number of tokens of a chain of nodes.
unfoldable pub chain_len : List PrefixTreeNode → List ℕ → Result ℕ
chain_len nodes [] = ok 0
chain_len nodes (n ∷ ns) = do
  nd ← looked_up (get_elem? nodes n)
  total ← chain_len nodes ns
  ok (nd.end - nd.start + total)

-- `_node_prefix_len`, and one round of `compute_max_path_length`: the tokens from a node up.
unfoldable pub len_up : List PrefixTreeNode → Option ℕ → Result ℕ
unfolding chain_len chain_up
len_up nodes n = do chain ← looked_up (chain_up (length nodes) nodes n); chain_len nodes chain

unfoldable pub node_prefix_len : List PrefixTreeNode → ℕ → Result ℕ
unfolding len_up
node_prefix_len nodes idx = do nd ← looked_up (get_elem? nodes idx); len_up nodes nd.parent

unfoldable pub compute_max_path_length : List PrefixTreeNode → List (Option ℕ × ℕ) → Result ℕ
unfolding len_up
compute_max_path_length nodes [] = ok 0
compute_max_path_length nodes (leaf ∷ leaves) = do
  n ← len_up nodes leaf.0
  m ← compute_max_path_length nodes leaves
  ok (max n m)

-- `PrefixMergeInfo`, without the routing sources, which are `None` here.
pub record PrefixMergeInfo : Type 0 where
  pub nodes : List PrefixTreeNode
  pub path_to_leaf : List (Option ℕ × ℕ)
  pub ranges : List Range
  pub total_padded : ℕ
  pub max_path_len : ℕ
  pub turn_sample_lens : List ℕ
  pub real_total : ℕ

unfoldable pub build_prefix_merge_info :
    List PrefixTreeNode → List (Option ℕ × ℕ) → ℕ → List ℕ → ℕ → Result PrefixMergeInfo
unfolding build_prefix_tree_ranges compute_max_path_length
build_prefix_merge_info nodes path_to_leaf total_padded turn_sample_lens real_total = do
  ranges ← build_prefix_tree_ranges nodes
  assert (length turn_sample_lens == length path_to_leaf)
  max_path_len ← compute_max_path_length nodes path_to_leaf
  ok (record {
    nodes = nodes;
    path_to_leaf = path_to_leaf;
    ranges = ranges;
    total_padded = total_padded;
    max_path_len = max_path_len;
    turn_sample_lens = turn_sample_lens;
    real_total = real_total;
  })

-- `nd.parent + node_offset if nd.parent >= 0 else -1`
abbrev pub shift_parent : ℕ → Option ℕ → Option ℕ
shift_parent node_offset none = none
shift_parent node_offset (some p) = some (p + node_offset)

abbrev pub shift_node : ℕ → ℕ → PrefixTreeNode → PrefixTreeNode
shift_node pos_offset node_offset nd = record {
  start = nd.start + pos_offset;
  end = nd.end + pos_offset;
  parent = shift_parent node_offset nd.parent;
}

-- `leaf_idx + node_offset`, where a leaf of -1 becomes the node before the offset
abbrev pub shift_index : Option ℕ → ℕ → Option ℕ
shift_index (some leaf) node_offset = some (leaf + node_offset)
shift_index none zero = none
shift_index none (suc node_offset) = some node_offset

abbrev pub shift_leaf : ℕ → Option ℕ × ℕ → Option ℕ × ℕ
shift_leaf node_offset leaf = (shift_index leaf.0 node_offset, leaf.1)

abbrev pub shift_range : ℕ → Range → Range
shift_range pos_offset r = record {
  queries = (r.queries.0 + pos_offset, r.queries.1 + pos_offset);
  keys = (r.keys.0 + pos_offset, r.keys.1 + pos_offset);
  attn_type = r.attn_type;
}

-- The loop of `merge_prefix_merge_infos` from given offsets on.
unfoldable pub merge_from : ℕ → ℕ → List PrefixMergeInfo → PrefixMergeInfo
merge_from pos_offset node_offset [] = record {
  nodes = [];
  path_to_leaf = [];
  ranges = [];
  total_padded = pos_offset;
  max_path_len = 0;
  turn_sample_lens = [];
  real_total = 0;
}
merge_from pos_offset node_offset (info ∷ infos) =
    let more =
      merge_from (pos_offset + info.total_padded) (node_offset + length info.nodes) infos in
    record {
      nodes = map (shift_node pos_offset node_offset) info.nodes ++ more.nodes;
      path_to_leaf = map (shift_leaf node_offset) info.path_to_leaf ++ more.path_to_leaf;
      ranges = map (shift_range pos_offset) info.ranges ++ more.ranges;
      total_padded = more.total_padded;
      max_path_len = max info.max_path_len more.max_path_len;
      turn_sample_lens = info.turn_sample_lens ++ more.turn_sample_lens;
      real_total = info.real_total + more.real_total;
    }

unfoldable pub merge_prefix_merge_infos : List PrefixMergeInfo → PrefixMergeInfo
unfolding merge_from
merge_prefix_merge_infos infos = merge_from 0 0 infos
