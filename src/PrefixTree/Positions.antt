-- ===== src/PrefixTree/Positions.antt =====
-- prefix_tree.py: the padding of a packed layout, the positions of its tokens within their paths,
-- and the segments of the paths. `path_chain_root_to_leaf` that fails is an IndexError.
pub mod Padding
pub mod Segments
mod Tests
use axrl.Prelude.{
  ℕ, zero, suc, ◌+◌, ◌-◌, ◌*◌, ◌/◌, ◌%◌, min, Bool, true, false, ◌||◌, Option, none, some, List, [],
  ◌∷◌, ◌++◌, Result, ok, err, ◌>>=◌, ◌>>◌, Error, length, replicate, set, get_elem?, leb, ◌==◌,
  if◌then◌else◌,
}
use axrl.PrefixTree.Layout.{PrefixTreeNode, Layout, path_chain_root_to_leaf}
use axrl.PrefixTree.Ranges.{looked_up, node_prefix_len}

-- `math.gcd`; each round leaves a smaller second number, so that it is enough fuel.
abbrev pub gcd_from : ℕ → ℕ → ℕ → ℕ
gcd_from zero a b = a
gcd_from (suc f) a b = let rest = gcd_from f b (a % b) in if b == 0 then a else rest

-- `math.lcm`
abbrev pub lcm : ℕ → ℕ → ℕ
lcm a b = if (a == 0) || (b == 0) then 0 else a / gcd_from b a b * b

-- `(-total) % total_align`, for a positive alignment
unfoldable pub pad_to : ℕ → ℕ → ℕ
pad_to total align = (align - total % align) % align

-- `nodes[-1] = PrefixTreeNode(...)`
unfoldable pub extend_last : ℕ → List PrefixTreeNode → List PrefixTreeNode
extend_last pad [] = []
extend_last pad (nd ∷ []) = record nd { end = nd.end + pad } ∷ []
extend_last pad (nd ∷ next ∷ nodes) = nd ∷ extend_last pad (next ∷ nodes)

abbrev pub no_nodes : List PrefixTreeNode → Bool
no_nodes [] = true
no_nodes (nd ∷ nodes) = false

-- What `pack_tree_aligned_as_list` returns.
pub record Padded : Type 0 where
  pub packed : List ℕ
  pub nodes : List PrefixTreeNode
  pub path_to_leaf : List (Option ℕ × ℕ)
  pub total_padded : ℕ

-- The padding, for an alignment that is not 0.
unfoldable pub pad_layout : Layout → ℕ → ℕ → Padded
unfolding pad_to extend_last
pad_layout trie total_align pad_token_id =
    let total = length trie.packed in
    let pad = pad_to total total_align in
    if (pad == 0) || no_nodes trie.nodes
    then record {
      packed = trie.packed;
      nodes = trie.nodes;
      path_to_leaf = trie.path_to_leaf;
      total_padded = total + pad;
    }
    else record {
      packed = trie.packed ++ replicate pad pad_token_id;
      nodes = extend_last pad trie.nodes;
      path_to_leaf = trie.path_to_leaf;
      total_padded = total + pad;
    }

-- `pack_tree_aligned_as_list`, with the trie that is given or built
unfoldable pub pack_tree_aligned : Layout → ℕ → ℕ → Result Padded
unfolding pad_layout
pack_tree_aligned trie align_size pad_token_id =
    let total_align = lcm align_size 128 in
    if total_align == 0
    then err Error.zero_division_error
    else ok (pad_layout trie total_align pad_token_id)

-- `for j in range(nd.end - nd.start): pos[nd.start + j] = prefix_len + j`, from a `j` on
unfoldable pub fill_positions : ℕ → ℕ → ℕ → List ℕ → List ℕ
fill_positions zero start prefix_len pos = pos
fill_positions (suc n) start prefix_len pos =
    fill_positions n (start + 1) (prefix_len + 1) (set pos start prefix_len)

-- The loop of `compute_tree_rel_positions_as_list` over the nodes, from index `i` on.
unfoldable pub fill_each : List PrefixTreeNode → ℕ → List PrefixTreeNode → List ℕ → Result (List ℕ)
unfolding fill_positions
fill_each nodes i [] pos = ok pos
fill_each nodes i (nd ∷ more) pos = do
  prefix_len ← node_prefix_len nodes i
  if leb nd.end (length pos)
      then fill_each nodes (i + 1) more (fill_positions (nd.end - nd.start) nd.start prefix_len pos)
      else err Error.index_error

unfoldable pub compute_tree_rel_positions : List PrefixTreeNode → ℕ → Result (List ℕ)
unfolding fill_each
compute_tree_rel_positions nodes total = fill_each nodes 0 nodes (replicate total 0)

-- A segment that `iter_path_segments_in_packed` yields.
pub record Segment : Type 0 where
  pub path_idx : ℕ
  pub write_start : ℕ
  pub read_start : ℕ
  pub take : ℕ

-- The loop over the chain of a path.
unfoldable pub segments_of : List PrefixTreeNode → ℕ → ℕ → ℕ → List ℕ → Result (List Segment)
segments_of nodes path_idx path_len read_start [] = ok []
segments_of nodes path_idx path_len read_start (n ∷ chain) = do
  nd ← looked_up (get_elem? nodes n)
  let taken = min (nd.end - nd.start) (path_len - read_start)
  let more = segments_of nodes path_idx path_len (read_start + taken) chain
  if taken == 0
      then ok []
      else more >>= λ rest. ok (
          record {
            path_idx = path_idx;
            write_start = nd.start;
            read_start = read_start;
            take = taken;
          }
          ∷ rest)

-- `iter_path_segments_in_packed`, from a path's index on
unfoldable pub segments_from :
    List PrefixTreeNode → ℕ → List (Option ℕ × ℕ) → List ℕ → Result (List Segment)
unfolding segments_of path_chain_root_to_leaf
segments_from nodes path_idx [] path_lens = ok []
segments_from nodes path_idx (leaf ∷ leaves) [] = err Error.index_error
segments_from nodes path_idx (leaf ∷ leaves) (path_len ∷ path_lens) = do
  chain ← looked_up (path_chain_root_to_leaf nodes leaf.0)
  segments ← segments_of nodes path_idx path_len 0 chain
  more ← segments_from nodes (path_idx + 1) leaves path_lens
  ok (segments ++ more)

unfoldable pub iter_path_segments_in_packed :
    List PrefixTreeNode → List (Option ℕ × ℕ) → List ℕ → Result (List Segment)
unfolding segments_from
iter_path_segments_in_packed nodes path_to_leaf path_lens =
    segments_from nodes 0 path_to_leaf path_lens
