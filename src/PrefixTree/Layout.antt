-- ===== src/PrefixTree/Layout.antt =====
-- prefix_tree.py: the packed layout of a tree, and the walks over its nodes. An index that is -1 in
-- the source is `none` here; a read past the end of `nodes`, an IndexError, gives `none`.
pub mod Reads
pub mod Emit
pub mod Unpack
use mathlib.Core.List.{reverse}
use axrl.Prelude.{
  ℕ, zero, suc, ◌+◌, ◌-◌, min, true, false, Option, none, some, List, [], ◌∷◌, ◌++◌, length, take,
  drop, get_elem?, set, replicate, ◌==◌,
}
use axrl.PrefixTree.{Children, nil, child, MergingTree, empty, add_paths}

pub record PrefixTreeNode : Type 0 where
  pub start : ℕ
  pub end : ℕ
  pub parent : Option ℕ

-- What `to_packed_sequence` builds. An entry of `path_to_leaf` is a node's index and the number of
-- tokens before the node.
pub record Layout : Type 0 where
  pub packed : List ℕ
  pub nodes : List PrefixTreeNode
  pub path_to_leaf : List (Option ℕ × ℕ)

-- `for path_idx in node.path_owners: path_to_leaf[path_idx] = leaf`
unfoldable pub set_leaves : List ℕ → Option ℕ × ℕ → List (Option ℕ × ℕ) → List (Option ℕ × ℕ)
set_leaves [] leaf l = l
set_leaves (o ∷ os) leaf l = set_leaves os leaf (set l o leaf)

-- What `_emit` does for one node before its children.
unfoldable pub emit_node : List ℕ → List ℕ → Option ℕ → ℕ → Layout → Layout
unfolding set_leaves
emit_node tokens owners parent prefix_len s = record {
  packed = s.packed ++ tokens;
  nodes =
      s.nodes
      ++ (record { start = length s.packed; end = length (s.packed ++ tokens); parent = parent })
        ∷ [];
  path_to_leaf = set_leaves owners (some (length s.nodes), prefix_len) s.path_to_leaf;
}

-- `_emit` of each of the children in turn.
unfoldable pub emit : Children → Option ℕ → ℕ → Layout → Layout
emit nil parent prefix_len s = s
emit (child tokens owners kids rest) parent prefix_len s = emit rest parent prefix_len (
    emit kids (some (length s.nodes)) (prefix_len + length tokens)
      (emit_node tokens owners parent prefix_len s))

unfoldable pub to_packed_sequence : MergingTree → Layout
unfolding emit emit_node
to_packed_sequence t =
    emit t.children none 0
      (record { packed = []; nodes = []; path_to_leaf = replicate t.path_count (none, 0) })

unfoldable pub build_tree_packed_sequence : List (List ℕ) → Layout
unfolding to_packed_sequence add_paths
build_tree_packed_sequence paths = to_packed_sequence (add_paths empty paths)

-- The loop of `path_chain_root_to_leaf`, from the leaf up. A parent stands before its children, so
-- one round more than the index of the leaf is enough.
unfoldable pub chain_up : ℕ → List PrefixTreeNode → Option ℕ → Option (List ℕ)
chain_up f nodes none = some []
chain_up zero nodes (some n) = none
chain_up (suc f) nodes (some n) = elim (get_elem? nodes n) [
  | none ↦ none
  | some nd ↦ elim (chain_up f nodes nd.parent) [ none ↦ none | some up ↦ some (n ∷ up) ]
]

unfoldable pub path_chain_root_to_leaf : List PrefixTreeNode → Option ℕ → Option (List ℕ)
unfolding chain_up
path_chain_root_to_leaf nodes leaf = elim (chain_up (length nodes) nodes leaf) [
  | none ↦ none
  | some up ↦ some (reverse up)
]

-- `values[start : start + n]`
abbrev pub slice {ℓ} : {A : Type ℓ} → List A → ℕ → ℕ → List A
slice values start n = take n (drop start values)

module _ {ℓ} {A : Type ℓ} where
  -- The inner loop of `unpack_tensor_from_merged`, which reads one path's values.
  unfoldable pub read_chain : List A → List PrefixTreeNode → List ℕ → ℕ → ℕ → Option (List A)
  read_chain values nodes [] path_len offset = some []
  read_chain values nodes (n ∷ ns) path_len offset = elim (get_elem? nodes n) [
    | none ↦ none
    | some nd ↦
        let width = min (nd.end - nd.start) (path_len - offset) in
        elim (width == 0) [
          | true ↦ some []
          | false ↦ elim (read_chain values nodes ns path_len (offset + width)) [
            | none ↦ none
            | some more ↦ some (slice values nd.start width ++ more)
          ]
        ]
  ]

  -- One round of the outer loop, with the zeros that fill a short result.
  unfoldable pub unpack_path : A → List A → List PrefixTreeNode → Option ℕ → ℕ → Option (List A)
  unfolding path_chain_root_to_leaf read_chain
  unpack_path fill values nodes leaf path_len = elim (path_chain_root_to_leaf nodes leaf) [
    | none ↦ none
    | some chain ↦ elim (read_chain values nodes chain path_len 0) [
      | none ↦ none
      | some out ↦ some (out ++ replicate (path_len - length out) fill)
    ]
  ]

  -- `unpack_tensor_from_merged`, over `path_to_leaf` and `turn_sample_lens` (of one length).
  unfoldable pub unpack_tensor_from_merged :
      A → List A → List PrefixTreeNode → List (Option ℕ × ℕ) → List ℕ → Option (List (List A))
  unfolding unpack_path
  unpack_tensor_from_merged fill values nodes [] lens = some []
  unpack_tensor_from_merged fill values nodes ((leaf, _) ∷ leaves) [] = none
  unpack_tensor_from_merged fill values nodes ((leaf, _) ∷ leaves) (len ∷ lens) =
      elim (unpack_path fill values nodes leaf len) [
        | none ↦ none
        | some out ↦ elim (unpack_tensor_from_merged fill values nodes leaves lens) [
          | none ↦ none
          | some outs ↦ some (out ∷ outs)
        ]
      ]
