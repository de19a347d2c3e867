-- ===== src/PrefixTree.antt =====
-- axrl/utils/megatron/prefix_tree.py: the label-aware prefix tree.
pub mod Shared
mod Steps
pub mod Estimate
pub mod Paths
pub mod Build
pub mod Layout
pub mod Labels
pub mod Ranges
pub mod Positions
mod Tests
use axrl.Prelude.{
  ℕ, zero, suc, ◌+◌, ◌-◌, Bool, false, ◌&&◌, List, [], ◌∷◌, ◌++◌, length, take, drop, ltb, ◌==◌,
  if◌then◌else◌,
}

-- The list of children of a `_MergingTreeNode`: each entry is a child's `tokens`, its
-- `path_owners` and its own `children`, and then come the later siblings.
pub data Children : Type 0 where
  nil : Children
  child : List ℕ → List ℕ → Children → Children → Children

-- The `while` loop of `_label_aware_common_prefix_len`, before the truncation.
unfoldable pub common_prefix_len : List ℕ → List ℕ → ℕ
common_prefix_len [] ys = 0
common_prefix_len (x ∷ xs) [] = 0
common_prefix_len (x ∷ xs) (y ∷ ys) = if x == y then suc (common_prefix_len xs ys) else 0

unfoldable pub label_aware_common_prefix_len : List ℕ → List ℕ → ℕ
unfolding common_prefix_len
label_aware_common_prefix_len tokens suffix =
    let k = common_prefix_len tokens suffix in
    if ltb 0 k && (ltb k (length suffix) && ltb k (length tokens)) then k - 1 else k

-- `child.tokens and child.tokens[0] == suffix[0]`, for a suffix that is not empty.
unfoldable pub same_head : List ℕ → List ℕ → Bool
same_head (x ∷ xs) (y ∷ ys) = x == y
same_head _ _ = false

-- How many tokens `child` and `suffix` share; 0 makes the loops go on to the next child.
unfoldable pub shared_len : List ℕ → List ℕ → ℕ
unfolding label_aware_common_prefix_len same_head
shared_len tokens suffix =
    if same_head tokens suffix then label_aware_common_prefix_len tokens suffix else 0

-- A child while `_insert_path` descends into it: its `tokens`, `path_owners` and `children`.
pub record Entry : Type 0 where
  pub tokens : List ℕ
  pub owners : List ℕ
  pub kids : Children

-- `if k < len(child.tokens)`: the rest of the tokens, the owners and the children move to a new
-- node below.
unfoldable pub split : ℕ → List ℕ → List ℕ → Children → Entry
split k tokens owners kids = elim (drop k tokens) [
  | [] ↦ record { tokens = tokens; owners = owners; kids = kids }
  | x ∷ xs ↦ record { tokens = take k tokens; owners = []; kids = child (x ∷ xs) owners kids nil }
]

-- The loop of `_insert_path` over the children, for a suffix that is not empty: the new children,
-- and the number of tokens added. The test `if not suffix` of the recursive call is made where
-- `suffix[k:]` is taken. Each such call has a shorter suffix, so its length is enough fuel.
unfoldable pub insert : ℕ → Children → List ℕ → ℕ → Children × ℕ
insert zero cs suffix i = (cs, 0)
insert (suc f) nil suffix i = (child suffix (i ∷ []) nil nil, length suffix)
insert (suc f) (child tokens owners kids rest) suffix i = elim (shared_len tokens suffix) [
  | zero ↦
      let (rest', added) = insert (suc f) rest suffix i in (child tokens owners kids rest', added)
  | suc k ↦
      let c = split (suc k) tokens owners kids in
      elim (drop (suc k) suffix) [
        | [] ↦ (child c.tokens (c.owners ++ i ∷ []) c.kids rest, 0)
        | y ∷ ys ↦
            let (kids', added) = insert f c.kids (y ∷ ys) i in
            (child c.tokens c.owners kids' rest, added)
      ]
]

-- `_added_len_after_split`; `from_children` is `_added_len_if_insert_from_children`.
unfoldable pub added_len_after_split : (Children → List ℕ → ℕ) → ℕ → List ℕ → Children → List ℕ → ℕ
added_len_after_split from_children f tokens kids [] = 0
added_len_after_split from_children zero tokens kids (y ∷ ys) = 0
added_len_after_split from_children (suc f) tokens kids (y ∷ ys) =
    elim (label_aware_common_prefix_len tokens (y ∷ ys)) [
      | zero ↦ length (y ∷ ys)
      | suc k ↦ elim (drop (suc k) tokens) [
        | [] ↦ from_children kids (drop (suc k) (y ∷ ys))
        | x ∷ xs ↦ added_len_after_split from_children f (x ∷ xs) kids (drop (suc k) (y ∷ ys))
      ]
    ]

-- `_added_len_if_insert_from_children`. The loop of `_added_len_if_insert` over the children of a
-- node is the same code.
unfoldable pub added_len : ℕ → Children → List ℕ → ℕ
added_len f cs [] = 0
added_len zero cs (y ∷ ys) = 0
added_len (suc f) nil (y ∷ ys) = length (y ∷ ys)
added_len (suc f) (child tokens owners kids rest) (y ∷ ys) = elim (shared_len tokens (y ∷ ys)) [
  | zero ↦ added_len (suc f) rest (y ∷ ys)
  | suc k ↦ elim (drop (suc k) tokens) [
    | [] ↦ added_len f kids (drop (suc k) (y ∷ ys))
    | x ∷ xs ↦ added_len_after_split (added_len f) f (x ∷ xs) kids (drop (suc k) (y ∷ ys))
  ]
]

-- `MergingTree`: the root's `path_owners` and `children`, `packed_len` and `path_count`.
pub record MergingTree : Type 0 where
  pub root_owners : List ℕ
  pub children : Children
  pub packed_len : ℕ
  pub path_count : ℕ

abbrev pub empty : MergingTree
empty = record { root_owners = []; children = nil; packed_len = 0; path_count = 0 }

-- `MergingTree.add_path`, with the test `if not suffix` of `_insert_path` at the root.
unfoldable pub add_path : MergingTree → List ℕ → MergingTree
unfolding insert
add_path t [] = record t {
  root_owners = t.root_owners ++ t.path_count ∷ [];
  path_count = t.path_count + 1;
}
add_path t (y ∷ ys) =
    let (children, added) = insert (length (y ∷ ys)) t.children (y ∷ ys) t.path_count in
    record t {
      children = children;
      packed_len = t.packed_len + added;
      path_count = t.path_count + 1;
    }

-- `MergingTree.get_packed_len_if_add_path`
unfoldable pub get_packed_len_if_add_path : MergingTree → List ℕ → ℕ
unfolding added_len
get_packed_len_if_add_path t path = t.packed_len + added_len (length path) t.children path

-- The loop of `build_tree_packed_sequence` over the paths.
unfoldable pub add_paths : MergingTree → List (List ℕ) → MergingTree
unfolding add_path
add_paths t [] = t
add_paths t (path ∷ paths) = add_paths (add_path t path) paths
