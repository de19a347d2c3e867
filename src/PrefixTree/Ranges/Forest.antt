-- ===== src/PrefixTree/Ranges/Forest.antt =====
-- prefix_tree.py: `merge_prefix_merge_infos` against `build_prefix_merge_info`.
use mathlib.Core.Path.{subst}
use axrl.Prelude.{
  ℕ, ◌+◌, ◌≡◌, refl, ap, sym, ◌∙◌, true, Option, List, [], ◌∷◌, ◌++◌, map, append_assoc, ok,
  >>=-eq-ok, >>=-ok, ok-eq, assert-eq-ok, length, length-append, length-map, All, max, arith, ◌==◌,
}
use axrl.PrefixTree.Layout.{PrefixTreeNode, chain_up}
use axrl.PrefixTree.Ranges.{
  Range, looked_up, own_range, ancestor_ranges, ranges_of, build_prefix_tree_ranges, len_up,
  compute_max_path_length, PrefixMergeInfo, build_prefix_merge_info, shift_node, shift_leaf,
  merge_from, merge_prefix_merge_infos,
}
use axrl.PrefixTree.Ranges.Shifted.{HasLeaf, forest, ranges_of-forest, compute_max-forest}

-- The metadata of one trajectory, of which every path ends at a node.
abbrev pub IsBuilt : PrefixMergeInfo → Type 0
IsBuilt info =
    (build_prefix_merge_info info.nodes info.path_to_leaf info.total_padded info.turn_sample_lens
        info.real_total
      ≡ ok info)
    × All HasLeaf info.path_to_leaf

-- Metadata that fits given nodes.
abbrev IsOf : List PrefixTreeNode → PrefixMergeInfo → Type 0
IsOf nodes m =
    (ranges_of nodes m.nodes ≡ ok m.ranges)
    × (compute_max_path_length nodes m.path_to_leaf ≡ ok m.max_path_len)
    × (length m.turn_sample_lens ≡ length m.path_to_leaf)

IsBuilt-IsOf : (info : PrefixMergeInfo) → IsBuilt info → IsOf info.nodes info
unfolding build_prefix_merge_info build_prefix_tree_ranges
IsBuilt-IsOf info (h, ends) =
    let (ranges, e, h) = >>=-eq-ok (ranges_of info.nodes info.nodes) _ h in
    let (same, h) = assert-eq-ok (length info.turn_sample_lens == length info.path_to_leaf) _ h in
    let (m, g, h) = >>=-eq-ok (compute_max_path_length info.nodes info.path_to_leaf) _ h in
    let built = ok-eq h in
    (
      e ∙ ap (λ (i : PrefixMergeInfo). ok i.ranges) built,
      g ∙ ap (λ (i : PrefixMergeInfo). ok i.max_path_len) built,
      ground (arith, same),
    )

module _ (nodes : List PrefixTreeNode) where
  ranges_of-append :
      (xs ys : List PrefixTreeNode) {rs more : List Range}
      → ranges_of nodes xs ≡ ok rs
      → ranges_of nodes ys ≡ ok more
      → ranges_of nodes (xs ++ ys) ≡ ok (rs ++ more)
  unfolding ranges_of
  ranges_of-append [] ys {more = more} e f = f ∙ ap (λ r. ok (r ++ more)) (ok-eq e)
  ranges_of-append (x ∷ xs) ys {more = more} h f =
      let (chain, e, h) = >>=-eq-ok (looked_up (chain_up (length nodes) nodes x.parent)) _ h in
      let (ranges, g, h) = >>=-eq-ok (ancestor_ranges nodes x chain) _ h in
      let (rest, k, h) = >>=-eq-ok (ranges_of nodes xs) _ h in
      >>=-ok (looked_up (chain_up (length nodes) nodes x.parent)) _ e (
        >>=-ok (ancestor_ranges nodes x chain) _ g (
          >>=-ok (ranges_of nodes (xs ++ ys)) _ (ranges_of-append xs ys k f) (
            ap ok (sym (append_assoc ranges (own_range x ∷ rest) more))
            ∙ ap (λ r. ok (r ++ more)) (ok-eq h))))

  compute_max-append :
      (xs ys : List (Option ℕ × ℕ)) {m n : ℕ}
      → compute_max_path_length nodes xs ≡ ok m
      → compute_max_path_length nodes ys ≡ ok n
      → compute_max_path_length nodes (xs ++ ys) ≡ ok (max m n)
  unfolding compute_max_path_length
  compute_max-append [] ys {m = m} {n = n} e f =
      let z : n ≡ max m n = omega (arith, ok-eq e) in f ∙ ap ok z
  compute_max-append (x ∷ xs) ys {m = m} {n = n} h f =
      let (l, e, h) = >>=-eq-ok (len_up nodes x.0) _ h in
      let (rest, g, h) = >>=-eq-ok (compute_max_path_length nodes xs) _ h in
      let z : max l (max rest n) ≡ max m n = omega (arith, ok-eq h) in
      >>=-ok (len_up nodes x.0) _ e (
        >>=-ok (compute_max_path_length nodes (xs ++ ys)) _ (compute_max-append xs ys g f)
          (ap ok z))

merge_from-IsOf :
    (front : List PrefixTreeNode) (pos : ℕ) (infos : List PrefixMergeInfo)
    → All IsBuilt infos
    → IsOf
        (front ++ (merge_from pos (length front) infos).nodes)
        (merge_from pos (length front) infos)
unfolding merge_from
merge_from-IsOf front pos [] h =
    (unfold ranges_of in refl, unfold compute_max_path_length in refl, refl)
merge_from-IsOf front pos (info ∷ infos) (built, h) =
    let own = map (shift_node pos (length front)) info.nodes in
    let next = pos + info.total_padded in
    let more = merge_from next (length front + length info.nodes) infos in
    let l : length (front ++ own) ≡ length front + length info.nodes =
      length-append front own
      ∙ ap (◌+◌ (length front)) (length-map info.nodes (shift_node pos (length front))) in
    let later : IsOf ((front ++ own) ++ more.nodes) more =
      subst
        (λ k. IsOf ((front ++ own) ++ (merge_from next k infos).nodes) (merge_from next k infos)) l
        (merge_from-IsOf (front ++ own) next infos h) in
    let (r, m, n) : IsOf (forest front info.nodes more.nodes pos) more =
      subst (λ nodes. IsOf nodes more) (append_assoc front own more.nodes) later in
    let (r', m', n') = IsBuilt-IsOf info built in
    let all = forest front info.nodes more.nodes pos in
    (
      ranges_of-append all own more.nodes
          (ranges_of-forest front info.nodes more.nodes pos info.nodes r') r,
      compute_max-append all (map (shift_leaf (length front)) info.path_to_leaf) more.path_to_leaf
          (compute_max-forest front info.nodes more.nodes pos info.path_to_leaf built.1 m') m,
      omega (
        arith,
        length-append info.turn_sample_lens more.turn_sample_lens,
        length-append (map (shift_leaf (length front)) info.path_to_leaf) more.path_to_leaf,
        length-map info.path_to_leaf (shift_leaf (length front)),
        n,
        n',
      ),
    )

-- The merged metadata of trajectories is the metadata of their forest: built anew from the merged
-- nodes, paths and lengths, it has the same attention ranges and the same longest path. Each
-- trajectory's own metadata must be built, and each of its paths end at a node.
pub merge_prefix_merge_infos-built :
    (infos : List PrefixMergeInfo)
    → All IsBuilt infos
    → build_prefix_merge_info
        (merge_prefix_merge_infos infos).nodes
        (merge_prefix_merge_infos infos).path_to_leaf
        (merge_prefix_merge_infos infos).total_padded
        (merge_prefix_merge_infos infos).turn_sample_lens
        (merge_prefix_merge_infos infos).real_total
      ≡ ok (merge_prefix_merge_infos infos)
unfolding merge_prefix_merge_infos build_prefix_merge_info build_prefix_tree_ranges
merge_prefix_merge_infos-built infos h =
    let m = merge_from 0 0 infos in
    let (r, longest, n) = merge_from-IsOf [] 0 infos h in
    let same : (length m.turn_sample_lens == length m.path_to_leaf) ≡ true = ground (arith, n) in
    rw (r, same, longest) refl
