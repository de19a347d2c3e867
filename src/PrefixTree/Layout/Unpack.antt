-- ===== src/PrefixTree/Layout/Unpack.antt =====
-- prefix_tree.py: `unpack_tensor_from_merged` after `build_tree_packed_sequence`.
use mathlib.Core.List.{reverse, reverse-cons}
use mathlib.Core.Path.{subst}
use native.Mathlib.Nat.{add-zero}
use axrl.Prelude.{
  ℕ, zero, suc, ◌+◌, ◌-◌, ◌≤◌, ◌<◌, ◌≡◌, ◌≢◌, inl, inr, refl, ap, sym, ◌∙◌, false, Option, none,
  some, List, [], ◌∷◌, ◌++◌, map, length, drop, get_elem?, replicate, arith, min, append_assoc,
  append-nil, length-append, length-replicate, All, All-get_elem?, some-eq, get_elem?-lt, ◌==◌,
  ℕ-cases, List-cases,
}
use axrl.PrefixTree.{
  Children, nil, child, shared_len, split, insert, MergingTree, empty, add_path, add_paths,
}
use axrl.PrefixTree.Steps.{split_whole, split_below, insert_next, insert_end, insert_below}
use axrl.PrefixTree.Build.{Holds, add_paths-empty-Holds}
use axrl.PrefixTree.Layout.{
  PrefixTreeNode, Layout, build_tree_packed_sequence, chain_up, path_chain_root_to_leaf, slice,
  read_chain, unpack_path, unpack_tensor_from_merged,
}
use axrl.PrefixTree.Layout.Reads.{Before, Covers, Reads, root, step}
use axrl.PrefixTree.Layout.Emit.{IsFull, Found, Emitted, emit-Emitted, Before-mono}

split-IsFull :
    (k : ℕ) (tokens owners : List ℕ) (kids : Children)
    → tokens ≢ []
    → IsFull kids
    → ((split (suc k) tokens owners kids).tokens ≢ [])
      × IsFull (split (suc k) tokens owners kids).kids
split-IsFull k [] owners kids full h = absurd (full refl)
split-IsFull k (t ∷ ts) owners kids full h = elim (List-cases (drop k ts)) [
  | inl d ↦ rw (split_whole (suc k) (t ∷ ts) owners kids d) (full, h)
  | inr (x, xs, d) ↦ rw (split_below (suc k) (t ∷ ts) owners kids d) (λ e. cc, (λ e. cc, h, tt))
]

-- An insertion makes no node without tokens.
insert-IsFull :
    (f : ℕ) (cs : Children) (suffix : List ℕ) (i : ℕ)
    → suffix ≢ []
    → IsFull cs
    → IsFull (insert f cs suffix i).0
insert-IsFull zero cs suffix i s h = unfold insert in h
insert-IsFull (suc f) nil suffix i s h = unfold insert in (s, tt, tt)
insert-IsFull (suc f) (child tokens owners kids rest) suffix i s h =
    elim (ℕ-cases (shared_len tokens suffix)) [
      | inl e ↦
          rw (insert_next f tokens owners kids rest suffix i e)
            (h.0, h.1, insert-IsFull (suc f) rest suffix i s h.2)
      | inr (k, e) ↦
          let (front, below) = split-IsFull k tokens owners kids h.0 h.1 in
          elim (List-cases (drop (suc k) suffix)) [
            | inl d ↦ rw (insert_end f tokens owners kids rest suffix i e d) (front, below, h.2)
            | inr (z, zs, d) ↦
                rw (insert_below f tokens owners kids rest suffix i e d)
                  (front, insert-IsFull f _ (z ∷ zs) i (λ e'. cc) below, h.2)
          ]
    ]

add_path-IsFull :
    (t : MergingTree) (path : List ℕ) → IsFull t.children → IsFull (add_path t path).children
unfolding add_path
add_path-IsFull t [] h = h
add_path-IsFull t (y ∷ ys) h =
    insert-IsFull (suc (length ys)) t.children (y ∷ ys) t.path_count (λ e. cc) h

add_paths-IsFull :
    (t : MergingTree) (paths : List (List ℕ))
    → IsFull t.children
    → IsFull (add_paths t paths).children
unfolding add_paths
add_paths-IsFull t [] h = h
add_paths-IsFull t (path ∷ paths) h =
    add_paths-IsFull (add_path t path) paths (add_path-IsFull t path h)

slice-parts :
    (before t after : List ℕ) → slice (before ++ (t ++ after)) (length before) (length t) ≡ t
slice-parts [] [] after = refl
slice-parts [] (x ∷ t) after = ap (◌∷◌ x) (slice-parts [] t after)
slice-parts (b ∷ before) t after = slice-parts before t after

slice-Covers :
    {packed : List ℕ} {nd : PrefixTreeNode} {t : List ℕ}
    → Covers packed nd t
    → slice packed nd.start (length t) ≡ t
slice-Covers {t = t} c = rw (c.parts, c.starts) (slice-parts c.before t c.after)

length-pos : (t : List ℕ) → t ≢ [] → 0 < length t
length-pos [] h = absurd (h refl)
length-pos (x ∷ t) h = omega arith

module _ (packed : List ℕ) (nodes : List PrefixTreeNode) where
  -- One node of the chain is read in whole, as long as the path is long enough.
  read_chain_node :
      (n : ℕ) (nd : PrefixTreeNode) (t ms : List ℕ) (len offset : ℕ) (more : List ℕ)
      → get_elem? nodes n ≡ some nd
      → Covers packed nd t
      → t ≢ []
      → offset + length t ≤ len
      → read_chain packed nodes ms len (offset + length t) ≡ some more
      → read_chain packed nodes (n ∷ ms) len offset ≡ some (t ++ more)
  unfolding read_chain
  read_chain_node n nd t ms len offset more e c full fits rest =
      rw (e, read_chain)
        (rw go (rw width (rw rest (rw width (ap (λ u. some (u ++ more)) (slice-Covers c))))))
    where
      width : min (nd.end - nd.start) (len - offset) ≡ length t
      width = omega (arith, c.ends)

      go : (min (nd.end - nd.start) (len - offset) == 0) ≡ false
      go = rw width (ground (arith, length-pos t full))

  -- The chain that ends at a node, and what reading it gives.
  record Chain (f : ℕ) (o : Option ℕ) (p : List ℕ) : Type 0 where
    up : List ℕ
    chained : chain_up f nodes o ≡ some up
    reads :
        (ms : List ℕ) (len offset : ℕ) (more : List ℕ)
        → offset + length p ≤ len
        → read_chain packed nodes ms len (offset + length p) ≡ some more
        → read_chain packed nodes (reverse up ++ ms) len offset ≡ some (p ++ more)

  chain_up_step :
      (n : ℕ) (nd : PrefixTreeNode) (f : ℕ) {up : List ℕ}
      → get_elem? nodes n ≡ some nd
      → chain_up f nodes nd.parent ≡ some up
      → chain_up (suc f) nodes (some n) ≡ some (n ∷ up)
  unfolding chain_up
  chain_up_step n nd f e c = rw (e, chain_up) (rw c)

  Chain-Reads :
      {o : Option ℕ} {p : List ℕ} (f : ℕ) → Reads packed nodes o p → Before o f → Chain f o p
  Chain-Reads f root b = record {
    up = [];
    chained = unfold chain_up in refl;
    reads = λ ms len offset more fits rest. rw (add-zero offset) at rest;
  }
  Chain-Reads zero (step nd e b' r c full) b = absurd (omega arith)
  Chain-Reads (suc f) (step {n = n} {p = p} {t = t} nd e b' r c full) b =
      let above = Chain-Reads f r (Before-mono nd.parent n f (omega arith) b') in
      record {
        up = n ∷ above.up;
        chained = chain_up_step n nd f e above.chained;
        reads = λ ms len offset more fits rest.
            rw
              (
                reverse-cons n above.up,
                append_assoc (reverse above.up) (n ∷ []) ms,
                append_assoc p t more,
              )
              (above.reads (n ∷ ms) len offset (t ++ more) (omega (arith, length-append p t)) (
                read_chain_node n nd t ms len (offset + length p) more e c full
                  (omega (arith, length-append p t)) (rw (ends offset) at rest)));
      }
    where
      ends : (offset : ℕ) → offset + length (p ++ t) ≡ offset + length p + length t
      ends offset = omega (arith, length-append p t)

  -- A path's tokens come back when its leaf spells them.
  unpack_path-Reads :
      (leaf : ℕ) (path : List ℕ)
      → Reads packed nodes (some leaf) path
      → leaf < length nodes
      → unpack_path 0 packed nodes (some leaf) (length path) ≡ some path
  unpack_path-Reads leaf path r low =
      let c = Chain-Reads (length nodes) r low in
      let whole : read_chain packed nodes (reverse c.up) (length path) 0 ≡ some path =
        subst (λ l. read_chain packed nodes l (length path) 0 ≡ some path)
          (append-nil (reverse c.up))
          (c.reads [] (length path) 0 [] (omega arith) (unfold read_chain in refl)
            ∙ ap some (append-nil path)) in
      unfold unpack_path path_chain_root_to_leaf in
      rw (c.chained, unpack_path, path_chain_root_to_leaf) (rw whole (ap some filled))
    where
      none_left : length path - length path ≡ 0
      none_left = omega arith

      filled : path ++ replicate (length path - length path) 0 ≡ path
      filled = rw none_left (append-nil path)

abbrev UnpacksFrom : Layout → List (Option ℕ × ℕ) → ℕ → List ℕ → Type 0
UnpacksFrom l leaves i path =
    (leaf : Option ℕ) × (prefix_len : ℕ) × (get_elem? leaves i ≡ some (leaf, prefix_len))
    × (unpack_path 0 l.packed l.nodes leaf (length path) ≡ some path)

-- Path `i` of the layout is read back as `path`.
abbrev Unpacks : Layout → ℕ → List ℕ → Type 0
Unpacks l i path = UnpacksFrom l l.path_to_leaf i path

unpack_all :
    (l : Layout) (leaves : List (Option ℕ × ℕ)) (paths : List (List ℕ))
    → length leaves ≡ length paths
    → ((i : ℕ) (path : List ℕ) → get_elem? paths i ≡ some path → UnpacksFrom l leaves i path)
    → unpack_tensor_from_merged 0 l.packed l.nodes leaves (map length paths) ≡ some paths
unfolding unpack_tensor_from_merged
unpack_all l [] [] n h = refl
unpack_all l [] (path ∷ paths) n h = absurd (omega arith)
unpack_all l (leaf ∷ leaves) [] n h = absurd (omega arith)
unpack_all l ((leaf, k) ∷ leaves) (path ∷ paths) n h =
    let (leaf', k', e, u) = h 0 path refl in
    let same : leaf ≡ leaf' = ap (λ x. x.0) (some-eq e) in
    rw (same, u, unpack_tensor_from_merged)
      (rw (unpack_all l leaves paths (omega arith) (λ i q. h (suc i) q)))

module _ (paths : List (List ℕ)) where
  abbrev tree : MergingTree
  tree = add_paths empty paths

  abbrev start : Layout
  start = record { packed = []; nodes = []; path_to_leaf = replicate tree.path_count (none, 0) }

  built : Emitted [] tree.children start (build_tree_packed_sequence paths)
  unfolding build_tree_packed_sequence
  built = emit-Emitted tree.children [] none 0 start (add_paths-IsFull empty paths tt) tt root

  leaf_lt :
      (n : ℕ) {p : List ℕ} (l : Layout) → Reads l.packed l.nodes (some n) p → n < length l.nodes
  leaf_lt n l (step nd e b r c full) = get_elem?-lt l.nodes n e

  -- Where path `i` stands in the layout.
  located :
      (i : ℕ) (path : List ℕ)
      → get_elem? paths i ≡ some path
      → path ≢ []
      → Found [] tree.children (build_tree_packed_sequence paths) i
  located i path e full =
      elim (built.found i (omega (arith, held.counted, get_elem?-lt paths i e, count))) [
        | inl f ↦ f
        | inr (_, absent) ↦ elim (held.complete i path e) [
          | inl (_, p) ↦ absurd (full p)
          | inr s ↦ absurd (absent path s)
        ]
      ]
    where
      held : Holds tree paths
      held = add_paths-empty-Holds paths

      count : length start.path_to_leaf ≡ tree.path_count
      count = length-replicate tree.path_count (none, 0)

  -- Path `i` comes back through its entry of `path_to_leaf`.
  unpack_one :
      (i : ℕ) (path : List ℕ)
      → get_elem? paths i ≡ some path
      → path ≢ []
      → Unpacks (build_tree_packed_sequence paths) i path
  unpack_one i path e full =
      let f = located i path e full in
      let same : f.tail ≡ path =
        some-eq (sym ((add_paths-empty-Holds paths).sound i f.tail (inr f.spells)) ∙ e) in
      let r : Reads l.packed l.nodes (some f.leaf) path =
        subst (λ q. Reads l.packed l.nodes (some f.leaf) q) same f.reads in
      (
        some f.leaf,
        f.prefix_len,
        f.stored,
        unpack_path-Reads l.packed l.nodes f.leaf path r (leaf_lt f.leaf l r),
      )
    where
      l : Layout
      l = build_tree_packed_sequence paths

  count_leaves : length (build_tree_packed_sequence paths).path_to_leaf ≡ length paths
  count_leaves =
      built.same_count
      ∙ length-replicate tree.path_count (none, 0)
      ∙ (add_paths-empty-Holds paths).counted

-- Merging and unpacking is the identity: `unpack_tensor_from_merged` reads the packed tokens of
-- `build_tree_packed_sequence paths`, along the nodes and `path_to_leaf` that it returns and with
-- the lengths of the paths, and gives back the list of paths. No path may be empty.
pub unpack-build_tree :
    (paths : List (List ℕ))
    → All (λ path. path ≢ []) paths
    → unpack_tensor_from_merged 0
        (build_tree_packed_sequence paths).packed
        (build_tree_packed_sequence paths).nodes
        (build_tree_packed_sequence paths).path_to_leaf
        (map length paths)
      ≡ some paths
unpack-build_tree paths full =
    unpack_all (build_tree_packed_sequence paths) _ paths (count_leaves paths)
      λ i path e. unpack_one paths i path e (All-get_elem? _ paths i full e)
