-- ===== src/Data/Packing/Groups.antt =====
-- rollout_trace.py: what the groups of `to_packed_samples` are.
use axrl.Prelude.{
  ℕ, ◌≤◌, ◌<◌, ◌≡◌, inl, inr, refl, ap, sym, ◌∙◌, true, false, List, [], ◌∷◌, ◌++◌, map, map-append,
  Result, ok, length, All, ltb, leb, Bool-cases, append_assoc, arith,
}
use axrl.Data.Sample.{Sample}
use axrl.PrefixTree.{MergingTree, empty, insert, add_path, add_paths, get_packed_len_if_add_path}
use axrl.PrefixTree.Estimate.{packed_len-add_path}
use axrl.Data.Packing.{has_samples, group_samples, packed_groups}

-- The tree of a group.
abbrev pub tree_of : List Sample → MergingTree
tree_of group = add_paths empty (map (λ s. s.input_ids) group)

abbrev pub concat : List (List Sample) → List Sample
concat [] = []
concat (g ∷ gs) = g ++ concat gs

add_paths-append :
    (t : MergingTree) (ps : List (List ℕ)) (p : List ℕ)
    → add_paths t (ps ++ p ∷ []) ≡ add_path (add_paths t ps) p
unfolding add_paths
add_paths-append t [] p = refl
add_paths-append t (q ∷ ps) p = add_paths-append (add_path t q) ps p

tree_of-append :
    (group : List Sample) (s : Sample)
    → tree_of (group ++ s ∷ []) ≡ add_path (tree_of group) s.input_ids
tree_of-append group s =
    ap (add_paths empty) (map-append (λ s. s.input_ids) group (s ∷ []))
    ∙ add_paths-append empty (map (λ s. s.input_ids) group) s.input_ids

tree_of-one : (s : Sample) → tree_of (s ∷ []) ≡ add_path empty s.input_ids
unfolding add_paths
tree_of-one s = refl

packed_len-one : (path : List ℕ) → (add_path empty path).packed_len ≡ length path
unfolding add_path insert
packed_len-one [] = refl
packed_len-one (y ∷ ys) = omega arith

-- What the groups have.
pub record Grouped (max_pack_length : ℕ) (samples : List Sample) (res : Result (List (List Sample)))
    : Type 0 where
  pub groups : List (List Sample)
  pub returns : res ≡ ok groups
  pub complete : concat groups ≡ samples
  pub no_empty : All (λ g. has_samples g ≡ true) groups
  pub bounded : All (λ g. (tree_of g).packed_len ≤ max_pack_length) groups

has_samples-append : (group : List Sample) (s : Sample) → has_samples (group ++ s ∷ []) ≡ true
has_samples-append [] s = refl
has_samples-append (g ∷ group) s = refl

group_samples-Grouped :
    (m : ℕ) (g : Sample) (group : List Sample) (ss : List Sample)
    → (tree_of (g ∷ group)).packed_len ≤ m
    → All (λ s. length s.input_ids ≤ m) ss
    → Grouped m ((g ∷ group) ++ ss) (group_samples m (g ∷ group) (tree_of (g ∷ group)) ss)
unfolding group_samples
group_samples-Grouped m g group [] b h = record {
  groups = (g ∷ group) ∷ [];
  returns = refl;
  complete = refl;
  no_empty = (refl, tt);
  bounded = (b, tt);
}
group_samples-Grouped m g group (s ∷ ss) b h =
    let short : ltb m (length s.input_ids) ≡ false = ground (arith, h.0) in
    let tree = tree_of (g ∷ group) in
    elim (Bool-cases (leb (get_packed_len_if_add_path tree s.input_ids) m)) [
      | inl f ↦
          let same = tree_of-append (g ∷ group) s in
          let b' : (tree_of ((g ∷ group) ++ s ∷ [])).packed_len ≤ m =
            rw same (ground (arith, f, packed_len-add_path tree s.input_ids)) in
          let r = group_samples-Grouped m g (group ++ s ∷ []) ss b' h.1 in
          record {
            groups = r.groups;
            returns =
                rw (short, f)
                  (ap (λ t. group_samples m ((g ∷ group) ++ s ∷ []) t ss) (sym same) ∙ r.returns);
            complete = r.complete ∙ append_assoc (g ∷ group) (s ∷ []) ss;
            no_empty = r.no_empty;
            bounded = r.bounded;
          }
      | inr f ↦
          let one = tree_of-one s in
          let b' : (tree_of (s ∷ [])).packed_len ≤ m =
            rw one (omega (arith, packed_len-one s.input_ids, h.0)) in
          let r = group_samples-Grouped m s [] ss b' h.1 in
          let r' : group_samples m (s ∷ []) (add_path empty s.input_ids) ss ≡ ok r.groups =
            ap (λ t. group_samples m (s ∷ []) t ss) (sym one) ∙ r.returns in
          record {
            groups = (g ∷ group) ∷ r.groups;
            returns = rw (short, f, r') refl;
            complete = ap (λ l. (g ∷ group) ++ l) r.complete;
            no_empty = (refl, r.no_empty);
            bounded = (b, r.bounded);
          }
    ]

-- Where a rollout has turn samples and none is longer than `max_pack_length`, the grouping returns.
-- Its groups are not empty, together they are the turn samples in order, and the merged tree of
-- each has at most `max_pack_length` tokens.
pub packed_groups-Grouped :
    (m : ℕ) (s : Sample) (ss : List Sample)
    → 0 < m
    → All (λ s. length s.input_ids ≤ m) (s ∷ ss)
    → Grouped m (s ∷ ss) (packed_groups m (s ∷ ss))
unfolding packed_groups group_samples
packed_groups-Grouped m s ss p h =
    let pos : ltb 0 m ≡ true = ground (arith, p) in
    let short : ltb m (length s.input_ids) ≡ false = ground (arith, h.0) in
    let first : (add_path empty s.input_ids).packed_len ≤ m =
      omega (arith, packed_len-one s.input_ids, h.0) in
    let f : leb (get_packed_len_if_add_path empty s.input_ids) m ≡ true =
      ground (arith, packed_len-add_path empty s.input_ids, first) in
    let one = tree_of-one s in
    let r = group_samples-Grouped m s [] ss (rw one first) h.1 in
    let r' : group_samples m (s ∷ []) (add_path empty s.input_ids) ss ≡ ok r.groups =
      ap (λ t. group_samples m (s ∷ []) t ss) (sym one) ∙ r.returns in
    record {
      groups = r.groups;
      returns = rw (pos, short, f) r';
      complete = r.complete;
      no_empty = r.no_empty;
      bounded = r.bounded;
    }
