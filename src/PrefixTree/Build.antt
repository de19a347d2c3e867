-- ===== src/PrefixTree/Build.antt =====
-- prefix_tree.py: what a tree built by `add_path` holds, and its `packed_len`.
use axrl.Prelude.{
  ℕ, zero, suc, ◌+◌, ◌≡◌, ◌↔◌, refl, ap, sym, ◌∙◌, ◌⊎◌, inl, inr, some, List, [], ◌∷◌, ◌++◌, length,
  take, drop, get_elem?, arith, append_assoc, append-nil, length-append, take-append-drop,
  get_elem?-append_left, get_elem?-append_last, get_elem?-append_one, get_elem?-lt, ℕ-cases,
  List-cases,
}
use axrl.PrefixTree.{
  Children, nil, child, shared_len, split, insert, MergingTree, empty, add_path, add_paths,
}
use axrl.PrefixTree.Steps.{split_whole, split_below, insert_next, insert_end, insert_below}
use axrl.PrefixTree.Paths.{
  Owns, Spells, total, Owns-append, Owns-append_self, Owns-append-inv, insert-Spells_self,
  insert-Spells, insert-Spells-inv,
}

-- Path `i` of the tree ends at a node whose tokens, from the root on, are `path`.
abbrev pub HasPath : MergingTree → ℕ → List ℕ → Type 0
HasPath t i path = (Owns i t.root_owners × (path ≡ [])) ⊎ Spells i t.children path

-- The tree holds the paths of a list, each under its index, and no other.
pub record Holds (t : MergingTree) (paths : List (List ℕ)) : Type 0 where
  pub counted : t.path_count ≡ length paths
  pub sound : (i : ℕ) (path : List ℕ) → HasPath t i path → get_elem? paths i ≡ some path
  pub complete : (i : ℕ) (path : List ℕ) → get_elem? paths i ≡ some path → HasPath t i path

module _ (t : MergingTree) (paths : List (List ℕ)) (path : List ℕ) (h : Holds t paths) where
  added-path : (i : ℕ) → i ≡ t.path_count → get_elem? (paths ++ path ∷ []) i ≡ some path
  added-path i e = rw (e ∙ h.counted) (get_elem?-append_last paths path)

  kept-path : (i : ℕ) (q : List ℕ) → HasPath t i q → get_elem? (paths ++ path ∷ []) i ≡ some q
  kept-path i q m =
      let e = h.sound i q m in
      get_elem?-append_left paths (path ∷ []) i (get_elem?-lt paths i e) ∙ e

add_path-HasPath_self :
    (t : MergingTree) (path : List ℕ) → HasPath (add_path t path) t.path_count path
unfolding add_path
add_path-HasPath_self t [] = inl (Owns-append_self t.path_count t.root_owners, refl)
add_path-HasPath_self t (y ∷ ys) =
    inr (insert-Spells_self (suc (length ys)) t.children y ys t.path_count (omega arith))

add_path-HasPath :
    (t : MergingTree) (path : List ℕ) (i : ℕ) (q : List ℕ)
    → HasPath t i q
    → HasPath (add_path t path) i q
unfolding add_path
add_path-HasPath t [] i q (inl (o, e)) = inl (Owns-append i t.path_count t.root_owners o, e)
add_path-HasPath t [] i q (inr s) = inr s
add_path-HasPath t (y ∷ ys) i q (inl m) = inl m
add_path-HasPath t (y ∷ ys) i q (inr s) =
    inr (insert-Spells (suc (length ys)) t.children (y ∷ ys) t.path_count i q s)

add_path-HasPath-inv :
    (t : MergingTree) (path : List ℕ) (i : ℕ) (q : List ℕ)
    → HasPath (add_path t path) i q
    → HasPath t i q ⊎ ((i ≡ t.path_count) × (q ≡ path))
unfolding add_path
add_path-HasPath-inv t [] i q (inl (o, e)) = elim (Owns-append-inv i t.path_count t.root_owners o) [
  | inl o' ↦ inl (inl (o', e))
  | inr new ↦ inr (new, e)
]
add_path-HasPath-inv t [] i q (inr s) = inl (inr s)
add_path-HasPath-inv t (y ∷ ys) i q (inl m) = inl (inl m)
add_path-HasPath-inv t (y ∷ ys) i q (inr s) =
    elim (insert-Spells-inv (suc (length ys)) t.children (y ∷ ys) t.path_count i q s) [
      | inl s' ↦ inl (inr s')
      | inr new ↦ inr new
    ]

path_count-add_path :
    (t : MergingTree) (path : List ℕ) → (add_path t path).path_count ≡ t.path_count + 1
unfolding add_path
path_count-add_path t [] = refl
path_count-add_path t (y ∷ ys) = refl

pub add_path-Holds :
    (t : MergingTree) (paths : List (List ℕ)) (path : List ℕ)
    → Holds t paths
    → Holds (add_path t path) (paths ++ path ∷ [])
add_path-Holds t paths path h = record {
  counted = omega (arith, path_count-add_path t path, h.counted, length-append paths (path ∷ []));
  sound = λ i q m. elim (add_path-HasPath-inv t path i q m) [
    | inl old ↦ kept-path t paths path h i q old
    | inr (e, e') ↦ added-path t paths path h i e ∙ ap some (sym e')
  ];
  complete = λ i q e. elim (get_elem?-append_one paths path i e) [
    | inl old ↦ add_path-HasPath t path i q (h.complete i q old)
    | inr (e1, e2) ↦ rw (e1 ∙ sym h.counted, e2) (add_path-HasPath_self t path)
  ];
}

add_paths-Holds :
    (t : MergingTree) (held paths : List (List ℕ))
    → Holds t held
    → Holds (add_paths t paths) (held ++ paths)
unfolding add_paths
add_paths-Holds t held [] h = rw append-nil h
add_paths-Holds t held (path ∷ paths) h =
    rw (sym (append_assoc held (path ∷ []) paths))
      (add_paths-Holds (add_path t path) (held ++ path ∷ []) paths (add_path-Holds t held path h))

pub add_paths-empty-Holds : (paths : List (List ℕ)) → Holds (add_paths empty paths) paths
add_paths-empty-Holds paths = add_paths-Holds empty [] paths (record {
  counted = refl;
  sound = λ j q m. elim m [ inl (o, e) ↦ elim o [ ] | inr s ↦ elim s [ ] ];
  complete = λ j q e. cc;
})

-- The tree that is built from a list of paths holds exactly these paths: path `i` ends at a node
-- whose tokens, from the root on, are the `i`-th list, and at no node with other tokens.
pub add_paths-HasPath :
    (paths : List (List ℕ)) (i : ℕ) (path : List ℕ)
    → HasPath (add_paths empty paths) i path ↔ (get_elem? paths i ≡ some path)
add_paths-HasPath paths i path =
    let built = add_paths-empty-Holds paths in (built.sound i path, built.complete i path)

total-split :
    (k : ℕ) (tokens owners : List ℕ) (kids : Children)
    → length (split k tokens owners kids).tokens + total (split k tokens owners kids).kids
      ≡ length tokens + total kids
unfolding total
total-split k tokens owners kids = elim (List-cases (drop k tokens)) [
  | inl d ↦ rw (split_whole k tokens owners kids d) refl
  | inr (x, xs, d) ↦ rw (split_below k tokens owners kids d) (
      omega (
        arith,
        ap length (take-append-drop k tokens),
        length-append (take k tokens) (drop k tokens),
        ap length d,
      ))
]

total-child :
    (tokens owners : List ℕ) (kids rest : Children)
    → total (child tokens owners kids rest) ≡ length tokens + total kids + total rest
unfolding total
total-child tokens owners kids rest = refl

-- The number that `_insert_path` returns is the number of tokens that the tree has gained.
pub total-insert :
    (f : ℕ) (cs : Children) (suffix : List ℕ) (i : ℕ)
    → total (insert f cs suffix i).0 ≡ total cs + (insert f cs suffix i).1
total-insert zero cs suffix i = unfold insert in omega arith
total-insert (suc f) nil suffix i = unfold insert total in omega arith
total-insert (suc f) (child tokens owners kids rest) suffix i =
    elim (ℕ-cases (shared_len tokens suffix)) [
      | inl e ↦
          rw (insert_next f tokens owners kids rest suffix i e)
            (omega (arith, total-child, total-insert (suc f) rest suffix i))
      | inr (k, e) ↦
          let same = total-split (suc k) tokens owners kids in
          elim (List-cases (drop (suc k) suffix)) [
            | inl d ↦
                rw (insert_end f tokens owners kids rest suffix i e d) (omega (arith, total-child))
            | inr (z, zs, d) ↦
                rw (insert_below f tokens owners kids rest suffix i e d)
                  (omega (arith, total-child, total-insert f _ (z ∷ zs) i))
          ]
    ]

add_path-total :
    (t : MergingTree) (path : List ℕ)
    → t.packed_len ≡ total t.children
    → (add_path t path).packed_len ≡ total (add_path t path).children
unfolding add_path
add_path-total t [] h = h
add_path-total t (y ∷ ys) h =
    omega (arith, h, total-insert (suc (length ys)) t.children (y ∷ ys) t.path_count)

packed_len-add_paths :
    (t : MergingTree) (paths : List (List ℕ))
    → t.packed_len ≡ total t.children
    → (add_paths t paths).packed_len ≡ total (add_paths t paths).children
unfolding add_paths
packed_len-add_paths t [] h = h
packed_len-add_paths t (path ∷ paths) h =
    packed_len-add_paths (add_path t path) paths (add_path-total t path h)

-- `packed_len` of a tree built by `add_path` is the number of tokens in its nodes.
pub packed_len-eq-total :
    (paths : List (List ℕ))
    → (add_paths empty paths).packed_len ≡ total (add_paths empty paths).children
packed_len-eq-total paths = packed_len-add_paths empty paths (unfold total in refl)
