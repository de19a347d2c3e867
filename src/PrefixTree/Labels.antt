-- ===== src/PrefixTree/Labels.antt =====
-- prefix_tree.py: where two paths that continue with different tokens share their last common
-- position, against the sharing rule that `build_tree_packed_sequence` states.
use axrl.Prelude.{
  ℕ, suc, ◌+◌, ◌≡◌, ◌≢◌, refl, ap, ◌∙◌, List, [], ◌∷◌, ◌++◌, length, drop, arith, length-append,
  none, append_assoc, replicate,
}
use axrl.PrefixTree.{
  Children, nil, child, common_prefix_len, shared_len, insert, empty, add_path, add_paths,
}
use axrl.PrefixTree.Steps.{split_whole, insert_next, insert_below}
use axrl.PrefixTree.Layout.{emit, emit_node, build_tree_packed_sequence}

common_prefix_len_front : (p q : List ℕ) → common_prefix_len p (p ++ q) ≡ length p
unfolding common_prefix_len
common_prefix_len_front [] q = refl
common_prefix_len_front (x ∷ p) q = ground (arith, common_prefix_len_front p q)

-- A whole child is shared, whatever follows it.
shared_len_front : (x : ℕ) (p q : List ℕ) → shared_len (x ∷ p) ((x ∷ p) ++ q) ≡ suc (length p)
unfolding shared_len
shared_len_front x p q = ground (arith, common_prefix_len_front p q)

drop-front : (p q : List ℕ) → drop (length p) (p ++ q) ≡ q
drop-front [] q = refl
drop-front (x ∷ p) q = drop-front p q

drop-length : (p : List ℕ) → drop (length p) p ≡ []
drop-length [] = refl
drop-length (x ∷ p) = drop-length p

-- A path that continues a whole child goes on among the child's own children.
insert_front :
    (f x : ℕ) (p : List ℕ) (a : ℕ) (q : List ℕ) (i : ℕ) (owners : List ℕ) (kids : Children)
    → insert (suc f) (child (x ∷ p) owners kids nil) ((x ∷ p) ++ a ∷ q) i
      ≡ (child (x ∷ p) owners (insert f kids (a ∷ q) i).0 nil, (insert f kids (a ∷ q) i).1)
insert_front f x p a q i owners kids =
    insert_below f (x ∷ p) owners kids nil ((x ∷ p) ++ a ∷ q) i (shared_len_front x p (a ∷ q))
      (drop-front p (a ∷ q))
    ∙ rw (split_whole (suc (length p)) (x ∷ p) owners kids (drop-length p)) refl

-- One more child for a path whose first token is not that of the only child.
insert_new :
    (f a b i j : ℕ) (q r : List ℕ)
    → a ≢ b
    → insert (suc f) (child (a ∷ q) (j ∷ []) nil nil) (b ∷ r) i
      ≡ (child (a ∷ q) (j ∷ []) nil (child (b ∷ r) (i ∷ []) nil nil), length (b ∷ r))
insert_new f a b i j q r ne =
    insert_next f (a ∷ q) (j ∷ []) nil nil (b ∷ r) i (unfold shared_len in ground arith)
    ∙ (unfold insert in refl)

module _ (x : ℕ) (p : List ℕ) (a : ℕ) (q : List ℕ) (b : ℕ) (r : List ℕ) (ne : a ≢ b) where
  abbrev forked : List (List ℕ)
  forked = (x ∷ p) ∷ ((x ∷ p) ++ a ∷ q) ∷ ((x ∷ p) ++ b ∷ r) ∷ []

  abbrev forked_children : Children
  forked_children =
      child (x ∷ p) (0 ∷ []) (child (a ∷ q) (1 ∷ []) nil (child (b ∷ r) (2 ∷ []) nil nil)) nil

  fuel : (c : ℕ) (t : List ℕ) → length ((x ∷ p) ++ c ∷ t) ≡ suc (suc (length p + length t))
  fuel c t = omega (arith, length-append p (c ∷ t))

  insert_a :
      (insert (length ((x ∷ p) ++ a ∷ q)) (child (x ∷ p) (0 ∷ []) nil nil) ((x ∷ p) ++ a ∷ q) 1).0
      ≡ child (x ∷ p) (0 ∷ []) (child (a ∷ q) (1 ∷ []) nil nil) nil
  insert_a = rw (fuel a q) (
      ap (λ (done : Children × ℕ). done.0)
        (insert_front (suc (length p + length q)) x p a q 1 (0 ∷ []) nil)
      ∙ (unfold insert in refl))

  insert_b :
      (insert
        (length ((x ∷ p) ++ b ∷ r))
        (child (x ∷ p) (0 ∷ []) (child (a ∷ q) (1 ∷ []) nil nil) nil)
        ((x ∷ p) ++ b ∷ r)
        2).0
      ≡ forked_children
  insert_b = rw (fuel b r) (
      ap (λ (done : Children × ℕ). done.0)
        (insert_front (suc (length p + length r)) x p b r 2 (0 ∷ [])
          (child (a ∷ q) (1 ∷ []) nil nil))
      ∙ ap (λ (done : Children × ℕ). child (x ∷ p) (0 ∷ []) done.0 nil)
          (insert_new (length p + length r) a b 2 1 q r ne))

  add_paths-forked : (add_paths empty forked).children ≡ forked_children
  unfolding add_paths add_path
  add_paths-forked =
      ap (λ c. (insert (length ((x ∷ p) ++ b ∷ r)) c ((x ∷ p) ++ b ∷ r) 2).0)
        ((unfold insert in refl) ∙ insert_a)
      ∙ insert_b

  -- Of three paths in this order, a path that is not empty and two that continue it with different
  -- tokens and then in any way, the last two share the whole first path, its last position
  -- included, though their labels differ there: the packed sequence is the first path, then the rest
  -- of the second, then the rest of the third.
  pub build_tree_fork : (build_tree_packed_sequence forked).packed ≡ (x ∷ p) ++ ((a ∷ q) ++ (b ∷ r))
  unfolding build_tree_packed_sequence emit emit_node
  build_tree_fork =
      ap
        (λ c.
          (emit c none 0 (record {
            packed = [];
            nodes = [];
            path_to_leaf = replicate (add_paths empty forked).path_count (none, 0);
          })).packed)
        add_paths-forked
      ∙ append_assoc (x ∷ p) (a ∷ q) (b ∷ r)
