-- ===== src/PrefixTree/Steps.antt =====
-- prefix_tree.py: one equation for each way that a round of the loops can go.
use axrl.Prelude.{ℕ, suc, ◌≡◌, List, [], ◌∷◌, ◌++◌, length, take, drop}
use axrl.PrefixTree.{
  Children, nil, child, shared_len, label_aware_common_prefix_len, split, insert,
  added_len_after_split, added_len,
}

module _ (k : ℕ) (tokens owners : List ℕ) (kids : Children) where
  pub split_whole :
      drop k tokens ≡ []
      → split k tokens owners kids ≡ record { tokens = tokens; owners = owners; kids = kids }
  unfolding split
  split_whole e = rw (e, split)

  pub split_below :
      {x : ℕ} {xs : List ℕ}
      → drop k tokens ≡ x ∷ xs
      → split k tokens owners kids
        ≡ record { tokens = take k tokens; owners = []; kids = child (x ∷ xs) owners kids nil }
  unfolding split
  split_below e = rw (e, split)

module _ (f : ℕ) (tokens owners : List ℕ) (kids rest : Children) (suffix : List ℕ) (i : ℕ) where
  pub insert_next :
      shared_len tokens suffix ≡ 0
      → insert (suc f) (child tokens owners kids rest) suffix i ≡ (
        child tokens owners kids (insert (suc f) rest suffix i).0,
        (insert (suc f) rest suffix i).1,
      )
  unfolding insert
  insert_next e = rw (e, insert)

  pub insert_end :
      {k : ℕ}
      → shared_len tokens suffix ≡ suc k
      → drop (suc k) suffix ≡ []
      → insert (suc f) (child tokens owners kids rest) suffix i ≡ (
        child
            (split (suc k) tokens owners kids).tokens
            ((split (suc k) tokens owners kids).owners ++ i ∷ [])
            (split (suc k) tokens owners kids).kids
            rest,
        0,
      )
  unfolding insert
  insert_end e d = rw (e, insert) (rw d)

  pub insert_below :
      {k y : ℕ} {ys : List ℕ}
      → shared_len tokens suffix ≡ suc k
      → drop (suc k) suffix ≡ y ∷ ys
      → insert (suc f) (child tokens owners kids rest) suffix i ≡ (
        child
            (split (suc k) tokens owners kids).tokens
            (split (suc k) tokens owners kids).owners
            (insert f (split (suc k) tokens owners kids).kids (y ∷ ys) i).0
            rest,
        (insert f (split (suc k) tokens owners kids).kids (y ∷ ys) i).1,
      )
  unfolding insert
  insert_below e d = rw (e, insert) (rw d)

module _ (f : ℕ) (tokens owners : List ℕ) (kids rest : Children) (y : ℕ) (ys : List ℕ) where
  pub added_len_next :
      shared_len tokens (y ∷ ys) ≡ 0
      → added_len (suc f) (child tokens owners kids rest) (y ∷ ys) ≡ added_len (suc f) rest (y ∷ ys)
  unfolding added_len
  added_len_next e = rw (e, added_len)

  pub added_len_whole :
      {k : ℕ}
      → shared_len tokens (y ∷ ys) ≡ suc k
      → drop (suc k) tokens ≡ []
      → added_len (suc f) (child tokens owners kids rest) (y ∷ ys)
        ≡ added_len f kids (drop (suc k) (y ∷ ys))
  unfolding added_len
  added_len_whole e d = rw (e, added_len) (rw d)

  pub added_len_below :
      {k x : ℕ} {xs : List ℕ}
      → shared_len tokens (y ∷ ys) ≡ suc k
      → drop (suc k) tokens ≡ x ∷ xs
      → added_len (suc f) (child tokens owners kids rest) (y ∷ ys)
        ≡ added_len_after_split (added_len f) f (x ∷ xs) kids (drop (suc k) (y ∷ ys))
  unfolding added_len
  added_len_below e d = rw (e, added_len) (rw d)

module _ (from_children : Children → List ℕ → ℕ) (f : ℕ) (tokens : List ℕ) (kids : Children) (y : ℕ)
    (ys : List ℕ) where
  pub after_split_stop :
      label_aware_common_prefix_len tokens (y ∷ ys) ≡ 0
      → added_len_after_split from_children (suc f) tokens kids (y ∷ ys) ≡ length (y ∷ ys)
  unfolding added_len_after_split
  after_split_stop e = rw (e, added_len_after_split)

  pub after_split_whole :
      {k : ℕ}
      → label_aware_common_prefix_len tokens (y ∷ ys) ≡ suc k
      → drop (suc k) tokens ≡ []
      → added_len_after_split from_children (suc f) tokens kids (y ∷ ys)
        ≡ from_children kids (drop (suc k) (y ∷ ys))
  unfolding added_len_after_split
  after_split_whole e d = rw (e, added_len_after_split) (rw d)

  pub after_split_below :
      {k x : ℕ} {xs : List ℕ}
      → label_aware_common_prefix_len tokens (y ∷ ys) ≡ suc k
      → drop (suc k) tokens ≡ x ∷ xs
      → added_len_after_split from_children (suc f) tokens kids (y ∷ ys)
        ≡ added_len_after_split from_children f (x ∷ xs) kids (drop (suc k) (y ∷ ys))
  unfolding added_len_after_split
  after_split_below e d = rw (e, added_len_after_split) (rw d)
