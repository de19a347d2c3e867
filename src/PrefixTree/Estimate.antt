-- ===== src/PrefixTree/Estimate.antt =====
-- prefix_tree.py: `get_packed_len_if_add_path` against `add_path`.
use axrl.Prelude.{
  ℕ, zero, suc, ◌+◌, ◌≤◌, ◌≡◌, refl, ap, sym, ◌∙◌, List, [], ◌∷◌, length, drop, arith, length-drop,
  inl, inr, ℕ-cases, List-cases,
}
use axrl.PrefixTree.{
  Children, nil, child, shared_len, split, insert, added_len_after_split, added_len, MergingTree,
  add_path, get_packed_len_if_add_path,
}
use axrl.PrefixTree.Shared.{shared_len-eq}
use axrl.PrefixTree.Steps.{
  split_whole, split_below, insert_next, insert_end, insert_below, added_len_next, added_len_whole,
  added_len_below, after_split_stop, after_split_whole, after_split_below,
}

added_len-nil : (f : ℕ) (cs : Children) → added_len f cs [] ≡ 0
unfolding added_len
added_len-nil f cs = refl

after_split-nil :
    (r : Children → List ℕ → ℕ) (f : ℕ) (tokens : List ℕ) (kids : Children)
    → added_len_after_split r f tokens kids [] ≡ 0
unfolding added_len_after_split
after_split-nil r f tokens kids = refl

-- What is left of a suffix needs less fuel.
shorter :
    (k y : ℕ) (ys : List ℕ) (f : ℕ) {z : ℕ} {zs : List ℕ}
    → drop (suc k) (y ∷ ys) ≡ z ∷ zs
    → length (y ∷ ys) ≤ suc f
    → length (z ∷ zs) ≤ f
shorter k y ys f d h = omega (arith, ap length d, length-drop k ys)

-- The estimate at any fuel that is enough, against an insertion with fuel `g`.
abbrev Agrees : ℕ → Type 0
Agrees g =
    (f : ℕ) (cs : Children) (y : ℕ) (ys : List ℕ) (i : ℕ)
    → length (y ∷ ys) ≤ f
    → length (y ∷ ys) ≤ g
    → added_len f cs (y ∷ ys) ≡ (insert g cs (y ∷ ys) i).1

abbrev AgreesAfterSplit : ℕ → Type 0
AgreesAfterSplit g =
    (f h : ℕ) (tokens owners : List ℕ) (kids : Children) (y : ℕ) (ys : List ℕ) (i : ℕ)
    → length (y ∷ ys) ≤ f
    → length (y ∷ ys) ≤ h
    → length (y ∷ ys) ≤ g
    → added_len_after_split (added_len f) h tokens kids (y ∷ ys)
      ≡ (insert g (child tokens owners kids nil) (y ∷ ys) i).1

-- Where the rest of the suffix goes below the child, the estimate `r` of that rest decides.
module _ (g : ℕ) (tokens owners : List ℕ) (kids rest : Children) (y : ℕ) (ys : List ℕ) (i k : ℕ)
    (e : shared_len tokens (y ∷ ys) ≡ suc k) (r : List ℕ → ℕ) (r_nil : r [] ≡ 0)
    (r_cons : (z : ℕ) (zs : List ℕ)
      → drop (suc k) (y ∷ ys) ≡ z ∷ zs
      → r (z ∷ zs) ≡ (insert g (split (suc k) tokens owners kids).kids (z ∷ zs) i).1) where
  estimate_descent :
      r (drop (suc k) (y ∷ ys)) ≡ (insert (suc g) (child tokens owners kids rest) (y ∷ ys) i).1
  estimate_descent = elim (List-cases (drop (suc k) (y ∷ ys))) [
    | inl d ↦ rw (insert_end g tokens owners kids rest (y ∷ ys) i e d, d) r_nil
    | inr (z, zs, d) ↦ rw (insert_below g tokens owners kids rest (y ∷ ys) i e d, d) (r_cons z zs d)
  ]

Agrees-step : (g : ℕ) → Agrees g → AgreesAfterSplit g → Agrees (suc g)
Agrees-step g a b zero cs y ys i hf hg = absurd (omega arith)
Agrees-step g a b (suc f) nil y ys i hf hg = unfold added_len insert in refl
Agrees-step g a b (suc f) (child tokens owners kids rest) y ys i hf hg =
    elim (ℕ-cases (shared_len tokens (y ∷ ys))) [
      | inl e ↦
          rw
            (
              added_len_next f tokens owners kids rest y ys e,
              insert_next g tokens owners kids rest (y ∷ ys) i e,
            )
            (Agrees-step g a b (suc f) rest y ys i hf hg)
      | inr (k, e) ↦ elim (List-cases (drop (suc k) tokens)) [
        | inl d ↦ rw (added_len_whole f tokens owners kids rest y ys e d) (
            estimate_descent g tokens owners kids rest y ys i k e (added_len f kids)
              (added_len-nil f kids)
              λ z zs dz.
                rw (split_whole (suc k) tokens owners kids d)
                  (a f kids z zs i (shorter k y ys f dz hf) (shorter k y ys g dz hg)))
        | inr (x, xs, d) ↦ rw (added_len_below f tokens owners kids rest y ys e d) (
            estimate_descent g tokens owners kids rest y ys i k e
              (added_len_after_split (added_len f) f (x ∷ xs) kids)
              (after_split-nil (added_len f) f (x ∷ xs) kids)
              λ z zs dz. rw (split_below (suc k) tokens owners kids d) (
                b f f (x ∷ xs) owners kids z zs i (shorter k y ys f dz hf) (shorter k y ys f dz hf)
                  (shorter k y ys g dz hg)))
      ]
    ]

AgreesAfterSplit-step : (g : ℕ) → Agrees g → AgreesAfterSplit g → AgreesAfterSplit (suc g)
AgreesAfterSplit-step g a b f zero tokens owners kids y ys i hf hh hg = absurd (omega arith)
AgreesAfterSplit-step g a b f (suc h) tokens owners kids y ys i hf hh hg =
    elim (ℕ-cases (shared_len tokens (y ∷ ys))) [
      | inl e ↦
          rw
            (
              after_split_stop (added_len f) h tokens kids y ys
                  (sym (shared_len-eq tokens (y ∷ ys)) ∙ e),
              insert_next g tokens owners kids nil (y ∷ ys) i e,
            )
            (unfold insert in refl)
      | inr (k, e) ↦ elim (List-cases (drop (suc k) tokens)) [
        | inl d ↦
            rw
              (after_split_whole (added_len f) h tokens kids y ys
                (sym (shared_len-eq tokens (y ∷ ys)) ∙ e) d)
              (estimate_descent g tokens owners kids nil y ys i k e (added_len f kids)
                (added_len-nil f kids)
                λ z zs dz. rw (split_whole (suc k) tokens owners kids d) (
                  a f kids z zs i
                    (omega (arith, shorter k y ys h dz hh, ap length dz, length-drop k ys))
                    (shorter k y ys g dz hg)))
        | inr (x, xs, d) ↦
            rw
              (after_split_below (added_len f) h tokens kids y ys
                (sym (shared_len-eq tokens (y ∷ ys)) ∙ e) d)
              (estimate_descent g tokens owners kids nil y ys i k e
                (added_len_after_split (added_len f) h (x ∷ xs) kids)
                (after_split-nil (added_len f) h (x ∷ xs) kids)
                λ z zs dz. rw (split_below (suc k) tokens owners kids d) (
                  b f h (x ∷ xs) owners kids z zs i (omega (arith, ap length dz, length-drop k ys))
                    (shorter k y ys h dz hh) (shorter k y ys g dz hg)))
      ]
    ]

estimates : (g : ℕ) → Agrees g × AgreesAfterSplit g
estimates zero = (
  λ f cs y ys i hf hg. absurd (omega arith),
  λ f h tokens owners kids y ys i hf hh hg. absurd (omega arith),
)
estimates (suc g) = let (a, b) = estimates g in (Agrees-step g a b, AgreesAfterSplit-step g a b)

-- `get_packed_len_if_add_path` is exact: for every tree and every path it returns the
-- `packed_len` that `add_path` then gives the tree.
pub packed_len-add_path :
    (t : MergingTree) (path : List ℕ)
    → get_packed_len_if_add_path t path ≡ (add_path t path).packed_len
unfolding get_packed_len_if_add_path add_path
packed_len-add_path t [] = omega (arith, added_len-nil 0 t.children)
packed_len-add_path t (y ∷ ys) =
    ap (λ n. t.packed_len + n)
      ((estimates (suc (length ys))).0 (suc (length ys)) t.children y ys t.path_count (omega arith)
        (omega arith))
