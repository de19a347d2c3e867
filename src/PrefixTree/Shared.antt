-- ===== src/PrefixTree/Shared.antt =====
-- prefix_tree.py: what the shared prefix of a child and a suffix is.
use axrl.Prelude.{ℕ, zero, suc, ◌≤◌, ◌≡◌, refl, List, [], ◌∷◌, length, take, arith}
use axrl.PrefixTree.{common_prefix_len, label_aware_common_prefix_len, shared_len}

common_prefix_len-le : (xs ys : List ℕ) → common_prefix_len xs ys ≤ length ys
unfolding common_prefix_len
common_prefix_len-le [] ys = omega arith
common_prefix_len-le (x ∷ xs) [] = omega arith
common_prefix_len-le (x ∷ xs) (y ∷ ys) = ground (arith, common_prefix_len-le xs ys)

take_of_le-common : (k : ℕ) (xs ys : List ℕ) → k ≤ common_prefix_len xs ys → take k xs ≡ take k ys
unfolding common_prefix_len
take_of_le-common zero xs ys h = refl
take_of_le-common (suc k) [] ys h = absurd (omega arith)
take_of_le-common (suc k) (x ∷ xs) [] h = absurd (omega arith)
take_of_le-common (suc k) (x ∷ xs) (y ∷ ys) h = ground (arith, take_of_le-common k xs ys)

shared_len-le-common : (xs ys : List ℕ) → shared_len xs ys ≤ common_prefix_len xs ys
unfolding shared_len
shared_len-le-common xs ys = ground arith

-- The head test changes nothing: where the heads differ the common prefix is empty.
pub shared_len-eq : (xs ys : List ℕ) → shared_len xs ys ≡ label_aware_common_prefix_len xs ys
unfolding shared_len
shared_len-eq [] ys = ground arith
shared_len-eq (x ∷ xs) [] = ground arith
shared_len-eq (x ∷ xs) (y ∷ ys) = ground arith

pub shared_len-le : (xs ys : List ℕ) → shared_len xs ys ≤ length ys
shared_len-le xs ys = omega (arith, shared_len-le-common xs ys, common_prefix_len-le xs ys)

-- The shared tokens are the same on both sides.
pub take-shared : {k : ℕ} (xs ys : List ℕ) → shared_len xs ys ≡ k → take k xs ≡ take k ys
take-shared {k} xs ys e = take_of_le-common k xs ys (omega (arith, shared_len-le-common xs ys))
