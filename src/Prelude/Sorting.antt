-- ===== src/Prelude/Sorting.antt =====
-- `sorted` and a priority queue, by insertion into a list in order, and sums over a list, which
-- count what a reordering keeps.
use Prim.Native.Nat.{ℕ, ◌+◌}
use mathlib.Core.Path.{◌≡◌, refl, ap}
use mathlib.Core.Logic.{inl, inr}
use mathlib.Core.Bool.{Bool}
use mathlib.Core.List.{List, [], ◌∷◌, ◌++◌, map}
use native.Mathlib.Omega.{arith}
use axrl.Prelude.Tests.{◌==◌, if◌then◌else◌, Bool-cases}
use axrl.Prelude.Lists.{length, All}

module _ {ℓ} {A : Type ℓ} where
  -- The sum of what the elements weigh.
  abbrev pub total : (A → ℕ) → List A → ℕ
  total weight [] = 0
  total weight (x ∷ xs) = weight x + total weight xs

  pub total-append :
      (weight : A → ℕ) (xs ys : List A)
      → total weight (xs ++ ys) ≡ total weight xs + total weight ys
  total-append weight [] ys = omega arith
  total-append weight (x ∷ xs) ys = omega (arith, total-append weight xs ys)

  -- The place after the elements that stand before the new one.
  abbrev pub insert_by : (A → A → Bool) → A → List A → List A
  insert_by before x [] = x ∷ []
  insert_by before x (y ∷ ys) =
      let later = insert_by before x ys in if before y x then y ∷ later else x ∷ y ∷ ys

  -- A stable sort by a strict order.
  abbrev pub sort_by : (A → A → Bool) → List A → List A
  sort_by before [] = []
  sort_by before (x ∷ xs) = insert_by before x (sort_by before xs)

  module _ (before : A → A → Bool) where
    pub total-insert_by :
        (weight : A → ℕ) (x : A) (xs : List A)
        → total weight (insert_by before x xs) ≡ weight x + total weight xs
    total-insert_by weight x [] = refl
    total-insert_by weight x (y ∷ ys) = elim (Bool-cases (before y x)) [
      | inl e ↦ rw e (omega (arith, total-insert_by weight x ys))
      | inr e ↦ rw e refl
    ]

    pub total-sort_by :
        (weight : A → ℕ) (xs : List A) → total weight (sort_by before xs) ≡ total weight xs
    total-sort_by weight [] = refl
    total-sort_by weight (x ∷ xs) =
        omega (arith, total-insert_by weight x (sort_by before xs), total-sort_by weight xs)

    pub length-insert_by : (x : A) (xs : List A) → length (insert_by before x xs) ≡ length xs + 1
    length-insert_by x [] = refl
    length-insert_by x (y ∷ ys) = elim (Bool-cases (before y x)) [
      | inl e ↦ rw e (omega (arith, length-insert_by x ys))
      | inr e ↦ rw e (omega arith)
    ]

    pub length-sort_by : (xs : List A) → length (sort_by before xs) ≡ length xs
    length-sort_by [] = refl
    length-sort_by (x ∷ xs) =
        omega (arith, length-insert_by x (sort_by before xs), length-sort_by xs)

    pub All-insert_by {κ} :
        (P : A → Type κ) (x : A) (xs : List A) → P x → All P xs → All P (insert_by before x xs)
    All-insert_by P x [] h hs = (h, tt)
    All-insert_by P x (y ∷ ys) h hs = elim (Bool-cases (before y x)) [
      | inl e ↦ rw e (hs.0, All-insert_by P x ys h hs.1)
      | inr e ↦ rw e (h, hs)
    ]

    pub All-sort_by {κ} : (P : A → Type κ) (xs : List A) → All P xs → All P (sort_by before xs)
    All-sort_by P [] hs = tt
    All-sort_by P (x ∷ xs) hs = All-insert_by P x (sort_by before xs) hs.0 (All-sort_by P xs hs.1)

pub total-map {ℓ κ} :
    {A : Type ℓ} {B : Type κ} (weight : B → ℕ) (f : A → B) (xs : List A)
    → total weight (map f xs) ≡ total (λ x. weight (f x)) xs
total-map weight f [] = refl
total-map weight f (x ∷ xs) = ap (◌+◌ (weight (f x))) (total-map weight f xs)

-- How often a number stands in a list.
abbrev pub one_if_same : ℕ → ℕ → ℕ
one_if_same i j = if i == j then 1 else 0

abbrev pub count : ℕ → List ℕ → ℕ
count i xs = total (one_if_same i) xs
