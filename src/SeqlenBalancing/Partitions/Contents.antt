-- ===== src/SeqlenBalancing/Partitions/Contents.antt =====
-- seqlen_balancing.py: how often an index stands in the partitions, and what the checks of
-- `_check_and_sort_partitions` need.
use mathlib.Core.Path.{subst}
use axrl.Prelude.{
  ℕ, zero, suc, ◌+◌, ◌≤◌, ◌<◌, ◌≡◌, refl, ap, sym, ◌∙◌, inl, inr, true, ◌&&◌, List, [], ◌∷◌, map,
  ok, length, All, total, arith, total-sort_by, total-append, total-map, ltb, leb, Bool-cases, ◌==◌,
  if◌then◌else◌, count, one_if_same, sort_by, insert_by, length-append, length-sort_by, All-map,
  All-insert_by, length-map,
}
use axrl.Data.GlobalBatches.{covers, contains}
use axrl.SeqlenBalancing.{Set, enumerate, sorted_seqlens, swap, get_partitions, indices, pair_lt}
use axrl.SeqlenBalancing.Items.{load}
use axrl.SeqlenBalancing.Partitions.{
  flatten, all_filled, all_below, check_and_sort_partitions, IsPartition, IsSorted,
}

count-get_partitions :
    (i : ℕ) (sets : List Set)
    → count i (flatten (get_partitions sets)) ≡ total (load (λ item. one_if_same i item.0)) sets
unfolding get_partitions
count-get_partitions i [] = refl
count-get_partitions i (s ∷ sets) = omega (
  arith,
  total-append (one_if_same i) (indices s) (flatten (map indices sets)),
  total-map (one_if_same i) (λ (item : ℕ × ℕ). item.0) s.items,
  count-get_partitions i sets,
)

count-enumerate :
    (i j : ℕ) (seqlens : List ℕ)
    → total (λ pair. one_if_same i pair.1) (enumerate j seqlens)
      ≡ (if leb j i && ltb i (j + length seqlens) then 1 else 0)
count-enumerate i j [] = ground arith
count-enumerate i j (seqlen ∷ seqlens) = ground (arith, count-enumerate i (j + 1) seqlens)

pub count-sorted_seqlens :
    (i : ℕ) (seqlens : List ℕ)
    → total (λ item. one_if_same i item.0) (map swap (sorted_seqlens seqlens))
      ≡ (if ltb i (length seqlens) then 1 else 0)
unfolding sorted_seqlens
count-sorted_seqlens i seqlens =
    total-map (λ (item : ℕ × ℕ). one_if_same i item.0) swap (sort_by pair_lt (enumerate 0 seqlens))
    ∙ (total-sort_by pair_lt (λ (pair : ℕ × ℕ). one_if_same i pair.1) (enumerate 0 seqlens)
        ∙ (count-enumerate i 0 seqlens ∙ ground arith))

contains_of_count : (i : ℕ) (is : List ℕ) → 0 < count i is → contains is i ≡ true
contains_of_count i [] h = absurd (omega arith)
contains_of_count i (j ∷ is) h = elim (Bool-cases (j == i)) [
  | inl e ↦ rw e refl
  | inr e ↦ rw e (
      contains_of_count i is
        (let z : one_if_same i j ≡ 0 = ground (arith, e) in omega (arith, h, z)))
]

covers_of_count : (n : ℕ) (is : List ℕ) → ((i : ℕ) → i < n → 0 < count i is) → covers is n ≡ true
covers_of_count zero is h = refl
covers_of_count (suc n) is h =
    let here = contains_of_count n is (h n (omega arith)) in
    rw here (covers_of_count n is (λ i lt. h i (omega arith)))

all_below_of_count :
    (n : ℕ) (is : List ℕ) → ((i : ℕ) → n ≤ i → count i is ≡ 0) → all_below is n ≡ true
all_below_of_count n [] h = refl
all_below_of_count n (j ∷ is) h = elim (Bool-cases (ltb j n)) [
  | inl e ↦ rw e (all_below_of_count n is (λ i le. omega (arith, h i le)))
  | inr e ↦
      let z = h j (ground (arith, e)) in
      let o : one_if_same j j ≡ 1 = ground arith in absurd (omega (arith, z, o))
]

below_or_not :
    (n i : ℕ) {c : ℕ} → c ≡ (if ltb i n then 1 else 0) → (i < n → c ≡ 1) × (n ≤ i → c ≡ 0)
below_or_not n i h = ((λ lt. ground (arith, h, lt)), (λ le. ground (arith, h, le)))

-- The checks pass on a partition without an empty part.
pub check_and_sort_partitions-ok :
    (partitions : List (List ℕ)) (k n : ℕ)
    → length partitions ≡ k
    → all_filled partitions ≡ true
    → IsPartition n partitions
    → check_and_sort_partitions partitions k n ≡ ok (map (sort_by ltb) partitions)
unfolding check_and_sort_partitions
check_and_sort_partitions-ok partitions k n l f p =
    let l : (length partitions == k) ≡ true = ground (arith, l) in
    let c =
      covers_of_count n (flatten partitions)
        (λ i lt. omega (arith, (below_or_not n i (p.1 i)).0 lt)) in
    let b = all_below_of_count n (flatten partitions) (λ i le. (below_or_not n i (p.1 i)).1 le) in
    rw (l, f, c, b) refl

IsSorted-insert_by : (i : ℕ) (is : List ℕ) → IsSorted is → IsSorted (insert_by ltb i is)
IsSorted-insert_by i [] h = (tt, tt)
IsSorted-insert_by i (j ∷ is) h = elim (Bool-cases (ltb j i)) [
  | inl e ↦
      rw e
        (All-insert_by ltb (λ m. j ≤ m) i is (ground (arith, e)) h.0, IsSorted-insert_by i is h.1)
  | inr e ↦
      let le : i ≤ j = ground (arith, e) in
      rw e ((le, All-map (λ m. j ≤ m) (λ m. i ≤ m) is (λ m lt. omega arith) h.0), h)
]

IsSorted-sort_by : (is : List ℕ) → IsSorted (sort_by ltb is)
IsSorted-sort_by [] = tt
IsSorted-sort_by (i ∷ is) = IsSorted-insert_by i (sort_by ltb is) (IsSorted-sort_by is)

pub All_IsSorted-sort : (partitions : List (List ℕ)) → All IsSorted (map (sort_by ltb) partitions)
All_IsSorted-sort [] = tt
All_IsSorted-sort (p ∷ ps) = (IsSorted-sort_by p, All_IsSorted-sort ps)

count-sorted :
    (i : ℕ) (partitions : List (List ℕ))
    → count i (flatten (map (sort_by ltb) partitions)) ≡ count i (flatten partitions)
count-sorted i [] = refl
count-sorted i (p ∷ ps) = omega (
  arith,
  total-append (one_if_same i) (sort_by ltb p) (flatten (map (sort_by ltb) ps)),
  total-append (one_if_same i) p (flatten ps),
  total-sort_by ltb (one_if_same i) p,
  count-sorted i ps,
)

length-flatten_sorted :
    (partitions : List (List ℕ))
    → length (flatten (map (sort_by ltb) partitions)) ≡ length (flatten partitions)
length-flatten_sorted [] = refl
length-flatten_sorted (p ∷ ps) = omega (
  arith,
  length-append (sort_by ltb p) (flatten (map (sort_by ltb) ps)),
  length-append p (flatten ps),
  length-sort_by ltb p,
  length-flatten_sorted ps,
)

pub IsPartition-sorted :
    (n : ℕ) (partitions : List (List ℕ))
    → IsPartition n partitions
    → IsPartition n (map (sort_by ltb) partitions)
IsPartition-sorted n partitions h =
    (length-flatten_sorted partitions ∙ h.0, λ i. count-sorted i partitions ∙ h.1 i)

pub All_length-sorted {κ} :
    (P : ℕ → Type κ) (partitions : List (List ℕ))
    → All (λ p. P (length p)) partitions
    → All (λ p. P (length p)) (map (sort_by ltb) partitions)
All_length-sorted P [] h = tt
All_length-sorted P (p ∷ ps) h =
    (subst P (sym (length-sort_by ltb p)) h.0, All_length-sorted P ps h.1)

pub length-sorted_seqlens : (seqlens : List ℕ) → length (sorted_seqlens seqlens) ≡ length seqlens
unfolding sorted_seqlens
length-sorted_seqlens seqlens = length-sort_by pair_lt (enumerate 0 seqlens) ∙ go 0 seqlens
  where
    go : (i : ℕ) (seqlens : List ℕ) → length (enumerate i seqlens) ≡ length seqlens
    go i [] = refl
    go i (x ∷ xs) = ap suc (go (i + 1) xs)

pub total-one : (items : List (ℕ × ℕ)) → total (λ item. 1) items ≡ length items
total-one [] = refl
total-one (item ∷ items) = omega (arith, total-one items)

length-get_partitions :
    (sets : List Set) → length (flatten (get_partitions sets)) ≡ total (load (λ item. 1)) sets
unfolding get_partitions
length-get_partitions [] = refl
length-get_partitions (s ∷ sets) = omega (
  arith,
  length-append (indices s) (flatten (map indices sets)),
  length-map s.items (λ (item : ℕ × ℕ). item.0),
  total-one s.items,
  length-get_partitions sets,
)

-- A state whose sets hold what the sequences weigh gives a partition.
pub IsPartition-get_partitions :
    (seqlens : List ℕ) (state : List Set)
    → ((weight : ℕ × ℕ → ℕ)
        → total (load weight) state ≡ total weight (map swap (sorted_seqlens seqlens)))
    → IsPartition (length seqlens) (get_partitions state)
IsPartition-get_partitions seqlens state h = (
  omega (
    arith,
    length-get_partitions state,
    h (λ item. 1),
    total-one (map swap (sorted_seqlens seqlens)),
    length-map (sorted_seqlens seqlens) swap,
    length-sorted_seqlens seqlens,
  ),
  λ i.
      count-get_partitions i state
      ∙ (h (λ item. one_if_same i item.0) ∙ count-sorted_seqlens i seqlens),
)
