-- ===== src/SeqlenBalancing/Filled.antt =====
-- seqlen_balancing.py: how many sets of a state are not empty, without `equal_size`.
use axrl.Prelude.{
  ℕ, ◌+◌, ◌≤◌, ◌≡◌, refl, ap, sym, ◌∙◌, ◌⊎◌, true, false, List, [], ◌∷◌, ◌++◌, length, All, total,
  arith, inl, inr, Bool-cases, insert_by, All-sort_by, total-sort_by, sort_by, total-append,
  length-append, min,
}
use axrl.SeqlenBalancing.{
  Set, merge, set_lt, items_lt, sorted_sets, merge_each, merge_states, reverse,
}
use axrl.SeqlenBalancing.Items.{
  IsSummed, items-add_all, total-reverse, length-reverse, All_IsSummed-merge_each,
}
use axrl.SeqlenBalancing.Rounds.{IsState}

-- 1 for a set that has an item.
abbrev has_items : List (ℕ × ℕ) → ℕ
has_items [] = 0
has_items (item ∷ items) = 1

abbrev pub filled : Set → ℕ
filled s = has_items s.items

-- The sets that are not empty come first.
abbrev pub IsFront : List Set → Type 0
IsFront [] = Unit
IsFront (s ∷ sets) = (filled s ≡ 0 → total filled sets ≡ 0) × IsFront sets

abbrev IsBack : List Set → Type 0
IsBack [] = Unit
IsBack (s ∷ sets) = (filled s ≡ 1 → total filled sets ≡ length sets) × IsBack sets

has_items-le : (items : List (ℕ × ℕ)) → has_items items ≤ 1
has_items-le [] = omega arith
has_items-le (item ∷ items) = omega arith

pub filled-cases : (s : Set) → (filled s ≡ 0) ⊎ (filled s ≡ 1)
filled-cases s = go s.items
  where
    go : (items : List (ℕ × ℕ)) → (has_items items ≡ 0) ⊎ (has_items items ≡ 1)
    go [] = inl refl
    go (item ∷ items) = inr refl

pub filled-le-length : (s : Set) → filled s ≤ length s.items
filled-le-length s = go s.items
  where
    go : (items : List (ℕ × ℕ)) → has_items items ≤ length items
    go [] = omega arith
    go (item ∷ items) = omega arith

pub filled-le : (sets : List Set) → total filled sets ≤ length sets
filled-le [] = omega arith
filled-le (s ∷ sets) = omega (arith, has_items-le s.items, filled-le sets)

not_below :
    (s : Set) (m : ℕ) (items : List (ℕ × ℕ))
    → m ≡ total (λ item. item.1) items
    → has_items items ≡ 0
    → set_lt s (record { sum = m; items = items }) ≡ false
unfolding set_lt items_lt
not_below s m [] h e = ground arith
not_below s m (x ∷ xs) h e = absurd (omega (arith, e))

above :
    (n m : ℕ) (xs ys : List (ℕ × ℕ))
    → n ≡ total (λ item. item.1) xs
    → has_items xs ≡ 0
    → has_items ys ≡ 1
    → set_lt (record { sum = n; items = xs }) (record { sum = m; items = ys }) ≡ true
unfolding set_lt items_lt
above n m [] (y ∷ ys) h e f = ground arith
above n m [] [] h e f = absurd (omega (arith, f))
above n m (x ∷ xs) ys h e f = absurd (omega (arith, e))

IsFront-insert :
    (s : Set) (sets : List Set)
    → IsSummed s
    → All IsSummed sets
    → IsFront sets
    → IsFront (insert_by (λ s other. set_lt other s) s sets)
IsFront-insert s [] h hs f = ((λ e. refl), tt)
IsFront-insert s (t ∷ sets) h hs f = elim (Bool-cases (set_lt s t)) [
  | inl e ↦ rw e (
    (λ z. let no : set_lt s t ≡ false = not_below s t.sum t.items hs.0 z in cc),
    IsFront-insert s sets h hs.1 f.1,
  )
  | inr e ↦ rw e (
    (λ z. elim (filled-cases t) [
      | inl z' ↦ omega (arith, f.0 z', z')
      | inr z' ↦ let yes : set_lt s t ≡ true = above s.sum t.sum s.items t.items h z z' in cc
    ]),
    f,
  )
]

pub IsFront-sorted_sets : (sets : List Set) → All IsSummed sets → IsFront (sorted_sets sets)
unfolding sorted_sets
IsFront-sorted_sets [] h = tt
IsFront-sorted_sets (s ∷ sets) h =
    IsFront-insert s (sort_by (λ s other. set_lt other s) sets) h.0
      (All-sort_by (λ s other. set_lt other s) IsSummed sets h.1) (IsFront-sorted_sets sets h.1)

IsBack-append_filled :
    (sets : List Set) (s : Set) → filled s ≡ 1 → IsBack sets → IsBack (sets ++ s ∷ [])
IsBack-append_filled [] s e h = ((λ z. refl), tt)
IsBack-append_filled (t ∷ sets) s e h = (
  (λ z. omega (arith, h.0 z, e, total-append filled sets (s ∷ []), length-append sets (s ∷ []))),
  IsBack-append_filled sets s e h.1,
)

IsBack-of_none : (sets : List Set) → total filled sets ≡ 0 → IsBack sets
IsBack-of_none [] e = tt
IsBack-of_none (s ∷ sets) e =
    ((λ z. absurd (omega (arith, z, e))), IsBack-of_none sets (omega (arith, e)))

IsBack-reverse : (sets : List Set) → IsFront sets → IsBack (reverse sets)
IsBack-reverse [] h = tt
IsBack-reverse (s ∷ sets) h = elim (filled-cases s) [
  | inl z ↦ IsBack-of_none (reverse sets ++ s ∷ []) (
      omega
        (arith, total-append filled (reverse sets) (s ∷ []), total-reverse filled sets, h.0 z, z))
  | inr z ↦ IsBack-append_filled (reverse sets) s z (IsBack-reverse sets h.1)
]

has_items-append :
    (xs ys : List (ℕ × ℕ)) → has_items (xs ++ ys) ≡ min 1 (has_items xs + has_items ys)
has_items-append [] [] = refl
has_items-append [] (y ∷ ys) = refl
has_items-append (x ∷ xs) [] = refl
has_items-append (x ∷ xs) (y ∷ ys) = refl

filled-merge : (s other : Set) → filled (merge s other) ≡ min 1 (filled s + filled other)
unfolding merge
filled-merge s other =
    ap has_items (items-add_all s other.items) ∙ has_items-append s.items other.items

filled-merge_each :
    (sets others : List Set)
    → length sets ≡ length others
    → IsFront sets
    → IsBack others
    → total filled (merge_each sets others)
      ≡ min (length sets) (total filled sets + total filled others)
unfolding merge_each
filled-merge_each [] others h f b = omega arith
filled-merge_each (s ∷ sets) [] h f b = absurd (omega (arith, h))
filled-merge_each (s ∷ sets) (t ∷ others) h f b =
    let e = filled-merge s t in
    let more = filled-merge_each sets others (omega (arith, h)) f.1 b.1 in
    let n = filled-le sets in
    let o = filled-le others in
    elim (filled-cases s) [
      | inl z ↦ omega (arith, e, more, has_items-le t.items, n, o, z, h, f.0 z)
      | inr z ↦ elim (filled-cases t) [
        | inl y ↦ omega (arith, e, more, n, o, z, y, h)
        | inr y ↦ omega (arith, e, more, n, o, z, y, h, b.0 y)
      ]
    ]

-- Merging two states leaves no set empty that either could have filled.
pub filled-merge_states :
    (k : ℕ) (a b : List Set)
    → IsState k a
    → IsState k b
    → IsFront a
    → IsFront b
    → total filled (merge_states a b) ≡ min k (total filled a + total filled b)
unfolding merge_states sorted_sets
filled-merge_states k a b ha hb fa fb = omega (
  arith,
  total-sort_by (λ s other. set_lt other s) filled (merge_each a (reverse b)),
  filled-merge_each a (reverse b) (ha.0 ∙ sym (length-reverse b ∙ hb.0)) fa (IsBack-reverse b fb),
  total-reverse filled b,
  ha.0,
)

pub IsFront-merge_states : (a b : List Set) → All IsSummed a → IsFront (merge_states a b)
unfolding merge_states
IsFront-merge_states a b h =
    IsFront-sorted_sets (merge_each a (reverse b)) (All_IsSummed-merge_each a (reverse b) h)
