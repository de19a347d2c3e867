-- ===== src/SeqlenBalancing/Items.antt =====
-- seqlen_balancing.py: what the sets and the states hold, whatever the items weigh.
use axrl.Prelude.{
  ℕ, zero, suc, ◌+◌, ◌≡◌, refl, ap, sym, ◌∙◌, List, [], ◌∷◌, ◌++◌, append-nil, append_assoc, ok,
  length, total, total-append, total-sort_by, length-sort_by, arith, length-append, >>=-eq-ok,
  ok-eq, replicate, All, All-append,
}
use axrl.SeqlenBalancing.{
  Set, empty, add, add_all, merge, sorted_sets, set_lt, add_each, reverse, merge_each, merge_states,
}

pub items-add_all : (s : Set) (items : List (ℕ × ℕ)) → (add_all s items).items ≡ s.items ++ items
unfolding add_all add
items-add_all s [] = sym (append-nil s.items)
items-add_all s (item ∷ items) =
    items-add_all (add s item) items ∙ append_assoc s.items (item ∷ []) items

-- The sum of a set is the sum of its lengths.
abbrev pub IsSummed : Set → Type 0
IsSummed s = s.sum ≡ total (λ item. item.1) s.items

pub IsSummed-add : (s : Set) (item : ℕ × ℕ) → IsSummed s → IsSummed (add s item)
unfolding add
IsSummed-add s item h =
    omega (arith, h, total-append (λ (pair : ℕ × ℕ). pair.1) s.items (item ∷ []))

pub IsSummed-add_all : (s : Set) (items : List (ℕ × ℕ)) → IsSummed s → IsSummed (add_all s items)
unfolding add_all
IsSummed-add_all s [] h = h
IsSummed-add_all s (item ∷ items) h = IsSummed-add_all (add s item) items (IsSummed-add s item h)

pub length-reverse {ℓ} : {A : Type ℓ} (xs : List A) → length (reverse xs) ≡ length xs
length-reverse [] = refl
length-reverse (x ∷ xs) = omega (arith, length-append (reverse xs) (x ∷ []), length-reverse xs)

pub total-reverse {ℓ} :
    {A : Type ℓ} (weight : A → ℕ) (xs : List A) → total weight (reverse xs) ≡ total weight xs
total-reverse weight [] = refl
total-reverse weight (x ∷ xs) =
    omega (arith, total-append weight (reverse xs) (x ∷ []), total-reverse weight xs)

pub All-reverse {ℓ κ} : {A : Type ℓ} (P : A → Type κ) (xs : List A) → All P xs → All P (reverse xs)
All-reverse P [] h = tt
All-reverse P (x ∷ xs) h = All-append P (reverse xs) (x ∷ []) (All-reverse P xs h.1) (h.0, tt)

pub length-merge_each :
    (sets others : List Set)
    → length sets ≡ length others
    → length (merge_each sets others) ≡ length sets
unfolding merge_each
length-merge_each [] others h = refl
length-merge_each (s ∷ sets) [] h = refl
length-merge_each (s ∷ sets) (other ∷ others) h =
    ap suc (length-merge_each sets others (omega (arith, h)))

pub All_IsSummed-merge_each :
    (sets others : List Set) → All IsSummed sets → All IsSummed (merge_each sets others)
unfolding merge_each merge
All_IsSummed-merge_each [] others h = tt
All_IsSummed-merge_each (s ∷ sets) [] h = h
All_IsSummed-merge_each (s ∷ sets) (other ∷ others) h =
    (IsSummed-add_all s other.items h.0, All_IsSummed-merge_each sets others h.1)

pub length-merge_states :
    (sets others : List Set)
    → length sets ≡ length others
    → length (merge_states sets others) ≡ length sets
unfolding merge_states sorted_sets
length-merge_states sets others h = omega (
  arith,
  length-sort_by (λ s other. set_lt other s) (merge_each sets (reverse others)),
  length-merge_each sets (reverse others) (h ∙ sym (length-reverse others)),
)

module _ (weight : ℕ × ℕ → ℕ) where
  -- What the items of a set weigh.
  abbrev pub load : Set → ℕ
  load s = total weight s.items

  pub load-merge : (s other : Set) → load (merge s other) ≡ load s + load other
  unfolding merge
  load-merge s other =
      ap (total weight) (items-add_all s other.items) ∙ total-append weight s.items other.items

  pub load-merge_each :
      (sets others : List Set)
      → length sets ≡ length others
      → total load (merge_each sets others) ≡ total load sets + total load others
  unfolding merge_each
  load-merge_each [] [] h = refl
  load-merge_each [] (other ∷ others) h = absurd (omega (arith, h))
  load-merge_each (s ∷ sets) [] h = absurd (omega (arith, h))
  load-merge_each (s ∷ sets) (other ∷ others) h =
      omega (arith, load-merge s other, load-merge_each sets others (omega (arith, h)))

  pub load-merge_states :
      (sets others : List Set)
      → length sets ≡ length others
      → total load (merge_states sets others) ≡ total load sets + total load others
  unfolding merge_states sorted_sets
  load-merge_states sets others h = omega (
    arith,
    total-sort_by (λ s other. set_lt other s) load (merge_each sets (reverse others)),
    load-merge_each sets (reverse others) (h ∙ sym (length-reverse others)),
    total-reverse load others,
  )

  pub load-add_each :
      (sets : List Set) (items : List (ℕ × ℕ)) {sets' : List Set}
      → add_each sets items ≡ ok sets'
      → total load sets' ≡ total load sets + total weight items
  unfolding add_each add
  load-add_each sets [] h = ap (total load) (sym (ok-eq h)) ∙ omega arith
  load-add_each [] (item ∷ items) h = cc
  load-add_each (s ∷ sets) (item ∷ items) h =
      let (more, added, e) = >>=-eq-ok (add_each sets items) _ h in
      ap (total load) (sym (ok-eq e))
      ∙ omega (arith, load-add_each sets items added, total-append weight s.items (item ∷ []))

  pub load-replicate : (k : ℕ) → total load (replicate k empty) ≡ 0
  load-replicate zero = refl
  load-replicate (suc k) = omega (arith, load-replicate k)
