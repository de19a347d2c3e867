-- ===== src/SeqlenBalancing/Rounds.antt =====
-- seqlen_balancing.py: the rounds of `_karmarkar_karp` on the queue of states.
use axrl.Prelude.{
  ℕ, zero, suc, true, if◌then◌else◌, ◌==◌, ◌>>=◌, ◌+◌, ◌≤◌, ◌<◌, ◌≡◌, refl, ap, sym, ◌∙◌, List, [],
  ◌∷◌, length, All, total, arith, length-insert_by, total-insert_by, All-insert_by, All-sort_by, ok,
  >>=-eq-ok, ok-eq, assert-eq-ok, replicate, length-replicate, length-sort_by, total-sort_by,
}
use mathlib.Core.Path.{subst}
use axrl.SeqlenBalancing.{
  Set, merge_states, heappush, state_lt, merge_all, merge_each, sorted_sets, set_lt, reverse,
  new_state, add_each, empty,
}
use axrl.SeqlenBalancing.Items.{
  IsSummed, length-merge_states, All_IsSummed-merge_each, load, load-merge_states, load-add_each,
  load-replicate, IsSummed-add,
}

-- What each round keeps, the last state has.
pub merge_all_lem {κ} :
    (R : List (List Set) → Type κ)
    → ((a b : List Set) (pq : List (List Set))
        → R (a ∷ b ∷ pq)
        → R (heappush pq (merge_states a b)))
    → (f : ℕ) (pq : List (List Set)) → R pq
    → 0 < length pq
    → length pq ≤ f
    → (state : List Set) × (merge_all f pq ≡ state ∷ []) × R (state ∷ [])
unfolding merge_all heappush
merge_all_lem R round f [] r some_left h = absurd (omega arith)
merge_all_lem R round zero (a ∷ []) r some_left h = (a, refl, r)
merge_all_lem R round (suc f) (a ∷ []) r some_left h = (a, refl, r)
merge_all_lem R round zero (a ∷ b ∷ pq) r some_left h = absurd (omega arith)
merge_all_lem R round (suc f) (a ∷ b ∷ pq) r some_left h =
    let l = length-insert_by state_lt (merge_states a b) pq in
    merge_all_lem R round f (heappush pq (merge_states a b)) (round a b pq r) (omega (arith, l))
      (omega (arith, l))

-- A state has `k` sets, each with its sum.
abbrev pub IsState : ℕ → List Set → Type 0
IsState k sets = (length sets ≡ k) × All IsSummed sets

pub All_IsSummed-sorted_sets :
    (sets : List Set) → All IsSummed sets → All IsSummed (sorted_sets sets)
unfolding sorted_sets
All_IsSummed-sorted_sets sets h = All-sort_by (λ s other. set_lt other s) IsSummed sets h

pub IsState-merge_states :
    (k : ℕ) (a b : List Set) → IsState k a → IsState k b → IsState k (merge_states a b)
unfolding merge_states
IsState-merge_states k a b ha hb = (
  length-merge_states a b (ha.0 ∙ sym hb.0) ∙ ha.0,
  All_IsSummed-sorted_sets (merge_each a (reverse b)) (All_IsSummed-merge_each a (reverse b) ha.1),
)

pub All-heappush {κ} :
    (P : List Set → Type κ) (pq : List (List Set)) (state : List Set)
    → All P pq
    → P state
    → All P (heappush pq state)
unfolding heappush
All-heappush P pq state h hs = All-insert_by state_lt P state pq hs h

pub total-heappush :
    (weight : List Set → ℕ) (pq : List (List Set)) (state : List Set)
    → total weight (heappush pq state) ≡ weight state + total weight pq
unfolding heappush
total-heappush weight pq state = total-insert_by state_lt weight state pq

pub length-heappush :
    (pq : List (List Set)) (state : List Set) → length (heappush pq state) ≡ length pq + 1
unfolding heappush
length-heappush pq state = length-insert_by state_lt state pq

-- All the states together weigh what they weigh at the start.
abbrev pub Weighs : ℕ → (ℕ × ℕ → ℕ) → ℕ → List (List Set) → Type 0
Weighs k weight c pq = All (IsState k) pq × (total (total (load weight)) pq ≡ c)

pub Weighs-round :
    (k : ℕ) (weight : ℕ × ℕ → ℕ) (c : ℕ) (a b : List Set) (pq : List (List Set))
    → Weighs k weight c (a ∷ b ∷ pq)
    → Weighs k weight c (heappush pq (merge_states a b))
Weighs-round k weight c a b pq ((ha, (hb, hs)), e) = (
  All-heappush (IsState k) pq (merge_states a b) hs (IsState-merge_states k a b ha hb),
  omega (
    arith,
    total-heappush (total (load weight)) pq (merge_states a b),
    load-merge_states weight a b (ha.0 ∙ sym hb.0),
    e,
  ),
)

length-add_each :
    (sets : List Set) (items : List (ℕ × ℕ)) {sets' : List Set}
    → add_each sets items ≡ ok sets'
    → length sets' ≡ length sets
unfolding add_each
length-add_each sets [] h = ap length (sym (ok-eq h))
length-add_each [] (item ∷ items) h = cc
length-add_each (s ∷ sets) (item ∷ items) h =
    let (more, added, e) = >>=-eq-ok (add_each sets items) _ h in
    ap length (sym (ok-eq e)) ∙ ap suc (length-add_each sets items added)

All_IsSummed-add_each :
    (sets : List Set) (items : List (ℕ × ℕ)) {sets' : List Set}
    → All IsSummed sets
    → add_each sets items ≡ ok sets'
    → All IsSummed sets'
unfolding add_each
All_IsSummed-add_each sets [] s h = subst (All IsSummed) (ok-eq h) s
All_IsSummed-add_each [] (item ∷ items) s h = cc
All_IsSummed-add_each (set ∷ sets) (item ∷ items) s h =
    let (more, added, e) = >>=-eq-ok (add_each sets items) _ h in
    subst (All IsSummed) (ok-eq e)
      (IsSummed-add set item s.0, All_IsSummed-add_each sets items s.1 added)

pub All_IsSummed-replicate : (k : ℕ) → All IsSummed (replicate k empty)
All_IsSummed-replicate zero = tt
All_IsSummed-replicate (suc k) = (refl, All_IsSummed-replicate k)

-- A new state holds its items.
pub new_state_lem :
    (items : List (ℕ × ℕ)) (k : ℕ) {state : List Set}
    → new_state items k ≡ ok state
    → IsState k state × ((weight : ℕ × ℕ → ℕ) → total (load weight) state ≡ total weight items)
unfolding new_state sorted_sets
new_state_lem items k h =
    let (checked, rest) =
      assert-eq-ok (if length items == 1 then true else length items == k)
        (add_each (replicate k empty) items >>= λ sets. ok (sorted_sets sets)) h in
    let (sets, added, e) =
      >>=-eq-ok (add_each (replicate k empty) items) (λ sets. ok (sorted_sets sets)) rest in
    subst
      (λ state.
        IsState k state × ((weight : ℕ × ℕ → ℕ) → total (load weight) state ≡ total weight items))
      (ok-eq e)
      (
        (
          length-sort_by (λ s other. set_lt other s) sets
              ∙ (length-add_each (replicate k empty) items added ∙ length-replicate k empty),
          All-sort_by (λ s other. set_lt other s) IsSummed sets
              (All_IsSummed-add_each (replicate k empty) items (All_IsSummed-replicate k) added),
        ),
        λ weight. omega (
          arith,
          total-sort_by (λ s other. set_lt other s) (load weight) sets,
          load-add_each weight (replicate k empty) items added,
          load-replicate weight k,
        ),
      )
