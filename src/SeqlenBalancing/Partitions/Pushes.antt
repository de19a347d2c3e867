-- ===== src/SeqlenBalancing/Partitions/Pushes.antt =====
-- seqlen_balancing.py: the states that `_karmarkar_karp` starts from, without `equal_size`.
use axrl.Prelude.{
  ℕ, zero, suc, ◌+◌, ◌≡◌, refl, ap, ◌∙◌, List, [], ◌∷◌, map, ok, length, All, total, arith,
  replicate, total-sort_by, ◌>>=◌,
}
use axrl.SeqlenBalancing.{
  Set, empty, add, add_each, new_state, push_each, heappush, swap, sorted_sets, set_lt,
}
use axrl.SeqlenBalancing.Items.{load, IsSummed-add}
use axrl.SeqlenBalancing.Rounds.{
  IsState, All-heappush, total-heappush, length-heappush, new_state_lem, All_IsSummed-replicate,
}
use axrl.SeqlenBalancing.Filled.{filled, IsFront, IsFront-sorted_sets}

-- The states of a queue, with the sets that have items in front.
abbrev pub IsQueue : ℕ → List (List Set) → Type 0
IsQueue k pq = All (IsState k) pq × All IsFront pq

abbrev one_item : ℕ × ℕ → ℕ → List Set
one_item item k = sorted_sets (add empty item ∷ replicate k empty)

new_state_one : (item : ℕ × ℕ) (k : ℕ) → new_state (item ∷ []) (suc k) ≡ ok (one_item item k)
unfolding new_state add_each
new_state_one item k = refl

filled-replicate : (k : ℕ) → total filled (replicate k empty) ≡ 0
filled-replicate zero = refl
filled-replicate (suc k) = omega (arith, filled-replicate k)

filled_one : (item : ℕ × ℕ) (k : ℕ) → total filled (one_item item k) ≡ 1
unfolding sorted_sets add
filled_one item k = omega (
  arith,
  total-sort_by (λ s other. set_lt other s) filled (add empty item ∷ replicate k empty),
  filled-replicate k,
)

-- What the loop adds to a queue: a state for each sequence.
pub record IsPushed (k : ℕ) (pq : List (List Set)) (pairs : List (ℕ × ℕ)) (pq' : List (List Set))
    : Type 0 where
  pub queue : IsQueue (suc k) pq'
  pub count_states : length pq' ≡ length pq + length pairs
  pub count_filled : total (total filled) pq' ≡ total (total filled) pq + length pairs
  pub weighs :
      (weight : ℕ × ℕ → ℕ)
      → total (total (load weight)) pq'
        ≡ total (total (load weight)) pq + total weight (map swap pairs)

IsFront-one : (item : ℕ × ℕ) (k : ℕ) → IsFront (one_item item k)
IsFront-one item k =
    IsFront-sorted_sets (add empty item ∷ replicate k empty)
      (IsSummed-add empty item refl, All_IsSummed-replicate k)

IsQueue-push :
    (k : ℕ) (pq : List (List Set)) (item : ℕ × ℕ)
    → IsQueue (suc k) pq
    → IsQueue (suc k) (heappush pq (one_item item k))
IsQueue-push k pq item q =
    let ((l, s), w) = new_state_lem (item ∷ []) (suc k) (new_state_one item k) in
    (
      All-heappush (IsState (suc k)) pq (one_item item k) q.0 (l, s),
      All-heappush IsFront pq (one_item item k) q.1 (IsFront-one item k),
    )

pub push_each-ok :
    (k : ℕ) (pq : List (List Set)) (pairs : List (ℕ × ℕ))
    → IsQueue (suc k) pq
    → (pq' : List (List Set)) × (push_each pq pairs (suc k) ≡ ok pq') × IsPushed k pq pairs pq'
unfolding push_each
push_each-ok k pq [] q = (
  pq,
  refl,
  record {
    queue = q;
    count_states = omega arith;
    count_filled = omega arith;
    weighs = λ weight. omega arith;
  },
)
push_each-ok k pq (pair ∷ pairs) q =
    let state = one_item (swap pair) k in
    let (pq', e, p) = push_each-ok k (heappush pq state) pairs (IsQueue-push k pq (swap pair) q) in
    let held : (weight : ℕ × ℕ → ℕ) → total (load weight) state ≡ weight (swap pair) + 0 =
      (new_state_lem (swap pair ∷ []) (suc k) (new_state_one (swap pair) k)).1 in
    (
      pq',
      ap (λ r. r >>= λ s. push_each (heappush pq s) pairs (suc k)) (new_state_one (swap pair) k)
          ∙ e,
      record {
        queue = p.queue;
        count_states = omega (arith, p.count_states, length-heappush pq state);
        count_filled = omega (
          arith,
          p.count_filled,
          total-heappush (total filled) pq state,
          filled_one (swap pair) k,
        );
        weighs = λ weight.
            omega
              (arith, p.weighs weight, total-heappush (total (load weight)) pq state, held weight);
      },
    )
