-- ===== src/SeqlenBalancing/Partitions/Balanced.antt =====
-- seqlen_balancing.py: `_get_seqlen_balanced_partitions` without `equal_size`, from the start to
-- the end.
use axrl.Prelude.{
  ℕ, zero, suc, ◌≤◌, ◌<◌, ◌≡◌, refl, sym, ◌∙◌, true, false, List, [], ◌∷◌, map, ok, length, All,
  total, arith, ltb, leb, sort_by, length-map,
}
use axrl.SeqlenBalancing.{
  Set, karmarkar_karp, initial_states, sorted_seqlens, final_state, get_partitions, swap, heappush,
  merge_states, indices,
}
use axrl.SeqlenBalancing.Items.{load, load-merge_states}
use axrl.SeqlenBalancing.Rounds.{
  IsState, IsState-merge_states, All-heappush, total-heappush, merge_all_lem,
}
use axrl.SeqlenBalancing.Filled.{
  filled, filled-le, filled-le-length, IsFront, IsFront-merge_states, filled-merge_states,
}
use axrl.SeqlenBalancing.Partitions.{
  get_seqlen_balanced_partitions, all_filled, IsPartition, IsSorted,
}
use axrl.SeqlenBalancing.Partitions.Pushes.{IsQueue, push_each-ok}
use axrl.SeqlenBalancing.Partitions.Contents.{
  check_and_sort_partitions-ok, All_IsSorted-sort, IsPartition-sorted, All_length-sorted,
  IsPartition-get_partitions, length-sorted_seqlens,
}

-- What the rounds keep: enough sets that have items, and all the items.
record IsBalancing (k : ℕ) (c : (ℕ × ℕ → ℕ) → ℕ) (pq : List (List Set)) : Type 0 where
  pub queue : IsQueue k pq
  pub enough : k ≤ total (total filled) pq
  pub weighs : (weight : ℕ × ℕ → ℕ) → total (total (load weight)) pq ≡ c weight

IsBalancing-round :
    (k : ℕ) (c : (ℕ × ℕ → ℕ) → ℕ) (a b : List Set) (pq : List (List Set))
    → IsBalancing k c (a ∷ b ∷ pq)
    → IsBalancing k c (heappush pq (merge_states a b))
IsBalancing-round k c a b pq r =
    let ((ha, (hb, hs)), (fa, (fb, fs))) = r.queue in
    record {
      queue = (
        All-heappush (IsState k) pq (merge_states a b) hs (IsState-merge_states k a b ha hb),
        All-heappush IsFront pq (merge_states a b) fs (IsFront-merge_states a b ha.1),
      );
      enough = omega (
        arith,
        r.enough,
        total-heappush (total filled) pq (merge_states a b),
        filled-merge_states k a b ha hb fa fb,
      );
      weighs = λ weight. omega (
        arith,
        r.weighs weight,
        total-heappush (total (load weight)) pq (merge_states a b),
        load-merge_states weight a b (ha.0 ∙ sym hb.0),
      );
    }

-- The end of `_karmarkar_karp`: one state, no set of it empty.
karmarkar_karp-ok :
    (seqlens : List ℕ) (k : ℕ)
    → suc k ≤ length seqlens
    → (state : List Set) × (karmarkar_karp seqlens (suc k) false ≡ ok (get_partitions state))
      × (length state ≡ suc k)
      × (suc k ≤ total filled state)
      × ((weight : ℕ × ℕ → ℕ)
          → total (load weight) state ≡ total weight (map swap (sorted_seqlens seqlens)))
unfolding karmarkar_karp initial_states final_state
karmarkar_karp-ok seqlens k h =
    let (pq, pushed, p) = push_each-ok k [] (sorted_seqlens seqlens) (tt, tt) in
    let l = length-sorted_seqlens seqlens in
    let start : IsBalancing (suc k) (λ w. total w (map swap (sorted_seqlens seqlens))) pq = record {
      queue = p.queue;
      enough = omega (arith, p.count_filled, l, h);
      weighs = λ weight. omega (arith, p.weighs weight);
    } in
    let (state, merged, r) =
      merge_all_lem (IsBalancing (suc k) (λ w. total w (map swap (sorted_seqlens seqlens))))
        (IsBalancing-round (suc k) (λ w. total w (map swap (sorted_seqlens seqlens)))) (length pq)
        pq start (omega (arith, p.count_states, l, h)) (omega arith) in
    (
      state,
      rw (pushed, merged) refl,
      r.queue.0.0.0,
      omega (arith, r.enough),
      λ weight. omega (arith, r.weighs weight),
    )

all_filled_of_count :
    (state : List Set)
    → length state ≤ total filled state
    → (all_filled (get_partitions state) ≡ true) × All (λ p. 0 < length p) (get_partitions state)
unfolding get_partitions
all_filled_of_count [] h = (refl, tt)
all_filled_of_count (s ∷ sets) h =
    let (f, a) = all_filled_of_count sets (omega (arith, h, filled-le (s ∷ []))) in
    let lt : 0 < length (indices s) = omega (
      arith,
      h,
      filled-le sets,
      filled-le-length s,
      length-map s.items (λ (item : ℕ × ℕ). item.0),
    ) in
    let t : ltb 0 (length (indices s)) ≡ true = ground (arith, lt) in (rw t f, (lt, a))

-- With at least as many sequences as partitions no assertion fails: there are `k_partitions`
-- partitions, each sorted and not empty, and each index of a sequence stands in one of them, once.
pub get_seqlen_balanced_partitions-ok :
    (seqlens : List ℕ) (k : ℕ)
    → 0 < k
    → k ≤ length seqlens
    → (partitions : List (List ℕ)) × (get_seqlen_balanced_partitions seqlens k false
        ≡ ok partitions)
      × (length partitions ≡ k)
      × All (λ p. 0 < length p) partitions
      × All IsSorted partitions
      × IsPartition (length seqlens) partitions
unfolding get_seqlen_balanced_partitions get_partitions
get_seqlen_balanced_partitions-ok seqlens zero some_k h = absurd (omega arith)
get_seqlen_balanced_partitions-ok seqlens (suc k) some_k h =
    let (state, run, l, enough, weighs) = karmarkar_karp-ok seqlens k h in
    let (f, lengths) = all_filled_of_count state (omega (arith, l, enough)) in
    let p = IsPartition-get_partitions seqlens state weighs in
    let le : leb (suc k) (length seqlens) ≡ true = ground arith in
    let l' : length (get_partitions state) ≡ suc k = length-map state indices ∙ l in
    let checked =
      check_and_sort_partitions-ok (get_partitions state) (suc k) (length seqlens) l' f p in
    (
      map (sort_by ltb) (get_partitions state),
      rw (le, run, checked) refl,
      length-map (get_partitions state) (sort_by ltb) ∙ l',
      All_length-sorted (λ n. 0 < n) (get_partitions state) lengths,
      All_IsSorted-sort (get_partitions state),
      IsPartition-sorted (length seqlens) (get_partitions state) p,
    )
