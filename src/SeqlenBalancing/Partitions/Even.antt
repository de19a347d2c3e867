-- ===== src/SeqlenBalancing/Partitions/Even.antt =====
-- seqlen_balancing.py: `_get_seqlen_balanced_partitions` with `equal_size`.
use native.Mathlib.Nat.{mod-eq-sub-mod, mod-eq_of_lt, suc-mul, zero-mul, mul_comm}
use axrl.Prelude.{
  ℕ, zero, suc, ◌+◌, ◌-◌, ◌*◌, ◌%◌, ◌≤◌, ◌<◌, ◌≡◌, refl, ap, sym, ◌∙◌, true, false, List, [], ◌∷◌,
  map, ok, length, All, total, arith, ltb, leb, ◌==◌, sort_by, length-map, take, drop, length-drop,
  replicate, All-sort_by, inl, inr, Bool-cases, total-append, take-append-drop, map-append,
}
use axrl.SeqlenBalancing.{
  Set, empty, add, add_each, new_state, karmarkar_karp, initial_states, push_groups, sorted_seqlens,
  merge_all, final_state, get_partitions, swap, heappush, merge_states, merge_each, merge,
  sorted_sets, set_lt, indices, reverse, all_of_size,
}
use axrl.SeqlenBalancing.Items.{load, load-merge, load-merge_states, length-reverse, All-reverse}
use axrl.SeqlenBalancing.Rounds.{
  IsState, IsState-merge_states, All-heappush, total-heappush, length-heappush, merge_all_lem,
  new_state_lem,
}
use axrl.SeqlenBalancing.Partitions.{
  get_seqlen_balanced_partitions, all_filled, IsPartition, IsSorted,
}
use axrl.SeqlenBalancing.Partitions.Contents.{
  check_and_sort_partitions-ok, All_IsSorted-sort, IsPartition-sorted, All_length-sorted,
  IsPartition-get_partitions, length-sorted_seqlens, total-one,
}

-- Every set of a state has the same number of items.
abbrev HasSize : ℕ → List Set → Type 0
HasSize m sets = All (λ s. length s.items ≡ m) sets

abbrev IsEven : List Set → Type 0
IsEven sets = (m : ℕ) × HasSize m sets

HasSize-merge_each :
    (m n : ℕ) (sets others : List Set)
    → length sets ≡ length others
    → HasSize m sets
    → HasSize n others
    → HasSize (m + n) (merge_each sets others)
unfolding merge_each
HasSize-merge_each m n [] others l h g = tt
HasSize-merge_each m n (s ∷ sets) [] l h g = absurd (omega (arith, l))
HasSize-merge_each m n (s ∷ sets) (t ∷ others) l h g = (
  omega (
    arith,
    load-merge (λ item. 1) s t,
    total-one s.items,
    total-one t.items,
    total-one (merge s t).items,
    h.0,
    g.0,
  ),
  HasSize-merge_each m n sets others (omega (arith, l)) h.1 g.1,
)

IsEven-merge_states :
    (k : ℕ) (a b : List Set)
    → IsState k a
    → IsState k b
    → IsEven a
    → IsEven b
    → IsEven (merge_states a b)
unfolding merge_states sorted_sets
IsEven-merge_states k a b ha hb (m, ea) (n, eb) = (
  m + n,
  All-sort_by (λ s other. set_lt other s) (λ s. length s.items ≡ m + n) (merge_each a (reverse b))
      (HasSize-merge_each m n a (reverse b) (ha.0 ∙ sym (length-reverse b ∙ hb.0)) ea
        (All-reverse (λ s. length s.items ≡ n) b eb)),
)

-- A queue of even states that hold what they should.
record IsEvenQueue (k : ℕ) (c : (ℕ × ℕ → ℕ) → ℕ) (pq : List (List Set)) : Type 0 where
  pub states : All (IsState k) pq
  pub even : All IsEven pq
  pub weighs : (weight : ℕ × ℕ → ℕ) → total (total (load weight)) pq ≡ c weight

IsEvenQueue-round :
    (k : ℕ) (c : (ℕ × ℕ → ℕ) → ℕ) (a b : List Set) (pq : List (List Set))
    → IsEvenQueue k c (a ∷ b ∷ pq)
    → IsEvenQueue k c (heappush pq (merge_states a b))
IsEvenQueue-round k c a b pq r =
    let (ha, (hb, hs)) = r.states in
    record {
      states = All-heappush (IsState k) pq (merge_states a b) hs (IsState-merge_states k a b ha hb);
      even =
          All-heappush IsEven pq (merge_states a b) r.even.1.1
            (IsEven-merge_states k a b ha hb r.even.0 r.even.1.0);
      weighs = λ weight. omega (
        arith,
        r.weighs weight,
        total-heappush (total (load weight)) pq (merge_states a b),
        load-merge_states weight a b (ha.0 ∙ sym hb.0),
      );
    }

-- `k` items fill the `k` sets of a new state with one item each.
add_each-full :
    (items : List (ℕ × ℕ))
    → (sets : List Set) × (add_each (replicate (length items) empty) items ≡ ok sets)
      × HasSize 1 sets
unfolding add_each add
add_each-full [] = ([], refl, tt)
add_each-full (item ∷ items) =
    let (sets, e, h) = add_each-full items in (add empty item ∷ sets, rw e refl, (refl, h))

new_state-full :
    (items : List (ℕ × ℕ)) (k : ℕ)
    → length items ≡ k
    → (state : List Set) × (new_state items k ≡ ok state) × IsEven state
unfolding new_state sorted_sets
new_state-full items k l =
    let (sets, e, h) = add_each-full items in
    let e' : add_each (replicate k empty) items ≡ ok sets = rw l at e in
    let full : (length items == k) ≡ true = ground (arith, l) in
    elim (Bool-cases (length items == 1)) [
      | inl one ↦ (sorted_sets sets, rw (one, e') refl, (1, all_one sets h))
      | inr more ↦ (sorted_sets sets, rw (more, full, e') refl, (1, all_one sets h))
    ]
  where
    all_one : (sets : List Set) → HasSize 1 sets → HasSize 1 (sorted_sets sets)
    all_one sets h = All-sort_by (λ s other. set_lt other s) (λ s. length s.items ≡ 1) sets h

length-take : {A : Type 0} (k : ℕ) (xs : List A) → k ≤ length xs → length (take k xs) ≡ k
length-take zero xs h = refl
length-take (suc k) [] h = absurd (omega arith)
length-take (suc k) (x ∷ xs) h = ap suc (length-take k xs (omega arith))

leb_of_le : (a b : ℕ) → a ≤ b → leb a b ≡ true
leb_of_le a b h = ground arith

enough_left : (k n : ℕ) → 0 < n → n % suc k ≡ 0 → (suc k ≤ n) × ((n - suc k) % suc k ≡ 0)
enough_left k n h d = elim (Bool-cases (leb (suc k) n)) [
  | inl e ↦ let le : suc k ≤ n = ground (arith, e) in (le, sym (mod-eq-sub-mod le) ∙ d)
  | inr e ↦
      let lt : n < suc k = ground (arith, e) in
      let z = mod-eq_of_lt lt in absurd (omega (arith, z, d, h))
]

-- What the loop over the offsets leaves, for a multiple of `k` sequences.
push_groups-ok :
    (k f : ℕ) (pq : List (List Set)) (pairs : List (ℕ × ℕ))
    → length pairs % suc k ≡ 0
    → length pairs ≤ f
    → All (IsState (suc k)) pq
    → All IsEven pq
    → (pq' : List (List Set)) × (push_groups f pq pairs (suc k) ≡ ok pq')
      × IsEvenQueue (suc k) (λ w. total (total (load w)) pq + total w (map swap pairs)) pq'
      × (0 < length pq + length pairs → 0 < length pq')
unfolding push_groups
push_groups-ok k f pq [] d h states even = (
  pq,
  refl,
  record { states = states; even = even; weighs = λ weight. omega arith },
  λ lt. omega (arith, lt),
)
push_groups-ok k zero pq (p ∷ ps) d h states even = absurd (omega arith)
push_groups-ok k (suc f) pq (p ∷ ps) d h states even =
    let K = suc k in
    let enough = enough_left k (suc (length ps)) (omega arith) d in
    let (state, made, e) =
      new_state-full (map swap (take K (p ∷ ps))) K
        (length-map (take K (p ∷ ps)) swap ∙ length-take K (p ∷ ps) enough.0) in
    let (s, held) = new_state_lem (map swap (take K (p ∷ ps))) K made in
    let l = length-drop K (p ∷ ps) in
    let (pq', run, q, more) =
      push_groups-ok k f (heappush pq state) (drop K (p ∷ ps)) (ap (λ n. n % suc k) l ∙ enough.1)
        (omega (arith, l, h)) (All-heappush (IsState K) pq state states s)
        (All-heappush IsEven pq state even e) in
    (
      pq',
      rw made run,
      record {
        states = q.states;
        even = q.even;
        weighs = λ weight. omega (
          arith,
          q.weighs weight,
          total-heappush (total (load weight)) pq state,
          held weight,
          parts weight K (p ∷ ps),
        );
      },
      λ lt. more (omega (arith, length-heappush pq state)),
    )
  where
    parts :
        (weight : ℕ × ℕ → ℕ) (K : ℕ) (pairs : List (ℕ × ℕ))
        → total weight (map swap pairs)
          ≡ total weight (map swap (take K pairs)) + total weight (map swap (drop K pairs))
    parts weight K pairs =
        ap (λ ps. total weight (map swap ps)) (sym (take-append-drop K pairs))
        ∙ (ap (total weight) (map-append swap (take K pairs) (drop K pairs))
            ∙ total-append weight (map swap (take K pairs)) (map swap (drop K pairs)))

-- The end of `_karmarkar_karp`, before its assertions on the sizes.
merged-ok :
    (seqlens : List ℕ) (k : ℕ)
    → 0 < length seqlens
    → length seqlens % suc k ≡ 0
    → (pq : List (List Set)) × (state : List Set) × (initial_states seqlens (suc k) true ≡ ok pq)
      × (merge_all (length pq) pq ≡ state ∷ [])
      × (length state ≡ suc k)
      × IsEven state
      × ((weight : ℕ × ℕ → ℕ)
          → total (load weight) state ≡ total weight (map swap (sorted_seqlens seqlens)))
unfolding initial_states
merged-ok seqlens k h d =
    let l = length-sorted_seqlens seqlens in
    let c : (ℕ × ℕ → ℕ) → ℕ = λ w. total w (map swap (sorted_seqlens seqlens)) in
    let (pq, pushed, q, some_left) =
      push_groups-ok k (length seqlens) [] (sorted_seqlens seqlens) (ap (λ n. n % suc k) l ∙ d)
        (omega (arith, l)) tt tt in
    let pos : (suc k == 0) ≡ false = ground arith in
    let divides : (length seqlens % suc k == 0) ≡ true = ground (arith, d) in
    let (state, merged, r) =
      merge_all_lem (IsEvenQueue (suc k) c) (IsEvenQueue-round (suc k) c) (length pq) pq
        (record {
          states = q.states;
          even = q.even;
          weighs = λ weight. omega (arith, q.weighs weight);
        })
        (some_left (omega (arith, l, h))) (omega arith) in
    (
      pq,
      state,
      rw (pos, divides) pushed,
      merged,
      r.states.0.0,
      r.even.0,
      λ weight. omega (arith, r.weighs weight),
    )

-- The size that the sets share is the number of sequences divided by the number of sets.
HasSize-total :
    (m : ℕ) (sets : List Set) → HasSize m sets → total (load (λ item. 1)) sets ≡ length sets * m
HasSize-total m [] h = ground arith
HasSize-total m (s ∷ sets) h =
    omega (arith, h.0, total-one s.items, HasSize-total m sets h.1, suc-mul (length sets) m)

-- Every partition has the size asserted.
sizes_hold :
    (k n m : ℕ) (sets : List Set)
    → m * k ≡ n
    → HasSize m sets
    → (all_of_size (get_partitions sets) k n ≡ true)
      × All (λ p. length p * k ≡ n) (get_partitions sets)
unfolding get_partitions
sizes_hold k n m [] e h = (refl, tt)
sizes_hold k n m (s ∷ sets) e h =
    let (a, held) = sizes_hold k n m sets e h.1 in
    let size : length (indices s) * k ≡ n =
      ap (λ l. l * k) (length-map s.items (λ (item : ℕ × ℕ). item.0) ∙ h.0) ∙ e in
    let same : (length (indices s) * k == n) ≡ true = ground (arith, size) in
    (rw same a, (size, held))

filled_of_sizes :
    (k n : ℕ) (partitions : List (List ℕ))
    → 0 < n
    → All (λ p. length p * k ≡ n) partitions
    → all_filled partitions ≡ true
filled_of_sizes k n [] h hs = refl
filled_of_sizes k n ([] ∷ ps) h hs = absurd (omega (arith, h, zero-mul k, hs.0))
filled_of_sizes k n ((i ∷ is) ∷ ps) h hs =
    let t : ltb 0 (length (i ∷ is)) ≡ true = ground arith in rw t (filled_of_sizes k n ps h hs.1)

-- With `equal_size`, and a number of sequences that is a positive multiple of `k_partitions`, no
-- assertion fails either: the partitions are as many as asked for, each is sorted and of the same
-- size, and each index of a sequence stands in one of them, once.
pub get_seqlen_balanced_partitions-equal_size :
    (seqlens : List ℕ) (k : ℕ)
    → 0 < k
    → 0 < length seqlens
    → length seqlens % k ≡ 0
    → (partitions : List (List ℕ)) × (get_seqlen_balanced_partitions seqlens k true ≡ ok partitions)
      × (length partitions ≡ k)
      × All (λ p. length p * k ≡ length seqlens) partitions
      × All IsSorted partitions
      × IsPartition (length seqlens) partitions
unfolding get_seqlen_balanced_partitions karmarkar_karp final_state get_partitions
get_seqlen_balanced_partitions-equal_size seqlens zero some_k h d = absurd (omega arith)
get_seqlen_balanced_partitions-equal_size seqlens (suc k) some_k h d =
    let (pq, state, run, merged, l, (m, even), weighs) = merged-ok seqlens k h d in
    let n = length seqlens in
    let size : m * suc k ≡ n =
      mul_comm m (suc k)
      ∙ (ap (λ q. q * m) (sym l)
          ∙ (sym (HasSize-total m state even)
              ∙ (weighs (λ item. 1)
                  ∙ (total-one (map swap (sorted_seqlens seqlens))
                      ∙ (length-map (sorted_seqlens seqlens) swap
                          ∙ length-sorted_seqlens seqlens))))) in
    let (sizes, held) = sizes_hold (suc k) n m state size even in
    let f = filled_of_sizes (suc k) n (get_partitions state) h held in
    let p = IsPartition-get_partitions seqlens state weighs in
    let le : leb (suc k) n ≡ true = leb_of_le (suc k) n (enough_left k n h d).0 in
    let l' : length (get_partitions state) ≡ suc k = length-map state indices ∙ l in
    let checked = check_and_sort_partitions-ok (get_partitions state) (suc k) n l' f p in
    (
      map (sort_by ltb) (get_partitions state),
      rw (le, run, merged, sizes) checked,
      length-map (get_partitions state) (sort_by ltb) ∙ l',
      All_length-sorted (λ q. q * suc k ≡ n) (get_partitions state) held,
      All_IsSorted-sort (get_partitions state),
      IsPartition-sorted (length seqlens) (get_partitions state) p,
    )
