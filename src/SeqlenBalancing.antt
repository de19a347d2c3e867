-- ===== src/SeqlenBalancing.antt =====
-- axrl/utils/megatron/seqlen_balancing.py: the partitions of a batch into micro-batches. `heapq` and
-- `sorted` are insertions in order; no two different states or sets that they compare are equal in
-- the order of `__lt__`, so that the order decides which one comes first.
mod Items
mod Rounds
mod Filled
pub mod Partitions
pub mod Microbatches
mod Tests
use axrl.Prelude.{
  ℕ, zero, suc, ◌+◌, ◌-◌, ◌*◌, ◌%◌, Bool, true, false, ◌&&◌, not, List, [], ◌∷◌, ◌++◌, map, Result,
  ok, err, ◌||◌, assert, ◌>>=◌, ◌>>◌, Error, length, replicate, take, drop, ltb, ◌==◌,
  if◌then◌else◌, insert_by, sort_by,
}

-- `Set`: the sum, and the items with their index and length.
pub record Set : Type 0 where
  pub sum : ℕ
  pub items : List (ℕ × ℕ)

abbrev pub empty : Set
empty = record { sum = 0; items = [] }

-- `Set.add`
unfoldable pub add : Set → ℕ × ℕ → Set
add s item = record { sum = s.sum + item.1; items = s.items ++ item ∷ [] }

unfoldable pub add_all : Set → List (ℕ × ℕ) → Set
unfolding add
add_all s [] = s
add_all s (item ∷ items) = add_all (add s item) items

-- `Set.merge`
unfoldable pub merge : Set → Set → Set
unfolding add_all
merge s other = add_all s other.items

-- The order of tuples, and of lists of them.
unfoldable pub pair_lt : ℕ × ℕ → ℕ × ℕ → Bool
pair_lt x y = if x.0 == y.0 then ltb x.1 y.1 else ltb x.0 y.0

unfoldable pub items_lt : List (ℕ × ℕ) → List (ℕ × ℕ) → Bool
unfolding pair_lt
items_lt xs [] = false
items_lt [] (y ∷ ys) = true
items_lt (x ∷ xs) (y ∷ ys) =
    let later = items_lt xs ys in if (x.0 == y.0) && (x.1 == y.1) then later else pair_lt x y

-- `Set.__lt__`
unfoldable pub set_lt : Set → Set → Bool
unfolding items_lt
set_lt s other =
    if not (s.sum == other.sum)
    then ltb s.sum other.sum
    else if not (length s.items == length other.items)
    then ltb (length s.items) (length other.items)
    else items_lt s.items other.items

-- `sorted(self.sets, reverse=True)`
unfoldable pub sorted_sets : List Set → List Set
unfolding set_lt
sorted_sets sets = sort_by (λ s other. set_lt other s) sets

-- The loop of `State.__init__` over the items, from the set at hand on.
unfoldable pub add_each : List Set → List (ℕ × ℕ) → Result (List Set)
unfolding add
add_each sets [] = ok sets
add_each [] (item ∷ items) = err Error.index_error
add_each (s ∷ sets) (item ∷ items) = do more ← add_each sets items; ok (add s item ∷ more)

-- `State.__init__`; a state is its sets, and `k` is their number.
unfoldable pub new_state : List (ℕ × ℕ) → ℕ → Result (List Set)
unfolding add_each sorted_sets
new_state items k = do
  assert (if length items == 1 then true else length items == k)
  sets ← add_each (replicate k empty) items
  ok (sorted_sets sets)

abbrev pub reverse {ℓ} : {A : Type ℓ} → List A → List A
reverse [] = []
reverse (x ∷ xs) = reverse xs ++ x ∷ []

-- The loop of `State.merge`, for the other's sets in reverse.
unfoldable pub merge_each : List Set → List Set → List Set
unfolding merge
merge_each [] others = []
merge_each sets [] = sets
merge_each (s ∷ sets) (other ∷ others) = merge s other ∷ merge_each sets others

-- `State.merge`
unfoldable pub merge_states : List Set → List Set → List Set
unfolding merge_each sorted_sets
merge_states sets others = sorted_sets (merge_each sets (reverse others))

-- `self.sets[0]` and `self.sets[-1]`, where there is one
abbrev pub first : List Set → Set
first [] = empty
first (s ∷ sets) = s

abbrev pub last : List Set → Set
last [] = empty
last (s ∷ []) = s
last (s ∷ other ∷ sets) = last (other ∷ sets)

-- `State.spread` and `State.__lt__`; the sets are in decreasing order.
unfoldable pub spread : List Set → ℕ
spread sets = (first sets).sum - (last sets).sum

unfoldable pub state_lt : List Set → List Set → Bool
unfolding spread set_lt
state_lt sets others =
    if not (spread sets == spread others)
    then ltb (spread others) (spread sets)
    else set_lt (first others) (first sets)

-- `heapq.heappush`; `heappop` takes the head.
unfoldable pub heappush : List (List Set) → List Set → List (List Set)
unfolding state_lt
heappush states_pq state = insert_by state_lt state states_pq

-- `enumerate(seqlen_list)`, from an index on, as pairs of a length and an index
abbrev pub enumerate : ℕ → List ℕ → List (ℕ × ℕ)
enumerate i [] = []
enumerate i (seqlen ∷ seqlens) = (seqlen, i) ∷ enumerate (i + 1) seqlens

unfoldable pub sorted_seqlens : List ℕ → List (ℕ × ℕ)
unfolding pair_lt
sorted_seqlens seqlens = sort_by pair_lt (enumerate 0 seqlens)

abbrev pub swap : ℕ × ℕ → ℕ × ℕ
swap pair = (pair.1, pair.0)

-- The loop that makes a state for each sequence.
unfoldable pub push_each : List (List Set) → List (ℕ × ℕ) → ℕ → Result (List (List Set))
unfolding new_state heappush
push_each states_pq [] k = ok states_pq
push_each states_pq (pair ∷ pairs) k = do
  state ← new_state (swap pair ∷ []) k
  push_each (heappush states_pq state) pairs k

-- The loop over the offsets, with `equal_size`: a state for each `k_partitions` sequences. The
-- number of sequences is enough fuel.
unfoldable pub push_groups : ℕ → List (List Set) → List (ℕ × ℕ) → ℕ → Result (List (List Set))
unfolding new_state heappush
push_groups f states_pq [] k = ok states_pq
push_groups zero states_pq (pair ∷ pairs) k = ok states_pq
push_groups (suc f) states_pq (pair ∷ pairs) k = do
  state ← new_state (map swap (take k (pair ∷ pairs))) k
  push_groups f (heappush states_pq state) (drop k (pair ∷ pairs)) k

-- `while len(states_pq) > 1`; each round leaves one state fewer, so that their number is enough fuel.
unfoldable pub merge_all : ℕ → List (List Set) → List (List Set)
unfolding merge_states heappush
merge_all (suc f) (state0 ∷ state1 ∷ states_pq) =
    merge_all f (heappush states_pq (merge_states state0 state1))
merge_all f states_pq = states_pq

-- `State.get_partitions`
abbrev pub indices : Set → List ℕ
indices s = map (λ item. item.0) s.items

unfoldable pub get_partitions : List Set → List (List ℕ)
get_partitions sets = map indices sets

-- The assertions on the sizes.
abbrev pub all_of_size : List (List ℕ) → ℕ → ℕ → Bool
all_of_size [] k n = true
all_of_size (p ∷ ps) k n = (length p * k == n) && all_of_size ps k n

-- `states_pq[0]`
unfoldable pub final_state : List (List Set) → Result (List Set)
final_state [] = err Error.index_error
final_state (state ∷ states_pq) = ok state

unfoldable pub initial_states : List ℕ → ℕ → Bool → Result (List (List Set))
unfolding push_each push_groups sorted_seqlens
initial_states seqlens k equal_size =
    if equal_size
    then (if k == 0
        then err Error.zero_division_error
        else assert (length seqlens % k == 0)
          >> push_groups (length seqlens) [] (sorted_seqlens seqlens) k)
    else push_each [] (sorted_seqlens seqlens) k

-- `_karmarkar_karp`
unfoldable pub karmarkar_karp : List ℕ → ℕ → Bool → Result (List (List ℕ))
unfolding initial_states merge_all final_state get_partitions
karmarkar_karp seqlens k equal_size = do
  states ← initial_states seqlens k equal_size
  state ← final_state (merge_all (length states) states)
  let partitions = get_partitions state
  assert (not equal_size || all_of_size partitions k (length seqlens))
  ok partitions
