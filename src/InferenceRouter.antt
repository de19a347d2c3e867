-- ===== src/InferenceRouter.antt =====
-- axrl/worker/infer_router.py: the router of inference requests. Its methods run under one lock, so
-- each is one step. A session id is a number that is only compared; `none` stands for an id that is
-- None or empty. A negative `max_cached_session_ids` is `none`.
pub mod Flights
pub mod Routing
mod Tests
use axrl.Prelude.{
  ℕ, zero, suc, ◌+◌, ◌-◌, ◌*◌, Bool, true, false, not, ◌&&◌, Option, none, some, List, [], ◌∷◌,
  ◌++◌, map, Result, ok, err, assert, ◌>>=◌, ◌>>◌, Error, length, replicate, get_elem?, ltb, leb,
  ◌==◌, if◌then◌else◌, dict_get, dict_set,
}

pub record InferenceRouter : Type 0 where
  pub max_imbalance : ℕ
  pub max_cached_session_ids : Option ℕ
  pub workloads : List ℕ
  pub session_worker : List (ℕ × ℕ)
  pub session_count : List (ℕ × ℕ)

-- `__init__` and `_set_workers`
abbrev pub create : ℕ → Option ℕ → ℕ → InferenceRouter
create max_imbalance max_cached num_workers = record {
  max_imbalance = max_imbalance;
  max_cached_session_ids = max_cached;
  workloads = replicate num_workers 0;
  session_worker = [];
  session_count = [];
}

-- `np.argmin`: the first index of the least value, and the value. An empty array is a ValueError.
unfoldable pub argmin : List ℕ → Option (ℕ × ℕ)
argmin [] = none
argmin (w ∷ ws) = elim (argmin ws) [
  | none ↦ some (0, w)
  | some (i, v) ↦ if leb w v then some (0, w) else some (suc i, v)
]

-- `self._workloads[index] += 1`, for an index in range, and `-= 1`, whose index comes with the call;
-- a negative index is left out. A request that finishes is in flight, so the workload of its worker
-- is not 0 there.
unfoldable pub add_at : List ℕ → ℕ → List ℕ
add_at [] index = []
add_at (w ∷ ws) zero = (w + 1) ∷ ws
add_at (w ∷ ws) (suc index) = w ∷ add_at ws index

unfoldable pub sub_at : List ℕ → ℕ → Result (List ℕ)
sub_at [] index = err Error.index_error
sub_at (w ∷ ws) zero = ok ((w - 1) ∷ ws)
sub_at (w ∷ ws) (suc index) = do rest ← sub_at ws index; ok (w ∷ rest)

-- `self._session_count.get(session_id, 0)`
abbrev pub or_zero : Option ℕ → ℕ
or_zero none = 0
or_zero (some n) = n

abbrev pub count_of : List (ℕ × ℕ) → ℕ → ℕ
count_of counts session_id = or_zero (dict_get counts session_id)

-- `_drop_idle_session_worker_mapping`
unfoldable pub keep_active_workers : List (ℕ × ℕ) → List (ℕ × ℕ) → List (ℕ × ℕ)
keep_active_workers counts [] = []
keep_active_workers counts (entry ∷ d) =
    let more = keep_active_workers counts d in
    if ltb 0 (count_of counts entry.0) then entry ∷ more else more

unfoldable pub keep_active_counts : List (ℕ × ℕ) → List (ℕ × ℕ)
keep_active_counts [] = []
keep_active_counts (entry ∷ d) =
    let more = keep_active_counts d in if ltb 0 entry.1 then entry ∷ more else more

unfoldable pub drop_idle : InferenceRouter → InferenceRouter
unfolding keep_active_workers keep_active_counts
drop_idle r = record r {
  session_worker = keep_active_workers r.session_count r.session_worker;
  session_count = keep_active_counts r.session_count;
}

-- `clear_session_worker_mapping`
unfoldable pub clear_session_worker_mapping : InferenceRouter → InferenceRouter
unfolding drop_idle
clear_session_worker_mapping r = drop_idle r

-- `self.max_cached_session_ids < 0 or len(self._session_worker) < self.max_cached_session_ids`
abbrev pub has_room : Option ℕ → ℕ → Bool
has_room none n = true
has_room (some m) n = ltb n m

-- `_cleanup_idle_session_worker_mapping_if_needed`
unfoldable pub cleanup_if_needed : InferenceRouter → InferenceRouter
unfolding drop_idle
cleanup_if_needed r =
    if has_room r.max_cached_session_ids (length r.session_worker) then r else drop_idle r

-- The end of `_assign_worker_index`: the least loaded worker becomes the session's.
unfoldable pub assign_least : InferenceRouter → ℕ → ℕ → InferenceRouter × ℕ
unfolding add_at cleanup_if_needed
assign_least r session_id index = (
  cleanup_if_needed (record r {
    session_worker = dict_set r.session_worker session_id index;
    workloads = add_at r.workloads index;
  }),
  index,
)

-- The choice for a session whose request has just been counted. `index` and `least` are the least
-- loaded worker and its workload.
unfoldable pub choose_worker : InferenceRouter → ℕ → ℕ → ℕ → Result (InferenceRouter × ℕ)
unfolding assign_least add_at
choose_worker r session_id index least = elim (dict_get r.session_worker session_id) [
  | none ↦ ok (assign_least r session_id index)
  | some prefer_index ↦ elim (get_elem? r.workloads prefer_index) [
    | none ↦ err Error.index_error
    | some workload ↦
        if ltb workload (least + r.max_imbalance)
        then ok (record r { workloads = add_at r.workloads prefer_index }, prefer_index)
        else ok (assign_least r session_id index)
  ]
]

-- `self._session_count[session_id] += 1`, from 0 for a new session
abbrev pub counted : InferenceRouter → ℕ → InferenceRouter
counted r session_id = record r {
  session_count = dict_set r.session_count session_id (count_of r.session_count session_id + 1);
}

-- `_assign_worker_index`
unfoldable pub assign_worker_index : InferenceRouter → Option ℕ → Result (InferenceRouter × ℕ)
unfolding argmin add_at choose_worker
assign_worker_index r session_id = elim (argmin r.workloads) [
  | none ↦ err Error.value_error
  | some (index, least) ↦ elim session_id [
    | none ↦ ok (record r { workloads = add_at r.workloads index }, index)
    | some s ↦ choose_worker (counted r s) s index least
  ]
]

-- `_on_conversations_finish`
unfoldable pub on_conversations_finish : InferenceRouter → Option ℕ → ℕ → Result InferenceRouter
unfolding sub_at
on_conversations_finish r session_id worker_index = do
  workloads ← sub_at r.workloads worker_index
  let r' = record r { workloads = workloads }
  elim session_id [
    | none ↦ ok r'
    | some s ↦ elim (dict_get r.session_count s) [
      | none ↦ err Error.key_error
      | some n ↦ ok (record r' { session_count = dict_set r.session_count s (n - 1) })
    ]
  ]
