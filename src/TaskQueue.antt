-- ===== src/TaskQueue.antt =====
-- axrl/utils/ray_task_queue.py: the task queue that rollout workers share. The actor runs its
-- methods under one lock, so each is one step. Times, worker names and keys are numbers that are
-- only passed on or compared; the identifier that `uuid4` makes is an argument.
pub mod Runs
pub mod Order
mod Tests
use axrl.Prelude.{
  ℕ, zero, suc, ◌+◌, ◌-◌, Bool, true, false, ◌&&◌, Option, none, some, List, [], ◌∷◌, ◌++◌, map,
  Result, ok, err, assert, ◌>>=◌, ◌>>◌, Error, length, ltb, leb, ◌==◌, if◌then◌else◌, dict_get,
  dict_set, dict_pop,
}

pub record QueuedTask {ℓ} (A : Type ℓ) : Type ℓ where
  pub task : A
  pub queued_at : ℕ

pub record TaskAssignment {ℓ} (A : Type ℓ) : Type ℓ where
  pub assignment_id : ℕ
  pub task : A
  pub worker_id : ℕ
  pub queued_at : ℕ
  pub assigned_at : ℕ
  pub key : ℕ

pub record RayTaskQueueStats : Type 0 where
  pub pending_count : ℕ
  pub running_count : ℕ
  pub max_running_tasks : Option ℕ
  pub completed_count : ℕ

-- `RemoteRayTaskQueue`
pub record TaskQueue {ℓ} (A : Type ℓ) : Type ℓ where
  pub max_running_tasks : Option ℕ
  pub pending : List (ℕ × List (QueuedTask A))
  pub running : List (ℕ × TaskAssignment A)
  pub completed_count : ℕ

-- What one round of the loop in `get` does.
pub data Round {ℓ} (A : Type ℓ) : Type ℓ where
  returns : Option (TaskAssignment A) → Round A
  waits : Round A

module _ {ℓ} {A : Type ℓ} where
  abbrev pub fresh : Option ℕ → TaskQueue A
  fresh limit = record {
    max_running_tasks = limit;
    pending = [];
    running = [];
    completed_count = 0;
  }

  -- `__init__`
  unfoldable pub create : Option ℕ → Result (TaskQueue A)
  create none = ok (fresh none)
  create (some zero) = err Error.value_error
  create (some (suc m)) = ok (fresh (some (suc m)))

  -- `self._pending.get(key)`, and the empty deque of `setdefault`
  unfoldable pub pending_of : TaskQueue A → ℕ → List (QueuedTask A)
  pending_of q key = elim (dict_get q.pending key) [ none ↦ [] | some tasks ↦ tasks ]

  unfoldable pub put : TaskQueue A → A → ℕ → ℕ → TaskQueue A
  unfolding pending_of
  put q task key now = record q {
    pending =
        dict_set q.pending key (pending_of q key ++ record { task = task; queued_at = now } ∷ []);
  }

  unfoldable pub put_many : TaskQueue A → List A → ℕ → ℕ → TaskQueue A
  unfolding pending_of
  put_many q tasks key now = record q {
    pending =
        dict_set q.pending key
          (pending_of q key ++ map (λ task. record { task = task; queued_at = now }) tasks);
  }

  -- `self._max_running_tasks is not None and len(self._running) >= self._max_running_tasks`
  unfoldable pub is_full : TaskQueue A → Bool
  is_full q = elim q.max_running_tasks [ none ↦ false | some m ↦ leb m (length q.running) ]

  -- `self._running[assignment_id] = assignment`, when there is a limit
  unfoldable pub record_running : TaskQueue A → TaskAssignment A → List (ℕ × TaskAssignment A)
  record_running q a = elim q.max_running_tasks [
    | none ↦ q.running
    | some m ↦ dict_set q.running a.assignment_id a
  ]

  -- `_take_next_assignment_locked`, which is all that `get_nowait` does
  unfoldable pub take_next : TaskQueue A → ℕ → ℕ → ℕ → ℕ → TaskQueue A × Option (TaskAssignment A)
  unfolding pending_of is_full record_running
  take_next q worker_id key assignment_id now = elim (pending_of q key) [
    | [] ↦ (q, none)
    | head ∷ rest ↦
        let a : TaskAssignment A = record {
          assignment_id = assignment_id;
          task = head.task;
          worker_id = worker_id;
          queued_at = head.queued_at;
          assigned_at = now;
          key = key;
        } in
        if is_full q then (q, none) else (
          record q { pending = dict_set q.pending key rest; running = record_running q a },
          some a,
        )
  ]

  -- One round of `get`: `remaining` is the time left up to the deadline, if there is one. While it
  -- waits, a notification starts the next round, and the timeout ends the call with None.
  unfoldable pub get_round : TaskQueue A → ℕ → ℕ → ℕ → ℕ → Option ℕ → TaskQueue A × Round A
  unfolding take_next
  get_round q worker_id key assignment_id now remaining =
      let (q', assignment) = take_next q worker_id key assignment_id now in
      (
        q',
        elim assignment [
          | some a ↦ returns (some a)
          | none ↦ elim remaining [ none ↦ waits | some zero ↦ returns none | some (suc t) ↦ waits ]
        ],
      )

  unfoldable pub complete : TaskQueue A → ℕ → Result (TaskQueue A)
  complete q assignment_id = elim q.max_running_tasks [
    | none ↦ err Error.assertion_error
    | some m ↦ elim (dict_get q.running assignment_id) [
      | none ↦ err Error.assertion_error
      | some a ↦ ok (record q {
        running = dict_pop q.running assignment_id;
        completed_count = q.completed_count + 1;
      })
    ]
  ]

  abbrev pub count_key : ℕ → List (ℕ × TaskAssignment A) → ℕ
  count_key key [] = 0
  count_key key (entry ∷ d) = (if entry.1.key == key then 1 else 0) + count_key key d

  unfoldable pub stats : TaskQueue A → ℕ → RayTaskQueueStats
  unfolding pending_of
  stats q key = record {
    pending_count = length (pending_of q key);
    running_count = count_key key q.running;
    max_running_tasks = q.max_running_tasks;
    completed_count = q.completed_count;
  }

  unfoldable pub running_assignments : TaskQueue A → List (TaskAssignment A)
  running_assignments q = map (λ entry. entry.1) q.running
