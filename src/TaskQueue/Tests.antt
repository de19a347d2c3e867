-- ===== src/TaskQueue/Tests.antt =====
-- ray_task_queue.py: two tasks and a limit of one.
use axrl.Prelude.{ℕ, ◌+◌, ◌≤◌, ◌≡◌, refl, none, some, List, [], ◌∷◌, ◌++◌, ok, length, dict_get}
use axrl.TaskQueue.{
  TaskAssignment, TaskQueue, fresh, create, pending_of, put, put_many, is_full, record_running,
  take_next, complete, waits, get_round, stats, running_assignments,
}
use axrl.TaskQueue.Runs.{
  Run, created, called_put_many, called_get, called_complete, running-bounded,
}
use axrl.TaskQueue.Order.{tasks_of, waiting, puts_of, given-in-order}

program : Unit {0}
unfolding create pending_of put put_many is_full record_running take_next complete get_round stats
    running_assignments
program = tt

abbrev two_tasks : List ℕ
two_tasks = 10 ∷ 20 ∷ []

abbrev filled : TaskQueue ℕ
filled = put_many (fresh (some 1)) two_tasks 3 100

abbrev first : TaskAssignment ℕ
first = record {
  assignment_id = 7;
  task = 10;
  worker_id = 1;
  queued_at = 100;
  assigned_at = 101;
  key = 3;
}

abbrev busy : TaskQueue ℕ
busy = record {
  max_running_tasks = some 1;
  pending = (3, (record { task = 20; queued_at = 100 }) ∷ []) ∷ [];
  running = (7, first) ∷ [];
  completed_count = 0;
}

take_runs : take_next filled 1 3 7 101 ≡ (busy, some first)
unfolding program
take_runs = refl

-- While the first task runs, the second must wait.
full_waits : get_round busy 2 3 8 102 none ≡ (busy, waits)
unfolding program
full_waits = refl

abbrev freed : TaskQueue ℕ
freed = record busy { running = []; completed_count = 1 }

complete_runs : complete busy 7 ≡ ok freed
unfolding program
complete_runs = refl

unused : dict_get filled.running 7 ≡ none
unfolding program
unused = refl

fresh_runs : create (some 1) ≡ ok (fresh {A = ℕ} (some 1))
unfolding program
fresh_runs = refl

calls : Run (some 1) freed ((3, 10) ∷ (3, 20) ∷ []) (first ∷ [])
calls =
    called_complete
      (called_get (called_put_many (created fresh_runs) two_tasks 3 100) 1 3 7 101 first unused
        take_runs)
      7 complete_runs

running-bounded_example :
    (length freed.running ≤ 1)
    × (length freed.running + freed.completed_count ≡ length (first ∷ []))
running-bounded_example = running-bounded 1 freed ((3, 10) ∷ (3, 20) ∷ []) (first ∷ []) calls

given-in-order_example :
    tasks_of 3 (first ∷ []) ++ waiting freed 3 ≡ puts_of 3 ((3, 10) ∷ (3, 20) ∷ [])
given-in-order_example = given-in-order (some 1) freed ((3, 10) ∷ (3, 20) ∷ []) (first ∷ []) 3 calls
