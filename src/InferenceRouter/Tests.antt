-- ===== src/InferenceRouter/Tests.antt =====
-- infer_router.py: two workers and one session.
use mathlib.Core.Path.{subst}
use axrl.Prelude.{ℕ, ◌≡◌, refl, sym, ◌∙◌, ok-eq, some, none, [], ◌∷◌, ok, arith}
use axrl.InferenceRouter.{
  InferenceRouter, create, argmin, add_at, sub_at, keep_active_workers, keep_active_counts,
  drop_idle, clear_session_worker_mapping, cleanup_if_needed, assign_least, choose_worker,
  assign_worker_index, on_conversations_finish,
}
use axrl.InferenceRouter.Flights.{IsRouting}
use axrl.InferenceRouter.Routing.{
  Assigned, assign_worker_index-Assigned, on_conversations_finish-IsRouting, create-IsRouting,
}

program : Unit {0}
unfolding argmin add_at sub_at keep_active_workers keep_active_counts drop_idle
    clear_session_worker_mapping cleanup_if_needed assign_least choose_worker assign_worker_index
    on_conversations_finish
program = tt

abbrev idle : InferenceRouter
idle = create 4 none 2

assign_worker_index-Assigned_example : Assigned idle [] 7 (assign_worker_index idle (some 7))
assign_worker_index-Assigned_example =
    assign_worker_index-Assigned idle [] 7 (create-IsRouting 4 none 2) (omega arith)

abbrev busy : InferenceRouter
busy = record idle {
  workloads = 1 ∷ 0 ∷ [];
  session_worker = (7, 0) ∷ [];
  session_count = (7, 1) ∷ [];
}

assign_runs : assign_worker_index idle (some 7) ≡ ok (busy, 0)
unfolding program
assign_runs = refl

-- The second request of the session goes to the same worker, though the other one is idle.
sticks :
    assign_worker_index busy (some 7)
    ≡ ok (record busy { workloads = 2 ∷ 0 ∷ []; session_count = (7, 2) ∷ [] }, 0)
unfolding program
sticks = refl

busy-IsRouting : IsRouting busy ((7, 0) ∷ [])
busy-IsRouting =
    subst (λ (p : InferenceRouter × ℕ). IsRouting p.0 ((7, p.1) ∷ []))
      (ok-eq (sym a.returns ∙ assign_runs)) a.routing
  where
    a : Assigned idle [] 7 (assign_worker_index idle (some 7))
    a = assign_worker_index-Assigned idle [] 7 (create-IsRouting 4 none 2) (omega arith)

on_conversations_finish-IsRouting_example :
    (r' : InferenceRouter) × (on_conversations_finish busy (some 7) 0 ≡ ok r') × IsRouting r' []
on_conversations_finish-IsRouting_example =
    on_conversations_finish-IsRouting busy [] [] 7 0 busy-IsRouting
