-- ===== src/Pipeline.antt =====
-- axrl/pipeline/controller.py: from the results of rollouts to training batches. The numbers of the
-- configuration stand here; Groups has the groups of results and Batches the batches of groups.
pub mod Groups
pub mod Batches
pub mod Schedule
mod Tests
use axrl.Prelude.{
  ℕ, zero, suc, ◌+◌, ◌-◌, ◌*◌, ◌/◌, ◌%◌, max, Result, ok, err, assert, ◌>>=◌, ◌>>◌, Error, ltb,
  ◌==◌,
}

-- The fields of `config` that are read.
pub record PipelineConfig : Type 0 where
  pub global_batch_size : ℕ
  pub num_rollouts_per_conversation : ℕ
  pub batch_rollout_for_n_global_updates : ℕ
  pub model_sync_every_n_global_updates : ℕ
  pub num_rollout_actors : ℕ
  pub max_running_requests : ℕ

-- `a % b`, which fails for 0
abbrev pub modulo : ℕ → ℕ → Result ℕ
modulo a zero = err Error.zero_division_error
modulo a (suc b) = ok (a % suc b)

unfoldable pub get_num_groups_per_batch_rollout : PipelineConfig → Result ℕ
get_num_groups_per_batch_rollout c = do
  rest ← modulo c.global_batch_size c.num_rollouts_per_conversation
  assert (rest == 0)
  ok (c.global_batch_size / c.num_rollouts_per_conversation * c.batch_rollout_for_n_global_updates)

unfoldable pub get_num_groups_per_model_sync : PipelineConfig → Result ℕ
get_num_groups_per_model_sync c = do
  let total = c.global_batch_size * c.model_sync_every_n_global_updates
  rest ← modulo total c.num_rollouts_per_conversation
  assert (rest == 0)
  ok (total / c.num_rollouts_per_conversation)

-- `_initial_max_running_tasks_per_actor`, with `math.ceil` of the quotient
unfoldable pub initial_max_running_tasks_per_actor : PipelineConfig → Result ℕ
initial_max_running_tasks_per_actor c = do
  assert (ltb 0 c.num_rollout_actors)
  assert (ltb 0 c.max_running_requests)
  ok (max 1 ((c.max_running_requests + c.num_rollout_actors - 1) / c.num_rollout_actors))
