-- ===== src/StageManager.antt =====
-- axrl/controller/stage_manager.py: which calls a change of stage makes on the workers, in order.
-- The worker methods are calls of remote processes, so a stage is the list of its calls. A manager
-- has a value worker or none (`has_value`).
pub mod Residency
mod Tests
use axrl.Prelude.{
  Bool, true, false, Option, none, some, List, [], ◌∷◌, ◌++◌, Result, ok, err, Error,
}

pub data Tag : Type 0 where
  weights kv_cache : Tag

-- `resume_gpu_memory none` is the call without tags, and the argument of `release_gpu_memory` is
-- `backup_weights_on_cpu`.
pub data Call : Type 0 where
  pause_generation : Call
  resume_generation : Call
  release_gpu_memory : Bool → Call
  resume_gpu_memory : Option Tag → Call
  megatron_to_cpu : Call
  megatron_to_gpu : Call
  value_to_cpu : Call
  value_to_gpu : Call

pub data Stage : Type 0 where
  initialize_placement : Stage
  switch_to_weight_sync : Stage
  switch_to_rollout : Stage
  switch_to_train : Stage
  switch_to_value_train : Stage

-- `if self.value_worker is not None: self.value_worker.to_cpu()`
abbrev pub value_off : Bool → List Call
value_off true = value_to_cpu ∷ []
value_off false = []

-- `ColocatedStageManager`; its `initialize_placement` is the empty one of `StageManager`.
unfoldable pub colocated : Bool → Stage → Result (List Call)
colocated has_value initialize_placement = ok []
colocated has_value switch_to_weight_sync = ok (
    pause_generation
    ∷ release_gpu_memory false
    ∷ resume_gpu_memory (some weights)
    ∷ (value_off has_value ++ megatron_to_gpu ∷ []))
colocated has_value switch_to_rollout = ok (
    megatron_to_cpu
    ∷ (value_off has_value
        ++ resume_gpu_memory (some weights)
          ∷ resume_gpu_memory (some kv_cache)
          ∷ resume_generation
          ∷ []))
colocated has_value switch_to_train =
    ok (pause_generation ∷ release_gpu_memory false ∷ (value_off has_value ++ megatron_to_gpu ∷ []))
colocated true switch_to_value_train =
    ok (pause_generation ∷ release_gpu_memory false ∷ megatron_to_cpu ∷ value_to_gpu ∷ [])
colocated false switch_to_value_train = err Error.assertion_error

-- `DisaggregatedStageManager`
unfoldable pub disaggregated : Bool → Stage → Result (List Call)
disaggregated has_value initialize_placement =
    ok (resume_gpu_memory none ∷ (value_off has_value ++ megatron_to_gpu ∷ []))
disaggregated has_value switch_to_weight_sync = ok (value_off has_value ++ megatron_to_gpu ∷ [])
disaggregated has_value switch_to_rollout =
    ok (
      resume_gpu_memory (some weights) ∷ resume_gpu_memory (some kv_cache) ∷ resume_generation ∷ [])
disaggregated has_value switch_to_train = ok (value_off has_value ++ megatron_to_gpu ∷ [])
disaggregated true switch_to_value_train = ok (megatron_to_cpu ∷ value_to_gpu ∷ [])
disaggregated false switch_to_value_train = err Error.assertion_error
