-- ===== src/StageManager/Tests.antt =====
-- stage_manager.py: from rollout to training on shared GPUs.
use axrl.Prelude.{true, false, none, List, [], ◌∷◌, ok, refl, ◌≡◌}
use axrl.StageManager.{
  Call, pause_generation, release_gpu_memory, value_to_cpu, megatron_to_gpu, switch_to_train,
  initialize_placement, resume_gpu_memory, colocated, disaggregated,
}
use axrl.StageManager.Residency.{
  Residency, Ready, ReadyApart, after, colocated-Ready, disaggregated-Ready,
}

abbrev serving : Residency
serving = record {
  rollout_weights = true;
  rollout_cache = true;
  generating = true;
  megatron = false;
  value = false;
}

abbrev train_calls : List Call
train_calls = pause_generation ∷ release_gpu_memory false ∷ value_to_cpu ∷ megatron_to_gpu ∷ []

train_runs : colocated true switch_to_train ≡ ok train_calls
unfolding colocated
train_runs = refl

colocated-Ready_example : Ready switch_to_train (after train_calls serving)
colocated-Ready_example = colocated-Ready true switch_to_train train_calls serving train_runs

abbrev placing_calls : List Call
placing_calls = resume_gpu_memory none ∷ value_to_cpu ∷ megatron_to_gpu ∷ []

placing_runs : disaggregated true initialize_placement ≡ ok placing_calls
unfolding disaggregated
placing_runs = refl

disaggregated-Ready_example :
    ReadyApart true initialize_placement serving (after placing_calls serving)
disaggregated-Ready_example =
    disaggregated-Ready true initialize_placement placing_calls serving placing_runs
