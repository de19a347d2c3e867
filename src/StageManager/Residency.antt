-- ===== src/StageManager/Residency.antt =====
-- stage_manager.py: what is on the GPUs while a stage manager makes its calls. The meaning of a
-- call is what its name says.
use axrl.Prelude.{Bool, true, false, none, some, List, [], ◌∷◌, ok, ◌≡◌, refl, ok-eq}
use axrl.StageManager.{
  weights, kv_cache, Call, pause_generation, resume_generation, release_gpu_memory,
  resume_gpu_memory, megatron_to_cpu, megatron_to_gpu, value_to_cpu, value_to_gpu, Stage,
  initialize_placement, switch_to_weight_sync, switch_to_rollout, switch_to_train,
  switch_to_value_train, colocated, disaggregated,
}

-- What is on the GPUs, and whether generation runs.
pub record Residency : Type 0 where
  pub rollout_weights : Bool
  pub rollout_cache : Bool
  pub generating : Bool
  pub megatron : Bool
  pub value : Bool

abbrev pub apply : Call → Residency → Residency
apply pause_generation s = record s { generating = false }
apply resume_generation s = record s { generating = true }
apply (release_gpu_memory backup) s = record s { rollout_weights = false; rollout_cache = false }
apply (resume_gpu_memory none) s = record s { rollout_weights = true; rollout_cache = true }
apply (resume_gpu_memory (some weights)) s = record s { rollout_weights = true }
apply (resume_gpu_memory (some kv_cache)) s = record s { rollout_cache = true }
apply megatron_to_cpu s = record s { megatron = false }
apply megatron_to_gpu s = record s { megatron = true }
apply value_to_cpu s = record s { value = false }
apply value_to_gpu s = record s { value = true }

abbrev pub after : List Call → Residency → Residency
after [] s = s
after (c ∷ cs) s = after cs (apply c s)

-- A property that holds before, between and after the calls.
abbrev pub Throughout : (Residency → Type 0) → List Call → Residency → Type 0
Throughout P [] s = P s
Throughout P (c ∷ cs) s = P s × Throughout P cs (apply c s)

-- The two trainers are never on the GPUs together, and without a value worker none of it is there.
pub record OneTrainer (has_value : Bool) (s : Residency) : Type 0 where
  pub apart : s.megatron ≡ true → s.value ≡ false
  pub absent : has_value ≡ false → s.value ≡ false

-- On shared GPUs the KV cache and a trainer exclude each other, and generation runs only with its
-- weights and its cache.
pub record IsExclusive (has_value : Bool) (s : Residency) : Type 0 where
  pub trainers : OneTrainer has_value s
  pub megatron_alone : s.megatron ≡ true → s.rollout_cache ≡ false
  pub value_alone : s.value ≡ true → s.rollout_cache ≡ false
  pub ready_weights : s.generating ≡ true → s.rollout_weights ≡ true
  pub ready_cache : s.generating ≡ true → s.rollout_cache ≡ true

-- The room that a call needs where a stage makes it. The trainers go off the GPUs before the
-- rollout is loaded and the rollout's memory before a trainer; but the sync of weights has the
-- rollout's weights beside the trainer, and loads them first. Releasing backs nothing up, which
-- the rollout worker refuses.
abbrev pub HasRoom : Stage → Call → Residency → Type 0
HasRoom stage pause_generation s = Unit {0}
HasRoom stage resume_generation s = (s.rollout_weights ≡ true) × (s.rollout_cache ≡ true)
HasRoom stage (release_gpu_memory backup) s = (backup ≡ false) × (s.generating ≡ false)
HasRoom stage (resume_gpu_memory none) s = (s.megatron ≡ false) × (s.value ≡ false)
HasRoom switch_to_weight_sync (resume_gpu_memory (some weights)) s =
    (s.rollout_cache ≡ false) × (s.generating ≡ false)
HasRoom initialize_placement (resume_gpu_memory (some weights)) s =
    (s.megatron ≡ false) × (s.value ≡ false)
HasRoom switch_to_rollout (resume_gpu_memory (some weights)) s =
    (s.megatron ≡ false) × (s.value ≡ false)
HasRoom switch_to_train (resume_gpu_memory (some weights)) s =
    (s.megatron ≡ false) × (s.value ≡ false)
HasRoom switch_to_value_train (resume_gpu_memory (some weights)) s =
    (s.megatron ≡ false) × (s.value ≡ false)
HasRoom stage (resume_gpu_memory (some kv_cache)) s = (s.megatron ≡ false) × (s.value ≡ false)
HasRoom stage megatron_to_cpu s = Unit {0}
HasRoom switch_to_weight_sync megatron_to_gpu s = (s.value ≡ false) × (s.rollout_cache ≡ false)
HasRoom initialize_placement megatron_to_gpu s =
    (s.value ≡ false) × (s.rollout_cache ≡ false) × (s.rollout_weights ≡ false)
HasRoom switch_to_rollout megatron_to_gpu s =
    (s.value ≡ false) × (s.rollout_cache ≡ false) × (s.rollout_weights ≡ false)
HasRoom switch_to_train megatron_to_gpu s =
    (s.value ≡ false) × (s.rollout_cache ≡ false) × (s.rollout_weights ≡ false)
HasRoom switch_to_value_train megatron_to_gpu s =
    (s.value ≡ false) × (s.rollout_cache ≡ false) × (s.rollout_weights ≡ false)
HasRoom stage value_to_cpu s = Unit {0}
HasRoom stage value_to_gpu s =
    (s.megatron ≡ false) × (s.rollout_cache ≡ false) × (s.rollout_weights ≡ false)

abbrev pub AllRoom : Stage → List Call → Residency → Type 0
AllRoom stage [] s = Unit {0}
AllRoom stage (c ∷ cs) s = HasRoom stage c s × AllRoom stage cs (apply c s)

-- What a stage needs on the GPUs.
abbrev pub Ready : Stage → Residency → Type 0
Ready initialize_placement s = Unit {0}
Ready switch_to_weight_sync s = (s.megatron ≡ true) × (s.rollout_weights ≡ true)
Ready switch_to_rollout s =
    (s.rollout_weights ≡ true) × (s.rollout_cache ≡ true) × (s.generating ≡ true)
Ready switch_to_train s = s.megatron ≡ true
Ready switch_to_value_train s = s.value ≡ true

-- Once the calls of a stage are made, the colocated manager has what the stage needs on the GPUs.
pub colocated-Ready :
    (has_value : Bool) (stage : Stage) (calls : List Call) (s : Residency)
    → colocated has_value stage ≡ ok calls
    → Ready stage (after calls s)
unfolding colocated
colocated-Ready v initialize_placement calls s e = tt
colocated-Ready true switch_to_weight_sync calls s e = rw (← ok-eq e) (refl, refl)
colocated-Ready false switch_to_weight_sync calls s e = rw (← ok-eq e) (refl, refl)
colocated-Ready true switch_to_rollout calls s e = rw (← ok-eq e) (refl, refl, refl)
colocated-Ready false switch_to_rollout calls s e = rw (← ok-eq e) (refl, refl, refl)
colocated-Ready true switch_to_train calls s e = rw (← ok-eq e) refl
colocated-Ready false switch_to_train calls s e = rw (← ok-eq e) refl
colocated-Ready true switch_to_value_train calls s e = rw (← ok-eq e) refl
colocated-Ready false switch_to_value_train calls s e = cc

-- The rollout keeps what it has on its own GPUs.
abbrev pub SameRollout : Residency → Residency → Type 0
SameRollout before s =
    (s.rollout_weights ≡ before.rollout_weights)
    × (s.rollout_cache ≡ before.rollout_cache)
    × (s.generating ≡ before.generating)

-- The value worker, if there is one, is off the GPUs.
abbrev pub ValueOff : Bool → Residency → Residency → Type 0
ValueOff true before s = s.value ≡ false
ValueOff false before s = s.value ≡ before.value

-- What a stage of the disaggregated manager leaves, where the rollout has GPUs of its own.
abbrev pub ReadyApart : Bool → Stage → Residency → Residency → Type 0
ReadyApart v initialize_placement before s =
    (s.rollout_weights ≡ true)
    × (s.rollout_cache ≡ true)
    × (s.megatron ≡ true)
    × ValueOff v before s
ReadyApart v switch_to_weight_sync before s =
    (s.megatron ≡ true) × ValueOff v before s × SameRollout before s
ReadyApart v switch_to_rollout before s =
    (s.rollout_weights ≡ true)
    × (s.rollout_cache ≡ true)
    × (s.generating ≡ true)
    × (s.megatron ≡ before.megatron)
    × (s.value ≡ before.value)
ReadyApart v switch_to_train before s =
    (s.megatron ≡ true) × ValueOff v before s × SameRollout before s
ReadyApart v switch_to_value_train before s =
    (s.value ≡ true) × (s.megatron ≡ false) × SameRollout before s

-- The calls of a stage of the disaggregated manager leave, from any state, what the stage needs on
-- the GPUs: the first placement all the memory of the rollout and the trainer, without the value
-- worker if there is one; rollout its weights, its cache and generation, and the trainers as they
-- were; a training stage and the sync of weights just their own trainer, of the two that there
-- are, and the rollout as it was.
pub disaggregated-Ready :
    (has_value : Bool) (stage : Stage) (calls : List Call) (s : Residency)
    → disaggregated has_value stage ≡ ok calls
    → ReadyApart has_value stage s (after calls s)
unfolding disaggregated
disaggregated-Ready true initialize_placement calls s e = rw (← ok-eq e) (refl, refl, refl, refl)
disaggregated-Ready false initialize_placement calls s e = rw (← ok-eq e) (refl, refl, refl, refl)
disaggregated-Ready true switch_to_weight_sync calls s e =
    rw (← ok-eq e) (refl, refl, (refl, refl, refl))
disaggregated-Ready false switch_to_weight_sync calls s e =
    rw (← ok-eq e) (refl, refl, (refl, refl, refl))
disaggregated-Ready true switch_to_rollout calls s e = rw (← ok-eq e) (refl, refl, refl, refl, refl)
disaggregated-Ready false switch_to_rollout calls s e =
    rw (← ok-eq e) (refl, refl, refl, refl, refl)
disaggregated-Ready true switch_to_train calls s e = rw (← ok-eq e) (refl, refl, (refl, refl, refl))
disaggregated-Ready false switch_to_train calls s e =
    rw (← ok-eq e) (refl, refl, (refl, refl, refl))
disaggregated-Ready true switch_to_value_train calls s e =
    rw (← ok-eq e) (refl, refl, (refl, refl, refl))
disaggregated-Ready false switch_to_value_train calls s e = cc
