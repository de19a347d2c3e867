-- ===== src/Data/Sample.antt =====
-- axrl/data/sample.py, axrl/utils/tensor_store.py and the integers of axrl/configs.py: training
-- samples and tensor handles. A token id is a number. A float is its bit pattern, and 0.0 is the
-- pattern 0: the code modelled here only stores and copies floats.
use axrl.Prelude.{ℕ, Bool, Option, none, some, List, Result, ok, assert, ◌>>◌, leb}

-- `negsuc n` is -(n + 1).
pub data ℤ : Type 0 where
  pos : ℕ → ℤ
  negsuc : ℕ → ℤ

abbrev pub Float : Type 0
Float = ℕ

-- `IGNORE_INDEX`, -100
abbrev pub ignore_index : ℤ
ignore_index = negsuc 99

abbrev pub minus_one : ℤ
minus_one = negsuc 0

pub record TensorHandle : Type 0 where
  pub ref : ℕ
  pub row_start : ℕ
  pub row_count : Option ℕ

-- `TensorHandle.prefix`
unfoldable pub prefix : TensorHandle → ℕ → Result TensorHandle
prefix h rows = elim h.row_count [
  | none ↦ ok (record h { row_count = some rows })
  | some count ↦ do assert (leb rows count); ok (record h { row_count = some rows })
]

pub record Sample : Type 0 where
  pub input_ids : List ℕ
  pub labels : List ℤ
  pub loss_mask : List Bool
  pub attention_mask : List Bool
  pub position_ids : List ℕ
  pub reward : Float
  pub reward_baseline : Float
  pub advantage : List Float
  pub rollout_logprobs : Option (List Float)
  pub old_logprobs : Option (List Float)
  pub ref_logprobs : Option (List Float)
  pub teacher_logprobs : Option (List Float)
  pub old_values : Option (List Float)
  pub returns : Option (List Float)
  pub turn_index : Option (List ℤ)
  pub turn_reward : Option (List Float)
  pub routing_handles_per_path : Option (List (List TensorHandle))
  pub trajectory_id : ℤ
