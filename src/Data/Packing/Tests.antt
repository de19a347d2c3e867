-- ===== src/Data/Packing/Tests.antt =====
-- rollout_trace.py: two turns of a rollout in one group.
use axrl.Prelude.{ℕ, none, List, [], ◌∷◌, arith}
use axrl.Data.Sample.{Sample, minus_one}
use axrl.Data.Packing.{packed_groups}
use axrl.Data.Packing.Groups.{Grouped, packed_groups-Grouped}

abbrev turn : List ℕ → Sample
turn ids = record {
  input_ids = ids;
  labels = [];
  loss_mask = [];
  attention_mask = [];
  position_ids = [];
  reward = 0;
  reward_baseline = 0;
  advantage = [];
  rollout_logprobs = none;
  old_logprobs = none;
  ref_logprobs = none;
  teacher_logprobs = none;
  old_values = none;
  returns = none;
  turn_index = none;
  turn_reward = none;
  routing_handles_per_path = none;
  trajectory_id = minus_one;
}

packed_groups-Grouped_example :
    Grouped 4
      (turn (1 ∷ 2 ∷ []) ∷ turn (1 ∷ 2 ∷ 3 ∷ 4 ∷ []) ∷ turn (9 ∷ []) ∷ [])
      (packed_groups 4 (turn (1 ∷ 2 ∷ []) ∷ turn (1 ∷ 2 ∷ 3 ∷ 4 ∷ []) ∷ turn (9 ∷ []) ∷ []))
packed_groups-Grouped_example =
    packed_groups-Grouped 4 (turn (1 ∷ 2 ∷ [])) (turn (1 ∷ 2 ∷ 3 ∷ 4 ∷ []) ∷ turn (9 ∷ []) ∷ [])
      (omega arith) (omega arith, (omega arith, (omega arith, tt)))
