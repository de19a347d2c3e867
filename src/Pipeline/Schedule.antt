-- ===== src/Pipeline/Schedule.antt =====
-- axrl/pipeline/controller.py: the conversations that a round of training schedules. The texts of
-- the identifiers are arguments, made of the numbers in them, and so is the data set: the samples
-- it draws, sorted when the configuration says so, and the conversation and the label of each.
pub mod Eval
pub mod Limits
pub mod Round
use axrl.Prelude.{
  ℕ, zero, suc, ◌+◌, Bool, true, List, [], ◌∷◌, ◌++◌, Result, ok, assert, ◌>>=◌, ◌>>◌, ltb,
}

-- A copy of a conversation, with what is set in it.
pub record ScheduledConversation : Type 0 where
  pub conversation_id : ℕ
  pub answer : ℕ
  pub group_id : ℕ
  pub rollout_index : ℕ
  pub pack_rollout_trace : Bool
  pub capture_routing : Bool
  pub captured_routing_rows : ℕ
  pub sampling_config : ℕ
  pub session_id : ℕ

-- The data set, and the formats of the identifiers: of a schedule, a group index and a
-- conversation, and of these with a rollout index.
pub record Dataset : Type 0 where
  pub sample : ℕ → List ℕ
  pub get_conv : ℕ → ℕ
  pub get_label : ℕ → ℕ
  pub group_text : ℕ → ℕ → ℕ → ℕ
  pub session_text : ℕ → ℕ → ℕ → ℕ → ℕ

-- What the loop reads of the configuration.
pub record TrainConfig : Type 0 where
  pub num_rollouts_per_conversation : ℕ
  pub enable_routing_replay : Bool
  pub train_sampling_config : ℕ

module _ (d : Dataset) (config : TrainConfig) (schedule_id : ℕ) where
  -- `for rollout_index in range(group_size)`, for the `n` indices from `rollout_index` on
  unfoldable pub rollouts_from : ℕ → ℕ → ℕ → ℕ → List ScheduledConversation
  rollouts_from group_index sample_index rollout_index zero = []
  rollouts_from group_index sample_index rollout_index (suc n) =
      record {
        conversation_id = d.get_conv sample_index;
        answer = d.get_label sample_index;
        group_id = d.group_text schedule_id group_index (d.get_conv sample_index);
        rollout_index = rollout_index;
        pack_rollout_trace = true;
        capture_routing = config.enable_routing_replay;
        captured_routing_rows = 0;
        sampling_config = config.train_sampling_config;
        session_id = d.session_text schedule_id group_index rollout_index (d.get_conv sample_index);
      }
      ∷ rollouts_from group_index sample_index (rollout_index + 1) n

  -- The loop over the sampled indices, from a group index on.
  unfoldable pub groups_from : ℕ → List ℕ → List ScheduledConversation
  unfolding rollouts_from
  groups_from group_index [] = []
  groups_from group_index (sample_index ∷ indices) =
      rollouts_from group_index sample_index 0 config.num_rollouts_per_conversation
      ++ groups_from (group_index + 1) indices

-- The next schedule's number and the conversations of this one.
unfoldable pub build_train_rollout_conversations :
    Dataset → TrainConfig → ℕ → ℕ → Result (ℕ × List ScheduledConversation)
unfolding groups_from
build_train_rollout_conversations d config rollout_schedule_id num_groups = do
  assert (ltb 0 num_groups)
  assert (ltb 1 config.num_rollouts_per_conversation)
  ok (rollout_schedule_id + 1, groups_from d config rollout_schedule_id 0 (d.sample num_groups))
