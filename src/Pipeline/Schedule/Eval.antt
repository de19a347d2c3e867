-- ===== src/Pipeline/Schedule/Eval.antt =====
-- axrl/pipeline/controller.py: the conversations of an evaluation, in the order of the data set.
-- `len(dataset)` is an argument, and so is the text of an identifier, made of the conversation's
-- and of a number.
use axrl.Prelude.{
  ℕ, zero, suc, ◌+◌, Bool, true, false, Option, none, some, List, [], ◌∷◌, ◌++◌, length, leb,
  if◌then◌else◌,
}

pub record EvalConversation : Type 0 where
  pub conversation_id : ℕ
  pub answer : ℕ
  pub capture_routing : Bool
  pub captured_routing_rows : ℕ
  pub sampling_config : ℕ
  pub session_id : ℕ

pub record EvalDataset : Type 0 where
  pub len : ℕ
  pub get_conv : ℕ → ℕ
  pub get_label : ℕ → ℕ
  pub session_text : ℕ → ℕ → ℕ
  pub eval_sampling_config : ℕ
  pub eval_num_rollouts_per_prompt : Option ℕ

-- `max_rollouts is not None and len(conversations) >= max_rollouts`
unfoldable pub at_limit : Option ℕ → ℕ → Bool
at_limit none n = false
at_limit (some max_rollouts) n = leb max_rollouts n

-- `1 if eval_num_rollouts_per_prompt is None else eval_num_rollouts_per_prompt`
unfoldable pub rollouts_per_prompt : Option ℕ → ℕ
rollouts_per_prompt none = 1
rollouts_per_prompt (some n) = n

unfoldable pub eval_conversation : EvalDataset → ℕ → ℕ → EvalConversation
eval_conversation d sample_index conv_index = record {
  conversation_id = d.get_conv sample_index;
  answer = d.get_label sample_index;
  capture_routing = false;
  captured_routing_rows = 0;
  sampling_config = d.eval_sampling_config;
  session_id = d.session_text (d.get_conv sample_index) conv_index;
}

module _ (d : EvalDataset) (max_rollouts : Option ℕ) where
  -- The inner loop, for the rollouts left, and whether it returned.
  unfoldable pub eval_rollouts : ℕ → ℕ → List EvalConversation → Bool × List EvalConversation
  unfolding at_limit eval_conversation
  eval_rollouts sample_index zero conversations = (false, conversations)
  eval_rollouts sample_index (suc left) conversations =
      if at_limit max_rollouts (length conversations)
      then (true, conversations)
      else eval_rollouts sample_index left
          (conversations ++ (eval_conversation d sample_index (length conversations) ∷ []))

  -- The outer loop, for the samples left from an index on.
  unfoldable pub eval_samples : ℕ → ℕ → List EvalConversation → List EvalConversation
  unfolding eval_rollouts rollouts_per_prompt
  eval_samples sample_index zero conversations = conversations
  eval_samples sample_index (suc left) conversations =
      let done =
        eval_rollouts sample_index (rollouts_per_prompt d.eval_num_rollouts_per_prompt)
          conversations in
      let rest = eval_samples (sample_index + 1) left done.1 in if done.0 then done.1 else rest

  unfoldable pub build_eval_rollout_conversations : List EvalConversation
  unfolding eval_samples
  build_eval_rollout_conversations = eval_samples 0 d.len []
