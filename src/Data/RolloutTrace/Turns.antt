-- ===== src/Data/RolloutTrace/Turns.antt =====
-- rollout_trace.py: the operations that append a message to the live trace.
use axrl.Prelude.{
  ℕ, zero, suc, ◌+◌, Bool, true, false, not, Option, none, some, List, [], ◌∷◌, ◌++◌, map, Result,
  ok, assert, ◌>>=◌, ◌>>◌, length, ltb, leb, ◌==◌, if◌then◌else◌,
}
use axrl.Data.Sample.{Float, TensorHandle, Sample}
use axrl.Data.TokenTrace.{
  TokenInfoType, TokenTrace, token_count, new_routing_row_count, extend_tokens, to_last_turn_sample,
}
use axrl.Data.Conversation.{Text, text, Role, add_message, GenerationOutput}
use axrl.Data.RolloutTrace.{RolloutTrace, given, sync_gen_state}

-- `int(tokens[-1]) != token_id`, or there are no tokens.
unfoldable pub ends_otherwise : List ℕ → ℕ → Bool
ends_otherwise [] token_id = true
ends_otherwise (x ∷ []) token_id = not (x == token_id)
ends_otherwise (x ∷ y ∷ ys) token_id = ends_otherwise (y ∷ ys) token_id

-- `_append_assistant_boundary_if_needed`, with `_needs_assistant_boundary`
unfoldable pub append_boundary : TokenTrace → List ℕ → Option ℕ → ℕ → Result TokenTrace
unfolding ends_otherwise token_count extend_tokens
append_boundary t tokens none max_length = ok t
append_boundary t tokens (some token_id) max_length =
    if ends_otherwise tokens token_id
    then (if ltb max_length (token_count t.token_infos + 1)
        then ok t
        else extend_tokens t (token_id ∷ []) none TokenInfoType.assistant_boundary none none)
    else ok t

-- The row count that `_append_assistant_message` passes on with a routing handle.
unfoldable pub handle_rows : RolloutTrace → TokenTrace → ℕ → Option TensorHandle → Result (Option ℕ)
unfolding new_routing_row_count
handle_rows r t count none = ok none
handle_rows r t count (some handle) = do
  let g = r.conversation.gen_state
  rows ←
      new_routing_row_count t count
        (some (if g.capture_routing then g.captured_routing_rows else 0))
  ok (some rows)

-- `append_assistant_message`: what `_append_assistant_message` does with the fields of the output.
unfoldable pub append_assistant_message : RolloutTrace → GenerationOutput → Result RolloutTrace
unfolding handle_rows extend_tokens token_count to_last_turn_sample append_boundary sync_gen_state
    add_message
append_assistant_message r output =
    let r1 = record r {
      conversation = add_message r.conversation (record {
        role = Role.assistant;
        content = text output.output_text;
        tool_calls = output.tool_calls;
        tool_call_id = none;
      });
    } in
    if r.token_in_token_out
    then (do
      t ← given r.token_trace
      m ← given r.max_length
      rows ← handle_rows r t (length output.output_ids) output.routing_handle
      t1 ←
          extend_tokens t output.output_ids (some output.output_logprobs) TokenInfoType.assistant
            output.routing_handle rows
      assert (leb (token_count t1.token_infos) m)
      sample ← to_last_turn_sample t1 (token_count t1.token_infos) 0
      t2 ← append_boundary t1 output.output_ids output.assistant_boundary_token_id m
      sync_gen_state
          (record r1 { turn_samples = r.turn_samples ++ sample ∷ []; token_trace = some t2 }) true)
    else ok r1

-- `"tool_result" if role == "tool" else "user"`, for the two roles that the caller may give.
abbrev pub chunk_type : Bool → TokenInfoType
chunk_type true = TokenInfoType.tool_result
chunk_type false = TokenInfoType.user

abbrev pub role_of : Bool → Role
role_of true = Role.tool
role_of false = Role.user

-- `append_user_or_tool_message`; `is_tool` is `role == "tool"`.
unfoldable pub append_user_or_tool_message :
    RolloutTrace → Text → Option (List ℕ) → Option Text → Bool → Result RolloutTrace
unfolding extend_tokens token_count sync_gen_state add_message
append_user_or_tool_message r content tokens tool_call_id is_tool =
    let r1 = record r {
      conversation = add_message r.conversation (record {
        role = role_of is_tool;
        content = text content;
        tool_calls = none;
        tool_call_id = tool_call_id;
      });
    } in
    if r.token_in_token_out
    then (do
      t ← given r.token_trace
      m ← given r.max_length
      ids ← given tokens
      t1 ← extend_tokens t ids none (chunk_type is_tool) none none
      assert (leb (token_count t1.token_infos) m)
      sync_gen_state (record r1 { token_trace = some t1 }) false)
    else ok r1

-- `set_turn_reward`
unfoldable pub set_turn_reward : RolloutTrace → ℕ → Float → Result RolloutTrace
set_turn_reward r turn reward = do
  assert (ltb turn (length r.turn_samples))
  ok (record r { turn_samples = reward_turn r.turn_samples turn })
  where
    reward_sample : Sample → Sample
    reward_sample s = record s {
      turn_reward = some (map (λ b. if b then reward else 0) s.loss_mask);
    }

    reward_turn : List Sample → ℕ → List Sample
    reward_turn [] i = []
    reward_turn (s ∷ ss) zero = reward_sample s ∷ ss
    reward_turn (s ∷ ss) (suc i) = s ∷ reward_turn ss i
