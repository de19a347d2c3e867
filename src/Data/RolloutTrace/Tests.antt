-- ===== src/Data/RolloutTrace/Tests.antt =====
-- rollout_trace.py on a rollout of one answer, one tool result and a compaction.
use axrl.Prelude.{
  ℕ, ◌≤◌, ◌<◌, ◌≡◌, refl, inl, false, true, none, some, List, [], ◌∷◌, ◌++◌, Result, ok, err,
  length, take, sum, All, arith,
}
use axrl.Data.Sample.{Sample, TensorHandle, prefix}
use axrl.Data.Conversation.{
  text, Role, Conversation, add_message, GenerationInput, GenerationOutput,
}
use axrl.Data.TokenTrace.Views.{chunk}
use axrl.Data.TokenTrace.Handles.{one_handle}
use axrl.Data.TokenTrace.{
  TokenTrace, TokenInfoType, assistant, extend_tokens, record_handle, rows_for,
  new_routing_row_count, to_last_turn_sample, finish_sample, token_ids, token_count, token_logprobs,
  loss_mask, turn_index, shift_left, arange, last_chunk, captured_routing_rows,
}
use axrl.Data.RolloutTrace.{
  RolloutTrace, sync_gen_state, initialize, start, shared_prefix_len, take_rows,
  routing_prefix_by_rows, preserve_routing, prepare_generation_input,
}
use axrl.Data.RolloutTrace.Turns.{
  ends_otherwise, append_boundary, handle_rows, append_assistant_message,
  append_user_or_tool_message,
}
use axrl.Data.RolloutTrace.Compaction.{
  is_uncompacted, count_uncompacted, first_uncompacted, mask_chunks, keep_rows,
  invalidate_stale_r3_handles, same_text, differs, is_uncompacted_message, count_messages,
  mask_messages, compact_token_trace, compact_tool_results, compact_to_summary_conversation,
  compact,
}
use axrl.Data.RolloutTrace.Routing.{Covered, routed, routing_prefix_by_rows-routed}
use axrl.Data.RolloutTrace.Stale.{invalidate_stale-routed}
use axrl.Data.RolloutTrace.Synced.{IsSynced, start-IsSynced, append_user_or_tool_message-IsSynced}
use axrl.Data.RolloutTrace.Assistant.{
  append_assistant_message-IsSynced, append_assistant_message-samples,
}
use axrl.Data.RolloutTrace.Prompts.{Prepared, prepare_generation_input-Prepared}
use axrl.Data.RolloutTrace.Compacted.{compact-IsSynced}

program : Unit {0}
unfolding extend_tokens record_handle rows_for new_routing_row_count to_last_turn_sample
    finish_sample token_ids token_count token_logprobs loss_mask turn_index shift_left arange
    last_chunk captured_routing_rows add_message prefix sync_gen_state initialize start
    shared_prefix_len take_rows routing_prefix_by_rows preserve_routing prepare_generation_input
    ends_otherwise append_boundary handle_rows append_assistant_message append_user_or_tool_message
    is_uncompacted count_uncompacted first_uncompacted mask_chunks keep_rows
    invalidate_stale_r3_handles same_text differs is_uncompacted_message count_messages
    mask_messages compact_token_trace compact_tool_results compact_to_summary_conversation compact
program = tt

abbrev value : Result RolloutTrace → RolloutTrace → RolloutTrace
value (ok r) other = r
value (err e) other = other

abbrev seed : Conversation
seed = record {
  messages =
      (record {
        role = Role.user;
        content = text (104 ∷ []);
        tool_calls = none;
        tool_call_id = none;
      })
      ∷ [];
  gen_state = record {
    input_ids = some (5 ∷ 6 ∷ []);
    capture_routing = true;
    captured_routing_rows = 0;
  };
}

abbrev idle : RolloutTrace
idle = record {
  token_in_token_out = true;
  max_length = some 20;
  conversation = seed;
  turn_samples = [];
  token_trace = none;
}

abbrev started : RolloutTrace
started = value (start seed true (some 20)) idle

start_runs : start seed true (some 20) ≡ ok started
unfolding program
start_runs = refl

started-IsSynced : IsSynced started
started-IsSynced = start-IsSynced seed (some 20) started (λ c. refl) start_runs

abbrev handle : TensorHandle
handle = record { ref = 0; row_start = 0; row_count = none }

abbrev output : GenerationOutput
output = record {
  output_ids = 7 ∷ 8 ∷ [];
  output_logprobs = 11 ∷ 12 ∷ [];
  output_text = 72 ∷ [];
  assistant_boundary_token_id = some 9;
  tool_calls = none;
  routing_handle = some handle;
}

abbrev answered : RolloutTrace
answered = value (append_assistant_message started output) idle

answer_runs : append_assistant_message started output ≡ ok answered
unfolding program
answer_runs = refl

-- The boundary token is added after the sample is made, and three rows are captured.
answer_ids : answered.conversation.gen_state.input_ids ≡ some (5 ∷ 6 ∷ 7 ∷ 8 ∷ 9 ∷ [])
unfolding program
answer_ids = refl

answer_rows : answered.conversation.gen_state.captured_routing_rows ≡ 3
unfolding program
answer_rows = refl

answered-IsSynced : IsSynced answered
answered-IsSynced =
    append_assistant_message-IsSynced started answered output refl started-IsSynced answer_runs

append_assistant_message-IsSynced_example : IsSynced answered
append_assistant_message-IsSynced_example =
    append_assistant_message-IsSynced started answered output refl started-IsSynced answer_runs

append_assistant_message-samples_example :
    (sample : Sample) × (extended : TokenTrace) × (answered.turn_samples
      ≡ started.turn_samples ++ sample ∷ [])
    × (to_last_turn_sample extended (token_count extended.token_infos) 0 ≡ ok sample)
    × (extended.token_infos
        ≡ started-IsSynced.trace.token_infos
          ++ chunk output.output_ids assistant output.output_logprobs ∷ [])
    × (extended.routing_handles
        ≡ started-IsSynced.trace.routing_handles ++ one_handle output.routing_handle)
    × (extended.turn_rewards ≡ started-IsSynced.trace.turn_rewards)
append_assistant_message-samples_example =
    append_assistant_message-samples started answered output started-IsSynced answer_runs

abbrev told : RolloutTrace
told =
    value (append_user_or_tool_message answered (80 ∷ []) (some (20 ∷ 21 ∷ 22 ∷ [])) none true) idle

tell_runs :
    append_user_or_tool_message answered (80 ∷ []) (some (20 ∷ 21 ∷ 22 ∷ [])) none true ≡ ok told
unfolding program
tell_runs = refl

told-IsSynced : IsSynced told
told-IsSynced =
    append_user_or_tool_message-IsSynced answered told (80 ∷ []) (some (20 ∷ 21 ∷ 22 ∷ [])) none
      true answered-IsSynced tell_runs

append_user_or_tool_message-IsSynced_example : IsSynced told
append_user_or_tool_message-IsSynced_example =
    append_user_or_tool_message-IsSynced answered told (80 ∷ []) (some (20 ∷ 21 ∷ 22 ∷ [])) none
      true answered-IsSynced tell_runs

abbrev compacted : RolloutTrace
compacted = value (compact told (some 0) (some (1 ∷ [])) (some (120 ∷ [])) none) idle

compact_runs : compact told (some 0) (some (1 ∷ [])) (some (120 ∷ [])) none ≡ ok compacted
unfolding program
compact_runs = refl

compact_ids : compacted.conversation.gen_state.input_ids ≡ some (5 ∷ 6 ∷ 7 ∷ 8 ∷ 9 ∷ 1 ∷ [])
unfolding program
compact_ids = refl

compact-IsSynced_example : IsSynced compacted
compact-IsSynced_example =
    compact-IsSynced told compacted (some 0) (some (1 ∷ [])) (some (120 ∷ [])) none told-IsSynced
      compact_runs

abbrev prompt : GenerationInput
prompt = record { input_ids = 5 ∷ 6 ∷ 7 ∷ 30 ∷ []; routed_expert_start_index = 0 }

-- A recorder whose trace is written out, so that its limit is known.
abbrev two_handles : TokenTrace
two_handles = record {
  token_infos =
      (record {
        tokens = 5 ∷ 6 ∷ 7 ∷ 8 ∷ [];
        token_type = TokenInfoType.init;
        compacted_to_placeholder = false;
        logprobs = 0 ∷ 0 ∷ 0 ∷ 0 ∷ [];
      })
      ∷ [];
  routing_handles = handle ∷ record handle { row_start = 2; row_count = some 1 } ∷ [];
  token_info_index_per_handle = 0 ∷ 0 ∷ [];
  routing_row_count_per_handle = 2 ∷ 1 ∷ [];
  turn_rewards = λ i. none;
}

abbrev live : RolloutTrace
live = record idle {
  conversation = record seed {
    gen_state = record {
      input_ids = some (5 ∷ 6 ∷ 7 ∷ 8 ∷ []);
      capture_routing = true;
      captured_routing_rows = 3;
    };
  };
  token_trace = some two_handles;
}

two_handles-Covered : Covered two_handles.routing_handles two_handles.routing_row_count_per_handle
two_handles-Covered = (tt, (omega arith, tt))

unfoldable live_synced : IsSynced live
unfolding program
live_synced = record {
  trace = two_handles;
  limit = 20;
  in_tokens = refl;
  has_trace = refl;
  has_limit = refl;
  ids = refl;
  consistent = record {
    fits = omega arith;
    well_formed = record {
      logprobs = (inl refl, tt);
      starts = (refl, tt);
      indexed = refl;
      counted = refl;
      in_range = (omega arith, (omega arith, tt));
    };
    covered = two_handles-Covered;
    captured = λ c. refl;
    bounded = λ c. omega arith;
  };
}

prompt_fits : length prompt.input_ids ≤ live_synced.limit
unfolding live_synced
prompt_fits = omega arith

prepare_generation_input-Prepared_example :
    Prepared live live_synced prompt (prepare_generation_input live prompt)
prepare_generation_input-Prepared_example =
    prepare_generation_input-Prepared live live_synced prompt prompt_fits

routing_prefix_by_rows-routed_example :
    (hs : List TensorHandle) × (ns : List ℕ) × (routing_prefix_by_rows two_handles 2 ≡ ok (hs, ns))
    × Covered hs ns
    × (routed hs ns
        ≡ take 2 (routed two_handles.routing_handles two_handles.routing_row_count_per_handle))
    × (sum ns ≡ 2)
routing_prefix_by_rows-routed_example =
    routing_prefix_by_rows-routed two_handles 2 two_handles-Covered (omega arith)

invalidate_stale-routed_example :
    (t' : TokenTrace) × (rows : ℕ) × (invalidate_stale_r3_handles true 3 two_handles 1
      ≡ ok (t', rows))
    × (t'.token_infos ≡ two_handles.token_infos)
    × (routed t'.routing_handles t'.routing_row_count_per_handle
        ≡ take rows (routed two_handles.routing_handles two_handles.routing_row_count_per_handle))
    × (rows ≤ token_count (take 1 two_handles.token_infos))
    × (rows ≡ sum t'.routing_row_count_per_handle)
    × Covered t'.routing_handles t'.routing_row_count_per_handle
    × (length t'.token_info_index_per_handle ≡ length t'.routing_handles)
    × All (λ i. i < 1) t'.token_info_index_per_handle
invalidate_stale-routed_example =
    invalidate_stale-routed two_handles 3 1 two_handles-Covered refl refl (omega arith)
