-- ===== src/Data/TokenTrace/Tests.antt =====
-- token_trace.py on a rollout of one turn.
use axrl.Prelude.{
  ℕ, ◌+◌, ◌≤◌, ◌≡◌, refl, inl, true, false, none, some, [], ◌∷◌, ◌++◌, ok, replicate, get_elem?,
  arith,
}
use axrl.Data.Sample.{pos, TensorHandle, Sample}
use axrl.Data.TokenTrace.{
  init, assistant, TokenTrace, empty, extend_tokens, record_handle, rows_for, new_routing_row_count,
  to_sample, to_last_turn_sample, finish_sample, token_ids, token_count, token_logprobs, loss_mask,
  turn_index, shift_left, arange, last_chunk, set_turn_reward, num_assistant_turns, starts_unmasked,
}
use axrl.Data.TokenTrace.Views.{
  IsWellFormed, chunk, extend_tokens-IsWellFormed, extend_tokens-views,
}
use axrl.Data.TokenTrace.Samples.{IsAligned, to_sample-IsAligned, to_sample-labels, to_sample-total}
use axrl.Data.TokenTrace.OneTurn.{to_last_turn_sample-eq-to_sample}

program : Unit {0}
unfolding extend_tokens record_handle rows_for new_routing_row_count to_sample to_last_turn_sample
    finish_sample token_ids token_count token_logprobs loss_mask turn_index shift_left arange
    last_chunk set_turn_reward num_assistant_turns
program = tt

abbrev prompt : TokenTrace
prompt = record empty { token_infos = chunk (5 ∷ 6 ∷ []) init (0 ∷ 0 ∷ []) ∷ [] }

abbrev handle : TensorHandle
handle = record { ref = 0; row_start = 0; row_count = some 3 }

abbrev answered : TokenTrace
answered = record {
  token_infos =
      chunk (5 ∷ 6 ∷ []) init (0 ∷ 0 ∷ []) ∷ chunk (7 ∷ 8 ∷ []) assistant (11 ∷ 12 ∷ []) ∷ [];
  routing_handles = handle ∷ [];
  token_info_index_per_handle = 1 ∷ [];
  routing_row_count_per_handle = 3 ∷ [];
  turn_rewards = λ i. none;
}

answer_runs :
    extend_tokens prompt (7 ∷ 8 ∷ []) (some (11 ∷ 12 ∷ [])) assistant (some handle) none
    ≡ ok answered
unfolding program
answer_runs = refl

prompt-IsWellFormed : IsWellFormed prompt
prompt-IsWellFormed = record {
  logprobs = (inl refl, tt);
  starts = (refl, tt);
  indexed = refl;
  counted = refl;
  in_range = tt;
}

extend_tokens-IsWellFormed_example : IsWellFormed answered
extend_tokens-IsWellFormed_example =
    extend_tokens-IsWellFormed prompt (7 ∷ 8 ∷ []) (some (11 ∷ 12 ∷ [])) assistant (some handle)
      none answer_runs prompt-IsWellFormed

extend_tokens-views_example :
    (token_ids answered.token_infos ≡ token_ids prompt.token_infos ++ 7 ∷ 8 ∷ [])
    × (token_count answered.token_infos ≡ token_count prompt.token_infos + 2)
    × (loss_mask answered.token_infos ≡ loss_mask prompt.token_infos ++ replicate 2 true)
extend_tokens-views_example =
    extend_tokens-views prompt (7 ∷ 8 ∷ []) (some (11 ∷ 12 ∷ [])) assistant (some handle) none
      answer_runs

abbrev sample : Sample
sample =
    finish_sample answered 5 9 (5 ∷ 6 ∷ 7 ∷ 8 ∷ []) (0 ∷ 0 ∷ 11 ∷ 12 ∷ [])
      (false ∷ false ∷ true ∷ true ∷ []) (turn_index 0 answered.token_infos) (0 ∷ 0 ∷ 0 ∷ 0 ∷ [])

to_sample_runs : to_sample answered 5 9 ≡ ok sample
unfolding program
to_sample_runs = refl

to_sample-IsAligned_example :
    IsAligned sample 5 (token_ids answered.token_infos) (loss_mask answered.token_infos)
to_sample-IsAligned_example = to_sample-IsAligned answered 5 9 to_sample_runs

masked_in : get_elem? sample.loss_mask 2 ≡ some true
unfolding program
masked_in = refl

to_sample-labels_example :
    (token : ℕ) × (get_elem? (token_ids answered.token_infos) 3 ≡ some token)
    × (get_elem? sample.labels 2 ≡ some (pos token))
to_sample-labels_example = to_sample-labels answered 5 9 2 sample to_sample_runs masked_in

answered-IsWellFormed : IsWellFormed answered
answered-IsWellFormed = record {
  logprobs = (inl refl, (inl refl, tt));
  starts = (refl, (refl, tt));
  indexed = refl;
  counted = refl;
  in_range = (omega arith, tt);
}

starts_outside : starts_unmasked (loss_mask answered.token_infos) ≡ true
unfolding program
starts_outside = refl

fits : token_count answered.token_infos ≤ 5
unfolding program
fits = omega arith

to_sample-total_example : (s : Sample) × (to_sample answered 5 9 ≡ ok s)
to_sample-total_example = to_sample-total answered 5 9 answered-IsWellFormed starts_outside fits

to_last_turn_sample-eq-to_sample_example : to_last_turn_sample answered 5 9 ≡ to_sample answered 5 9
to_last_turn_sample-eq-to_sample_example =
    to_last_turn_sample-eq-to_sample answered (chunk (5 ∷ 6 ∷ []) init (0 ∷ 0 ∷ []) ∷ [])
      (chunk (7 ∷ 8 ∷ []) assistant (11 ∷ 12 ∷ [])) (refl, tt) refl refl 5 9
      (inl refl, (inl refl, tt))
