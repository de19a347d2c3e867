-- ===== src/Data/RolloutTrace.antt =====
-- axrl/data/rollout_trace.py: the recorder of one rollout. A call that fails leaves no state here.
pub mod Turns
pub mod Compaction
pub mod Routing
pub mod Stale
pub mod Synced
pub mod Compacted
pub mod Prompts
pub mod Assistant
mod Tests
use axrl.Prelude.{
  ℕ, zero, suc, ◌+◌, ◌-◌, min, Bool, true, false, not, ◌&&◌, Option, none, some, List, [], ◌∷◌,
  ◌++◌, map, Result, ok, err, assert, ◌>>=◌, ◌>>◌, Error, length, replicate, take, ltb, leb, ◌==◌,
  if◌then◌else◌,
}
use axrl.Data.Sample.{Float, TensorHandle, prefix, Sample}
use axrl.Data.TokenTrace.{
  TokenInfoType, TokenInfo, TokenTrace, empty, token_ids, token_count, captured_routing_rows,
  new_routing_row_count, extend_tokens, to_last_turn_sample,
}
use axrl.Data.Conversation.{
  Text, Content, text, parts, Role, ToolCall, Message, GenerationState, Conversation, add_message,
  GenerationInput, GenerationOutput,
}

pub record RolloutTrace : Type 0 where
  pub token_in_token_out : Bool
  pub max_length : Option ℕ
  pub conversation : Conversation
  pub turn_samples : List Sample
  pub token_trace : Option TokenTrace

-- `assert value is not None`
abbrev pub given {ℓ} : {A : Type ℓ} → Option A → Result A
given none = err Error.assertion_error
given (some a) = ok a

-- `self.conversation.gen_state.captured_routing_rows = rows`, and `.input_ids = ids`
abbrev pub set_captured : Conversation → ℕ → Conversation
set_captured c rows = record c { gen_state = record c.gen_state { captured_routing_rows = rows } }

abbrev pub set_input_ids : Conversation → List ℕ → Conversation
set_input_ids c ids = record c { gen_state = record c.gen_state { input_ids = some ids } }

-- `_sync_conv_gen_state_from_token_trace`
unfoldable pub sync_gen_state : RolloutTrace → Bool → Result RolloutTrace
unfolding captured_routing_rows
sync_gen_state r after_assistant_turn =
    if r.token_in_token_out
    then (do
      t ← given r.token_trace
      let c = set_input_ids r.conversation (token_ids t.token_infos)
      ok (record r {
        conversation =
            if after_assistant_turn && c.gen_state.capture_routing
            then set_captured c (captured_routing_rows t)
            else c;
      }))
    else ok r

-- `initialize`
unfoldable pub initialize : RolloutTrace → Conversation → Result RolloutTrace
unfolding sync_gen_state extend_tokens token_count
initialize r conv =
    let r' = record r { conversation = conv; turn_samples = []; token_trace = none } in
    if r.token_in_token_out
    then (do
      ids ← given conv.gen_state.input_ids
      m ← given r.max_length
      t ← extend_tokens empty ids none TokenInfoType.init none none
      assert (leb (token_count t.token_infos) m)
      sync_gen_state (record r' { token_trace = some t }) false)
    else ok r'

-- `__init__`
unfoldable pub start : Conversation → Bool → Option ℕ → Result RolloutTrace
unfolding initialize
start conv token_in_token_out max_length =
    initialize
      (record {
        token_in_token_out = token_in_token_out;
        max_length = max_length;
        conversation = conv;
        turn_samples = [];
        token_trace = none;
      })
      conv

-- `_common_prefix_len`
unfoldable pub shared_prefix_len : List ℕ → List ℕ → ℕ
shared_prefix_len [] right = 0
shared_prefix_len (x ∷ left) [] = 0
shared_prefix_len (x ∷ left) (y ∷ right) = if x == y then suc (shared_prefix_len left right) else 0

-- The loop of `_routing_prefix_by_rows`: the handles and row counts from here on, and the rows
-- kept at the end. A list that ends before the other fails `zip(strict=True)`.
unfoldable pub take_rows :
    List TensorHandle → List ℕ → ℕ → ℕ → Result (List TensorHandle × List ℕ × ℕ)
unfolding prefix
take_rows [] [] preserve kept = ok ([], [], kept)
take_rows [] (n ∷ ns) preserve kept = err Error.value_error
take_rows (h ∷ hs) [] preserve kept = err Error.value_error
take_rows (h ∷ hs) (n ∷ ns) preserve kept =
    let more = take_rows hs ns preserve (kept + n) in
    let rows = min n (preserve - kept) in
    if leb preserve kept
    then ok ([], [], kept)
    else if leb n (preserve - kept)
    then (do (hs', ns', kept') ← more; ok (h ∷ hs', n ∷ ns', kept'))
    else if ltb 0 rows
    then (do h' ← prefix h rows; ok (h' ∷ [], rows ∷ [], kept + rows))
    else ok ([], [], kept)

-- `_routing_prefix_by_rows`
unfoldable pub routing_prefix_by_rows : TokenTrace → ℕ → Result (List TensorHandle × List ℕ)
unfolding take_rows
routing_prefix_by_rows t preserve = do
  (hs, ns, kept) ← take_rows t.routing_handles t.routing_row_count_per_handle preserve 0
  assert (kept == preserve)
  ok (hs, ns)

pub record GenerationInputPreparation : Type 0 where
  pub shared_prefix_tokens : ℕ
  pub previous_routing_rows : ℕ
  pub preserved_routing_rows : ℕ
  pub dropped_routing_rows : ℕ
  pub preserved_routing_handles : ℕ

-- The handles that `prepare_generation_input` keeps: the rows before, the rows preserved, and the
-- handles with their counts.
unfoldable pub preserve_routing :
    Bool → TokenTrace → ℕ → Result (ℕ × ℕ × List TensorHandle × List ℕ)
unfolding routing_prefix_by_rows captured_routing_rows
preserve_routing false t shared = ok (0, 0, [], [])
preserve_routing true t shared = do
  let previous = captured_routing_rows t
  let preserved = min (shared - 1) previous
  (hs, ns) ← routing_prefix_by_rows t preserved
  ok (previous, preserved, hs, ns)

unfoldable pub prepare_generation_input :
    RolloutTrace
    → GenerationInput
    → Result (RolloutTrace × GenerationInput × GenerationInputPreparation)
unfolding preserve_routing shared_prefix_len extend_tokens token_ids
prepare_generation_input r input = do
  assert r.token_in_token_out
  t ← given r.token_trace
  m ← given r.max_length
  assert (leb (length input.input_ids) m)
  let shared = shared_prefix_len (token_ids t.token_infos) input.input_ids
  (previous, preserved, hs, ns) ← preserve_routing r.conversation.gen_state.capture_routing t shared
  t1 ← extend_tokens empty input.input_ids none TokenInfoType.init none none
  let t2 = record t1 {
    routing_handles = hs;
    routing_row_count_per_handle = ns;
    token_info_index_per_handle = replicate (length hs) 0;
  }
  ok (
    record r {
      token_trace = some t2;
      conversation =
          set_captured (set_input_ids r.conversation (token_ids t2.token_infos)) preserved;
    },
    record input { input_ids = token_ids t2.token_infos; routed_expert_start_index = preserved },
    record {
      shared_prefix_tokens = shared;
      previous_routing_rows = previous;
      preserved_routing_rows = preserved;
      dropped_routing_rows = previous - preserved;
      preserved_routing_handles = length hs;
    },
  )
