-- ===== src/Data/RolloutTrace/Compaction.antt =====
-- rollout_trace.py: compaction of old tool results.
use axrl.Prelude.{
  ℕ, zero, suc, ◌+◌, ◌-◌, min, Bool, true, false, not, ◌&&◌, Option, none, some, List, [], ◌∷◌,
  Result, ok, err, assert, ◌>>=◌, ◌>>◌, Error, length, replicate, take, ltb, leb, ◌==◌,
  if◌then◌else◌,
}
use axrl.Data.Sample.{TensorHandle, prefix}
use axrl.Data.TokenTrace.{
  TokenInfoType, tool_result, TokenInfo, TokenTrace, empty, token_count, extend_tokens,
}
use axrl.Data.Conversation.{Text, Content, text, parts, Role, tool, Message, Conversation}
use axrl.Data.RolloutTrace.{RolloutTrace, given, sync_gen_state, set_captured}

-- `token_info.token_type == "tool_result"`
abbrev pub is_tool_result : TokenInfoType → Bool
is_tool_result tool_result = true
is_tool_result _ = false

-- `token_info.token_type == "tool_result" and not token_info.compacted_to_placeholder`
unfoldable pub is_uncompacted : TokenInfo → Bool
is_uncompacted c = is_tool_result c.token_type && not c.compacted_to_placeholder

-- How many chunks are uncompacted tool results.
unfoldable pub count_uncompacted : List TokenInfo → ℕ
unfolding is_uncompacted
count_uncompacted [] = 0
count_uncompacted (c ∷ cs) = (if is_uncompacted c then 1 else 0) + count_uncompacted cs

-- The index of the first of them; it is read only when there is one.
unfoldable pub first_uncompacted : List TokenInfo → ℕ
unfolding is_uncompacted
first_uncompacted [] = 0
first_uncompacted (c ∷ cs) = if is_uncompacted c then 0 else suc (first_uncompacted cs)

-- What the loop over `chunks_to_mask` does to a chunk.
abbrev pub masked_chunk : List ℕ → TokenInfo → TokenInfo
masked_chunk placeholder c = record c {
  tokens = placeholder;
  logprobs = replicate (length placeholder) 0;
  compacted_to_placeholder = true;
}

-- The first `n` uncompacted tool results become placeholders.
unfoldable pub mask_chunks : ℕ → List ℕ → List TokenInfo → List TokenInfo
unfolding is_uncompacted
mask_chunks zero placeholder cs = cs
mask_chunks (suc n) placeholder [] = []
mask_chunks (suc n) placeholder (c ∷ cs) =
    if is_uncompacted c
    then masked_chunk placeholder c ∷ mask_chunks n placeholder cs
    else c ∷ mask_chunks (suc n) placeholder cs

-- The loop of `_invalidate_stale_r3_handles`: handles, chunk indices and row counts from here on,
-- and the rows kept. Lists of different lengths fail `zip(strict=True)`.
unfoldable pub keep_rows :
    List TensorHandle
    → List ℕ
    → List ℕ
    → ℕ
    → ℕ
    → ℕ
    → Result (List TensorHandle × List ℕ × List ℕ × ℕ)
unfolding prefix
keep_rows [] [] [] earliest preserve kept = ok ([], [], [], kept)
keep_rows (h ∷ hs) (i ∷ is) (n ∷ ns) earliest preserve kept =
    let more = keep_rows hs is ns earliest preserve (kept + n) in
    let rows = min n (preserve - kept) in
    if leb preserve kept
    then ok ([], [], [], kept)
    else if ltb i earliest && leb n (preserve - kept)
    then (do (hs', is', ns', kept') ← more; ok (h ∷ hs', i ∷ is', n ∷ ns', kept'))
    else if ltb 0 rows
    then (do h' ← prefix h rows; ok (h' ∷ [], (earliest - 1) ∷ [], rows ∷ [], kept + rows))
    else ok ([], [], [], kept)
keep_rows _ _ _ earliest preserve kept = err Error.value_error

-- `_invalidate_stale_r3_handles`: the trace, and `captured_routing_rows`.
unfoldable pub invalidate_stale_r3_handles : Bool → ℕ → TokenTrace → ℕ → Result (TokenTrace × ℕ)
unfolding keep_rows token_count
invalidate_stale_r3_handles capture_routing captured t earliest =
    if capture_routing
    then (do
      assert (length t.routing_handles == length t.token_info_index_per_handle)
      assert (length t.token_info_index_per_handle == length t.routing_row_count_per_handle)
      (hs, is, ns, kept) ←
          keep_rows t.routing_handles t.token_info_index_per_handle t.routing_row_count_per_handle
            earliest (min (token_count (take earliest t.token_infos)) captured) 0
      ok (
        record t {
          routing_handles = hs;
          token_info_index_per_handle = is;
          routing_row_count_per_handle = ns;
        },
        kept,
      ))
    else ok (t, captured)

-- The equality of two texts.
unfoldable pub same_text : Text → Text → Bool
same_text [] [] = true
same_text (x ∷ xs) (y ∷ ys) = x == y && same_text xs ys
same_text _ _ = false

-- `msg.role == "tool"`
abbrev pub is_tool : Role → Bool
is_tool tool = true
is_tool _ = false

-- `msg.content != placeholder_text`; a list of parts is never equal to a text.
unfoldable pub differs : Content → Text → Bool
unfolding same_text
differs (text t) placeholder = not (same_text t placeholder)
differs (parts ps) placeholder = true

-- A message that the compaction of the token trace may rewrite.
unfoldable pub is_uncompacted_message : Text → Message → Bool
unfolding differs
is_uncompacted_message placeholder msg = is_tool msg.role && differs msg.content placeholder

unfoldable pub count_messages : (Message → Bool) → List Message → ℕ
count_messages test [] = 0
count_messages test (m ∷ ms) = (if test m then 1 else 0) + count_messages test ms

-- The first `n` messages that pass the test get the placeholder for their content.
unfoldable pub mask_messages : (Message → Bool) → ℕ → Text → List Message → List Message
mask_messages test zero placeholder ms = ms
mask_messages test (suc n) placeholder [] = []
mask_messages test (suc n) placeholder (m ∷ ms) =
    if test m
    then record m { content = text placeholder } ∷ mask_messages test n placeholder ms
    else m ∷ mask_messages test (suc n) placeholder ms

abbrev pub set_messages : Conversation → List Message → Conversation
set_messages c ms = record c { messages = ms }

-- `_compact_token_trace`
unfoldable pub compact_token_trace : RolloutTrace → ℕ → List ℕ → Text → Result RolloutTrace
unfolding count_uncompacted first_uncompacted mask_chunks invalidate_stale_r3_handles count_messages
    mask_messages is_uncompacted_message token_count
compact_token_trace r max_recent placeholder_tokens placeholder_text = do
  t ← given r.token_trace
  m ← given r.max_length
  let g = r.conversation.gen_state
  let n = count_uncompacted t.token_infos - max_recent
  let compacted = (do
    (t1, rows) ←
        invalidate_stale_r3_handles g.capture_routing g.captured_routing_rows t
          (first_uncompacted t.token_infos)
    let infos = mask_chunks n placeholder_tokens t1.token_infos
    let test = is_uncompacted_message placeholder_text
    assert (leb n (count_messages test r.conversation.messages))
    assert (ltb (token_count infos) m)
    ok (record r {
      token_trace = some (record t1 { token_infos = infos });
      conversation =
          set_messages (set_captured r.conversation rows)
            (mask_messages test n placeholder_text r.conversation.messages);
    }))
  if n == 0 then ok r else compacted

-- `_compact_conversation_only`
unfoldable pub compact_conversation_only : Conversation → ℕ → Text → Conversation
unfolding count_messages mask_messages
compact_conversation_only c max_recent placeholder_text =
    let test : Message → Bool = λ msg. is_tool msg.role in
    set_messages c
      (mask_messages test (count_messages test c.messages - max_recent) placeholder_text c.messages)

-- `_compact_to_summary_conversation`
unfoldable pub compact_to_summary_conversation : RolloutTrace → Conversation → Result RolloutTrace
unfolding extend_tokens token_count sync_gen_state
compact_to_summary_conversation r summary =
    if r.token_in_token_out
    then (do
      ids ← given summary.gen_state.input_ids
      m ← given r.max_length
      t ← extend_tokens empty ids none TokenInfoType.init none none
      assert (leb (token_count t.token_infos) m)
      sync_gen_state (record r { conversation = set_captured summary 0; token_trace = some t })
          false)
    else ok (record r { conversation = summary })

-- `if self.token_in_token_out` in `compact`
unfoldable pub compact_tool_results : Bool → RolloutTrace → ℕ → List ℕ → Text → Result RolloutTrace
unfolding compact_token_trace compact_conversation_only
compact_tool_results true r n tokens placeholder = compact_token_trace r n tokens placeholder
compact_tool_results false r n tokens placeholder =
    ok (record r { conversation = compact_conversation_only r.conversation n placeholder })

-- `compact`, without and with `conv_with_summary`
unfoldable pub compact :
    RolloutTrace
    → Option ℕ
    → Option (List ℕ)
    → Option Text
    → Option Conversation
    → Result RolloutTrace
unfolding compact_to_summary_conversation compact_tool_results sync_gen_state
compact r max_recent placeholder_tokens placeholder_text (some summary) =
    compact_to_summary_conversation r summary
compact r max_recent placeholder_tokens placeholder_text none = do
  n ← given max_recent
  tokens ← given placeholder_tokens
  t ← given placeholder_text
  r1 ← compact_tool_results r.token_in_token_out r n tokens t
  sync_gen_state r1 false
