-- ===== src/Data/RolloutTrace/Assistant.antt =====
-- rollout_trace.py: `append_assistant_message` keeps a recorder synced.
use axrl.Prelude.{
  Option-cases, err, Error, Bool, ap, ℕ, ◌+◌, ◌-◌, ◌≡◌, inl, inr, refl, sym, ◌∙◌, true, Option,
  none, some, List, [], ◌∷◌, ◌++◌, ok, assert, ◌>>=◌, ◌>>◌, >>=-eq-ok, assert-eq-ok, ok-eq, length,
  sum, arith, sum-append, ltb, leb, if◌then◌else◌, Bool-cases,
}
use axrl.Data.Sample.{Float, TensorHandle, Sample}
use axrl.Data.Conversation.{text, Role, GenerationState, add_message, GenerationOutput}
use axrl.Data.TokenTrace.{
  TokenTrace, TokenInfoType, assistant, token_ids, token_count, captured_routing_rows,
  extend_tokens, new_routing_row_count, to_last_turn_sample,
}
use axrl.Data.TokenTrace.Views.{chunk, extend_tokens-IsWellFormed, extend_tokens-views}
use axrl.Data.TokenTrace.Handles.{
  extend_tokens-none, extend_tokens-some, one_handle, extend_tokens-chunk,
}
use axrl.Data.RolloutTrace.{RolloutTrace, set_input_ids, set_captured, sync_gen_state}
use axrl.Data.RolloutTrace.Turns.{
  ends_otherwise, append_boundary, handle_rows, append_assistant_message,
}
use axrl.Data.RolloutTrace.Routing.{Covered}
use axrl.Data.RolloutTrace.Synced.{IsConsistent, IsSynced, append-IsConsistent}

-- A handle as `tensor_store.put` makes it, with no row view.
abbrev pub IsWhole : Option TensorHandle → Type 0
IsWhole none = Unit {0}
IsWhole (some h) = h.row_count ≡ none

Covered-append :
    (hs : List TensorHandle) (ns : List ℕ) (h : TensorHandle) (n : ℕ)
    → Covered hs ns
    → h.row_count ≡ none
    → Covered (hs ++ h ∷ []) (ns ++ n ∷ [])
Covered-append [] [] h n c w = rw w (tt, tt)
Covered-append (g ∷ hs) (k ∷ ns) h n c w = (c.0, Covered-append hs ns h n c.1 w)
Covered-append [] (k ∷ ns) h n c w = absurd (omega arith)
Covered-append (g ∷ hs) [] h n c w = absurd (omega arith)

-- Where a row count is returned, it makes the rows one fewer than the tokens.
new_routing_row_count-total :
    (t : TokenTrace) (n prior : ℕ) {rows : ℕ}
    → new_routing_row_count t n (some prior) ≡ ok rows
    → prior + rows + 1 ≡ token_count t.token_infos + n
unfolding new_routing_row_count
new_routing_row_count-total t n prior {rows = rows} h =
    let (a, h1) = assert-eq-ok (leb (1 + prior) (token_count t.token_infos + n)) _ h in
    let e : token_count t.token_infos + n - 1 - prior ≡ rows = ok-eq h1 in ground (arith, a, e)

-- The generation state once `captured_routing_rows` is read off the trace.
abbrev pub refreshed : GenerationState → TokenTrace → GenerationState
refreshed g t = record g { captured_routing_rows = sum t.routing_row_count_per_handle }

-- The assistant chunk, with or without a handle.
assistant-IsConsistent :
    (r : RolloutTrace) (t t1 : TokenTrace) (tokens : List ℕ) (logprobs : List Float)
    (handle : Option TensorHandle) (rows : Option ℕ) (m : ℕ)
    → IsWhole handle
    → handle_rows r t (length tokens) handle ≡ ok rows
    → extend_tokens t tokens (some logprobs) assistant handle rows ≡ ok t1
    → leb (token_count t1.token_infos) m ≡ true
    → IsConsistent r.conversation.gen_state t m
    → IsConsistent (refreshed r.conversation.gen_state t1) t1 m
unfolding handle_rows
assistant-IsConsistent r t t1 tokens logprobs none rows m w hr h l s =
    let (hs, ns) = extend_tokens-none t tokens (some logprobs) assistant rows h in
    let v = extend_tokens-views t tokens (some logprobs) assistant none rows h in
    record {
      fits = ground (arith, l);
      well_formed =
          extend_tokens-IsWellFormed t tokens (some logprobs) assistant none rows h s.well_formed;
      covered = rw (hs, ns) s.covered;
      captured = λ c. refl;
      bounded = λ c. rw ns (omega (arith, v.1, s.bounded c));
    }
assistant-IsConsistent r t t1 tokens logprobs (some handle) rows m w hr h l s =
    let g = r.conversation.gen_state in
    let prior = if g.capture_routing then g.captured_routing_rows else 0 in
    let (n, e, hr1) = >>=-eq-ok (new_routing_row_count t (length tokens) (some prior)) _ hr in
    let same : some n ≡ rows = ok-eq hr1 in
    let h' : extend_tokens t tokens (some logprobs) assistant (some handle) (some n) ≡ ok t1 =
      rw same h in
    let (hs, ns) = extend_tokens-some t tokens (some logprobs) assistant handle n h' in
    let v = extend_tokens-views t tokens (some logprobs) assistant (some handle) rows h in
    let total = new_routing_row_count-total t (length tokens) prior e in
    record {
      fits = ground (arith, l);
      well_formed =
          extend_tokens-IsWellFormed t tokens (some logprobs) assistant (some handle) rows h
            s.well_formed;
      covered =
          rw (hs, ns)
            (Covered-append t.routing_handles t.routing_row_count_per_handle handle n s.covered w);
      captured = λ c. refl;
      bounded = λ c.
          let p : prior ≡ g.captured_routing_rows = rw c refl in
          rw ns (
            omega (
              arith,
              v.1,
              total,
              p,
              s.captured c,
              sum-append t.routing_row_count_per_handle (n ∷ []),
            ));
    }

boundary-IsConsistent :
    (g : GenerationState) (t t' : TokenTrace) (tokens : List ℕ) (b : Option ℕ) (m : ℕ)
    → append_boundary t tokens b m ≡ ok t'
    → IsConsistent g t m
    → IsConsistent g t' m
unfolding append_boundary
boundary-IsConsistent g t t' tokens none m h s = let e : t ≡ t' = ok-eq h in rw (← e) s
boundary-IsConsistent g t t' tokens (some b) m h s = elim (Bool-cases (ends_otherwise tokens b)) [
  | inr e ↦ let same : t ≡ t' = ok-eq (sym (rw e refl) ∙ h) in rw (← same) s
  | inl e ↦ elim (Bool-cases (ltb m (token_count t.token_infos + 1))) [
    | inl e1 ↦ let same : t ≡ t' = ok-eq (sym (rw (e, e1) refl) ∙ h) in rw (← same) s
    | inr e1 ↦
        let h' : extend_tokens t (b ∷ []) none TokenInfoType.assistant_boundary none none ≡ ok t' =
          sym (rw (e, e1) refl) ∙ h in
        let v = extend_tokens-views t (b ∷ []) none TokenInfoType.assistant_boundary none none h' in
        let room : leb (token_count t'.token_infos) m ≡ true = ground (arith, v.1, e1) in
        append-IsConsistent g t t' (b ∷ []) TokenInfoType.assistant_boundary m h' room s
  ]
]

-- The sync after an assistant turn.
synced_after-IsSynced :
    (r : RolloutTrace) (t : TokenTrace) (m : ℕ) {r' : RolloutTrace}
    → r.token_in_token_out ≡ true
    → r.max_length ≡ some m
    → IsConsistent (refreshed r.conversation.gen_state t) t m
    → sync_gen_state (record r { token_trace = some t }) true ≡ ok r'
    → IsSynced r'
unfolding sync_gen_state captured_routing_rows
synced_after-IsSynced r t m {r' = r'} e l s h =
    elim (Bool-cases r.conversation.gen_state.capture_routing) [
      | inl c ↦
          let same : record r {
            token_trace = some t;
            conversation =
                set_captured (set_input_ids r.conversation (token_ids t.token_infos))
                  (sum t.routing_row_count_per_handle);
          }
              ≡ r' =
            ok-eq (sym (rw (e, c) refl) ∙ h) in
          rw (← same) (record {
            trace = t;
            limit = m;
            in_tokens = e;
            has_trace = refl;
            has_limit = l;
            ids = refl;
            consistent = record {
              fits = s.fits;
              well_formed = s.well_formed;
              covered = s.covered;
              captured = s.captured;
              bounded = s.bounded;
            };
          })
      | inr c ↦
          let same : record r {
            token_trace = some t;
            conversation = set_input_ids r.conversation (token_ids t.token_infos);
          }
              ≡ r' =
            ok-eq (sym (rw (e, c) refl) ∙ h) in
          rw (← same) (record {
            trace = t;
            limit = m;
            in_tokens = e;
            has_trace = refl;
            has_limit = l;
            ids = refl;
            consistent = record {
              fits = s.fits;
              well_formed = s.well_formed;
              covered = s.covered;
              captured = λ d. cc;
              bounded = s.bounded;
            };
          })
    ]

-- The recorder with the new message and the new sample, before the trace is synced.
abbrev pub with_turn : RolloutTrace → GenerationOutput → Sample → RolloutTrace
with_turn r output sample = record r {
  conversation = add_message r.conversation (record {
    role = Role.assistant;
    content = text output.output_text;
    tool_calls = output.tool_calls;
    tool_call_id = none;
  });
  turn_samples = r.turn_samples ++ sample ∷ [];
}

-- What a call of `append_assistant_message` that returns has done.
pub record Answered (r : RolloutTrace) (s : IsSynced r) (output : GenerationOutput)
    (r' : RolloutTrace) : Type 0 where
  pub rows : Option ℕ
  pub extended : TokenTrace
  pub sample : Sample
  pub ended : TokenTrace
  pub counted : handle_rows r s.trace (length output.output_ids) output.routing_handle ≡ ok rows
  pub extends :
      extend_tokens s.trace output.output_ids
        (some output.output_logprobs)
        assistant
        output.routing_handle
        rows
      ≡ ok extended
  pub fits : leb (token_count extended.token_infos) s.limit ≡ true
  pub samples : to_last_turn_sample extended (token_count extended.token_infos) 0 ≡ ok sample
  pub ends :
      append_boundary extended output.output_ids output.assistant_boundary_token_id s.limit
      ≡ ok ended
  pub syncs :
      sync_gen_state (record (with_turn r output sample) { token_trace = some ended }) true ≡ ok r'

append_assistant-eq :
    (r : RolloutTrace) (s : IsSynced r) (output : GenerationOutput)
    → append_assistant_message r output ≡ (do
      rows ← handle_rows r s.trace (length output.output_ids) output.routing_handle
      t1 ←
          extend_tokens s.trace output.output_ids
            (some output.output_logprobs)
            assistant
            output.routing_handle
            rows
      assert (leb (token_count t1.token_infos) s.limit)
      sample ← to_last_turn_sample t1 (token_count t1.token_infos) 0
      t2 ← append_boundary t1 output.output_ids output.assistant_boundary_token_id s.limit
      sync_gen_state (record (with_turn r output sample) { token_trace = some t2 }) true)
unfolding append_assistant_message
append_assistant-eq r s output = rw (s.in_tokens, s.has_trace, s.has_limit) refl

pub append_assistant-Answered :
    (r r' : RolloutTrace) (output : GenerationOutput) (s : IsSynced r)
    → append_assistant_message r output ≡ ok r'
    → Answered r s output r'
append_assistant-Answered r r' output s h =
    let h0 = sym (append_assistant-eq r s output) ∙ h in
    let (rows, e1, h1) =
      >>=-eq-ok (handle_rows r s.trace (length output.output_ids) output.routing_handle) _ h0 in
    let (t1, e2, h2) =
      >>=-eq-ok
        (extend_tokens s.trace output.output_ids (some output.output_logprobs) assistant
          output.routing_handle rows)
        _ h1 in
    let (e3, h3) = assert-eq-ok (leb (token_count t1.token_infos) s.limit) _ h2 in
    let (sample, e4, h4) = >>=-eq-ok (to_last_turn_sample t1 (token_count t1.token_infos) 0) _ h3 in
    let (t2, e5, h5) =
      >>=-eq-ok (append_boundary t1 output.output_ids output.assistant_boundary_token_id s.limit) _
        h4 in
    record {
      rows = rows;
      extended = t1;
      sample = sample;
      ended = t2;
      counted = e1;
      extends = e2;
      fits = e3;
      samples = e4;
      ends = e5;
      syncs = h5;
    }

-- `append_assistant_message` keeps a recorder synced. The output's routing handle, if it has one,
-- has no row view.
pub append_assistant_message-IsSynced :
    (r r' : RolloutTrace) (output : GenerationOutput)
    → IsWhole output.routing_handle
    → IsSynced r
    → append_assistant_message r output ≡ ok r'
    → IsSynced r'
unfolding add_message
append_assistant_message-IsSynced r r' output w s h =
    let a = append_assistant-Answered r r' output s h in
    let g = refreshed r.conversation.gen_state a.extended in
    let s1 =
      assistant-IsConsistent r s.trace a.extended output.output_ids output.output_logprobs
        output.routing_handle a.rows s.limit w a.counted a.extends a.fits s.consistent in
    let s2 =
      boundary-IsConsistent g a.extended a.ended output.output_ids
        output.assistant_boundary_token_id s.limit a.ends s1 in
    synced_after-IsSynced (with_turn r output a.sample) a.ended s.limit s.in_tokens s.has_limit
      (record {
        fits = s2.fits;
        well_formed = s2.well_formed;
        covered = s2.covered;
        captured = λ c. refl;
        bounded = s2.bounded;
      })
      a.syncs

sync_gen_state-samples :
    (r : RolloutTrace) (b : Bool) {r' : RolloutTrace}
    → sync_gen_state r b ≡ ok r'
    → r'.turn_samples ≡ r.turn_samples
unfolding sync_gen_state
sync_gen_state-samples r b {r' = r'} h = elim (Bool-cases r.token_in_token_out) [
  | inr e ↦ let h' = rw e at h in ap (λ x. x.turn_samples) (sym (ok-eq h'))
  | inl e ↦ elim (Option-cases r.token_trace) [
    | inl n ↦ let h' : err Error.assertion_error ≡ ok r' = rw (e, n) at h in cc
    | inr (t, n) ↦ let h' = rw (e, n) at h in ap (λ x. x.turn_samples) (sym (ok-eq h'))
  ]
]

-- `append_assistant_message` on a synced recorder keeps the earlier turn samples and adds one, which
-- is the last-turn sample, without padding, of the live trace with one chunk more: the output's
-- tokens and logprobs as an assistant chunk, and its routing handle after the trace's, if it has
-- one. No boundary token is in it.
pub append_assistant_message-samples :
    (r r' : RolloutTrace) (output : GenerationOutput) (s : IsSynced r)
    → append_assistant_message r output ≡ ok r'
    → (sample : Sample) × (extended : TokenTrace) × (r'.turn_samples
        ≡ r.turn_samples ++ sample ∷ [])
      × (to_last_turn_sample extended (token_count extended.token_infos) 0 ≡ ok sample)
      × (extended.token_infos
          ≡ s.trace.token_infos ++ chunk output.output_ids assistant output.output_logprobs ∷ [])
      × (extended.routing_handles ≡ s.trace.routing_handles ++ one_handle output.routing_handle)
      × (extended.turn_rewards ≡ s.trace.turn_rewards)
append_assistant_message-samples r r' output s h =
    let a = append_assistant-Answered r r' output s h in
    let (infos, handles, rewards) =
      extend_tokens-chunk s.trace output.output_ids output.output_logprobs assistant
        output.routing_handle a.rows a.extends in
    (
      a.sample,
      a.extended,
      sync_gen_state-samples (record (with_turn r output a.sample) { token_trace = some a.ended })
          true a.syncs,
      a.samples,
      infos,
      handles,
      rewards,
    )
