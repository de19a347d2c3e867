-- ===== src/Data/RolloutTrace/Synced.antt =====
-- rollout_trace.py: the invariant between the live trace and the conversation, for the operations
-- that start a trace or append to it.
use axrl.Prelude.{
  ℕ, ◌≤◌, ◌≡◌, refl, ap, sym, ◌∙◌, Bool, true, false, Option, none, some, List, [], ok, assert,
  ◌>>=◌, ◌>>◌, >>=-eq-ok, assert-eq-ok, ok-eq, sum, arith, leb,
}
use axrl.Data.Conversation.{Text, text, GenerationState, Conversation, add_message}
use axrl.Data.TokenTrace.{TokenTrace, TokenInfoType, empty, token_ids, token_count, extend_tokens}
use axrl.Data.TokenTrace.Views.{IsWellFormed, extend_tokens-IsWellFormed, extend_tokens-views}
use axrl.Data.TokenTrace.Handles.{extend_tokens-none}
use axrl.Data.RolloutTrace.{RolloutTrace, given, set_input_ids, sync_gen_state, initialize, start}
use axrl.Data.RolloutTrace.Turns.{chunk_type, role_of, append_user_or_tool_message}
use axrl.Data.RolloutTrace.Routing.{Covered}

-- The trace, and what the generation state says of its routing.
pub record IsConsistent (g : GenerationState) (t : TokenTrace) (m : ℕ) : Type 0 where
  pub fits : token_count t.token_infos ≤ m
  pub well_formed : IsWellFormed t
  pub covered : Covered t.routing_handles t.routing_row_count_per_handle
  pub captured :
      g.capture_routing ≡ true → g.captured_routing_rows ≡ sum t.routing_row_count_per_handle
  pub bounded :
      g.capture_routing ≡ true → sum t.routing_row_count_per_handle ≤ token_count t.token_infos

-- A recorder in token mode whose conversation carries the tokens of its trace.
pub record IsSynced (r : RolloutTrace) : Type 0 where
  pub trace : TokenTrace
  pub limit : ℕ
  pub in_tokens : r.token_in_token_out ≡ true
  pub has_trace : r.token_trace ≡ some trace
  pub has_limit : r.max_length ≡ some limit
  pub ids : r.conversation.gen_state.input_ids ≡ some (token_ids trace.token_infos)
  pub consistent : IsConsistent r.conversation.gen_state trace limit

pub empty-IsWellFormed : IsWellFormed empty
empty-IsWellFormed = record {
  logprobs = tt;
  starts = tt;
  indexed = refl;
  counted = refl;
  in_range = tt;
}

-- A trace with one first chunk and no handles.
pub init-IsConsistent :
    (g : GenerationState) (ids : List ℕ) (m : ℕ) (t : TokenTrace)
    → extend_tokens empty ids none TokenInfoType.init none none ≡ ok t
    → leb (token_count t.token_infos) m ≡ true
    → (g.capture_routing ≡ true → g.captured_routing_rows ≡ 0)
    → IsConsistent g t m
init-IsConsistent g ids m t h l z =
    let (hs, ns) = extend_tokens-none empty ids none TokenInfoType.init none h in
    record {
      fits = ground (arith, l);
      well_formed =
          extend_tokens-IsWellFormed empty ids none TokenInfoType.init none none h
            empty-IsWellFormed;
      covered = rw (hs, ns) tt;
      captured = λ c. rw ns (z c);
      bounded = λ c. rw ns (omega arith);
    }

-- A chunk appended without a handle.
pub append-IsConsistent :
    (g : GenerationState) (t t' : TokenTrace) (tokens : List ℕ) (ty : TokenInfoType) (m : ℕ)
    → extend_tokens t tokens none ty none none ≡ ok t'
    → leb (token_count t'.token_infos) m ≡ true
    → IsConsistent g t m
    → IsConsistent g t' m
append-IsConsistent g t t' tokens ty m h l s =
    let (hs, ns) = extend_tokens-none t tokens none ty none h in
    let v = extend_tokens-views t tokens none ty none none h in
    record {
      fits = ground (arith, l);
      well_formed = extend_tokens-IsWellFormed t tokens none ty none none h s.well_formed;
      covered = rw (hs, ns) s.covered;
      captured = λ c. rw ns (s.captured c);
      bounded = λ c. rw ns (omega (arith, v.1, s.bounded c));
    }

-- `sync_gen_state` after anything but an assistant turn.
sync_gen_state-false :
    (r : RolloutTrace) (t : TokenTrace)
    → r.token_in_token_out ≡ true
    → sync_gen_state (record r { token_trace = some t }) false
      ≡ ok (record r {
        token_trace = some t;
        conversation = set_input_ids r.conversation (token_ids t.token_infos);
      })
unfolding sync_gen_state
sync_gen_state-false r t e = rw e refl

-- A recorder that has just been synced.
pub synced-IsSynced :
    (r : RolloutTrace) (t : TokenTrace) (m : ℕ) {r' : RolloutTrace}
    → r.token_in_token_out ≡ true
    → r.max_length ≡ some m
    → IsConsistent r.conversation.gen_state t m
    → sync_gen_state (record r { token_trace = some t }) false ≡ ok r'
    → IsSynced r'
synced-IsSynced r t m {r' = r'} e l s h =
    let same : record r {
      token_trace = some t;
      conversation = set_input_ids r.conversation (token_ids t.token_infos);
    }
        ≡ r' =
      ok-eq (sym (sync_gen_state-false r t e) ∙ h) in
    rw (← same) (record {
      trace = t;
      limit = m;
      in_tokens = e;
      has_trace = refl;
      has_limit = l;
      ids = refl;
      consistent = record {
        fits = s.fits;
        well_formed = s.well_formed;
        covered = s.covered;
        captured = s.captured;
        bounded = s.bounded;
      };
    })

pub given-eq : {A : Type 0} (o : Option A) {a : A} → given o ≡ ok a → o ≡ some a
given-eq none h = cc
given-eq (some a) h = ap some (ok-eq h)

-- In token mode a recorder that `__init__` returns is synced with its seed conversation, which has
-- no captured routing rows.
pub start-IsSynced :
    (conv : Conversation) (max_length : Option ℕ) (r : RolloutTrace)
    → (conv.gen_state.capture_routing ≡ true → conv.gen_state.captured_routing_rows ≡ 0)
    → start conv true max_length ≡ ok r
    → IsSynced r
unfolding start initialize
start-IsSynced conv max_length r z h =
    let r0 : RolloutTrace = record {
      token_in_token_out = true;
      max_length = max_length;
      conversation = conv;
      turn_samples = [];
      token_trace = none;
    } in
    let (ids, e1, h1) = >>=-eq-ok (given conv.gen_state.input_ids) _ h in
    let (m, e2, h2) = >>=-eq-ok (given max_length) _ h1 in
    let (t, e3, h3) = >>=-eq-ok (extend_tokens empty ids none TokenInfoType.init none none) _ h2 in
    let (e4, h4) = assert-eq-ok (leb (token_count t.token_infos) m) _ h3 in
    synced-IsSynced r0 t m refl (given-eq max_length e2)
      (init-IsConsistent conv.gen_state ids m t e3 e4 z) h4

-- What `append_user_or_tool_message` is on a synced recorder.
append_user-eq :
    (r : RolloutTrace) (s : IsSynced r) (content : Text) (tokens : Option (List ℕ))
    (id : Option Text) (b : Bool)
    → append_user_or_tool_message r content tokens id b ≡ (do
      ids ← given tokens
      t1 ← extend_tokens s.trace ids none (chunk_type b) none none
      assert (leb (token_count t1.token_infos) s.limit)
      sync_gen_state
          (record r {
            conversation = add_message r.conversation (record {
              role = role_of b;
              content = text content;
              tool_calls = none;
              tool_call_id = id;
            });
            token_trace = some t1;
          })
          false)
unfolding append_user_or_tool_message
append_user-eq r s content tokens id b = rw (s.in_tokens, s.has_trace, s.has_limit) refl

-- `append_user_or_tool_message` keeps a recorder synced.
pub append_user_or_tool_message-IsSynced :
    (r r' : RolloutTrace) (content : Text) (tokens : Option (List ℕ)) (id : Option Text) (b : Bool)
    → IsSynced r
    → append_user_or_tool_message r content tokens id b ≡ ok r'
    → IsSynced r'
unfolding add_message
append_user_or_tool_message-IsSynced r r' content tokens id b s h =
    let h0 = sym (append_user-eq r s content tokens id b) ∙ h in
    let (ids, e1, h1) = >>=-eq-ok (given tokens) _ h0 in
    let (t1, e2, h2) = >>=-eq-ok (extend_tokens s.trace ids none (chunk_type b) none none) _ h1 in
    let (e3, h3) = assert-eq-ok (leb (token_count t1.token_infos) s.limit) _ h2 in
    synced-IsSynced
      (record r {
        conversation = add_message r.conversation (record {
          role = role_of b;
          content = text content;
          tool_calls = none;
          tool_call_id = id;
        });
      })
      t1 s.limit s.in_tokens s.has_limit
      (append-IsConsistent r.conversation.gen_state s.trace t1 ids (chunk_type b) s.limit e2 e3
        s.consistent)
      h3
