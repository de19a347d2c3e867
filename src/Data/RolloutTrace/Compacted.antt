-- ===== src/Data/RolloutTrace/Compacted.antt =====
-- rollout_trace.py: `compact` keeps a recorder synced.
use axrl.Prelude.{
  ℕ, zero, suc, ◌-◌, ◌≤◌, ◌<◌, ◌≡◌, inl, inr, refl, ap, sym, ◌∙◌, Bool, true, false, Option, none,
  some, List, [], ◌∷◌, Result, ok, assert, ◌>>=◌, ◌>>◌, >>=-eq-ok, assert-eq-ok, ok-eq, length,
  take, length-replicate, sum, All, All-map, arith, ltb, leb, ◌==◌, Bool-cases,
}
use axrl.Data.Sample.{Float, TensorHandle}
use axrl.Data.Conversation.{Text, Conversation, GenerationState}
use axrl.Data.TokenTrace.{
  TokenTrace, TokenInfo, TokenInfoType, empty, is_init, token_ids, token_count, extend_tokens,
}
use axrl.Data.TokenTrace.Views.{HasLogprobs, StartsWithInit}
use axrl.Data.RolloutTrace.{RolloutTrace, given, set_input_ids, set_captured, sync_gen_state}
use axrl.Data.RolloutTrace.Compaction.{
  is_tool_result, is_uncompacted, count_uncompacted, first_uncompacted, masked_chunk, mask_chunks,
  invalidate_stale_r3_handles, is_uncompacted_message, count_messages, mask_messages, set_messages,
  compact_token_trace, compact_to_summary_conversation, compact_tool_results, compact,
}
use axrl.Data.RolloutTrace.Routing.{Covered}
use axrl.Data.RolloutTrace.Stale.{invalidate_stale-routed}
use axrl.Data.RolloutTrace.Synced.{
  IsConsistent, IsSynced, init-IsConsistent, synced-IsSynced, given-eq,
}

init_not_tool : (ty : TokenInfoType) → is_init ty ≡ true → is_tool_result ty ≡ false
init_not_tool TokenInfoType.init h = refl
init_not_tool TokenInfoType.assistant h = cc
init_not_tool TokenInfoType.assistant_boundary h = cc
init_not_tool TokenInfoType.tool_result h = cc
init_not_tool TokenInfoType.user h = cc

first_uncompacted-pos :
    (cs : List TokenInfo) → StartsWithInit cs → 0 < count_uncompacted cs → 0 < first_uncompacted cs
unfolding count_uncompacted first_uncompacted is_uncompacted
first_uncompacted-pos [] h n = absurd (omega arith)
first_uncompacted-pos (c ∷ cs) h n = rw (init_not_tool c.token_type h.0) (omega arith)

first_uncompacted-le : (cs : List TokenInfo) → first_uncompacted cs ≤ length cs
unfolding first_uncompacted
first_uncompacted-le [] = omega arith
first_uncompacted-le (c ∷ cs) = elim (Bool-cases (is_uncompacted c)) [
  | inl e ↦ rw e (omega arith)
  | inr e ↦ rw e (omega (arith, first_uncompacted-le cs))
]

All-mask_chunks :
    (P : TokenInfo → Type 0) (n : ℕ) (ph : List ℕ) (cs : List TokenInfo)
    → ((c : TokenInfo) → P c → P (masked_chunk ph c))
    → All P cs
    → All P (mask_chunks n ph cs)
unfolding mask_chunks
All-mask_chunks P zero ph cs f h = h
All-mask_chunks P (suc n) ph [] f h = tt
All-mask_chunks P (suc n) ph (c ∷ cs) f h = elim (Bool-cases (is_uncompacted c)) [
  | inl e ↦ rw e (f c h.0, All-mask_chunks P n ph cs f h.1)
  | inr e ↦ rw e (h.0, All-mask_chunks P (suc n) ph cs f h.1)
]

StartsWithInit-mask :
    (n : ℕ) (ph : List ℕ) (cs : List TokenInfo)
    → StartsWithInit cs
    → StartsWithInit (mask_chunks n ph cs)
unfolding mask_chunks
StartsWithInit-mask zero ph cs h = h
StartsWithInit-mask (suc n) ph [] h = tt
StartsWithInit-mask (suc n) ph (c ∷ cs) h = elim (Bool-cases (is_uncompacted c)) [
  | inl e ↦ rw e (h.0, All-mask_chunks (λ d. is_init d.token_type ≡ false) n ph cs (λ d f. f) h.1)
  | inr e ↦
      rw e (h.0, All-mask_chunks (λ d. is_init d.token_type ≡ false) (suc n) ph cs (λ d f. f) h.1)
]

length-mask_chunks :
    (n : ℕ) (ph : List ℕ) (cs : List TokenInfo) → length (mask_chunks n ph cs) ≡ length cs
unfolding mask_chunks
length-mask_chunks zero ph cs = refl
length-mask_chunks (suc n) ph [] = refl
length-mask_chunks (suc n) ph (c ∷ cs) = elim (Bool-cases (is_uncompacted c)) [
  | inl e ↦ rw e (ap suc (length-mask_chunks n ph cs))
  | inr e ↦ rw e (ap suc (length-mask_chunks (suc n) ph cs))
]

token_count-take : (cs : List TokenInfo) (k : ℕ) → token_count (take k cs) ≤ token_count cs
unfolding token_count
token_count-take cs zero = omega arith
token_count-take [] (suc k) = omega arith
token_count-take (c ∷ cs) (suc k) = omega (arith, token_count-take cs k)

-- The chunks before the first rewritten one keep their tokens.
token_count-mask_chunks :
    (n : ℕ) (ph : List ℕ) (cs : List TokenInfo)
    → token_count (take (first_uncompacted cs) cs) ≤ token_count (mask_chunks n ph cs)
unfolding mask_chunks first_uncompacted token_count
token_count-mask_chunks zero ph cs = token_count-take cs (first_uncompacted cs)
token_count-mask_chunks (suc n) ph [] = omega arith
token_count-mask_chunks (suc n) ph (c ∷ cs) = elim (Bool-cases (is_uncompacted c)) [
  | inl e ↦ rw e (omega arith)
  | inr e ↦ rw e (omega (arith, token_count-mask_chunks (suc n) ph cs))
]

-- What `invalidate_stale_r3_handles` returns on a consistent trace.
record Cut (g : GenerationState) (t : TokenTrace) (res : Result (TokenTrace × ℕ)) : Type 0 where
  cut : TokenTrace
  rows : ℕ
  returns : res ≡ ok (cut, rows)
  infos : cut.token_infos ≡ t.token_infos
  covered : Covered cut.routing_handles cut.routing_row_count_per_handle
  indexed : length cut.token_info_index_per_handle ≡ length cut.routing_handles
  counted : length cut.routing_row_count_per_handle ≡ length cut.routing_handles
  in_range : All (λ i. i < length t.token_infos) cut.token_info_index_per_handle
  captured : g.capture_routing ≡ true → rows ≡ sum cut.routing_row_count_per_handle
  bounded :
      g.capture_routing ≡ true
      → sum cut.routing_row_count_per_handle
        ≤ token_count (take (first_uncompacted t.token_infos) t.token_infos)

Covered-length : (hs : List TensorHandle) (ns : List ℕ) → Covered hs ns → length ns ≡ length hs
Covered-length [] [] c = refl
Covered-length (h ∷ hs) (n ∷ ns) c = ap suc (Covered-length hs ns c.1)
Covered-length [] (n ∷ ns) c = absurd (omega arith)
Covered-length (h ∷ hs) [] c = absurd (omega arith)

invalidate_stale-Cut :
    (g : GenerationState) (t : TokenTrace) (m : ℕ)
    → IsConsistent g t m
    → 0 < count_uncompacted t.token_infos
    → Cut g t (
        invalidate_stale_r3_handles g.capture_routing g.captured_routing_rows t
          (first_uncompacted t.token_infos))
invalidate_stale-Cut g t m s n = elim (Bool-cases g.capture_routing) [
  | inl c ↦
      let e = first_uncompacted t.token_infos in
      let (t', rows, returns, infos, _, below, total, cov, indexed, in_range) =
        invalidate_stale-routed t g.captured_routing_rows e s.covered s.well_formed.indexed
          s.well_formed.counted (first_uncompacted-pos t.token_infos s.well_formed.starts n) in
      record {
        cut = t';
        rows = rows;
        returns = rw c returns;
        infos = infos;
        covered = cov;
        indexed = indexed;
        counted = Covered-length t'.routing_handles t'.routing_row_count_per_handle cov;
        in_range =
            All-map (λ i. i < e) _ t'.token_info_index_per_handle
              (λ i l. omega (arith, first_uncompacted-le t.token_infos)) in_range;
        captured = λ d. total;
        bounded = λ d. omega (arith, total, below);
      }
  | inr c ↦ record {
    cut = t;
    rows = g.captured_routing_rows;
    returns = rw c (unfold invalidate_stale_r3_handles in refl);
    infos = refl;
    covered = s.covered;
    indexed = s.well_formed.indexed;
    counted = s.well_formed.counted;
    in_range = s.well_formed.in_range;
    captured = λ d. cc;
    bounded = λ d. cc;
  }
]

-- The trace after the rewrite.
masked-IsConsistent :
    (g : GenerationState) (t : TokenTrace) (m n : ℕ) (ph : List ℕ) {res : Result (TokenTrace × ℕ)}
    (c : Cut g t res)
    → IsConsistent g t m
    → ltb (token_count (mask_chunks n ph t.token_infos)) m ≡ true
    → IsConsistent
        (record g { captured_routing_rows = c.rows })
        (record c.cut { token_infos = mask_chunks n ph t.token_infos })
        m
masked-IsConsistent g t m n ph c s l = record {
  fits = ground (arith, l);
  well_formed = record {
    logprobs =
        All-mask_chunks HasLogprobs n ph t.token_infos
          (λ d h. inl (length-replicate {A = Float} (length ph) 0)) s.well_formed.logprobs;
    starts = StartsWithInit-mask n ph t.token_infos s.well_formed.starts;
    indexed = c.indexed;
    counted = c.counted;
    in_range = rw (length-mask_chunks n ph t.token_infos) c.in_range;
  };
  covered = c.covered;
  captured = c.captured;
  bounded = λ d. omega (arith, c.bounded d, token_count-mask_chunks n ph t.token_infos);
}

-- A recorder that is synced but for `gen_state.input_ids`.
record IsLive (r : RolloutTrace) : Type 0 where
  trace : TokenTrace
  limit : ℕ
  in_tokens : r.token_in_token_out ≡ true
  has_trace : r.token_trace ≡ some trace
  has_limit : r.max_length ≡ some limit
  consistent : IsConsistent r.conversation.gen_state trace limit

sync-IsSynced : (r r' : RolloutTrace) → IsLive r → sync_gen_state r false ≡ ok r' → IsSynced r'
unfolding sync_gen_state
sync-IsSynced r r' s h =
    let e : record r { conversation = set_input_ids r.conversation (token_ids s.trace.token_infos) }
        ≡ r' =
      ok-eq (sym (rw (s.in_tokens, s.has_trace) refl) ∙ h) in
    rw (← e) (record {
      trace = s.trace;
      limit = s.limit;
      in_tokens = s.in_tokens;
      has_trace = s.has_trace;
      has_limit = s.has_limit;
      ids = refl;
      consistent = record {
        fits = s.consistent.fits;
        well_formed = s.consistent.well_formed;
        covered = s.consistent.covered;
        captured = s.consistent.captured;
        bounded = s.consistent.bounded;
      };
    })

compact_token_trace-IsLive :
    (r r' : RolloutTrace) (k : ℕ) (ph : List ℕ) (tx : Text) (s : IsSynced r)
    → compact_token_trace r k ph tx ≡ ok r'
    → IsLive r'
unfolding compact_token_trace
compact_token_trace-IsLive r r' k ph tx s h =
    let n = count_uncompacted s.trace.token_infos - k in
    elim (Bool-cases (n == 0)) [
      | inl z ↦
          let e : r ≡ r' = ok-eq (sym (rw (s.has_trace, s.has_limit, z) refl) ∙ h) in
          rw (← e) (record {
            trace = s.trace;
            limit = s.limit;
            in_tokens = s.in_tokens;
            has_trace = s.has_trace;
            has_limit = s.has_limit;
            consistent = s.consistent;
          })
      | inr z ↦
          let g = r.conversation.gen_state in
          let some_left : 0 < count_uncompacted s.trace.token_infos = ground (arith, z) in
          let c = invalidate_stale-Cut g s.trace s.limit s.consistent some_left in
          let infos = mask_chunks n ph s.trace.token_infos in
          let test = is_uncompacted_message tx in
          let after : RolloutTrace = record r {
            token_trace = some (record c.cut { token_infos = infos });
            conversation =
                set_messages (set_captured r.conversation c.rows)
                  (mask_messages test n tx r.conversation.messages);
          } in
          let h0 : (do
            assert (leb n (count_messages test r.conversation.messages))
            assert (ltb (token_count infos) s.limit)
            ok after)
              ≡ ok r' =
            sym (rw (s.has_trace, s.has_limit, z, c.returns, c.infos) refl) ∙ h in
          let (_, h1) = assert-eq-ok (leb n (count_messages test r.conversation.messages)) _ h0 in
          let (a, h2) = assert-eq-ok (ltb (token_count infos) s.limit) _ h1 in
          let e : after ≡ r' = ok-eq h2 in
          rw (← e) (record {
            trace = record c.cut { token_infos = infos };
            limit = s.limit;
            in_tokens = s.in_tokens;
            has_trace = refl;
            has_limit = s.has_limit;
            consistent =
                let m = masked-IsConsistent g s.trace s.limit n ph c s.consistent a in
                record {
                  fits = m.fits;
                  well_formed = m.well_formed;
                  covered = m.covered;
                  captured = m.captured;
                  bounded = m.bounded;
                };
          })
    ]

compact_to_summary-IsSynced :
    (r r' : RolloutTrace) (summary : Conversation)
    → IsSynced r
    → compact_to_summary_conversation r summary ≡ ok r'
    → IsSynced r'
unfolding compact_to_summary_conversation
compact_to_summary-IsSynced r r' summary s h =
    let h0 : (do
      ids ← given summary.gen_state.input_ids
      m ← given r.max_length
      t ← extend_tokens empty ids none TokenInfoType.init none none
      assert (leb (token_count t.token_infos) m)
      sync_gen_state (record r { conversation = set_captured summary 0; token_trace = some t })
          false)
        ≡ ok r' =
      sym (rw s.in_tokens refl) ∙ h in
    let (ids, e1, h1) = >>=-eq-ok (given summary.gen_state.input_ids) _ h0 in
    let (m, e2, h2) = >>=-eq-ok (given r.max_length) _ h1 in
    let (t, e3, h3) = >>=-eq-ok (extend_tokens empty ids none TokenInfoType.init none none) _ h2 in
    let (e4, h4) = assert-eq-ok (leb (token_count t.token_infos) m) _ h3 in
    synced-IsSynced (record r { conversation = set_captured summary 0 }) t m s.in_tokens
      (given-eq r.max_length e2)
      (init-IsConsistent (set_captured summary 0).gen_state ids m t e3 e4 (λ c. refl)) h4

-- `compact` keeps a recorder synced, whether it replaces old tool results by the placeholder or the
-- prompt by a summary conversation.
pub compact-IsSynced :
    (r r' : RolloutTrace) (max_recent : Option ℕ) (tokens : Option (List ℕ))
    (placeholder : Option Text) (summary : Option Conversation)
    → IsSynced r
    → compact r max_recent tokens placeholder summary ≡ ok r'
    → IsSynced r'
unfolding compact compact_tool_results
compact-IsSynced r r' max_recent tokens placeholder (some summary) s h =
    compact_to_summary-IsSynced r r' summary s h
compact-IsSynced r r' max_recent tokens placeholder none s h =
    let (n, _, h1) = >>=-eq-ok (given max_recent) _ h in
    let (ids, _, h2) = >>=-eq-ok (given tokens) _ h1 in
    let (tx, _, h3) = >>=-eq-ok (given placeholder) _ h2 in
    let (r1, e, h4) = >>=-eq-ok (compact_tool_results r.token_in_token_out r n ids tx) _ h3 in
    let e' : compact_token_trace r n ids tx ≡ ok r1 =
      sym (tokens_mode r.token_in_token_out s.in_tokens r n ids tx) ∙ e in
    sync-IsSynced r1 r' (compact_token_trace-IsLive r r1 n ids tx s e') h4
  where
    tokens_mode :
        (b : Bool)
        → b ≡ true
        → (r : RolloutTrace) (n : ℕ) (ids : List ℕ) (tx : Text)
        → compact_tool_results b r n ids tx ≡ compact_token_trace r n ids tx
    tokens_mode true e r n ids tx = refl
    tokens_mode false e r n ids tx = cc
