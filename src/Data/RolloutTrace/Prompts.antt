-- ===== src/Data/RolloutTrace/Prompts.antt =====
-- rollout_trace.py: `prepare_generation_input` on a synced recorder.
use axrl.Prelude.{
  ℕ, zero, suc, ◌-◌, ◌≤◌, ◌<◌, ◌≡◌, min, inl, inr, refl, ap, sym, ◌∙◌, Bool, true, false, none,
  some, List, [], ◌∷◌, Result, ok, length, take, replicate, length-replicate, sum, All, arith,
  append-nil, leb, ◌==◌, Bool-cases,
}
use axrl.Data.Sample.{Float, TensorHandle}
use axrl.Data.Conversation.{GenerationInput}
use axrl.Data.TokenTrace.{
  TokenTrace, init, empty, token_ids, token_count, captured_routing_rows, record_handle,
  extend_tokens,
}
use axrl.Data.TokenTrace.Views.{IsWellFormed, chunk}
use axrl.Data.RolloutTrace.{
  RolloutTrace, GenerationInputPreparation, set_input_ids, set_captured, shared_prefix_len,
  preserve_routing, prepare_generation_input,
}
use axrl.Data.RolloutTrace.Routing.{Covered, routed, routing_prefix_by_rows-routed}
use axrl.Data.RolloutTrace.Synced.{IsSynced}

-- The two lists agree up to the shared length.
take-shared_prefix_len :
    (left right : List ℕ)
    → take (shared_prefix_len left right) left ≡ take (shared_prefix_len left right) right
unfolding shared_prefix_len
take-shared_prefix_len [] [] = refl
take-shared_prefix_len [] (y ∷ right) = refl
take-shared_prefix_len (x ∷ left) [] = refl
take-shared_prefix_len (x ∷ left) (y ∷ right) = elim (Bool-cases (x == y)) [
  | inl e ↦
      let same : x ≡ y = ground (arith, e) in
      rw e (
        ap (λ z. z ∷ take (shared_prefix_len left right) left) same
        ∙ ap (◌∷◌ y) (take-shared_prefix_len left right))
  | inr e ↦ rw e refl
]

shared_prefix_len-le : (left right : List ℕ) → shared_prefix_len left right ≤ length right
unfolding shared_prefix_len
shared_prefix_len-le [] right = omega arith
shared_prefix_len-le (x ∷ left) [] = omega arith
shared_prefix_len-le (x ∷ left) (y ∷ right) = elim (Bool-cases (x == y)) [
  | inl e ↦ rw e (omega (arith, shared_prefix_len-le left right))
  | inr e ↦ rw e (omega arith)
]

Covered-length : (hs : List TensorHandle) (ns : List ℕ) → Covered hs ns → length ns ≡ length hs
Covered-length [] [] c = refl
Covered-length (h ∷ hs) (n ∷ ns) c = ap suc (Covered-length hs ns c.1)
Covered-length [] (n ∷ ns) c = absurd (omega arith)
Covered-length (h ∷ hs) [] c = absurd (omega arith)

All-replicate_zero : (n : ℕ) → All (λ i. i < 1) (replicate n 0)
All-replicate_zero zero = tt
All-replicate_zero (suc n) = (omega arith, All-replicate_zero n)

-- What `preserve_routing` returns.
record Preserved (t : TokenTrace) (shared : ℕ) (res : Result (ℕ × ℕ × List TensorHandle × List ℕ))
    : Type 0 where
  previous : ℕ
  preserved : ℕ
  handles : List TensorHandle
  counts : List ℕ
  returns : res ≡ ok (previous, preserved, handles, counts)
  covered : Covered handles counts
  total : sum counts ≡ preserved
  below : preserved ≤ shared - 1
  rows :
      routed handles counts
      ≡ take preserved (routed t.routing_handles t.routing_row_count_per_handle)

preserve_routing-Preserved :
    (b : Bool) (t : TokenTrace) (shared : ℕ)
    → Covered t.routing_handles t.routing_row_count_per_handle
    → Preserved t shared (preserve_routing b t shared)
unfolding preserve_routing captured_routing_rows
preserve_routing-Preserved false t shared c = record {
  previous = 0;
  preserved = 0;
  handles = [];
  counts = [];
  returns = refl;
  covered = tt;
  total = refl;
  below = omega arith;
  rows = refl;
}
preserve_routing-Preserved true t shared c =
    let all = sum t.routing_row_count_per_handle in
    let (hs, ns, e, cov, rows, total) =
      routing_prefix_by_rows-routed t (min (shared - 1) all) c (omega arith) in
    record {
      previous = all;
      preserved = min (shared - 1) all;
      handles = hs;
      counts = ns;
      returns = rw e refl;
      covered = cov;
      total = total;
      below = omega arith;
      rows = rows;
    }

-- The first chunk of a fresh trace.
abbrev seeded : List ℕ → TokenTrace
seeded ids = record empty { token_infos = chunk ids init (replicate (length ids) 0) ∷ [] }

extend_tokens-seeded :
    (ids : List ℕ) → extend_tokens empty ids none init none none ≡ ok (seeded ids)
unfolding extend_tokens record_handle
extend_tokens-seeded ids =
    let full : (length (replicate {A = Float} (length ids) 0) == length ids) ≡ true =
      ground (arith, length-replicate {A = Float} (length ids) 0) in
    rw full refl

-- The new live trace.
abbrev reseeded : List ℕ → List TensorHandle → List ℕ → TokenTrace
reseeded ids hs ns = record (seeded ids) {
  routing_handles = hs;
  routing_row_count_per_handle = ns;
  token_info_index_per_handle = replicate (length hs) 0;
}

reseeded-IsWellFormed :
    (ids : List ℕ) (hs : List TensorHandle) (ns : List ℕ)
    → Covered hs ns
    → IsWellFormed (reseeded ids hs ns)
reseeded-IsWellFormed ids hs ns c = record {
  logprobs = (inl (length-replicate {A = Float} (length ids) 0), tt);
  starts = (refl, tt);
  indexed = length-replicate (length hs) 0;
  counted = Covered-length hs ns c;
  in_range = All-replicate_zero (length hs);
}

-- What a call of `prepare_generation_input` on a synced recorder has done.
pub record Prepared (r : RolloutTrace) (s : IsSynced r) (input : GenerationInput)
    (res : Result (RolloutTrace × GenerationInput × GenerationInputPreparation)) : Type 0 where
  pub recorder : RolloutTrace
  pub ready : GenerationInput
  pub report : GenerationInputPreparation
  pub returns : res ≡ ok (recorder, ready, report)
  pub synced : IsSynced recorder
  pub prompt : ready.input_ids ≡ input.input_ids
  pub live : token_ids synced.trace.token_infos ≡ input.input_ids
  pub agree :
      take report.shared_prefix_tokens (token_ids s.trace.token_infos)
      ≡ take report.shared_prefix_tokens input.input_ids
  pub below : ready.routed_expert_start_index ≤ report.shared_prefix_tokens - 1
  pub rows :
      routed synced.trace.routing_handles synced.trace.routing_row_count_per_handle
      ≡ take ready.routed_expert_start_index
          (routed s.trace.routing_handles s.trace.routing_row_count_per_handle)
  pub samples : recorder.turn_samples ≡ r.turn_samples

-- On a synced recorder and a prompt that fits, `prepare_generation_input` returns. The recorder is
-- then synced with that prompt, and the routing rows it reuses are the first rows captured before,
-- at most one fewer than the tokens that the old trace and the prompt share. Earlier samples stay.
pub prepare_generation_input-Prepared :
    (r : RolloutTrace) (s : IsSynced r) (input : GenerationInput)
    → length input.input_ids ≤ s.limit
    → Prepared r s input (prepare_generation_input r input)
unfolding prepare_generation_input token_ids
prepare_generation_input-Prepared r s input l =
    let ids = input.input_ids in
    let shared = shared_prefix_len (token_ids s.trace.token_infos) ids in
    let p =
      preserve_routing-Preserved r.conversation.gen_state.capture_routing s.trace shared
        s.consistent.covered in
    let room : leb (length ids) s.limit ≡ true = ground (arith, l) in
    let t = reseeded ids p.handles p.counts in
    let le : shared ≤ length ids = shared_prefix_len-le (token_ids s.trace.token_infos) ids in
    let count : token_count t.token_infos ≡ length ids = unfold token_count in omega arith in
    record {
      recorder = record r {
        token_trace = some t;
        conversation =
            set_captured (set_input_ids r.conversation (token_ids t.token_infos)) p.preserved;
      };
      ready = record input {
        input_ids = token_ids t.token_infos;
        routed_expert_start_index = p.preserved;
      };
      report = record {
        shared_prefix_tokens = shared;
        previous_routing_rows = p.previous;
        preserved_routing_rows = p.preserved;
        dropped_routing_rows = p.previous - p.preserved;
        preserved_routing_handles = length p.handles;
      };
      returns =
          rw (s.in_tokens, s.has_trace, s.has_limit, room, p.returns, extend_tokens-seeded ids)
            refl;
      synced = record {
        trace = t;
        limit = s.limit;
        in_tokens = s.in_tokens;
        has_trace = refl;
        has_limit = s.has_limit;
        ids = refl;
        consistent = record {
          fits = omega (arith, count, l);
          well_formed = reseeded-IsWellFormed ids p.handles p.counts p.covered;
          covered = p.covered;
          captured = λ c. sym p.total;
          bounded = λ c. omega (arith, count, p.total, p.below, le);
        };
      };
      prompt = append-nil ids;
      live = append-nil ids;
      agree = take-shared_prefix_len (token_ids s.trace.token_infos) ids;
      below = p.below;
      rows = p.rows;
      samples = refl;
    }
