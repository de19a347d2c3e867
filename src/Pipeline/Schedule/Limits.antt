-- ===== src/Pipeline/Schedule/Limits.antt =====
-- pipeline/controller.py: how many conversations an evaluation schedules, and their numbers.
use native.Mathlib.Nat.{suc-mul, div-eq_of_lt-le}
use axrl.Prelude.{
  ℕ, zero, suc, ◌+◌, ◌*◌, ◌/◌, ◌≤◌, ◌≡◌, ◌⊎◌, refl, ap, sym, ◌∙◌, inl, inr, Bool, true, false,
  Option, none, some, List, [], ◌∷◌, ◌++◌, length, length-append, ltb, if◌then◌else◌, if_cases,
  arith,
}
use axrl.Pipeline.Schedule.Eval.{
  EvalConversation, EvalDataset, at_limit, rollouts_per_prompt, eval_conversation, eval_rollouts,
  eval_samples, build_eval_rollout_conversations,
}

abbrev pub per_prompt : EvalDataset → ℕ
per_prompt d = rollouts_per_prompt d.eval_num_rollouts_per_prompt

-- From the `n`-th on, each is made of the sample whose turn it is, with its number.
abbrev pub IsNumbered : EvalDataset → ℕ → List EvalConversation → Type 0
IsNumbered d n [] = Unit {0}
IsNumbered d n (c ∷ conversations) =
    (c ≡ eval_conversation d (n / per_prompt d) n) × IsNumbered d (n + 1) conversations

abbrev pub limited : Option ℕ → ℕ → ℕ
limited none n = n
limited (some max_rollouts) n = if ltb max_rollouts n then max_rollouts else n

IsNumbered-append :
    (d : EvalDataset) (n : ℕ) (cs : List EvalConversation) (c : EvalConversation)
    → IsNumbered d n cs
    → ((k : ℕ) → k ≡ n + length cs → c ≡ eval_conversation d (k / per_prompt d) k)
    → IsNumbered d n (cs ++ (c ∷ []))
IsNumbered-append d n [] c h e = (e n (omega arith), tt)
IsNumbered-append d n (c' ∷ cs) c h e =
    (h.0, IsNumbered-append d (n + 1) cs c h.1 (λ k h. e k (h ∙ omega arith)))

-- The loop went through all the rollouts, or stopped at the limit.
abbrev IsProgress : EvalDataset → Option ℕ → ℕ → Bool × List EvalConversation → Type 0
IsProgress d max most done =
    IsNumbered d 0 done.1
    × (limited max most ≡ length done.1)
    × ((done.0 ≡ false) × (length done.1 ≡ most)
        ⊎ (done.0 ≡ true) × (at_limit max (length done.1) ≡ true))

limited-here :
    (max : Option ℕ) (n most : ℕ)
    → limited max n ≡ n
    → n ≤ most
    → at_limit max n ≡ true
    → limited max most ≡ n
unfolding at_limit
limited-here none n most h le stop = cc
limited-here (some m) n most h le stop = ground (arith, h, le, stop)

limited_next : (max : Option ℕ) (n : ℕ) → at_limit max n ≡ false → limited max (n + 1) ≡ n + 1
unfolding at_limit
limited_next none n more = refl
limited_next (some m) n more = ground (arith, more)

limited_again : (max : Option ℕ) (n : ℕ) → limited max (limited max n) ≡ limited max n
limited_again none n = refl
limited_again (some m) n = ground arith

limited-le : (max : Option ℕ) (n : ℕ) → limited max n ≤ n
limited-le none n = omega arith
limited-le (some m) n = ground arith

limited_zero : (max : Option ℕ) → limited max 0 ≡ 0
limited_zero none = refl
limited_zero (some m) = ground arith

module _ (d : EvalDataset) (max : Option ℕ) where
  eval_rollouts_lem :
      (sample left : ℕ) (cs : List EvalConversation)
      → IsNumbered d 0 cs
      → limited max (length cs) ≡ length cs
      → sample * per_prompt d ≤ length cs
      → length cs + left ≤ sample * per_prompt d + per_prompt d
      → IsProgress d max (length cs + left) (eval_rollouts d max sample left cs)
  unfolding eval_rollouts
  eval_rollouts_lem sample zero cs numbered within first last =
      (numbered, ap (limited max) (omega arith) ∙ within, inl (refl, omega arith))
  eval_rollouts_lem sample (suc left) cs numbered within first last =
      if_cases (IsProgress d max (length cs + suc left)) (at_limit max (length cs))
        (λ stop. (
          numbered,
          limited-here max (length cs) (length cs + suc left) within (omega arith) stop,
          inr (refl, stop),
        ))
        (λ more.
          let c = eval_conversation d sample (length cs) in
          let grown : length (cs ++ (c ∷ [])) ≡ length cs + 1 = length-append cs (c ∷ []) in
          let (n, l, how) =
            eval_rollouts_lem sample left (cs ++ (c ∷ []))
              (IsNumbered-append d 0 cs c numbered (λ k h.
                let turn : k / per_prompt d ≡ sample =
                  div-eq_of_lt-le (per_prompt d) (omega (arith, h, first))
                    (omega (arith, h, last, suc-mul sample (per_prompt d))) in
                let here : k ≡ length cs = omega (arith, h) in rw (turn, here) refl))
              (ap (limited max) grown ∙ (limited_next max (length cs) more ∙ sym grown))
              (omega (arith, grown, first)) (omega (arith, grown, last)) in
          let same : length (cs ++ (c ∷ [])) + left ≡ length cs + suc left = omega (arith, grown) in
          (
            n,
            ap (limited max) (sym same) ∙ l,
            elim how [ inl h ↦ inl (h.0, h.1 ∙ same) | inr h ↦ inr h ],
          ))

  eval_samples_lem :
      (sample left : ℕ) (cs : List EvalConversation)
      → IsNumbered d 0 cs
      → limited max (length cs) ≡ length cs
      → length cs ≡ sample * per_prompt d
      → IsNumbered d 0 (eval_samples d max sample left cs)
        × (length (eval_samples d max sample left cs)
            ≡ limited max (length cs + left * per_prompt d))
  unfolding eval_samples
  eval_samples_lem sample zero cs numbered within turn =
      (numbered, sym within ∙ ap (limited max) (omega arith))
  eval_samples_lem sample (suc left) cs numbered within turn =
      let per = per_prompt d in
      let done = eval_rollouts d max sample per cs in
      let (n, l, how) =
        eval_rollouts_lem sample per cs numbered within (omega (arith, turn))
          (omega (arith, turn)) in
      let within' : limited max (length done.1) ≡ length done.1 =
        ap (limited max) (sym l) ∙ (limited_again max (length cs + per) ∙ l) in
      let le = limited-le max (length cs + per) in
      let product = suc-mul left per in
      elim how [
        | inl h ↦
            let (n', l') =
              eval_samples_lem (sample + 1) left done.1 n within'
                (omega (arith, h.1, turn, suc-mul sample per)) in
            rw h.0 (n', l' ∙ ap (limited max) (omega (arith, h.1, product)))
        | inr h ↦ rw h.0 (
          n,
          sym (
              limited-here max (length done.1) (length cs + suc left * per) within'
                (omega (arith, l, le, product)) h.1),
        )
      ]

-- An evaluation schedules as many conversations as the data set has samples, times
-- `eval_num_rollouts_per_prompt` (once when that is None), but `max_rollouts` when that is given
-- and less. The conversation at place `n`, from 0 on, is the one of sample `n` divided by the
-- number of rollouts per prompt, with that sample's label and the number `n` in its identifier.
pub build_eval_rollout_conversations-limited :
    (d : EvalDataset) (max_rollouts : Option ℕ)
    → IsNumbered d 0 (build_eval_rollout_conversations d max_rollouts)
      × (length (build_eval_rollout_conversations d max_rollouts)
          ≡ limited max_rollouts (d.len * per_prompt d))
unfolding build_eval_rollout_conversations
build_eval_rollout_conversations-limited d max =
    let (n, l) = eval_samples_lem d max 0 d.len [] tt (limited_zero max) (omega arith) in
    (n, l ∙ ap (limited max) (omega arith))
