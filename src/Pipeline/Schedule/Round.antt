-- ===== src/Pipeline/Schedule/Round.antt =====
-- pipeline/controller.py: a round of scheduled conversations, from the schedule to the groups of
-- their results.
use native.Mathlib.Nat.{add-mod, mod_self, zero-mod, suc-mul, mul-div_cancel}
use axrl.Prelude.{
  ℕ, zero, suc, ◌+◌, ◌*◌, ◌%◌, ◌<◌, ◌≡◌, refl, ap, sym, ◌∙◌, inl, inr, Bool, List, [], ◌∷◌,
  Bool-cases, Result, ok, length, length-append, All, total, total-append, one_if_same, arith, ◌==◌,
  if◌then◌else◌, assert-eq-ok, ok-eq, ltb, ◌/◌,
}
use axrl.Data.Sample.{Float}
use axrl.Pipeline.Groups.{RolloutResult, RolloutGroup, Numerics, Stream, stream_rollout_groups}
use axrl.Pipeline.Groups.Pending.{IsReady, IsYielded, of_group}
use axrl.Pipeline.Groups.Complete.{stream_rollout_groups_complete}
use axrl.Pipeline.Schedule.{
  ScheduledConversation, Dataset, TrainConfig, rollouts_from, groups_from,
  build_train_rollout_conversations,
}

-- How many of the conversations are of a group.
abbrev pub scheduled_of : ℕ → List ScheduledConversation → ℕ
scheduled_of i conversations = total (λ c. one_if_same i c.group_id) conversations

module _ (d : Dataset) (config : TrainConfig) (sid : ℕ) where
  length-rollouts : (g s r n : ℕ) → length (rollouts_from d config sid g s r n) ≡ n
  unfolding rollouts_from
  length-rollouts g s r zero = refl
  length-rollouts g s r (suc n) = ap suc (length-rollouts g s (r + 1) n)

  scheduled_of-rollouts :
      (i g s r n : ℕ)
      → scheduled_of i (rollouts_from d config sid g s r n)
        ≡ (if i == d.group_text sid g (d.get_conv s) then n else 0)
  unfolding rollouts_from
  scheduled_of-rollouts i g s r zero = ground arith
  scheduled_of-rollouts i g s r (suc n) =
      let more = scheduled_of-rollouts i g s (r + 1) n in
      elim (Bool-cases (i == d.group_text sid g (d.get_conv s))) [
        | inl e ↦
            let m : scheduled_of i (rollouts_from d config sid g s (r + 1) n) ≡ n = rw e at more in
            rw e (omega (arith, m))
        | inr e ↦
            let m : scheduled_of i (rollouts_from d config sid g s (r + 1) n) ≡ 0 = rw e at more in
            rw e (omega (arith, m))
      ]

  length-groups_from :
      (g : ℕ) (indices : List ℕ)
      → length (groups_from d config sid g indices)
        ≡ length indices * config.num_rollouts_per_conversation
  unfolding groups_from
  length-groups_from g [] = omega arith
  length-groups_from g (s ∷ indices) = omega (
    arith,
    length-append (rollouts_from d config sid g s 0 config.num_rollouts_per_conversation)
        (groups_from d config sid (g + 1) indices),
    length-rollouts g s 0 config.num_rollouts_per_conversation,
    length-groups_from (g + 1) indices,
    suc-mul (length indices) config.num_rollouts_per_conversation,
  )

  scheduled_of-groups :
      (i g : ℕ) (indices : List ℕ)
      → scheduled_of i (groups_from d config sid g indices) % config.num_rollouts_per_conversation
        ≡ 0
  unfolding groups_from
  scheduled_of-groups i g [] = zero-mod config.num_rollouts_per_conversation
  scheduled_of-groups i g (s ∷ indices) =
      let own = scheduled_of-rollouts i g s 0 config.num_rollouts_per_conversation in
      let one : scheduled_of i
              (rollouts_from d config sid g s 0 config.num_rollouts_per_conversation)
            % config.num_rollouts_per_conversation
          ≡ 0 =
        elim (Bool-cases (i == d.group_text sid g (d.get_conv s))) [
          | inl e ↦ rw (own, e) (mod_self config.num_rollouts_per_conversation)
          | inr e ↦ rw (own, e) (zero-mod config.num_rollouts_per_conversation)
        ] in
      let parts =
        total-append (λ (c : ScheduledConversation). one_if_same i c.group_id)
          (rollouts_from d config sid g s 0 config.num_rollouts_per_conversation)
          (groups_from d config sid (g + 1) indices) in
      ap (λ n. n % config.num_rollouts_per_conversation) parts
      ∙ (add-mod
            (scheduled_of i (rollouts_from d config sid g s 0 config.num_rollouts_per_conversation))
            (scheduled_of i (groups_from d config sid (g + 1) indices))
            config.num_rollouts_per_conversation
          ∙ rw (one, scheduled_of-groups i (g + 1) indices)
              (zero-mod config.num_rollouts_per_conversation))

module _ {ℓ} {History : Type ℓ} (num : Numerics)
    (update_score_history : History → ℕ → List Float → Result History) where
  -- When the conversations of a round are scheduled and the data set drew as many samples as there
  -- are groups, results that answer each of them once, in any order, are grouped without an error:
  -- no result is left waiting, and the stream yields as many groups as were scheduled, each of
  -- `num_rollouts_per_conversation` results of one group, even if two groups have the same
  -- identifier. The results must have a score and the conversation of their group, and the data
  -- set's method that records scores must not fail.
  pub scheduled_round_complete :
      (d : Dataset) (config : TrainConfig) (schedule_id num_groups next : ℕ)
      (conversations : List ScheduledConversation) (conv : ℕ → ℕ) (filter_zero_std : Bool)
      (history : History) (results : List RolloutResult)
      → build_train_rollout_conversations d config schedule_id num_groups ≡ ok (next, conversations)
      → length (d.sample num_groups) ≡ num_groups
      → length results ≡ length conversations
      → ((i : ℕ) → of_group i results ≡ scheduled_of i conversations)
      → All (IsReady conv) results
      → ((h : History) (id : ℕ) (scores : List Float)
          → (h' : History) × (update_score_history h id scores ≡ ok h'))
      → (s : Stream History) × (groups : List RolloutGroup) × (stream_rollout_groups num
            update_score_history config.num_rollouts_per_conversation filter_zero_std history
            results
          ≡ ok (s, groups))
        × (s.pending_groups ≡ [])
        × (length groups ≡ num_groups)
        × All (IsYielded num config.num_rollouts_per_conversation filter_zero_std) groups
  unfolding build_train_rollout_conversations
  scheduled_round_complete d config sid num_groups next conversations conv f history results built
        drawn answered each ready recorded =
      let (t, built) = assert-eq-ok (ltb 0 num_groups) _ built in
      let (two, built) = assert-eq-ok (ltb 1 config.num_rollouts_per_conversation) _ built in
      let same : groups_from d config sid 0 (d.sample num_groups) ≡ conversations =
        ap (λ done. done.1) (ok-eq built) in
      let lt : 1 < config.num_rollouts_per_conversation = ground (arith, two) in
      let (s, groups, run, left, count, yielded, weights) =
        stream_rollout_groups_complete num update_score_history conv
          config.num_rollouts_per_conversation f history results recorded lt ready
          (λ i.
            ap (λ n. n % config.num_rollouts_per_conversation)
              (each i ∙ ap (scheduled_of i) (sym same))
            ∙ scheduled_of-groups d config sid i 0 (d.sample num_groups)) in
      let product : length groups * config.num_rollouts_per_conversation
          ≡ num_groups * config.num_rollouts_per_conversation =
        count
        ∙ (answered
            ∙ (ap length (sym same)
                ∙ (length-groups_from d config sid 0 (d.sample num_groups)
                    ∙ ap (λ n. n * config.num_rollouts_per_conversation) drawn))) in
      let some_size : 0 < config.num_rollouts_per_conversation = omega (arith, lt) in
      (
        s,
        groups,
        run,
        left,
        sym (mul-div_cancel (length groups) some_size)
            ∙ (ap (λ n. n / config.num_rollouts_per_conversation) product
                ∙ mul-div_cancel num_groups some_size),
        yielded,
      )
