-- ===== src/Pipeline/Batches/Rounds.antt =====
-- pipeline/controller.py: the batches of all rounds of `stream_online_train_group_batches`.
use mathlib.Core.Path.{subst}
use axrl.Prelude.{
  ℕ, ◌+◌, ◌<◌, ◌≡◌, refl, ap, ◌⊎◌, inl, inr, Bool, true, false, ◌&&◌, Option, none, some,
  Bool-cases, List, [], ◌∷◌, ◌++◌, length, All, All-append, ltb, arith, total, total-append,
  if_cases,
}
use axrl.Pipeline.Groups.{RolloutGroup, is_pass}
use axrl.Pipeline.Batches.{
  TrainGroupBatch, Online, online_group, with_batch, keep, online_groups, online_rounds, start,
}
use axrl.Pipeline.Batches.Filled.{
  IsBatch, IsHeld, groups_of, groups_held, IsStep, one_more, batches_of, kept_lem, full_lem,
  skipped_lem,
}

module _ (shuffle : ℕ → List RolloutGroup → List RolloutGroup)
    (reorders : (n : ℕ) (weight : RolloutGroup → ℕ) (groups : List RolloutGroup)
      → total weight (shuffle n groups) ≡ total weight groups)
    (target : ℕ) (scheduled : ℕ) (strict : Bool) where
  online_group_lem :
      (s : Online) (g : RolloutGroup)
      → 0 < target
      → IsHeld target strict s
      → IsStep shuffle reorders target scheduled strict
          (one_more shuffle reorders target scheduled strict s g)
          (batches_of shuffle reorders target scheduled strict
            (online_group shuffle target scheduled strict s g))
  unfolding online_group
  online_group_lem s g some_target h =
      if_cases IsNext (is_pass g.filter_type)
        (λ valid.
          if_cases IsNext (ltb (length (keep s g).valid_rollouts) target)
            (λ lt.
              kept_lem shuffle reorders target scheduled strict s g h valid
                (λ e. ground (arith, lt)))
            (λ ge.
              if_cases IsNext (strict && ltb (keep s g).generated_groups scheduled)
                (λ waits.
                  kept_lem shuffle reorders target scheduled strict s g h valid
                    (λ e. let w : false ≡ true = rw e at waits in cc))
                (λ full.
                  full_lem shuffle reorders target scheduled strict s g some_target h valid
                    (ground (arith, ge)))))
        (λ filtered. skipped_lem shuffle reorders target scheduled strict s g h)
    where
      IsNext : Online × Option TrainGroupBatch → Type 0
      IsNext done =
          IsStep shuffle reorders target scheduled strict
            (one_more shuffle reorders target scheduled strict s g)
            (batches_of shuffle reorders target scheduled strict done)

  -- Steps one after another.
  IsStep-append :
      (before n : (RolloutGroup → ℕ) → ℕ) (s1 s2 : Online) (batches more : List TrainGroupBatch)
      → IsStep shuffle reorders target scheduled strict before (s1, batches)
      → IsStep shuffle reorders target scheduled strict (λ w. groups_held w s1 + n w) (s2, more)
      → IsStep shuffle reorders target scheduled strict (λ w. before w + n w) (s2, batches ++ more)
  IsStep-append before n s1 s2 batches more h k = (
    k.0,
    All-append (IsBatch target) batches more h.1 k.1,
    λ w. omega (arith, h.2 w, k.2 w, total-append (groups_of w) batches more),
  )

  with_batch-eq :
      (o : Option TrainGroupBatch) (batches : List TrainGroupBatch)
      → with_batch o [] ++ batches ≡ with_batch o batches
  with_batch-eq none batches = refl
  with_batch-eq (some batch) batches = refl

  online_groups_lem :
      (s : Online) (groups : List RolloutGroup)
      → 0 < target
      → IsHeld target strict s
      → IsStep shuffle reorders target scheduled strict
          (λ w. groups_held w s + total w groups)
          (online_groups shuffle target scheduled strict s groups)
  unfolding online_groups
  online_groups_lem s [] some_target h = (h, tt, λ w. omega arith)
  online_groups_lem s (g ∷ groups) some_target h =
      let done = online_group shuffle target scheduled strict s g in
      let next = online_groups shuffle target scheduled strict done.0 groups in
      let one = online_group_lem s g some_target h in
      let more = online_groups_lem done.0 groups some_target one.0 in
      let both =
        IsStep-append (one_more shuffle reorders target scheduled strict s g) (λ w. total w groups)
          done.0 next.0 (with_batch done.1 []) next.1 one more in
      let batches = subst (All (IsBatch target)) (with_batch-eq done.1 next.1) both.1 in
      let of_batches =
        λ (w : RolloutGroup → ℕ). ap (total (groups_of w)) (with_batch-eq done.1 next.1) in
      (both.0, batches, λ w. omega (arith, both.2 w, of_batches w))

  online_rounds_lem :
      (s : Online) (rounds : List (List RolloutGroup))
      → 0 < target
      → IsHeld target strict s
      → IsStep shuffle reorders target scheduled strict
          (λ w. groups_held w s + total (total w) rounds)
          (online_rounds shuffle target scheduled strict s rounds)
  unfolding online_rounds
  online_rounds_lem s [] some_target h = (h, tt, λ w. omega arith)
  online_rounds_lem s (groups ∷ rounds) some_target h =
      let s0 = record s { generated_groups = 0 } in
      let done = online_groups shuffle target scheduled strict s0 groups in
      let next = online_rounds shuffle target scheduled strict done.0 rounds in
      let one =
        online_groups_lem s0 groups some_target
          (record { valid = h.valid; counts = h.counts; few = h.few }) in
      let more = online_rounds_lem done.0 rounds some_target one.0 in
      let both =
        IsStep-append (λ w. groups_held w s + total w groups) (λ w. total (total w) rounds) done.0
          next.0 done.1 next.1 one more in
      (both.0, both.1, λ w. omega (arith, both.2 w))

  -- Whatever groups the rounds generate, every batch for training has exactly the valid groups
  -- asked for, none of them filtered, and counts for each filter type its groups, valid or skipped,
  -- that have it. The groups of the batches and those still held are the groups generated, each as
  -- often: whatever groups weigh, the two weigh as much as all the rounds. Without
  -- `strict_on_policy` there are never enough valid groups held for a batch. `shuffle` reorders a
  -- list, and a batch asks for a group at least.
  pub online_rounds-batches :
      (rounds : List (List RolloutGroup))
      → 0 < target
      → All (IsBatch target) (online_rounds shuffle target scheduled strict start rounds).1
        × ((weight : RolloutGroup → ℕ)
            → total (total weight) rounds
              ≡ groups_held weight (online_rounds shuffle target scheduled strict start rounds).0
                + total
                    (groups_of weight)
                    (online_rounds shuffle target scheduled strict start rounds).1)
        × ((strict ≡ true)
            ⊎ (length (online_rounds shuffle target scheduled strict start rounds).0.valid_rollouts
                < target))
  online_rounds-batches rounds some_target =
      let held : IsHeld target strict start = record {
        valid = tt;
        counts = (refl, refl, refl);
        few = λ e. some_target;
      } in
      let (h, batches, n) = online_rounds_lem start rounds some_target held in
      (
        batches,
        (λ weight. omega (arith, n weight)),
        elim (Bool-cases strict) [ inl e ↦ inl e | inr e ↦ inr (h.few e) ],
      )
