-- ===== src/Pipeline/Batches.antt =====
-- axrl/pipeline/controller.py: batches of groups for training. A stream of groups is the list of
-- the groups in the order they come. `random.shuffle` is an argument: the order of the n-th call.
-- The calls that switch the workers and that delete tensors are left to the caller.
pub mod Filled
pub mod Rounds
use axrl.Prelude.{
  ℕ, zero, suc, ◌+◌, Bool, true, false, ◌&&◌, Option, none, some, List, [], ◌∷◌, ◌++◌, Result, ok,
  assert, ◌>>=◌, ◌>>◌, length, take, drop, ltb, if◌then◌else◌,
}
use axrl.Pipeline.Groups.{
  RolloutGroup, GroupFilterType, pass, zero_std_all_fail, zero_std_all_success, is_pass,
}

-- `Counter[GroupFilterType]`
pub record Counter : Type 0 where
  pub passes : ℕ
  pub fails : ℕ
  pub successes : ℕ

abbrev pub no_counts : Counter
no_counts = record { passes = 0; fails = 0; successes = 0 }

-- `counter.update([filter_type])`
unfoldable pub update : Counter → GroupFilterType → Counter
update c pass = record c { passes = c.passes + 1 }
update c zero_std_all_fail = record c { fails = c.fails + 1 }
update c zero_std_all_success = record c { successes = c.successes + 1 }

pub record TrainGroupBatch : Type 0 where
  pub valid_groups : List RolloutGroup
  pub skipped_groups : List RolloutGroup
  pub filter_type_counts : Counter

-- `max_valid_groups is None or len(valid_groups) < max_valid_groups`
abbrev pub has_place : Option ℕ → List RolloutGroup → Bool
has_place none valid = true
has_place (some m) valid = ltb (length valid) m

-- The loop of `collect_scheduled_rollout_groups`, on the groups of the stream.
unfoldable pub collect_each : Option ℕ → TrainGroupBatch → List RolloutGroup → TrainGroupBatch
unfolding update
collect_each max_valid b [] = b
collect_each max_valid b (g ∷ groups) =
    let counts = update b.filter_type_counts g.filter_type in
    let kept = record b { valid_groups = b.valid_groups ++ g ∷ []; filter_type_counts = counts } in
    let skipped = record b {
      skipped_groups = b.skipped_groups ++ g ∷ [];
      filter_type_counts = counts;
    } in
    collect_each max_valid
      (if is_pass g.filter_type && has_place max_valid b.valid_groups then kept else skipped) groups

abbrev pub no_groups : TrainGroupBatch
no_groups = record { valid_groups = []; skipped_groups = []; filter_type_counts = no_counts }

-- `max_valid_groups > 0`, when it is set
abbrev pub is_positive : Option ℕ → Bool
is_positive none = true
is_positive (some m) = ltb 0 m

-- `collect_scheduled_rollout_groups`; the scheduled groups are the first of the stream.
unfoldable pub collect_scheduled_rollout_groups :
    List RolloutGroup → ℕ → Option ℕ → Result TrainGroupBatch
unfolding collect_each
collect_scheduled_rollout_groups stream scheduled_groups max_valid_groups = do
  assert (ltb 0 scheduled_groups)
  assert (is_positive max_valid_groups)
  ok (collect_each max_valid_groups no_groups (take scheduled_groups stream))

-- The local state of `stream_online_train_group_batches`; `shuffles` counts the calls of
-- `random.shuffle`.
pub record Online : Type 0 where
  pub valid_rollouts : List RolloutGroup
  pub skipped_rollouts : List RolloutGroup
  pub group_filter_types : Counter
  pub generated_groups : ℕ
  pub shuffles : ℕ

abbrev pub with_batch : Option TrainGroupBatch → List TrainGroupBatch → List TrainGroupBatch
with_batch none batches = batches
with_batch (some batch) batches = batch ∷ batches

-- A group that is valid, and one that is not.
unfoldable pub keep : Online → RolloutGroup → Online
unfolding update
keep s g = record s {
  generated_groups = s.generated_groups + 1;
  group_filter_types = update s.group_filter_types g.filter_type;
  valid_rollouts = s.valid_rollouts ++ g ∷ [];
}

unfoldable pub skip : Online → RolloutGroup → Online
unfolding update
skip s g = record s {
  generated_groups = s.generated_groups + 1;
  group_filter_types = update s.group_filter_types g.filter_type;
  skipped_rollouts = s.skipped_rollouts ++ g ∷ [];
}

-- What is cleared after a batch.
unfoldable pub clear : Online → Online
clear s = record s {
  valid_rollouts = [];
  skipped_rollouts = [];
  group_filter_types = no_counts;
  shuffles = s.shuffles + 1;
}

module _ (shuffle : ℕ → List RolloutGroup → List RolloutGroup) (target_valid_groups : ℕ)
    (scheduled_groups : ℕ) (strict_on_policy : Bool) where
  -- `_prepare_online_train_group_batch`
  unfoldable pub prepare_online_train_group_batch : Online → TrainGroupBatch
  prepare_online_train_group_batch s =
      let valid = shuffle s.shuffles s.valid_rollouts in
      if ltb target_valid_groups (length valid)
      then record {
        valid_groups = take target_valid_groups valid;
        skipped_groups = s.skipped_rollouts ++ drop target_valid_groups valid;
        filter_type_counts = s.group_filter_types;
      }
      else record {
        valid_groups = valid;
        skipped_groups = s.skipped_rollouts;
        filter_type_counts = s.group_filter_types;
      }

  -- A group in the inner loop of `stream_online_train_group_batches`, and the batch it completes.
  unfoldable pub online_group : Online → RolloutGroup → Online × Option TrainGroupBatch
  unfolding prepare_online_train_group_batch keep skip clear
  online_group s g =
      if is_pass g.filter_type
      then (if ltb (length (keep s g).valid_rollouts) target_valid_groups
          then (keep s g, none)
          else if strict_on_policy && ltb (keep s g).generated_groups scheduled_groups
          then (keep s g, none)
          else (clear (keep s g), some (prepare_online_train_group_batch (keep s g))))
      else (skip s g, none)

  unfoldable pub online_groups : Online → List RolloutGroup → Online × List TrainGroupBatch
  unfolding online_group
  online_groups s [] = (s, [])
  online_groups s (g ∷ groups) =
      let (s', batch) = online_group s g in
      let (last, batches) = online_groups s' groups in (last, with_batch batch batches)

  -- The rounds of the outer loop, each with the groups that it generates.
  unfoldable pub online_rounds : Online → List (List RolloutGroup) → Online × List TrainGroupBatch
  unfolding online_groups
  online_rounds s [] = (s, [])
  online_rounds s (groups ∷ rounds) =
      let (s', batches) = online_groups (record s { generated_groups = 0 }) groups in
      let (last, more) = online_rounds s' rounds in (last, batches ++ more)

abbrev pub start : Online
start = record {
  valid_rollouts = [];
  skipped_rollouts = [];
  group_filter_types = no_counts;
  generated_groups = 0;
  shuffles = 0;
}
