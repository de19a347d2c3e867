-- ===== src/Pipeline/Tests.antt =====
-- pipeline/controller.py: runs and instances of the theorems.
use axrl.Prelude.{
  ℕ, ◌*◌, ◌+◌, ◌<◌, ◌≡◌, ◌⊎◌, refl, sym, true, false, none, some, List, [], ◌∷◌, Result, ok, err,
  Error, length, All, arith, total, sum, ◌==◌, if◌then◌else◌, Bool-cases, inl, inr,
}
use axrl.Data.Sample.{Float}
use axrl.Pipeline.{
  PipelineConfig, get_num_groups_per_batch_rollout, get_num_groups_per_model_sync,
  initial_max_running_tasks_per_actor,
}
use axrl.Pipeline.Groups.{
  RolloutResult, RolloutGroup, GroupFilterType, pass, zero_std_all_fail, Numerics, Stream, id_of,
  get_rollout_group_id, stream_result, stream_results, stream_rollout_groups, complete_group,
  normalize_group_rewards, reward_each, reward_result, advantage_of, get_group_filter_type, waiting,
}
use axrl.Pipeline.Groups.Rewards.{weighed}
use axrl.Pipeline.Groups.Pending.{held, weighed_groups, IsPending, IsYielded, of_group}
use axrl.Pipeline.Groups.Complete.{
  stream_rollout_groups_complete, stream_rollout_groups-kept, in_groups,
}
use axrl.Pipeline.Batches.{
  TrainGroupBatch, collect_scheduled_rollout_groups, collect_each, update, start, online_rounds,
  online_groups, online_group, keep, skip, clear, prepare_online_train_group_batch,
}
use axrl.Pipeline.Batches.Filled.{IsBatch, groups_of, groups_held}
use axrl.Pipeline.Batches.Rounds.{online_rounds-batches}
use axrl.Pipeline.Schedule.{
  ScheduledConversation, Dataset, TrainConfig, rollouts_from, groups_from,
  build_train_rollout_conversations,
}
use axrl.Pipeline.Schedule.Eval.{
  EvalDataset, at_limit, rollouts_per_prompt, eval_conversation, eval_rollouts, eval_samples,
  build_eval_rollout_conversations,
}
use axrl.Pipeline.Schedule.Limits.{
  IsNumbered, limited, per_prompt, build_eval_rollout_conversations-limited,
}
use axrl.Pipeline.Schedule.Round.{scheduled_of, scheduled_round_complete}

abbrev config : PipelineConfig
config = record {
  global_batch_size = 8;
  num_rollouts_per_conversation = 2;
  batch_rollout_for_n_global_updates = 3;
  model_sync_every_n_global_updates = 2;
  num_rollout_actors = 4;
  max_running_requests = 10;
}

groups_scheduled : get_num_groups_per_batch_rollout config ≡ ok 12
unfolding get_num_groups_per_batch_rollout
groups_scheduled = refl

groups_trained : get_num_groups_per_model_sync config ≡ ok 8
unfolding get_num_groups_per_model_sync
groups_trained = refl

uneven_groups :
    get_num_groups_per_batch_rollout (record config { num_rollouts_per_conversation = 3 })
    ≡ err Error.assertion_error
unfolding get_num_groups_per_batch_rollout
uneven_groups = refl

running_per_actor : initial_max_running_tasks_per_actor config ≡ ok 3
unfolding initial_max_running_tasks_per_actor
running_per_actor = refl

-- Numbers in place of floats.
abbrev numerics : Numerics
numerics = record {
  mean = sum;
  std = length;
  is_tiny = λ std. std == 0;
  clipped = λ score mean std. score + std;
  is_large = λ std. false;
  is_one = λ score. score == 1;
  is_zero = λ score. score == 0;
  masked = λ bears advantage. if bears then advantage else 0;
}

abbrev result : ℕ → ℕ → RolloutResult
result id score = record {
  conversation_id = id + 10;
  extra_group_id = some id;
  extra_rollout_group_id = none;
  score = some score;
  score_mean = none;
  score_std = none;
  turn_samples = none;
  packed_samples = none;
  reward = none;
  reward_baseline = none;
  scalar_advantage = none;
}

abbrev record_scores : ℕ → ℕ → List Float → Result ℕ
record_scores history id scores = ok (history + length scores)

-- Two groups whose results come in turns.
abbrev in_turns : List RolloutResult
in_turns = result 1 5 ∷ result 2 0 ∷ result 1 7 ∷ result 2 0 ∷ []

in_turns_filters :
    (s : Stream ℕ) × (g : RolloutGroup) × (g' : RolloutGroup) × (stream_rollout_groups numerics
        record_scores 2 true 0 in_turns
      ≡ ok (s, g ∷ g' ∷ []))
    × (g.filter_type ≡ pass)
    × (g'.filter_type ≡ zero_std_all_fail)
unfolding stream_rollout_groups stream_results stream_result get_rollout_group_id id_of
    complete_group normalize_group_rewards reward_each reward_result advantage_of
    get_group_filter_type
in_turns_filters = (_, _, _, refl, refl, refl)

stream_rollout_groups_complete_example :
    (s : Stream ℕ) × (groups : List RolloutGroup) × (stream_rollout_groups numerics record_scores 2
        true 0 in_turns
      ≡ ok (s, groups))
    × (s.pending_groups ≡ [])
    × (length groups * 2 ≡ length in_turns)
    × All (IsYielded numerics 2 true) groups
    × ((weight : RolloutResult → ℕ) → weighed weight in_turns ≡ weighed_groups weight groups)
unfolding id_of
stream_rollout_groups_complete_example =
    stream_rollout_groups_complete numerics record_scores (λ id. id + 10) 2 true 0 in_turns
      (λ h id scores. (h + length scores, refl)) (omega arith)
      (
        (omega arith, refl, (5, refl)),
        (
          (omega arith, refl, (0, refl)),
          ((omega arith, refl, (7, refl)), ((omega arith, refl, (0, refl)), tt)),
        ),
      )
      (λ i. elim (Bool-cases (i == 1)) [
        | inl e ↦ let n : (i == 2) ≡ false = ground (arith, e) in rw (e, n) refl
        | inr e ↦ elim (Bool-cases (i == 2)) [ inl f ↦ rw (e, f) refl | inr f ↦ rw (e, f) refl ]
      ])

abbrev dataset : Dataset
dataset = record {
  sample = λ n. 1 ∷ 2 ∷ [];
  get_conv = λ index. index + 10;
  get_label = λ index. index;
  group_text = λ schedule group conversation. group + 1;
  session_text = λ schedule group rollout conversation. group + 10 * rollout;
}

abbrev train_config : TrainConfig
train_config = record {
  num_rollouts_per_conversation = 2;
  enable_routing_replay = false;
  train_sampling_config = 0;
}

two_groups :
    (conversations : List ScheduledConversation) × (build_train_rollout_conversations dataset
        train_config 5 2
      ≡ ok (6, conversations))
    × (length conversations ≡ 4)
unfolding build_train_rollout_conversations groups_from rollouts_from
two_groups = (_, refl, refl)

no_groups_asked :
    build_train_rollout_conversations dataset train_config 5 0 ≡ err Error.assertion_error
unfolding build_train_rollout_conversations
no_groups_asked = refl

in_turns-scheduled : (i : ℕ) → of_group i in_turns ≡ scheduled_of i two_groups.0
unfolding two_groups id_of
in_turns-scheduled i = elim (Bool-cases (i == 1)) [
  | inl e ↦ let n : (i == 2) ≡ false = ground (arith, e) in rw (e, n) refl
  | inr e ↦ elim (Bool-cases (i == 2)) [ inl f ↦ rw (e, f) refl | inr f ↦ rw (e, f) refl ]
]

scheduled_round_complete_example :
    (s : Stream ℕ) × (groups : List RolloutGroup) × (stream_rollout_groups numerics record_scores 2
        true 0 in_turns
      ≡ ok (s, groups))
    × (s.pending_groups ≡ [])
    × (length groups ≡ 2)
    × All (IsYielded numerics 2 true) groups
unfolding id_of
scheduled_round_complete_example =
    scheduled_round_complete numerics record_scores dataset train_config 5 2 6 two_groups.0
      (λ id. id + 10) true 0 in_turns two_groups.1 refl (sym two_groups.2) in_turns-scheduled
      (
        (omega arith, refl, (5, refl)),
        (
          (omega arith, refl, (0, refl)),
          ((omega arith, refl, (7, refl)), ((omega arith, refl, (0, refl)), tt)),
        ),
      )
      (λ h id scores. (h + length scores, refl))

abbrev of_one : List RolloutResult
of_one = result 1 5 ∷ result 2 0 ∷ result 1 7 ∷ []

one_waits :
    (s : Stream ℕ) × (groups : List RolloutGroup) × (stream_rollout_groups numerics record_scores 2
        false 0 of_one
      ≡ ok (s, groups))
unfolding stream_rollout_groups stream_results stream_result get_rollout_group_id id_of
    complete_group normalize_group_rewards reward_each reward_result advantage_of
    get_group_filter_type
one_waits = (_, _, refl)

stream_rollout_groups-kept_example :
    All (IsYielded numerics 2 false) one_waits.1
    × IsPending 2 one_waits.0.pending_groups
    × ((i : ℕ)
        → of_group i of_one
          ≡ length (waiting one_waits.0.pending_groups i) + in_groups i one_waits.1)
    × ((weight : RolloutResult → ℕ)
        → weighed weight of_one
          ≡ held weight one_waits.0.pending_groups + weighed_groups weight one_waits.1)
stream_rollout_groups-kept_example =
    stream_rollout_groups-kept numerics record_scores 2 false 0 of_one one_waits.0 one_waits.1
      one_waits.2

abbrev group : GroupFilterType → RolloutGroup
group filter_type = record { results = []; filter_type = filter_type }

abbrev rounds : List (List RolloutGroup)
rounds =
    (group pass ∷ group zero_std_all_fail ∷ group pass ∷ [])
    ∷ (group pass ∷ group pass ∷ group pass ∷ [])
    ∷ []

online_rounds-batches_example :
    All (IsBatch 2) (online_rounds (λ n groups. groups) 2 3 false start rounds).1
    × ((weight : RolloutGroup → ℕ)
        → total (total weight) rounds
          ≡ groups_held weight (online_rounds (λ n groups. groups) 2 3 false start rounds).0
            + total
                (groups_of weight)
                (online_rounds (λ n groups. groups) 2 3 false start rounds).1)
    × ((false ≡ true)
        ⊎ (length (online_rounds (λ n groups. groups) 2 3 false start rounds).0.valid_rollouts < 2))
online_rounds-batches_example =
    online_rounds-batches (λ n groups. groups) (λ n weight groups. refl) 2 3 false rounds
      (omega arith)

two_batches : length (online_rounds (λ n groups. groups) 2 3 false start rounds).1 ≡ 2
unfolding online_rounds online_groups online_group keep skip clear update
    prepare_online_train_group_batch
two_batches = refl

-- With `strict_on_policy` a round whose last group is filtered yields no batch, though it has the
-- valid groups for one.
strict_round :
    (online_rounds
      (λ n groups. groups)
      2
      3
      true
      start
      ((group pass ∷ group pass ∷ group zero_std_all_fail ∷ []) ∷ [])).1
    ≡ []
unfolding online_rounds online_groups online_group keep skip clear update
    prepare_online_train_group_batch
strict_round = refl

at_most_one :
    (b : TrainGroupBatch) × (collect_scheduled_rollout_groups
        (group pass ∷ group zero_std_all_fail ∷ group pass ∷ group pass ∷ [])
        3
        (some 1)
      ≡ ok b)
    × (length b.valid_groups ≡ 1)
    × (length b.skipped_groups ≡ 2)
unfolding collect_scheduled_rollout_groups collect_each update
at_most_one = (_, refl, refl, refl)

abbrev eval_dataset : EvalDataset
eval_dataset = record {
  len = 3;
  get_conv = λ index. index + 10;
  get_label = λ index. index;
  session_text = λ conversation number. conversation * 100 + number;
  eval_sampling_config = 0;
  eval_num_rollouts_per_prompt = some 2;
}

-- The limit stops the loop in the second sample.
limit_within_sample :
    build_eval_rollout_conversations eval_dataset (some 3)
    ≡ eval_conversation eval_dataset 0 0
      ∷ eval_conversation eval_dataset 0 1
      ∷ eval_conversation eval_dataset 1 2
      ∷ []
unfolding build_eval_rollout_conversations eval_samples eval_rollouts at_limit rollouts_per_prompt
limit_within_sample = refl

build_eval_rollout_conversations-limited_example :
    IsNumbered eval_dataset 0 (build_eval_rollout_conversations eval_dataset (some 3))
    × (length (build_eval_rollout_conversations eval_dataset (some 3))
        ≡ limited (some 3) (3 * per_prompt eval_dataset))
build_eval_rollout_conversations-limited_example =
    build_eval_rollout_conversations-limited eval_dataset (some 3)
