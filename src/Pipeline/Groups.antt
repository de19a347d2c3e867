-- ===== src/Pipeline/Groups.antt =====
-- axrl/pipeline/controller.py: the groups of results of one conversation. An identifier is a number
-- that is only compared, 0 for the empty text; the rows of a `SampleTensorDict` are samples.
-- What `numpy` and `torch` compute of floats is an argument, and so is the data set's method that
-- records the scores of a group (which leaves its state alone where there is no data set).
pub mod Rewards
pub mod Pending
mod Steps
pub mod Complete
use axrl.Prelude.{
  ℕ, zero, suc, Bool, true, false, ◌&&◌, not, Option, none, some, List, [], ◌∷◌, ◌++◌, map, Result,
  ok, err, assert, ◌>>=◌, ◌>>◌, Error, length, ltb, ◌==◌, if◌then◌else◌, dict_get, dict_set,
  dict_pop,
}
use axrl.Data.Sample.{Float, Sample}

-- `RolloutResult`, with the identifiers that `extra` of its conversation may hold, and the fields
-- of its metric.
pub record RolloutResult : Type 0 where
  pub conversation_id : ℕ
  pub extra_group_id : Option ℕ
  pub extra_rollout_group_id : Option ℕ
  pub score : Option Float
  pub score_mean : Option Float
  pub score_std : Option Float
  pub turn_samples : Option (List Sample)
  pub packed_samples : Option (List Sample)
  pub reward : Option Float
  pub reward_baseline : Option Float
  pub scalar_advantage : Option Float

pub data GroupFilterType : Type 0 where
  pass zero_std_all_fail zero_std_all_success : GroupFilterType

pub record RolloutGroup : Type 0 where
  pub results : List RolloutResult
  pub filter_type : GroupFilterType

-- `RolloutGroup.is_valid`
abbrev pub is_pass : GroupFilterType → Bool
is_pass pass = true
is_pass zero_std_all_fail = false
is_pass zero_std_all_success = false

-- `extra.get("group_id", extra.get("rollout_group_id", conversation_id))`
abbrev pub or_else : Option ℕ → ℕ → ℕ
or_else none other = other
or_else (some id) other = id

unfoldable pub id_of : RolloutResult → ℕ
id_of r = or_else r.extra_group_id (or_else r.extra_rollout_group_id r.conversation_id)

unfoldable pub get_rollout_group_id : RolloutResult → Result ℕ
unfolding id_of
get_rollout_group_id r = do assert (not (id_of r == 0)); ok (id_of r)

-- What is computed of floats: `np.mean`, `np.std` with `ddof=1`, `group_std < 1e-8`, the clipped
-- quotient, `reward_std > 1e-2`, `np.isclose` to 1 and to 0, and a mask times an advantage.
pub record Numerics : Type 0 where
  pub mean : List Float → Float
  pub std : List Float → Float
  pub is_tiny : Float → Bool
  pub clipped : Float → Float → Float → Float
  pub is_large : Float → Bool
  pub is_one : Float → Bool
  pub is_zero : Float → Bool
  pub masked : Bool → Float → Float

-- `[metric.score for metric in metrics if metric.score is not None]`
abbrev pub scores_of : List RolloutResult → List Float
scores_of [] = []
scores_of (r ∷ group) = elim r.score [ none ↦ scores_of group | some s ↦ s ∷ scores_of group ]

abbrev pub all_same : ℕ → List RolloutResult → Bool
all_same id [] = true
all_same id (r ∷ group) = (r.conversation_id == id) && all_same id group

-- `len(set(conversation_ids)) == 1`
abbrev pub one_conversation : List RolloutResult → Bool
one_conversation [] = false
one_conversation (r ∷ group) = all_same r.conversation_id group

-- `assert result.metric.score is not None`
abbrev pub required : Option Float → Result Float
required none = err Error.assertion_error
required (some score) = ok score

module _ (num : Numerics) where
  -- A turn sample under the group's reward.
  unfoldable pub reward_turn : Float → Float → Float → Sample → Sample
  reward_turn score mean advantage s = record s {
    reward = score;
    reward_baseline = mean;
    advantage = map (λ bears. if bears then advantage else 0) s.loss_mask;
  }

  -- `finalize_packed_sample_batch_reward`, for a row
  unfoldable pub reward_packed : Float → Float → Float → Sample → Sample
  reward_packed score mean advantage s = record s {
    reward = score;
    reward_baseline = mean;
    advantage = map (λ bears. num.masked bears advantage) s.loss_mask;
  }

  abbrev pub map_rows : (Sample → Sample) → Option (List Sample) → Option (List Sample)
  map_rows f none = none
  map_rows f (some rows) = some (map f rows)

  unfoldable pub advantage_of : Float → Float → Float → Float
  advantage_of score mean std = if num.is_tiny std then 0 else num.clipped score mean std

  -- A result under the group's statistics.
  unfoldable pub reward_result : Float → Float → Float → RolloutResult → RolloutResult
  unfolding reward_turn reward_packed advantage_of
  reward_result mean std score r =
      let advantage = advantage_of score mean std in
      record r {
        score_mean = some mean;
        score_std = some std;
        turn_samples = map_rows (reward_turn score mean advantage) r.turn_samples;
        packed_samples = map_rows (reward_packed score mean advantage) r.packed_samples;
        reward = some score;
        reward_baseline = some mean;
        scalar_advantage = some advantage;
      }

  -- The last loop of `normalize_group_rewards`, with `finalize_packed_result_reward`; the loop
  -- before it has set the two statistics.
  unfoldable pub reward_each : Float → Float → List RolloutResult → Result (List RolloutResult)
  unfolding reward_result
  reward_each mean std [] = ok []
  reward_each mean std (r ∷ group) = do
    score ← required r.score
    more ← reward_each mean std group
    ok (reward_result mean std score r ∷ more)

  abbrev pub all_scores : (Float → Bool) → List RolloutResult → Bool
  all_scores test [] = true
  all_scores test (r ∷ group) = elim r.score [
    | none ↦ false
    | some s ↦ test s && all_scores test group
  ]

  -- `reward_std is not None and reward_std > 1e-2`, of the first result
  abbrev pub has_spread : List RolloutResult → Bool
  has_spread [] = false
  has_spread (r ∷ group) = elim r.score_std [ none ↦ false | some std ↦ num.is_large std ]

  unfoldable pub get_group_filter_type : Bool → List RolloutResult → GroupFilterType
  get_group_filter_type filter_zero_std group =
      if not filter_zero_std
      then pass
      else if has_spread group
      then pass
      else if all_scores num.is_one group
      then zero_std_all_success
      else if all_scores num.is_zero group
      then zero_std_all_fail
      else pass

abbrev pub first_id : List RolloutResult → ℕ
first_id [] = 0
first_id (r ∷ group) = r.conversation_id

-- The local state of `stream_rollout_groups`, and the data set's.
pub record Stream {ℓ} (History : Type ℓ) : Type ℓ where
  pub pending_groups : List (ℕ × List RolloutResult)
  pub history : History

abbrev pub or_empty : Option (List RolloutResult) → List RolloutResult
or_empty none = []
or_empty (some group) = group

-- `pending_groups.setdefault(group_id, [])`
abbrev pub waiting : List (ℕ × List RolloutResult) → ℕ → List RolloutResult
waiting pending id = or_empty (dict_get pending id)

abbrev pub with_group : Option RolloutGroup → List RolloutGroup → List RolloutGroup
with_group none groups = groups
with_group (some group) groups = group ∷ groups

module _ {ℓ} {History : Type ℓ} (num : Numerics)
    (update_score_history : History → ℕ → List Float → Result History) where
  unfoldable pub normalize_group_rewards :
      History → List RolloutResult → Result (History × List RolloutResult)
  unfolding reward_each
  normalize_group_rewards history group = do
    assert (one_conversation group)
    let scores = scores_of group
    assert (length scores == length group)
    assert (ltb 1 (length scores))
    history ← update_score_history history (first_id group) scores
    results ← reward_each num (num.mean scores) (num.std scores) group
    ok (history, results)

  -- What `stream_rollout_groups` does with a group that is full.
  unfoldable pub complete_group :
      ℕ
      → Bool
      → Stream History
      → ℕ
      → List RolloutResult
      → Result (Stream History × Option RolloutGroup)
  unfolding normalize_group_rewards get_group_filter_type
  complete_group group_size filter_zero_std s group_id group = do
    assert (length group == group_size)
    (history, results) ← normalize_group_rewards s.history group
    ok (
      record { pending_groups = dict_pop s.pending_groups group_id; history = history },
      some (record {
        results = results;
        filter_type = get_group_filter_type num filter_zero_std results;
      }),
    )

  -- One result of the queue in `stream_rollout_groups`, and the group that it completes. The calls
  -- that delete the tensors of a group that is filtered are left to the caller.
  unfoldable pub stream_result :
      ℕ → Bool → Stream History → RolloutResult → Result (Stream History × Option RolloutGroup)
  unfolding get_rollout_group_id complete_group
  stream_result group_size filter_zero_std s r = do
    group_id ← get_rollout_group_id r
    let group = waiting s.pending_groups group_id ++ r ∷ []
    let s = record s { pending_groups = dict_set s.pending_groups group_id group }
    if ltb (length group) group_size
        then ok (s, none)
        else complete_group group_size filter_zero_std s group_id group

  -- The results that come from the queue one after another, and the groups yielded.
  unfoldable pub stream_results :
      ℕ → Bool → Stream History → List RolloutResult → Result (Stream History × List RolloutGroup)
  unfolding stream_result
  stream_results group_size filter_zero_std s [] = ok (s, [])
  stream_results group_size filter_zero_std s (r ∷ results) = do
    (s', group) ← stream_result group_size filter_zero_std s r
    (last, groups) ← stream_results group_size filter_zero_std s' results
    ok (last, with_group group groups)

  -- `stream_rollout_groups`
  unfoldable pub stream_rollout_groups :
      ℕ → Bool → History → List RolloutResult → Result (Stream History × List RolloutGroup)
  unfolding stream_results
  stream_rollout_groups group_size filter_zero_std history results = do
    assert (ltb 1 group_size)
    stream_results group_size filter_zero_std (record { pending_groups = []; history = history })
        results
