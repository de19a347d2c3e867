-- ===== src/Data/TokenTrace.antt =====
-- axrl/data/token_trace.py: the token stream of a rollout as a list of typed chunks.
pub mod Views
pub mod Samples
pub mod OneTurn
pub mod Handles
mod Tests
use axrl.Prelude.{
  ℕ, zero, suc, ◌+◌, ◌-◌, Bool, true, false, not, ◌&&◌, Option, none, some, List, [], ◌∷◌, ◌++◌,
  map, Result, ok, err, assert, ◌>>=◌, ◌>>◌, Error, length, replicate, sum, ltb, leb, ◌==◌,
  if◌then◌else◌,
}
use axrl.Data.Sample.{ℤ, pos, Float, ignore_index, minus_one, TensorHandle, Sample}

pub data TokenInfoType : Type 0 where
  init assistant assistant_boundary tool_result user : TokenInfoType

pub record TokenInfo : Type 0 where
  pub tokens : List ℕ
  pub token_type : TokenInfoType
  pub compacted_to_placeholder : Bool
  pub logprobs : List Float

pub record TokenTrace : Type 0 where
  pub token_infos : List TokenInfo
  pub routing_handles : List TensorHandle
  pub token_info_index_per_handle : List ℕ
  pub routing_row_count_per_handle : List ℕ
  pub turn_rewards : ℕ → Option Float

abbrev pub empty : TokenTrace
empty = record {
  token_infos = [];
  routing_handles = [];
  token_info_index_per_handle = [];
  routing_row_count_per_handle = [];
  turn_rewards = λ i. none;
}

-- `token_type == "assistant"` and `token_type == "init"`
abbrev pub is_assistant : TokenInfoType → Bool
is_assistant assistant = true
is_assistant _ = false

abbrev pub is_init : TokenInfoType → Bool
is_init init = true
is_init _ = false

unfoldable pub token_ids : List TokenInfo → List ℕ
token_ids [] = []
token_ids (c ∷ cs) = c.tokens ++ token_ids cs

unfoldable pub token_count : List TokenInfo → ℕ
token_count [] = 0
token_count (c ∷ cs) = length c.tokens + token_count cs

unfoldable pub token_logprobs : List TokenInfo → Result (List Float)
token_logprobs [] = ok []
token_logprobs (c ∷ cs) =
    let rest = token_logprobs cs in
    if ltb 0 (length c.logprobs)
    then (do assert (length c.logprobs == length c.tokens); more ← rest; ok (c.logprobs ++ more))
    else (do more ← rest; ok (replicate (length c.tokens) 0 ++ more))

unfoldable pub loss_mask : List TokenInfo → List Bool
loss_mask [] = []
loss_mask (c ∷ cs) = replicate (length c.tokens) (is_assistant c.token_type) ++ loss_mask cs

-- `turn_index`, from `assistant_turns_seen` on.
unfoldable pub turn_index : ℕ → List TokenInfo → List ℤ
turn_index seen [] = []
turn_index seen (c ∷ cs) =
    replicate (length c.tokens) (if is_assistant c.token_type then pos seen else minus_one)
    ++ turn_index (if is_assistant c.token_type then seen + 1 else seen) cs

unfoldable pub num_assistant_turns : List TokenInfo → ℕ
num_assistant_turns [] = 0
num_assistant_turns (c ∷ cs) = (if is_assistant c.token_type then 1 else 0) + num_assistant_turns cs

unfoldable pub captured_routing_rows : TokenTrace → ℕ
captured_routing_rows t = sum t.routing_row_count_per_handle

unfoldable pub new_routing_row_count : TokenTrace → ℕ → Option ℕ → Result ℕ
unfolding token_count
new_routing_row_count t new_token_count prior_routing_rows = do
  let prior_rows : ℕ = elim prior_routing_rows [
    | none ↦ sum t.routing_row_count_per_handle
    | some rows ↦ rows
  ]
  let total_after = token_count t.token_infos + new_token_count
  assert (leb (1 + prior_rows) total_after)
  ok (total_after - 1 - prior_rows)

-- `not self.token_infos`
abbrev pub is_empty : List TokenInfo → Bool
is_empty [] = true
is_empty (c ∷ cs) = false

-- `if routing_row_count is None: routing_row_count = self.new_routing_row_count(...)`
unfoldable pub rows_for : TokenTrace → ℕ → Option ℕ → Result ℕ
unfolding new_routing_row_count
rows_for t count none = new_routing_row_count t count none
rows_for t count (some n) = ok n

-- The `if routing_handle is not None` of `extend_tokens`.
unfoldable pub record_handle :
    TokenTrace → ℕ → TokenInfoType → Option TensorHandle → Option ℕ → Result TokenTrace
unfolding rows_for
record_handle t count token_type none rows = ok t
record_handle t count token_type (some handle) rows = do
  assert (is_assistant token_type)
  row_count ← rows_for t count rows
  ok (record t {
    routing_handles = t.routing_handles ++ handle ∷ [];
    token_info_index_per_handle = t.token_info_index_per_handle ++ length t.token_infos ∷ [];
    routing_row_count_per_handle = t.routing_row_count_per_handle ++ row_count ∷ [];
  })

unfoldable pub extend_tokens :
    TokenTrace
    → List ℕ
    → Option (List Float)
    → TokenInfoType
    → Option TensorHandle
    → Option ℕ
    → Result TokenTrace
unfolding record_handle
extend_tokens t new_tokens logprobs token_type routing_handle routing_row_count = do
  let values : List Float = elim logprobs [ none ↦ replicate (length new_tokens) 0 | some l ↦ l ]
  assert (length values == length new_tokens)
  assert (if is_init token_type then is_empty t.token_infos else not (is_empty t.token_infos))
  t' ← record_handle t (length new_tokens) token_type routing_handle routing_row_count
  ok (record t' {
    token_infos =
        t'.token_infos
        ++ (record {
          tokens = new_tokens;
          token_type = token_type;
          compacted_to_placeholder = false;
          logprobs = values;
        })
          ∷ [];
  })

-- A reward is held as the 32-bit float that the samples make of it: it is read nowhere else.
unfoldable pub set_turn_reward : TokenTrace → ℕ → Float → Result TokenTrace
unfolding num_assistant_turns
set_turn_reward t turn reward = do
  assert (ltb turn (num_assistant_turns t.token_infos))
  ok (record t { turn_rewards = λ i. if i == turn then some reward else t.turn_rewards i })

-- `_turn_rewards.get(index, 0.0)`
abbrev pub reward_of : TokenTrace → ℕ → Float
reward_of t i = elim (t.turn_rewards i) [ none ↦ 0 | some r ↦ r ]

-- `self._turn_rewards.get(int(idx), 0.0) if idx >= 0 else 0.0`
abbrev pub reward_at : TokenTrace → ℤ → Float
reward_at t (pos i) = reward_of t i
reward_at t _ = 0

module _ {ℓ} {A : Type ℓ} where
  unfoldable pub shift_left : List A → A → List A
  shift_left [] padding = []
  shift_left (v ∷ vs) padding = vs ++ padding ∷ []

  -- `np.pad(values, (0, n), constant_values=padding)`
  abbrev pub pad : List A → ℕ → A → List A
  pad values n padding = values ++ replicate n padding

-- `np.arange(n)`, from `start` on.
unfoldable pub arange : ℕ → ℕ → List ℕ
arange start zero = []
arange start (suc n) = start ∷ arange (start + 1) n

-- The end that `to_sample` and `to_last_turn_sample` share: shift left, pad, and build the sample.
unfoldable pub finish_sample :
    TokenTrace → ℕ → ℕ → List ℕ → List Float → List Bool → List ℤ → List Float → Sample
unfolding shift_left arange
finish_sample t max_length pad_token_id ids logprobs mask index rewards =
    let n = max_length - length ids in
    record {
      input_ids = pad ids n pad_token_id;
      labels = pad (shift_left (map pos ids) ignore_index) n ignore_index;
      loss_mask = pad (shift_left mask false) n false;
      attention_mask = replicate (length ids) true ++ replicate n false;
      position_ids = arange 0 max_length;
      reward = 0;
      reward_baseline = 0;
      advantage = replicate max_length 0;
      rollout_logprobs = some (pad (shift_left logprobs 0) n 0);
      old_logprobs = none;
      ref_logprobs = none;
      teacher_logprobs = none;
      old_values = none;
      returns = none;
      turn_index = some (pad (shift_left index minus_one) n minus_one);
      turn_reward = some (pad (shift_left rewards 0) n 0);
      routing_handles_per_path = elim t.routing_handles [
        | [] ↦ none
        | h ∷ hs ↦ some ((h ∷ hs) ∷ [])
      ];
      trajectory_id = minus_one;
    }

-- `not bool(loss_mask[0])`, for a mask that is not empty.
abbrev pub starts_unmasked : List Bool → Bool
starts_unmasked [] = false
starts_unmasked (b ∷ bs) = not b

unfoldable pub to_sample : TokenTrace → ℕ → ℕ → Result Sample
unfolding finish_sample token_ids token_logprobs loss_mask turn_index
to_sample t max_length pad_token_id = do
  let ids = token_ids t.token_infos
  logprobs ← token_logprobs t.token_infos
  let mask = loss_mask t.token_infos
  let index = turn_index 0 t.token_infos
  assert (ltb 0 (length ids))
  assert (length ids == length logprobs)
  assert (length ids == length mask)
  assert (length ids == length index)
  assert (starts_unmasked mask)
  assert (leb (length ids) max_length)
  ok (finish_sample t max_length pad_token_id ids logprobs mask index (map (reward_at t) index))

-- `self.token_infos[-1]`
unfoldable pub last_chunk : List TokenInfo → Option TokenInfo
last_chunk [] = none
last_chunk (c ∷ []) = some c
last_chunk (c ∷ d ∷ cs) = last_chunk (d ∷ cs)

unfoldable pub to_last_turn_sample : TokenTrace → ℕ → ℕ → Result Sample
unfolding last_chunk finish_sample token_ids token_logprobs
to_last_turn_sample t max_length pad_token_id = elim (last_chunk t.token_infos) [
  | none ↦ err Error.assertion_error
  | some last ↦ do
    assert (is_assistant last.token_type)
    let ids = token_ids t.token_infos
    logprobs ← token_logprobs t.token_infos
    assert (ltb 0 (length ids))
    assert (length logprobs == length ids)
    assert (leb (length ids) max_length)
    let n = length last.tokens
    let last_start = length ids - n
    let mask = replicate last_start false ++ replicate n true
    assert (starts_unmasked mask)
    ok (
        finish_sample t max_length pad_token_id ids logprobs mask
          (replicate last_start minus_one ++ replicate n (pos 0))
          (replicate last_start 0 ++ replicate n (reward_of t 0)))
]
