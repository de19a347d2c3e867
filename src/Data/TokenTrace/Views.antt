-- ===== src/Data/TokenTrace/Views.antt =====
-- token_trace.py: the flat views of a trace, and what `extend_tokens` does to them.
use axrl.Prelude.{
  ℕ, ◌+◌, ◌<◌, ◌≡◌, ◌⊎◌, inl, refl, ap, sym, ◌∙◌, Bool, true, false, not, Option, none, some, List,
  [], ◌∷◌, ◌++◌, ok, ◌>>=◌, >>=-eq-ok, assert-eq-ok, ok-eq, length, replicate, arith, All,
  All-append, All-map, append_assoc, append-nil, length-append, length-replicate, ltb, ◌==◌,
  if◌then◌else◌,
}
use axrl.Data.Sample.{pos, Float, minus_one, TensorHandle}
use axrl.Data.TokenTrace.{
  TokenInfoType, TokenInfo, TokenTrace, is_assistant, is_init, is_empty, token_ids, token_count,
  token_logprobs, loss_mask, turn_index, rows_for, record_handle, extend_tokens,
}

pub length-token_ids : (cs : List TokenInfo) → length (token_ids cs) ≡ token_count cs
unfolding token_ids token_count
length-token_ids [] = refl
length-token_ids (c ∷ cs) =
    omega (arith, length-append c.tokens (token_ids cs), length-token_ids cs)

pub length-loss_mask : (cs : List TokenInfo) → length (loss_mask cs) ≡ token_count cs
unfolding loss_mask token_count
length-loss_mask [] = refl
length-loss_mask (c ∷ cs) = omega (
  arith,
  length-append (replicate (length c.tokens) (is_assistant c.token_type)) (loss_mask cs),
  length-replicate (length c.tokens) (is_assistant c.token_type),
  length-loss_mask cs,
)

pub length-turn_index : (n : ℕ) (cs : List TokenInfo) → length (turn_index n cs) ≡ token_count cs
unfolding turn_index token_count
length-turn_index n [] = refl
length-turn_index n (c ∷ cs) =
    let v = if is_assistant c.token_type then pos n else minus_one in
    let m = if is_assistant c.token_type then n + 1 else n in
    omega (
      arith,
      length-append (replicate (length c.tokens) v) (turn_index m cs),
      length-replicate (length c.tokens) v,
      length-turn_index m cs,
    )

-- A chunk has a logprob for each token, or none at all.
abbrev pub HasLogprobs : TokenInfo → Type 0
HasLogprobs c = (length c.logprobs ≡ length c.tokens) ⊎ (length c.logprobs ≡ 0)

-- The logprobs of a chunk, zeros where it has none.
abbrev pub chunk_logprobs : TokenInfo → List Float
chunk_logprobs c = if ltb 0 (length c.logprobs) then c.logprobs else replicate (length c.tokens) 0

abbrev pub all_logprobs : List TokenInfo → List Float
all_logprobs [] = []
all_logprobs (c ∷ cs) = chunk_logprobs c ++ all_logprobs cs

length-chunk_logprobs :
    (c : TokenInfo) → HasLogprobs c → length (chunk_logprobs c) ≡ length c.tokens
length-chunk_logprobs c h = ground (arith, length-replicate {A = Float} (length c.tokens) 0)

pub token_logprobs-total :
    (cs : List TokenInfo) → All HasLogprobs cs → token_logprobs cs ≡ ok (all_logprobs cs)
unfolding token_logprobs
token_logprobs-total [] h = refl
token_logprobs-total (c ∷ cs) h = rw (token_logprobs-total cs h.1) (ground (arith, h.0))

pub length-all_logprobs :
    (cs : List TokenInfo) → All HasLogprobs cs → length (all_logprobs cs) ≡ token_count cs
unfolding token_count
length-all_logprobs [] h = refl
length-all_logprobs (c ∷ cs) h = omega (
  arith,
  length-append (chunk_logprobs c) (all_logprobs cs),
  length-chunk_logprobs c h.0,
  length-all_logprobs cs h.1,
)

pub token_ids-append :
    (cs ds : List TokenInfo) → token_ids (cs ++ ds) ≡ token_ids cs ++ token_ids ds
unfolding token_ids
token_ids-append [] ds = refl
token_ids-append (c ∷ cs) ds =
    ap (λ l. c.tokens ++ l) (token_ids-append cs ds)
    ∙ sym (append_assoc c.tokens (token_ids cs) (token_ids ds))

pub token_count-append :
    (cs ds : List TokenInfo) → token_count (cs ++ ds) ≡ token_count cs + token_count ds
unfolding token_count
token_count-append [] ds = omega arith
token_count-append (c ∷ cs) ds = omega (arith, token_count-append cs ds)

pub loss_mask-append :
    (cs ds : List TokenInfo) → loss_mask (cs ++ ds) ≡ loss_mask cs ++ loss_mask ds
unfolding loss_mask
loss_mask-append [] ds = refl
loss_mask-append (c ∷ cs) ds =
    ap (λ l. replicate (length c.tokens) (is_assistant c.token_type) ++ l) (loss_mask-append cs ds)
    ∙ sym (
        append_assoc (replicate (length c.tokens) (is_assistant c.token_type)) (loss_mask cs)
          (loss_mask ds))

-- Only the first chunk is of type `init`.
abbrev pub StartsWithInit : List TokenInfo → Type 0
StartsWithInit [] = Unit {0}
StartsWithInit (c ∷ cs) = (is_init c.token_type ≡ true) × All (λ d. is_init d.token_type ≡ false) cs

-- What every trace that is built by `extend_tokens` has.
pub record IsWellFormed (t : TokenTrace) : Type 0 where
  pub logprobs : All HasLogprobs t.token_infos
  pub starts : StartsWithInit t.token_infos
  pub indexed : length t.token_info_index_per_handle ≡ length t.routing_handles
  pub counted : length t.routing_row_count_per_handle ≡ length t.routing_handles
  pub in_range : All (λ i. i < length t.token_infos) t.token_info_index_per_handle

-- The chunk that a call of `extend_tokens` appends.
abbrev pub chunk : List ℕ → TokenInfoType → List Float → TokenInfo
chunk tokens token_type values = record {
  tokens = tokens;
  token_type = token_type;
  compacted_to_placeholder = false;
  logprobs = values;
}

-- What is known of a call of `extend_tokens` that returns.
pub record Extends (t : TokenTrace) (tokens : List ℕ) (token_type : TokenInfoType) (t' : TokenTrace)
    : Type 0 where
  pub values : List Float
  pub infos : t'.token_infos ≡ t.token_infos ++ chunk tokens token_type values ∷ []
  pub full : length values ≡ length tokens
  pub placed : is_init token_type ≡ is_empty t.token_infos
  pub rewards : t'.turn_rewards ≡ t.turn_rewards

-- What is known of a call of `record_handle` that returns.
record Records (t : TokenTrace) (ty : TokenInfoType) (handle : Option TensorHandle)
    (t' : TokenTrace) : Type 0 where
  infos : t'.token_infos ≡ t.token_infos
  rewards : t'.turn_rewards ≡ t.turn_rewards
  more_handles : List TensorHandle
  more_rows : List ℕ
  more_indices : List ℕ
  handles : t'.routing_handles ≡ t.routing_handles ++ more_handles
  row_counts : t'.routing_row_count_per_handle ≡ t.routing_row_count_per_handle ++ more_rows
  indices : t'.token_info_index_per_handle ≡ t.token_info_index_per_handle ++ more_indices
  same_rows : length more_rows ≡ length more_handles
  same_indices : length more_indices ≡ length more_handles
  last : All (λ i. i < length t.token_infos + 1) more_indices

record_handle-Records :
    (t : TokenTrace) (n : ℕ) (ty : TokenInfoType) (handle : Option TensorHandle) (rows : Option ℕ)
    {t' : TokenTrace}
    → record_handle t n ty handle rows ≡ ok t'
    → Records t ty handle t'
unfolding record_handle
record_handle-Records t n ty none rows {t' = t'} h =
    let e : t ≡ t' = ok-eq h in
    rw (← e) (record {
      infos = refl;
      rewards = refl;
      more_handles = [];
      more_rows = [];
      more_indices = [];
      handles = sym (append-nil t.routing_handles);
      row_counts = sym (append-nil t.routing_row_count_per_handle);
      indices = sym (append-nil t.token_info_index_per_handle);
      same_rows = refl;
      same_indices = refl;
      last = tt;
    })
record_handle-Records t n ty (some handle) rows {t' = t'} h =
    let (_, h1) = assert-eq-ok (is_assistant ty) (◌>>=◌ (rows_for t n rows) _) h in
    let (count, _, h2) =
      >>=-eq-ok (rows_for t n rows)
        (λ count. ok (record t {
          routing_handles = t.routing_handles ++ handle ∷ [];
          token_info_index_per_handle = t.token_info_index_per_handle ++ length t.token_infos ∷ [];
          routing_row_count_per_handle = t.routing_row_count_per_handle ++ count ∷ [];
        }))
        h1 in
    let e : record t {
      routing_handles = t.routing_handles ++ handle ∷ [];
      token_info_index_per_handle = t.token_info_index_per_handle ++ length t.token_infos ∷ [];
      routing_row_count_per_handle = t.routing_row_count_per_handle ++ count ∷ [];
    }
        ≡ t' =
      ok-eq h2 in
    rw (← e) (record {
      infos = refl;
      rewards = refl;
      more_handles = handle ∷ [];
      more_rows = count ∷ [];
      more_indices = length t.token_infos ∷ [];
      handles = refl;
      row_counts = refl;
      indices = refl;
      same_rows = refl;
      same_indices = refl;
      last = (omega arith, tt);
    })

StartsWithInit-append :
    (cs : List TokenInfo) (c : TokenInfo)
    → is_init c.token_type ≡ is_empty cs
    → StartsWithInit cs
    → StartsWithInit (cs ++ c ∷ [])
StartsWithInit-append [] c e h = (e, tt)
StartsWithInit-append (d ∷ cs) c e h =
    (h.0, All-append (λ d. is_init d.token_type ≡ false) cs (c ∷ []) h.1 (e, tt))

placed_eq : (a b : Bool) → (if a then b else not b) ≡ true → a ≡ b
placed_eq a b h = ground arith

module _ (t : TokenTrace) (tokens : List ℕ) (logprobs : Option (List Float)) (ty : TokenInfoType)
    (handle : Option TensorHandle) (rows : Option ℕ) {t' : TokenTrace}
    (h : extend_tokens t tokens logprobs ty handle rows ≡ ok t') where
  abbrev values : List Float
  values = elim logprobs [ none ↦ replicate (length tokens) 0 | some l ↦ l ]

  -- The four steps of a call that returns.
  pub extend_steps :
      (t1 : TokenTrace) × (length values ≡ length tokens)
      × (is_init ty ≡ is_empty t.token_infos)
      × (record_handle t (length tokens) ty handle rows ≡ ok t1)
      × (record t1 { token_infos = t1.token_infos ++ chunk tokens ty values ∷ [] } ≡ t')
  unfolding extend_tokens
  extend_steps =
      let (a1, h1) = assert-eq-ok (length values == length tokens) _ h in
      let (a2, h2) =
        assert-eq-ok (if is_init ty then is_empty t.token_infos else not (is_empty t.token_infos)) _
          h1 in
      let (t1, r, h3) = >>=-eq-ok (record_handle t (length tokens) ty handle rows) _ h2 in
      (t1, ground arith, placed_eq _ _ a2, r, ok-eq h3)

  pub extend_tokens-Extends : Extends t tokens ty t'
  extend_tokens-Extends =
      let (t1, a1, a2, r, e) = extend_steps in
      let s = record_handle-Records t (length tokens) ty handle rows r in
      rw (← e) (record {
        values = values;
        infos = ap (λ l. l ++ chunk tokens ty values ∷ []) s.infos;
        full = a1;
        placed = a2;
        rewards = s.rewards;
      })

  -- `extend_tokens` keeps a trace well formed.
  pub extend_tokens-IsWellFormed : IsWellFormed t → IsWellFormed t'
  extend_tokens-IsWellFormed w =
      let (t1, a1, a2, r, e) = extend_steps in
      let s = record_handle-Records t (length tokens) ty handle rows r in
      let grown : length (t1.token_infos ++ chunk tokens ty values ∷ [])
          ≡ length t.token_infos + 1 =
        rw s.infos (length-append t.token_infos (chunk tokens ty values ∷ [])) in
      rw (← e) (record {
        logprobs = rw s.infos (All-append HasLogprobs t.token_infos _ w.logprobs (inl a1, tt));
        starts = rw s.infos (StartsWithInit-append t.token_infos _ a2 w.starts);
        indexed =
            rw (s.indices, s.handles)
              (omega (
                arith,
                length-append t.token_info_index_per_handle s.more_indices,
                length-append t.routing_handles s.more_handles,
                s.same_indices,
                w.indexed,
              ));
        counted =
            rw (s.row_counts, s.handles)
              (omega (
                arith,
                length-append t.routing_row_count_per_handle s.more_rows,
                length-append t.routing_handles s.more_handles,
                s.same_rows,
                w.counted,
              ));
        in_range =
            rw (s.indices, grown)
              (All-append (λ i. i < length t.token_infos + 1) t.token_info_index_per_handle
                s.more_indices
                (All-map (λ i. i < length t.token_infos) _ t.token_info_index_per_handle
                  (λ i l. omega arith) w.in_range)
                s.last);
      })

  -- A call of `extend_tokens` that returns appends the new tokens to the flat views, and the mask
  -- of the new tokens is set exactly for an assistant chunk.
  pub extend_tokens-views :
      (token_ids t'.token_infos ≡ token_ids t.token_infos ++ tokens)
      × (token_count t'.token_infos ≡ token_count t.token_infos + length tokens)
      × (loss_mask t'.token_infos
          ≡ loss_mask t.token_infos ++ replicate (length tokens) (is_assistant ty))
  extend_tokens-views =
      let x = extend_tokens-Extends in
      rw x.infos (
        token_ids-append t.token_infos _
            ∙ ap (λ l. token_ids t.token_infos ++ l) (one_ids x.values),
        (omega (
          arith,
          token_count-append t.token_infos (chunk tokens ty x.values ∷ []),
          one_count x.values,
        )),
        loss_mask-append t.token_infos _
            ∙ ap (λ l. loss_mask t.token_infos ++ l) (one_mask x.values),
      )
    where
      one_ids : (v : List Float) → token_ids (chunk tokens ty v ∷ []) ≡ tokens
      one_ids v = unfold token_ids in append-nil tokens

      one_count : (v : List Float) → token_count (chunk tokens ty v ∷ []) ≡ length tokens
      one_count v = unfold token_count in omega arith

      one_mask :
          (v : List Float)
          → loss_mask (chunk tokens ty v ∷ []) ≡ replicate (length tokens) (is_assistant ty)
      one_mask v = unfold loss_mask in append-nil _
