-- ===== src/Data/TokenTrace/Handles.antt =====
-- token_trace.py: the routing handles after `extend_tokens`.
use axrl.Prelude.{
  ℕ, ◌≡◌, refl, Option, none, some, List, [], ◌∷◌, ◌++◌, ok, length, ok-eq, assert-eq-ok, >>=-eq-ok,
  ap, sym, append-nil,
}
use axrl.Data.Sample.{Float, TensorHandle}
use axrl.Data.TokenTrace.{
  TokenInfoType, TokenTrace, is_assistant, record_handle, rows_for, extend_tokens,
}
use axrl.Data.TokenTrace.Views.{extend_steps, chunk}

-- Without a handle the routing handles stay.
pub extend_tokens-none :
    (t : TokenTrace) (tokens : List ℕ) (logprobs : Option (List Float)) (ty : TokenInfoType)
    (rows : Option ℕ) {t' : TokenTrace}
    → extend_tokens t tokens logprobs ty none rows ≡ ok t'
    → (t'.routing_handles ≡ t.routing_handles)
      × (t'.routing_row_count_per_handle ≡ t.routing_row_count_per_handle)
unfolding record_handle
extend_tokens-none t tokens logprobs ty rows h =
    let (t1, _, _, r, e) = extend_steps t tokens logprobs ty none rows h in
    let same : t ≡ t1 = ok-eq r in rw (← e) (rw (← same) (refl, refl))

-- With a handle and its number of rows both are appended.
pub extend_tokens-some :
    (t : TokenTrace) (tokens : List ℕ) (logprobs : Option (List Float)) (ty : TokenInfoType)
    (handle : TensorHandle) (n : ℕ) {t' : TokenTrace}
    → extend_tokens t tokens logprobs ty (some handle) (some n) ≡ ok t'
    → (t'.routing_handles ≡ t.routing_handles ++ handle ∷ [])
      × (t'.routing_row_count_per_handle ≡ t.routing_row_count_per_handle ++ n ∷ [])
unfolding record_handle rows_for
extend_tokens-some t tokens logprobs ty handle n h =
    let (t1, _, _, r, e) = extend_steps t tokens logprobs ty (some handle) (some n) h in
    let (_, r1) = assert-eq-ok (is_assistant ty) _ r in
    let same : record t {
      routing_handles = t.routing_handles ++ handle ∷ [];
      token_info_index_per_handle = t.token_info_index_per_handle ++ length t.token_infos ∷ [];
      routing_row_count_per_handle = t.routing_row_count_per_handle ++ n ∷ [];
    }
        ≡ t1 =
      ok-eq r1 in
    rw (← e) (rw (← same) (refl, refl))

abbrev pub one_handle : Option TensorHandle → List TensorHandle
one_handle none = []
one_handle (some handle) = handle ∷ []

record_handle-eq :
    (t : TokenTrace) (n : ℕ) (ty : TokenInfoType) (handle : Option TensorHandle) (rows : Option ℕ)
    {t' : TokenTrace}
    → record_handle t n ty handle rows ≡ ok t'
    → (t'.token_infos ≡ t.token_infos)
      × (t'.routing_handles ≡ t.routing_handles ++ one_handle handle)
      × (t'.turn_rewards ≡ t.turn_rewards)
unfolding record_handle
record_handle-eq t n ty none rows h =
    let same : t ≡ _ = ok-eq h in rw (← same) (refl, sym (append-nil t.routing_handles), refl)
record_handle-eq t n ty (some handle) rows h =
    let (_, h1) = assert-eq-ok (is_assistant ty) _ h in
    let (k, _, h2) = >>=-eq-ok (rows_for t n rows) _ h1 in
    let same = ok-eq h2 in
    (
      ap (λ t. t.token_infos) (sym same),
      ap (λ t. t.routing_handles) (sym same),
      ap (λ t. t.turn_rewards) (sym same),
    )

-- What a call with logprobs appends.
pub extend_tokens-chunk :
    (t : TokenTrace) (tokens : List ℕ) (logprobs : List Float) (ty : TokenInfoType)
    (handle : Option TensorHandle) (rows : Option ℕ) {t' : TokenTrace}
    → extend_tokens t tokens (some logprobs) ty handle rows ≡ ok t'
    → (t'.token_infos ≡ t.token_infos ++ chunk tokens ty logprobs ∷ [])
      × (t'.routing_handles ≡ t.routing_handles ++ one_handle handle)
      × (t'.turn_rewards ≡ t.turn_rewards)
extend_tokens-chunk t tokens logprobs ty handle rows h =
    let (t1, _, _, r, e) = extend_steps t tokens (some logprobs) ty handle rows h in
    let (i, hs, w) = record_handle-eq t (length tokens) ty handle rows r in
    rw (← e) (ap (λ l. l ++ chunk tokens ty logprobs ∷ []) i, hs, w)
