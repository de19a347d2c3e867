-- ===== src/Data/TokenTrace/OneTurn.antt =====
-- token_trace.py: `to_sample` and `to_last_turn_sample` on a trace with one assistant turn.
use axrl.Prelude.{
  ℕ, zero, suc, ◌+◌, ◌-◌, ◌≡◌, refl, ap, sym, ◌∙◌, Bool, true, false, some, List, [], ◌∷◌, ◌++◌,
  map, Result, assert, ◌>>◌, length, replicate, All, map-append, arith, append-nil, append_assoc,
  ltb, leb, ◌==◌,
}
use axrl.Data.Sample.{pos, minus_one, Sample}
use axrl.Data.TokenTrace.{
  TokenInfo, TokenTrace, is_assistant, token_ids, token_count, loss_mask, turn_index, reward_at,
  reward_of, starts_unmasked, to_sample, last_chunk, to_last_turn_sample,
}
use axrl.Data.TokenTrace.Views.{
  length-token_ids, length-loss_mask, length-turn_index, HasLogprobs, all_logprobs,
  token_logprobs-total, length-all_logprobs, loss_mask-append, token_count-append,
}

abbrev NoAssistant : List TokenInfo → Type 0
NoAssistant = All (λ c. is_assistant c.token_type ≡ false)

replicate-append {ℓ} :
    {A : Type ℓ} (m n k : ℕ) (a : A) → m + n ≡ k → replicate m a ++ replicate n a ≡ replicate k a
replicate-append zero n k a e = let e' : n ≡ k = omega arith in rw e'
replicate-append (suc m) n zero a e = absurd (omega arith)
replicate-append (suc m) n (suc k) a e = ap (◌∷◌ a) (replicate-append m n k a (omega arith))

-- Without an assistant chunk nothing is masked in, and no turn is numbered.
loss_mask-NoAssistant :
    (cs : List TokenInfo) → NoAssistant cs → loss_mask cs ≡ replicate (token_count cs) false
unfolding loss_mask token_count
loss_mask-NoAssistant [] h = refl
loss_mask-NoAssistant (c ∷ cs) h =
    rw (h.0, loss_mask-NoAssistant cs h.1)
      (replicate-append (length c.tokens) (token_count cs) _ false refl)

turn_index-NoAssistant :
    (n : ℕ) (cs : List TokenInfo)
    → NoAssistant cs
    → turn_index n cs ≡ replicate (token_count cs) minus_one
unfolding turn_index token_count
turn_index-NoAssistant n [] h = refl
turn_index-NoAssistant n (c ∷ cs) h = rw h.0 (
    rw (turn_index-NoAssistant n cs h.1)
      (replicate-append (length c.tokens) (token_count cs) _ minus_one refl))

turn_index-append :
    (n : ℕ) (cs : List TokenInfo) (last : TokenInfo)
    → NoAssistant cs
    → is_assistant last.token_type ≡ true
    → turn_index n (cs ++ last ∷ [])
      ≡ replicate (token_count cs) minus_one ++ replicate (length last.tokens) (pos n)
unfolding turn_index token_count
turn_index-append n [] last h e = rw e (append-nil _)
turn_index-append n (c ∷ cs) last h e = rw h.0 (
    ap (λ l. replicate (length c.tokens) minus_one ++ l) (turn_index-append n cs last h.1 e)
    ∙ sym (
        append_assoc (replicate (length c.tokens) minus_one) (replicate (token_count cs) minus_one)
          _)
    ∙ ap (λ l. l ++ replicate (length last.tokens) (pos n))
        (replicate-append (length c.tokens) (token_count cs) _ minus_one refl))

last_chunk-append :
    (cs : List TokenInfo) (last : TokenInfo) → last_chunk (cs ++ last ∷ []) ≡ some last
unfolding last_chunk
last_chunk-append [] last = refl
last_chunk-append (c ∷ []) last = refl
last_chunk-append (c ∷ d ∷ cs) last = last_chunk-append (d ∷ cs) last

map-replicate {ℓ κ} :
    {A : Type ℓ} {B : Type κ} (f : A → B) (n : ℕ) (a : A)
    → map f (replicate n a) ≡ replicate n (f a)
map-replicate f zero a = refl
map-replicate f (suc n) a = ap (◌∷◌ (f a)) (map-replicate f n a)

assert_comm {ℓ} :
    {A : Type ℓ} (a b : Bool) (k : Result A)
    → (assert a >> (assert b >> k)) ≡ (assert b >> (assert a >> k))
assert_comm true b k = refl
assert_comm false true k = refl
assert_comm false false k = refl

module _ (t : TokenTrace) (before : List TokenInfo) (last : TokenInfo)
    (none_before : NoAssistant before) (is_last : is_assistant last.token_type ≡ true)
    (infos : t.token_infos ≡ before ++ last ∷ []) where
  one_turn_count : token_count t.token_infos ≡ token_count before + length last.tokens
  one_turn_count = rw infos (omega (arith, token_count-append before (last ∷ []), one))
    where
      one : token_count (last ∷ []) ≡ length last.tokens
      one = unfold token_count in omega arith

  last_chunk-infos : last_chunk t.token_infos ≡ some last
  last_chunk-infos = rw infos (last_chunk-append before last)

  one_turn_mask :
      loss_mask t.token_infos
      ≡ replicate (token_count before) false ++ replicate (length last.tokens) true
  one_turn_mask = rw infos (
      loss_mask-append before (last ∷ [])
      ∙ (rw (loss_mask-NoAssistant before none_before)
          (ap (λ l. replicate (token_count before) false ++ l) one)))
    where
      one : loss_mask (last ∷ []) ≡ replicate (length last.tokens) true
      one = unfold loss_mask in rw is_last (append-nil _)

  one_turn_index :
      turn_index 0 t.token_infos
      ≡ replicate (token_count before) minus_one ++ replicate (length last.tokens) (pos 0)
  one_turn_index = rw infos (turn_index-append 0 before last none_before is_last)

  one_turn_rewards :
      map
        (reward_at t)
        (replicate (token_count before) minus_one ++ replicate (length last.tokens) (pos 0))
      ≡ replicate (token_count before) 0 ++ replicate (length last.tokens) (reward_of t 0)
  one_turn_rewards =
      map-append (reward_at t) (replicate (token_count before) minus_one) _
      ∙ (rw (map-replicate (reward_at t) (token_count before) minus_one) (
          ap (λ l. replicate (token_count before) 0 ++ l)
            (map-replicate (reward_at t) (length last.tokens) (pos 0))))

  -- For a trace whose only assistant chunk is its last one, `to_last_turn_sample` and `to_sample`
  -- give the same sample, or an assertion fails in both, which need not be the same one. The chunks
  -- have a logprob for each token, or none at all.
  pub to_last_turn_sample-eq-to_sample :
      (m p : ℕ) → All HasLogprobs t.token_infos → to_last_turn_sample t m p ≡ to_sample t m p
  unfolding to_last_turn_sample to_sample
  to_last_turn_sample-eq-to_sample m p w =
      rw (last_chunk-infos, to_last_turn_sample)
        (rw (is_last, token_logprobs-total t.token_infos w, full, full', masked, indexed)
          (rw (start, one_turn_mask, one_turn_index, one_turn_rewards)
            (ap (λ (r : Result Sample). assert (ltb 0 (length (token_ids t.token_infos))) >> r)
              (assert_comm (leb (length (token_ids t.token_infos)) m)
                (starts_unmasked
                  (replicate (token_count before) false ++ replicate (length last.tokens) true))
                _))))
    where
      li : length (token_ids t.token_infos) ≡ token_count t.token_infos
      li = length-token_ids t.token_infos

      start : length (token_ids t.token_infos) - length last.tokens ≡ token_count before
      start = omega (arith, li, one_turn_count)

      full : (length (all_logprobs t.token_infos) == length (token_ids t.token_infos)) ≡ true
      full = ground (arith, li, length-all_logprobs t.token_infos w)

      full' : (length (token_ids t.token_infos) == length (all_logprobs t.token_infos)) ≡ true
      full' = ground (arith, li, length-all_logprobs t.token_infos w)

      masked : (length (token_ids t.token_infos) == length (loss_mask t.token_infos)) ≡ true
      masked = ground (arith, li, length-loss_mask t.token_infos)

      indexed : (length (token_ids t.token_infos) == length (turn_index 0 t.token_infos)) ≡ true
      indexed = ground (arith, li, length-turn_index 0 t.token_infos)
