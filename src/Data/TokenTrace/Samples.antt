-- ===== src/Data/TokenTrace/Samples.antt =====
-- token_trace.py: the samples that `to_sample` and `to_last_turn_sample` build.
use native.Mathlib.Numerals.{add-one}
use axrl.Prelude.{
  ℕ, zero, suc, ◌+◌, ◌-◌, ◌≤◌, ◌<◌, ◌≡◌, refl, ap, sym, ◌∙◌, Bool, true, false, Option, none, some,
  List, [], ◌∷◌, ◌++◌, map, ok, >>=-eq-ok, assert-eq-ok, ok-eq, length, drop, replicate, get_elem?,
  arith, append_assoc, length-append, length-replicate, length-map, length-drop, ltb, leb, ◌==◌,
}
use axrl.Data.Sample.{ℤ, pos, Float, ignore_index, minus_one, Sample}
use axrl.Data.TokenTrace.{
  TokenTrace, token_ids, token_count, token_logprobs, loss_mask, turn_index, reward_at, shift_left,
  pad, arange, finish_sample, starts_unmasked, to_sample,
}
use axrl.Data.TokenTrace.Views.{
  length-token_ids, length-loss_mask, length-turn_index, IsWellFormed, all_logprobs,
  token_logprobs-total, length-all_logprobs,
}

-- Shifted left by one and padded on the right: the tail, and then padding up to the end.
pad-shift_left {ℓ} :
    {A : Type ℓ} (vs : List A) (n : ℕ) (p : A)
    → 0 < length vs
    → pad (shift_left vs p) n p ≡ drop 1 vs ++ replicate (n + 1) p
unfolding shift_left
pad-shift_left [] n p h = absurd (omega arith)
pad-shift_left (v ∷ vs) n p h = rw add-one (append_assoc vs (p ∷ []) (replicate n p))

length-pad-shift {ℓ} :
    {A : Type ℓ} (vs : List A) (m n : ℕ) (p : A)
    → length vs ≡ n
    → 0 < n
    → n ≤ m
    → length (pad (shift_left vs p) (m - n) p) ≡ m
length-pad-shift vs m n p e h l = rw (pad-shift_left vs (m - n) p (omega arith)) (
    omega (
      arith,
      length-append (drop 1 vs) (replicate (m - n + 1) p),
      length-drop 1 vs,
      length-replicate (m - n + 1) p,
    ))

length-arange : (s n : ℕ) → length (arange s n) ≡ n
unfolding arange
length-arange s zero = refl
length-arange s (suc n) = ap suc (length-arange (s + 1) n)

abbrev OptionalLength : {A : Type 0} → Option (List A) → ℕ → Type 0
OptionalLength none m = Unit
OptionalLength (some l) m = length l ≡ m

-- Every array of the sample has length `m`.
pub record IsShaped (s : Sample) (m : ℕ) : Type 0 where
  pub input_ids : length s.input_ids ≡ m
  pub labels : length s.labels ≡ m
  pub loss_mask : length s.loss_mask ≡ m
  pub attention_mask : length s.attention_mask ≡ m
  pub position_ids : length s.position_ids ≡ m
  pub advantage : length s.advantage ≡ m
  pub rollout_logprobs : OptionalLength s.rollout_logprobs m
  pub turn_index : OptionalLength s.turn_index m
  pub turn_reward : OptionalLength s.turn_reward m

-- What a sample says of the tokens `ids` with the mask `mask`: position `t` predicts token `t + 1`.
pub record IsAligned (s : Sample) (m : ℕ) (ids : List ℕ) (mask : List Bool) : Type 0 where
  pub shaped : IsShaped s m
  pub fits : length ids ≤ m
  pub tokens : (pad_id : ℕ) × (s.input_ids ≡ ids ++ replicate (m - length ids) pad_id)
  pub labels : s.labels ≡ map pos (drop 1 ids) ++ replicate (m - length ids + 1) ignore_index
  pub loss_mask : s.loss_mask ≡ drop 1 mask ++ replicate (m - length ids + 1) false
  pub attention_mask :
      s.attention_mask ≡ replicate (length ids) true ++ replicate (m - length ids) false

module _ (t : TokenTrace) (m p : ℕ) (ids : List ℕ) (logprobs : List Float) (mask : List Bool)
    (index : List ℤ) (rewards : List Float) (pos_len : 0 < length ids) (fits : length ids ≤ m)
    (e1 : length logprobs ≡ length ids) (e2 : length mask ≡ length ids)
    (e3 : length index ≡ length ids) (e4 : length rewards ≡ length ids) where
  finish_sample-IsAligned :
      IsAligned (finish_sample t m p ids logprobs mask index rewards) m ids mask
  unfolding finish_sample
  finish_sample-IsAligned = record {
    shaped = record {
      input_ids = omega (arith, length-append ids (replicate n p), length-replicate n p);
      labels =
          length-pad-shift (map pos ids) m (length ids) ignore_index (length-map ids pos) pos_len
            fits;
      loss_mask = length-pad-shift mask m (length ids) false e2 pos_len fits;
      attention_mask = omega (
        arith,
        length-append (replicate (length ids) true) (replicate n false),
        length-replicate (length ids) true,
        length-replicate n false,
      );
      position_ids = length-arange 0 m;
      advantage = length-replicate {A = Float} m 0;
      rollout_logprobs = length-pad-shift logprobs m (length ids) 0 e1 pos_len fits;
      turn_index = length-pad-shift index m (length ids) minus_one e3 pos_len fits;
      turn_reward = length-pad-shift rewards m (length ids) 0 e4 pos_len fits;
    };
    fits = fits;
    tokens = (p, refl);
    labels =
        pad-shift_left (map pos ids) n ignore_index (omega (arith, length-map ids pos))
        ∙ ap (λ l. l ++ replicate (n + 1) ignore_index) (drop-map ids);
    loss_mask = pad-shift_left mask n false (omega arith);
    attention_mask = refl;
  }
    where
      n : ℕ
      n = m - length ids

      drop-map : (l : List ℕ) → drop 1 (map pos l) ≡ map pos (drop 1 l)
      drop-map [] = refl
      drop-map (x ∷ l) = refl

module _ (t : TokenTrace) (m p : ℕ) where
  abbrev ids : List ℕ
  ids = token_ids t.token_infos

  abbrev mask : List Bool
  mask = loss_mask t.token_infos

  abbrev index : List ℤ
  index = turn_index 0 t.token_infos

  -- The checks that a call of `to_sample` has passed, and its result.
  to_sample_steps :
      {s : Sample}
      → to_sample t m p ≡ ok s
      → (logprobs : List Float) × (token_logprobs t.token_infos ≡ ok logprobs)
        × (0 < length ids)
        × (length logprobs ≡ length ids)
        × (length ids ≤ m)
        × (starts_unmasked mask ≡ true)
        × (finish_sample t m p ids logprobs mask index (map (reward_at t) index) ≡ s)
  unfolding to_sample
  to_sample_steps h =
      let (lp, e, h0) = >>=-eq-ok (token_logprobs t.token_infos) _ h in
      let (a1, h1) = assert-eq-ok (ltb 0 (length ids)) _ h0 in
      let (a2, h2) = assert-eq-ok (length ids == length lp) _ h1 in
      let (a3, h3) = assert-eq-ok (length ids == length mask) _ h2 in
      let (a4, h4) = assert-eq-ok (length ids == length index) _ h3 in
      let (a5, h5) = assert-eq-ok (starts_unmasked mask) _ h4 in
      let (a6, h6) = assert-eq-ok (leb (length ids) m) _ h5 in
      (lp, e, ground arith, ground arith, ground arith, a5, ok-eq h6)

  -- A sample that `to_sample` returns has all its arrays of length `max_length`, and position `t`
  -- of it predicts token `t + 1`: its label, and its loss mask, which is set exactly where that
  -- token is in an assistant chunk. The padding is masked out.
  pub to_sample-IsAligned :
      {s : Sample}
      → to_sample t m p ≡ ok s
      → IsAligned s m (token_ids t.token_infos) (loss_mask t.token_infos)
  to_sample-IsAligned h =
      let (lp, _, a1, a2, a3, _, e) = to_sample_steps h in
      let li = length-turn_index 0 t.token_infos in
      let lt = length-token_ids t.token_infos in
      rw (← e) (
        finish_sample-IsAligned t m p ids lp mask index (map (reward_at t) index) a1 a3 a2
          (omega (arith, length-loss_mask t.token_infos, lt)) (omega (arith, li, lt))
          (omega (arith, length-map index (reward_at t), li, lt)))

get_elem?-drop_one {ℓ} :
    {A : Type ℓ} (xs : List A) (i : ℕ) → get_elem? (drop 1 xs) i ≡ get_elem? xs (i + 1)
get_elem?-drop_one [] i = refl
get_elem?-drop_one (x ∷ xs) i = rw add-one

masked_label :
    (ids : List ℕ) (mask : List Bool) (n k i : ℕ)
    → length mask ≡ length ids
    → get_elem? (mask ++ replicate n false) i ≡ some true
    → (token : ℕ) × (get_elem? ids i ≡ some token)
      × (get_elem? (map pos ids ++ replicate k ignore_index) i ≡ some (pos token))
masked_label [] [] zero k i e h = cc
masked_label [] [] (suc n) k zero e h = cc
masked_label [] [] (suc n) k (suc i) e h = absurd (no_true n i h)
  where
    no_true : (n i : ℕ) → get_elem? (replicate n false) i ≡ some true → ⊥
    no_true zero i h = cc
    no_true (suc n) zero h = cc
    no_true (suc n) (suc i) h = no_true n i h
masked_label [] (b ∷ mask) n k i e h = absurd (omega arith)
masked_label (x ∷ ids) [] n k i e h = absurd (omega arith)
masked_label (x ∷ ids) (b ∷ mask) n k zero e h = (x, refl, refl)
masked_label (x ∷ ids) (b ∷ mask) n k (suc i) e h = masked_label ids mask n k i (omega arith) h

-- In an aligned sample a position that bears loss has a token of the trace for its label.
IsAligned-labels :
    (s : Sample) (m : ℕ) (ids : List ℕ) (mask : List Bool) (i : ℕ)
    → IsAligned s m ids mask
    → length mask ≡ length ids
    → get_elem? s.loss_mask i ≡ some true
    → (token : ℕ) × (get_elem? ids (i + 1) ≡ some token) × (get_elem? s.labels i ≡ some (pos token))
IsAligned-labels s m ids mask i a e h =
    let (token, e1, e2) =
      masked_label (drop 1 ids) (drop 1 mask) (m - length ids + 1) (m - length ids + 1) i
        (omega (arith, length-drop 1 mask, length-drop 1 ids))
        (ap (λ l. get_elem? l i) (sym a.loss_mask) ∙ h) in
    (token, sym (get_elem?-drop_one ids i) ∙ e1, ap (λ l. get_elem? l i) a.labels ∙ e2)

-- In a sample that `to_sample` returns, each position that bears loss is labelled with the token
-- that follows it in the trace, never with the ignored label.
pub to_sample-labels :
    (t : TokenTrace) (m p i : ℕ) (s : Sample)
    → to_sample t m p ≡ ok s
    → get_elem? s.loss_mask i ≡ some true
    → (token : ℕ) × (get_elem? (token_ids t.token_infos) (i + 1) ≡ some token)
      × (get_elem? s.labels i ≡ some (pos token))
to_sample-labels t m p i s e h =
    IsAligned-labels s m (token_ids t.token_infos) (loss_mask t.token_infos) i
      (to_sample-IsAligned t m p e)
      (length-loss_mask t.token_infos ∙ sym (length-token_ids t.token_infos)) h

-- `to_sample` returns whenever the trace is well formed, starts outside an assistant chunk and
-- fits.
pub to_sample-total :
    (t : TokenTrace) (m p : ℕ)
    → IsWellFormed t
    → starts_unmasked (loss_mask t.token_infos) ≡ true
    → token_count t.token_infos ≤ m
    → (s : Sample) × (to_sample t m p ≡ ok s)
unfolding to_sample
to_sample-total t m p w u fits = (
  finish_sample t m p (token_ids t.token_infos) (all_logprobs t.token_infos)
      (loss_mask t.token_infos) (turn_index 0 t.token_infos)
      (map (reward_at t) (turn_index 0 t.token_infos)),
  rw (token_logprobs-total t.token_infos w.logprobs, enough, full, masked, indexed, u, room) refl,
)
  where
    li : length (token_ids t.token_infos) ≡ token_count t.token_infos
    li = length-token_ids t.token_infos

    lm : length (loss_mask t.token_infos) ≡ token_count t.token_infos
    lm = length-loss_mask t.token_infos

    some_masked : (l : List Bool) → starts_unmasked l ≡ true → 0 < length l
    some_masked [] h = cc
    some_masked (b ∷ l) h = omega arith

    enough : ltb 0 (length (token_ids t.token_infos)) ≡ true
    enough = ground (arith, li, lm, some_masked (loss_mask t.token_infos) u)

    full : (length (token_ids t.token_infos) == length (all_logprobs t.token_infos)) ≡ true
    full = ground (arith, li, length-all_logprobs t.token_infos w.logprobs)

    masked : (length (token_ids t.token_infos) == length (loss_mask t.token_infos)) ≡ true
    masked = ground (arith, li, lm)

    indexed : (length (token_ids t.token_infos) == length (turn_index 0 t.token_infos)) ≡ true
    indexed = ground (arith, li, length-turn_index 0 t.token_infos)

    room : leb (length (token_ids t.token_infos)) m ≡ true
    room = ground (arith, li)
