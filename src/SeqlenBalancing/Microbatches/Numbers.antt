-- ===== src/SeqlenBalancing/Microbatches/Numbers.antt =====
-- seqlen_balancing.py: how many micro-batches a split makes.
use native.Mathlib.Nat.{mul-mod_left, suc-mul, div-add-mod', mod-lt, mul-le-mul_right, le_trans}
use axrl.Prelude.{
  ℕ, zero, suc, ◌+◌, ◌-◌, ◌*◌, ◌/◌, ◌%◌, ◌≤◌, ◌<◌, ◌≡◌, ap, sym, ◌∙◌, inl, inr, max, min, true,
  false, Option, none, some, List, [], ◌∷◌, ok, length, All, arith, leb, Bool-cases, ◌==◌,
  if◌then◌else◌, sum, >>=-eq-ok, ok-eq, assert, assert-eq-ok, All-map,
}
use axrl.Data.GlobalBatches.{maximum}
use axrl.SeqlenBalancing.Microbatches.{
  ceildiv, roundup_divisible, SplitArgs, roundup_to, at_least, needed, longest, num_micro_batches,
}

-- What a call that returns `n` went through.
pub num_micro_batches-inv :
    (all_reduce : ℕ → ℕ) (a : SplitArgs) (seq_lens : List ℕ) {n : ℕ}
    → num_micro_batches all_reduce a seq_lens ≡ ok n
    → (max_seq_len : ℕ) × (rounded : ℕ) × (longest a seq_lens ≡ ok max_seq_len)
      × (needed all_reduce a seq_lens (max a.max_token_len max_seq_len) ≡ ok rounded)
      × (roundup_to a.microbatch_group_size rounded ≡ ok n)
      × (n ≤ length seq_lens)
unfolding num_micro_batches
num_micro_batches-inv all_reduce a seq_lens h =
    let (m, e, h) = >>=-eq-ok (longest a seq_lens) _ h in
    let (u, c, h) = >>=-eq-ok (assert (if a.is_merged then true else leb m a.max_token_len)) _ h in
    let (r, f, h) = >>=-eq-ok (needed all_reduce a seq_lens (max a.max_token_len m)) _ h in
    let (n, g, h) = >>=-eq-ok (roundup_to a.microbatch_group_size r) _ h in
    let (le, h) = assert-eq-ok (leb n (length seq_lens)) (ok n) h in
    let same = ok-eq h in
    let le' : n ≤ length seq_lens = ground (arith, le) in
    (m, r, e, f, g ∙ ap ok same, omega (arith, same, le'))

ceildiv-le : (s e : ℕ) → 0 < e → s ≤ ceildiv s e * e
ceildiv-le s e h =
    let d = div-add-mod' (s + e - 1) e in let m = mod-lt (s + e - 1) h in omega (arith, d, m, h)

round_up : (n k : ℕ) → (n ≤ roundup_divisible n (suc k)) × (roundup_divisible n (suc k) % suc k ≡ 0)
unfolding roundup_divisible
round_up n k = (ceildiv-le n (suc k) (omega arith), mul-mod_left ((n + suc k - 1) / suc k) (suc k))

-- Rounding up does not make less of a number.
roundup_to-le : (size : Option ℕ) (n : ℕ) {m : ℕ} → roundup_to size n ≡ ok m → n ≤ m
unfolding roundup_to
roundup_to-le none n h = omega (arith, ok-eq h)
roundup_to-le (some zero) n h = cc
roundup_to-le (some (suc k)) n h = omega (arith, ok-eq h, (round_up n k).0)

abbrev pub Divides : Option ℕ → ℕ → Type 0
Divides none n = Unit
Divides (some size) n = n % size ≡ 0

roundup_to-Divides : (size : Option ℕ) (n : ℕ) {m : ℕ} → roundup_to size n ≡ ok m → Divides size m
unfolding roundup_to
roundup_to-Divides none n h = tt
roundup_to-Divides (some zero) n h = cc
roundup_to-Divides (some (suc k)) n h = ap (λ m. m % suc k) (sym (ok-eq h)) ∙ (round_up n k).1

at_least-le : (least : Option ℕ) (n : ℕ) → n ≤ at_least least n
unfolding at_least
at_least-le none n = omega arith
at_least-le (some least) n = omega arith

at_least_mono : (least : Option ℕ) (n : ℕ) → at_least least 0 ≤ at_least least n
unfolding at_least
at_least_mono none n = omega arith
at_least_mono (some least) n = omega arith

-- As many micro-batches as rows, or as the tokens fill, are enough for the tokens.
sum-le :
    (seq_lens : List ℕ) (m : ℕ) → All (λ l. l ≤ m) seq_lens → sum seq_lens ≤ length seq_lens * m
sum-le [] m h = omega arith
sum-le (l ∷ ls) m h = omega (arith, h.0, sum-le ls m h.1, suc-mul (length ls) m)

-- The most tokens of a micro-batch on average.
abbrev pub room : SplitArgs → List ℕ → ℕ
room a seq_lens = max a.max_token_len (if a.is_merged then maximum seq_lens else a.max_seq_len)

fewest-fill :
    (seq_lens : List ℕ) (e : ℕ)
    → 0 < e
    → All (λ l. l ≤ e) seq_lens
    → sum seq_lens ≤ min (length seq_lens) (ceildiv (sum seq_lens) e) * e
fewest-fill seq_lens e h lens =
    elim (Bool-cases (leb (length seq_lens) (ceildiv (sum seq_lens) e))) [
      | inl le ↦
          le_trans (sum-le seq_lens e lens)
            (mul-le-mul_right e (min_left (length seq_lens) (ceildiv (sum seq_lens) e) le))
      | inr gt ↦
          le_trans (ceildiv-le (sum seq_lens) e h)
            (mul-le-mul_right e (min_right (length seq_lens) (ceildiv (sum seq_lens) e) gt))
    ]
  where
    min_left : (a b : ℕ) → leb a b ≡ true → a ≤ min a b
    min_left a b e = ground (arith, e)

    min_right : (a b : ℕ) → leb a b ≡ false → b ≤ min a b
    min_right a b e = ground (arith, e)

needed-le :
    (all_reduce : ℕ → ℕ) (a : SplitArgs) (seq_lens : List ℕ) (e : ℕ) {n : ℕ}
    → ((m : ℕ) → m ≤ all_reduce m)
    → All (λ l. l ≤ e) seq_lens
    → needed all_reduce a seq_lens e ≡ ok n
    → (at_least a.min_num_micro_batch 0 ≤ n) × (sum seq_lens ≤ n * e)
unfolding needed
needed-le all_reduce a seq_lens zero grows lens h = cc
needed-le all_reduce a seq_lens (suc e) {n = n} grows lens h =
    let fewest = min (length seq_lens) (ceildiv (sum seq_lens) (suc e)) in
    let z : (suc e == 0) ≡ false = ground arith in
    let h' : roundup_to a.vpp_size (all_reduce (at_least a.min_num_micro_batch fewest)) ≡ ok n =
      rw z at h in
    let r = roundup_to-le a.vpp_size (all_reduce (at_least a.min_num_micro_batch fewest)) h' in
    let g = grows (at_least a.min_num_micro_batch fewest) in
    let least = at_least-le a.min_num_micro_batch fewest in
    (
      omega (arith, r, g, at_least_mono a.min_num_micro_batch fewest),
      le_trans (fewest-fill seq_lens (suc e) (omega arith) lens)
          (mul-le-mul_right (suc e) (omega (arith, r, g, least))),
    )

maximum-le : (seq_lens : List ℕ) → All (λ l. l ≤ maximum seq_lens) seq_lens
maximum-le [] = tt
maximum-le (l ∷ ls) = (
  omega arith,
  All-map (λ m. m ≤ maximum ls) (λ m. m ≤ max l (maximum ls)) ls (λ m h. omega arith)
      (maximum-le ls),
)

longest-eq :
    (a : SplitArgs) (seq_lens : List ℕ) {m : ℕ}
    → longest a seq_lens ≡ ok m
    → m ≡ (if a.is_merged then maximum seq_lens else a.max_seq_len)
unfolding longest
longest-eq a [] h = ground arith
longest-eq a (l ∷ ls) h = ground arith

-- A split that goes through makes at most one micro-batch for a row, at least the number asked for,
-- a multiple of the group size, and enough that on average none has more tokens than `room`: the
-- greater of `max_token_len` and the longest row (the mask's width, where the batch is not merged).
-- `all_reduce` gives at least this rank's number, and a mask's sum is at most its width.
pub num_micro_batches-bounds :
    (all_reduce : ℕ → ℕ) (a : SplitArgs) (seq_lens : List ℕ) (n : ℕ)
    → ((m : ℕ) → m ≤ all_reduce m)
    → (a.is_merged ≡ false → All (λ l. l ≤ a.max_seq_len) seq_lens)
    → num_micro_batches all_reduce a seq_lens ≡ ok n
    → (n ≤ length seq_lens)
      × (at_least a.min_num_micro_batch 0 ≤ n)
      × Divides a.microbatch_group_size n
      × (sum seq_lens ≤ n * room a seq_lens)
num_micro_batches-bounds all_reduce a seq_lens n grows widths h =
    let (m, r, e, f, g, le) = num_micro_batches-inv all_reduce a seq_lens h in
    let same = longest-eq a seq_lens e in
    let lens : All (λ l. l ≤ room a seq_lens) seq_lens = elim (Bool-cases a.is_merged) [
      | inl y ↦ rw y (
          All-map (λ l. l ≤ maximum seq_lens) (λ l. l ≤ max a.max_token_len (maximum seq_lens))
            seq_lens (λ l h. omega (arith, h)) (maximum-le seq_lens))
      | inr y ↦ rw y (
          All-map (λ l. l ≤ a.max_seq_len) (λ l. l ≤ max a.max_token_len a.max_seq_len) seq_lens
            (λ l h. omega (arith, h)) (widths y))
    ] in
    let f' : needed all_reduce a seq_lens (room a seq_lens) ≡ ok r =
      ap (λ m. needed all_reduce a seq_lens (max a.max_token_len m)) (sym same) ∙ f in
    let (least, enough) = needed-le all_reduce a seq_lens (room a seq_lens) grows lens f' in
    let up = roundup_to-le a.microbatch_group_size r g in
    (
      le,
      omega (arith, least, up),
      roundup_to-Divides a.microbatch_group_size r g,
      le_trans enough (mul-le-mul_right (room a seq_lens) up),
    )
