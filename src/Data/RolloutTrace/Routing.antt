-- ===== src/Data/RolloutTrace/Routing.antt =====
-- rollout_trace.py: which captured routing rows the two row loops keep.
use mathlib.Core.Path.{subst}
use axrl.Prelude.{
  ℕ, zero, suc, ◌+◌, ◌-◌, ◌≤◌, ◌≡◌, min, inl, inr, refl, ap, sym, ◌∙◌, true, Option, none, some,
  List, [], ◌∷◌, ◌++◌, map, Result, ok, length, take, sum, arith, append-nil, length-append,
  length-map, ltb, leb, ◌==◌, Bool-cases, Option-cases,
}
use axrl.Data.Sample.{TensorHandle, prefix}
use axrl.Data.TokenTrace.{TokenTrace, arange}
use axrl.Data.RolloutTrace.{take_rows, routing_prefix_by_rows}

-- A handle has at least `n` rows, as far as it says.
abbrev pub Covers : Option ℕ → ℕ → Type 0
Covers none n = Unit {0}
Covers (some count) n = n ≤ count

-- The handles and their row counts agree.
abbrev pub Covered : List TensorHandle → List ℕ → Type 0
Covered [] [] = Unit {0}
Covered (h ∷ hs) (n ∷ ns) = Covers h.row_count n × Covered hs ns
Covered [] (n ∷ ns) = ◌≡◌ {A = ℕ} 0 1
Covered (h ∷ hs) [] = ◌≡◌ {A = ℕ} 0 1

-- The first `n` rows that a handle views: the stored tensor and the row in it.
abbrev pub rows_of : TensorHandle → ℕ → List (ℕ × ℕ)
rows_of h n = map (λ row. (h.ref, row)) (arange h.row_start n)

-- The rows that a list of handles stands for.
abbrev pub routed : List TensorHandle → List ℕ → List (ℕ × ℕ)
routed (h ∷ hs) (n ∷ ns) = rows_of h n ++ routed hs ns
routed _ _ = []

length-arange : (s n : ℕ) → length (arange s n) ≡ n
unfolding arange
length-arange s zero = refl
length-arange s (suc n) = ap suc (length-arange (s + 1) n)

pub length-rows_of : (h : TensorHandle) (n : ℕ) → length (rows_of h n) ≡ n
length-rows_of h n =
    length-map (arange h.row_start n) (λ row. (h.ref, row)) ∙ length-arange h.row_start n

pub length-routed :
    (hs : List TensorHandle) (ns : List ℕ) → Covered hs ns → length (routed hs ns) ≡ sum ns
length-routed [] [] c = refl
length-routed (h ∷ hs) (n ∷ ns) c =
    omega (
      arith,
      length-append (rows_of h n) (routed hs ns),
      length-rows_of h n,
      length-routed hs ns c.1,
    )
length-routed [] (n ∷ ns) c = absurd (omega arith)
length-routed (h ∷ hs) [] c = absurd (omega arith)

take-arange : (f : ℕ → ℕ × ℕ) (s n k : ℕ) → k ≤ n → take k (map f (arange s n)) ≡ map f (arange s k)
unfolding arange
take-arange f s n zero h = refl
take-arange f s zero (suc k) h = absurd (omega arith)
take-arange f s (suc n) (suc k) h = ap (◌∷◌ (f s)) (take-arange f (s + 1) n k (omega arith))

pub take-append_within {ℓ} :
    {A : Type ℓ} (xs ys : List A) (k : ℕ) → k ≤ length xs → take k (xs ++ ys) ≡ take k xs
take-append_within xs ys zero h = refl
take-append_within [] ys (suc k) h = absurd (omega arith)
take-append_within (x ∷ xs) ys (suc k) h = ap (◌∷◌ x) (take-append_within xs ys k (omega arith))

pub take-append_beyond {ℓ} :
    {A : Type ℓ} (xs ys : List A) (n k : ℕ)
    → length xs ≡ n
    → n ≤ k
    → take k (xs ++ ys) ≡ xs ++ take (k - n) ys
take-append_beyond [] ys n k e h = ap (λ j. take j ys) (omega arith)
take-append_beyond (x ∷ xs) ys n zero e h = absurd (omega arith)
take-append_beyond (x ∷ xs) ys zero (suc k) e h = absurd (omega arith)
take-append_beyond (x ∷ xs) ys (suc n) (suc k) e h = ap (◌∷◌ x) (
    take-append_beyond xs ys n k (omega arith) (omega arith)
    ∙ ap (λ j. xs ++ take j ys) (omega arith))

prefix_ok :
    (h : TensorHandle) (k : ℕ)
    → Covers h.row_count k
    → prefix h k ≡ ok (record h { row_count = some k })
unfolding prefix
prefix_ok h k c = elim (Option-cases h.row_count) [
  | inl e ↦ rw e refl
  | inr (m, e) ↦
      let c' : k ≤ m = subst (λ o. Covers o k) e c in
      let l : leb k m ≡ true = ground arith in rw (e, l) refl
]

-- A prefix view of a handle that covers it.
pub prefix-rows :
    (h : TensorHandle) (n k : ℕ)
    → Covers h.row_count n
    → k ≤ n
    → (h' : TensorHandle) × (prefix h k ≡ ok h')
      × Covers h'.row_count k
      × (rows_of h' k ≡ take k (rows_of h n))
prefix-rows h n k c l = (
  record h { row_count = some k },
  prefix_ok h k (fits h.row_count c),
  omega arith,
  sym (take-arange (λ row. (h.ref, row)) h.row_start n k l),
)
  where
    fits : (count : Option ℕ) → Covers count n → Covers count k
    fits none c = tt
    fits (some m) c = omega arith

-- What the row loop of `_routing_prefix_by_rows` returns.
record Taken (hs : List TensorHandle) (ns : List ℕ) (preserve kept : ℕ)
    (res : Result (List TensorHandle × List ℕ × ℕ)) : Type 0 where
  handles : List TensorHandle
  counts : List ℕ
  end : ℕ
  returns : res ≡ ok (handles, counts, end)
  covered : Covered handles counts
  same_rows : routed handles counts ≡ take (preserve - kept) (routed hs ns)
  total : end ≡ kept + sum counts

take_rows-Taken :
    (hs : List TensorHandle) (ns : List ℕ) (preserve kept : ℕ)
    → Covered hs ns
    → Taken hs ns preserve kept (take_rows hs ns preserve kept)
unfolding take_rows
take_rows-Taken [] (n ∷ ns) p k c = absurd (omega arith)
take_rows-Taken (h ∷ hs) [] p k c = absurd (omega arith)
take_rows-Taken [] [] p k c = record {
  handles = [];
  counts = [];
  end = k;
  returns = refl;
  covered = tt;
  same_rows = sym (take_empty (p - k));
  total = omega arith;
}
  where
    take_empty : (j : ℕ) → take j (routed [] []) ≡ []
    take_empty zero = refl
    take_empty (suc j) = refl
take_rows-Taken (h ∷ hs) (n ∷ ns) p k c = elim (Bool-cases (leb p k)) [
  | inl e ↦ record {
    handles = [];
    counts = [];
    end = k;
    returns = rw e refl;
    covered = tt;
    same_rows = let z : p - k ≡ 0 = ground arith in rw z refl;
    total = omega arith;
  }
  | inr e ↦ elim (Bool-cases (leb n (p - k))) [
    | inl e1 ↦
        let r = take_rows-Taken hs ns p (k + n) c.1 in
        record {
          handles = h ∷ r.handles;
          counts = n ∷ r.counts;
          end = r.end;
          returns = rw (e, e1, r.returns) refl;
          covered = (c.0, r.covered);
          same_rows =
              let m : n ≤ p - k = ground arith in
              let j : p - (k + n) ≡ p - k - n = omega arith in
              ap (λ l. rows_of h n ++ l) (r.same_rows ∙ ap (λ i. take i (routed hs ns)) j)
              ∙ sym (
                  take-append_beyond (rows_of h n) (routed hs ns) n (p - k) (length-rows_of h n) m);
          total = omega (arith, r.total);
        }
    | inr e1 ↦
        let m : p - k ≤ n = ground arith in
        let q : min n (p - k) ≡ p - k = ground arith in
        let pos : ltb 0 (p - k) ≡ true = ground arith in
        let (h', runs, cov, rows) = prefix-rows h n (p - k) c.0 m in
        record {
          handles = h' ∷ [];
          counts = (p - k) ∷ [];
          end = k + (p - k);
          returns = rw (e, e1, q, pos, runs) refl;
          covered = (cov, tt);
          same_rows =
              append-nil (rows_of h' (p - k))
              ∙ rows
              ∙ sym (
                  take-append_within (rows_of h n) (routed hs ns) (p - k)
                    (omega (arith, length-rows_of h n, m)));
          total = omega arith;
        }
  ]
]

length-take_le {ℓ} : {A : Type ℓ} (xs : List A) (k : ℕ) → k ≤ length xs → length (take k xs) ≡ k
length-take_le xs zero h = refl
length-take_le [] (suc k) h = absurd (omega arith)
length-take_le (x ∷ xs) (suc k) h = ap suc (length-take_le xs k (omega arith))

-- Where the handles of a trace cover their row counts and `preserve` is at most the number of
-- captured rows, `_routing_prefix_by_rows` returns, and the handles it keeps stand for exactly the
-- first `preserve` captured rows.
pub routing_prefix_by_rows-routed :
    (t : TokenTrace) (preserve : ℕ)
    → Covered t.routing_handles t.routing_row_count_per_handle
    → preserve ≤ sum t.routing_row_count_per_handle
    → (hs : List TensorHandle) × (ns : List ℕ) × (routing_prefix_by_rows t preserve ≡ ok (hs, ns))
      × Covered hs ns
      × (routed hs ns ≡ take preserve (routed t.routing_handles t.routing_row_count_per_handle))
      × (sum ns ≡ preserve)
unfolding routing_prefix_by_rows
routing_prefix_by_rows-routed t p c le =
    let r = take_rows-Taken t.routing_handles t.routing_row_count_per_handle p 0 c in
    let all = routed t.routing_handles t.routing_row_count_per_handle in
    let z : p - 0 ≡ p = omega arith in
    let rows : routed r.handles r.counts ≡ take p all = r.same_rows ∙ ap (λ j. take j all) z in
    let full : sum r.counts ≡ p =
      sym (length-routed r.handles r.counts r.covered)
      ∙ ap length rows
      ∙ length-take_le all p
          (omega (arith, le, length-routed t.routing_handles t.routing_row_count_per_handle c)) in
    let done : (r.end == p) ≡ true = ground (arith, full, r.total) in
    (r.handles, r.counts, rw (r.returns, done) refl, r.covered, rows, full)
