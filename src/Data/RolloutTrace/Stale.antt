-- ===== src/Data/RolloutTrace/Stale.antt =====
-- rollout_trace.py: the handles that survive when a tool result is rewritten.
use axrl.Prelude.{
  ℕ, ◌+◌, ◌-◌, ◌≤◌, ◌<◌, ◌≡◌, min, inl, inr, refl, ap, sym, ◌∙◌, true, ◌&&◌, List, [], ◌∷◌, ◌++◌,
  Result, ok, length, take, sum, All, arith, append-nil, ltb, leb, ◌==◌, Bool-cases,
}
use axrl.Data.Sample.{TensorHandle}
use axrl.Data.TokenTrace.{TokenTrace, token_count}
use axrl.Data.RolloutTrace.Compaction.{keep_rows, invalidate_stale_r3_handles}
use axrl.Data.RolloutTrace.Routing.{
  Covered, rows_of, routed, length-rows_of, prefix-rows, take-append_within, take-append_beyond,
}

-- What the row loop of `_invalidate_stale_r3_handles` returns.
record Kept (hs : List TensorHandle) (ns : List ℕ) (earliest preserve kept : ℕ)
    (res : Result (List TensorHandle × List ℕ × List ℕ × ℕ)) : Type 0 where
  handles : List TensorHandle
  indices : List ℕ
  counts : List ℕ
  end : ℕ
  returns : res ≡ ok (handles, indices, counts, end)
  covered : Covered handles counts
  indexed : length indices ≡ length handles
  same_rows : routed handles counts ≡ take (end - kept) (routed hs ns)
  total : end ≡ kept + sum counts
  bounded : kept ≤ preserve → end ≤ preserve
  in_range : All (λ i. i < earliest) indices

nothing :
    (hs : List TensorHandle) (ns : List ℕ) (e p k : ℕ)
    (res : Result (List TensorHandle × List ℕ × List ℕ × ℕ))
    → res ≡ ok ([], [], [], k)
    → Kept hs ns e p k res
nothing hs ns e p k res r = record {
  handles = [];
  indices = [];
  counts = [];
  end = k;
  returns = r;
  covered = tt;
  indexed = refl;
  same_rows = let z : k - k ≡ 0 = omega arith in rw z refl;
  total = omega arith;
  bounded = λ l. l;
  in_range = tt;
}

keep_rows-Kept :
    (hs : List TensorHandle) (is ns : List ℕ) (earliest preserve kept : ℕ)
    → Covered hs ns
    → length is ≡ length hs
    → 0 < earliest
    → Kept hs ns earliest preserve kept (keep_rows hs is ns earliest preserve kept)
unfolding keep_rows
keep_rows-Kept [] is (n ∷ ns) e p k c l z = absurd (omega arith)
keep_rows-Kept (h ∷ hs) is [] e p k c l z = absurd (omega arith)
keep_rows-Kept (h ∷ hs) [] (n ∷ ns) e p k c l z = absurd (omega arith)
keep_rows-Kept [] (i ∷ is) [] e p k c l z = absurd (omega arith)
keep_rows-Kept [] [] [] e p k c l z = nothing [] [] e p k _ refl
keep_rows-Kept (h ∷ hs) (i ∷ is) (n ∷ ns) e p k c l z = elim (Bool-cases (leb p k)) [
  | inl e0 ↦ nothing (h ∷ hs) (n ∷ ns) e p k _ (rw e0 refl)
  | inr e0 ↦ elim (Bool-cases (ltb i e && leb n (p - k))) [
    | inl e1 ↦
        let r = keep_rows-Kept hs is ns e p (k + n) c.1 (omega arith) z in
        let both : (i < e) × (n ≤ p - k) = and_lt i e n (p - k) e1 in
        let room : 1 ≤ p - k = ground arith in
        record {
          handles = h ∷ r.handles;
          indices = i ∷ r.indices;
          counts = n ∷ r.counts;
          end = r.end;
          returns = rw (e0, e1, r.returns) refl;
          covered = (c.0, r.covered);
          indexed = omega (arith, r.indexed);
          same_rows =
              let a : n ≤ r.end - k = omega (arith, r.total) in
              let j : r.end - (k + n) ≡ r.end - k - n = omega arith in
              ap (λ l. rows_of h n ++ l) (r.same_rows ∙ ap (λ i. take i (routed hs ns)) j)
              ∙ sym (
                  take-append_beyond (rows_of h n) (routed hs ns) n (r.end - k) (length-rows_of h n)
                    a);
          total = omega (arith, r.total);
          bounded = λ b. r.bounded (omega (arith, both.1, room));
          in_range = (both.0, r.in_range);
        }
    | inr e1 ↦ elim (Bool-cases (ltb 0 (min n (p - k)))) [
      | inr e2 ↦ nothing (h ∷ hs) (n ∷ ns) e p k _ (rw (e0, e1, e2) refl)
      | inl e2 ↦
          let m : min n (p - k) ≤ n = omega arith in
          let (h', runs, cov, rows) = prefix-rows h n (min n (p - k)) c.0 m in
          record {
            handles = h' ∷ [];
            indices = (e - 1) ∷ [];
            counts = min n (p - k) ∷ [];
            end = k + min n (p - k);
            returns = rw (e0, e1, e2, runs) refl;
            covered = (cov, tt);
            indexed = refl;
            same_rows =
                let j : k + min n (p - k) - k ≡ min n (p - k) = omega arith in
                append-nil (rows_of h' (min n (p - k)))
                ∙ rows
                ∙ sym (
                    take-append_within (rows_of h n) (routed hs ns) (min n (p - k))
                      (omega (arith, length-rows_of h n, m)))
                ∙ ap (λ i. take i (routed (h ∷ hs) (n ∷ ns))) (sym j);
            total = omega arith;
            bounded = λ b. omega arith;
            in_range = (omega arith, tt);
          }
    ]
  ]
]
  where
    and_lt : (i e n r : ℕ) → (ltb i e && leb n r) ≡ true → (i < e) × (n ≤ r)
    and_lt i e n r h = ground arith

-- `invalidate_stale_r3_handles` keeps a prefix of the captured rows, none of which is for a token
-- of the first rewritten chunk (`earliest`, not the first chunk of the trace) or a later one, and
-- reports their number. It leaves the chunks alone. The handles cover their row counts, and the
-- lists of the trace have the same length.
pub invalidate_stale-routed :
    (t : TokenTrace) (captured earliest : ℕ)
    → Covered t.routing_handles t.routing_row_count_per_handle
    → length t.token_info_index_per_handle ≡ length t.routing_handles
    → length t.routing_row_count_per_handle ≡ length t.routing_handles
    → 0 < earliest
    → (t' : TokenTrace) × (rows : ℕ) × (invalidate_stale_r3_handles true captured t earliest
        ≡ ok (t', rows))
      × (t'.token_infos ≡ t.token_infos)
      × (routed t'.routing_handles t'.routing_row_count_per_handle
          ≡ take rows (routed t.routing_handles t.routing_row_count_per_handle))
      × (rows ≤ token_count (take earliest t.token_infos))
      × (rows ≡ sum t'.routing_row_count_per_handle)
      × Covered t'.routing_handles t'.routing_row_count_per_handle
      × (length t'.token_info_index_per_handle ≡ length t'.routing_handles)
      × All (λ i. i < earliest) t'.token_info_index_per_handle
unfolding invalidate_stale_r3_handles
invalidate_stale-routed t captured e c l1 l2 z =
    let p = min (token_count (take e t.token_infos)) captured in
    let r =
      keep_rows-Kept t.routing_handles t.token_info_index_per_handle t.routing_row_count_per_handle
        e p 0 c l1 z in
    let a1 : (length t.routing_handles == length t.token_info_index_per_handle) ≡ true =
      ground (arith, l1) in
    let a2 : (length t.token_info_index_per_handle == length t.routing_row_count_per_handle)
        ≡ true =
      ground (arith, l1, l2) in
    let zero_sub : r.end - 0 ≡ r.end = omega arith in
    let most : r.end ≤ p = r.bounded (omega arith) in
    (
      record t {
        routing_handles = r.handles;
        token_info_index_per_handle = r.indices;
        routing_row_count_per_handle = r.counts;
      },
      r.end,
      rw (a1, a2, r.returns) refl,
      refl,
      r.same_rows
          ∙ ap (λ j. take j (routed t.routing_handles t.routing_row_count_per_handle)) zero_sub,
      omega (arith, most),
      omega (arith, r.total),
      r.covered,
      r.indexed,
      r.in_range,
    )
