-- ===== src/Data/GlobalBatches/Rows.antt =====
-- global_batch_iterator.py: which rows a global batch has.
use axrl.Prelude.{
  ℕ, zero, suc, ◌+◌, ◌/◌, ◌<◌, ◌≡◌, refl, ap, sym, ◌∙◌, false, some, List, [], ◌∷◌, ◌++◌, ok,
  assert-eq-ok, ok-eq, some-eq, replicate, get_elem?, ltb, ◌==◌, if◌then◌else◌, append_assoc,
  append-nil, arith,
}
use axrl.Data.GlobalBatches.{
  append_at, fill, maximum, covers, num_global_batches, group_row_indices,
}

-- The rows from `row` on whose trajectory belongs to batch `b`.
abbrev pub rows_in : ℕ → ℕ → List ℕ → ℕ → List ℕ
rows_in size b [] row = []
rows_in size b (id ∷ ids) row =
    (if id / size == b then row ∷ [] else []) ++ rows_in size b ids (row + 1)

get_elem?-append_at :
    (gs : List (List ℕ)) (k b row : ℕ) {l : List ℕ}
    → get_elem? gs b ≡ some l
    → get_elem? (append_at gs k row) b ≡ some (l ++ (if k == b then row ∷ [] else []))
unfolding append_at
get_elem?-append_at [] k b row h = cc
get_elem?-append_at (g ∷ gs) zero zero row h = ap (λ x. some (x ++ row ∷ [])) (some-eq h)
get_elem?-append_at (g ∷ gs) zero (suc b) row {l = l} h =
    let e : (zero == suc b) ≡ false = ground arith in rw e (h ∙ ap some (sym (append-nil l)))
get_elem?-append_at (g ∷ gs) (suc k) zero row {l = l} h =
    let e : (suc k == zero) ≡ false = ground arith in rw e (h ∙ ap some (sym (append-nil l)))
get_elem?-append_at (g ∷ gs) (suc k) (suc b) row {l = l} h =
    let e : (k == b) ≡ (suc k == suc b) = ground arith in
    get_elem?-append_at gs k b row h ∙ ap (λ t. some (l ++ (if t then row ∷ [] else []))) e

get_elem?-fill :
    (size : ℕ) (gs : List (List ℕ)) (ids : List ℕ) (row b : ℕ) {l : List ℕ}
    → get_elem? gs b ≡ some l
    → get_elem? (fill size gs ids row) b ≡ some (l ++ rows_in size b ids row)
unfolding fill
get_elem?-fill size gs [] row b {l = l} h = h ∙ ap some (sym (append-nil l))
get_elem?-fill size gs (id ∷ ids) row b {l = l} h =
    get_elem?-fill size (append_at gs (id / size) row) ids (row + 1) b
      (get_elem?-append_at gs (id / size) b row h)
    ∙ ap some
        (append_assoc l (if id / size == b then row ∷ [] else []) (rows_in size b ids (row + 1)))

get_elem?-replicate_nil : (n b : ℕ) → b < n → get_elem? (replicate {A = List ℕ} n []) b ≡ some []
get_elem?-replicate_nil zero b h = absurd (omega arith)
get_elem?-replicate_nil (suc n) zero h = refl
get_elem?-replicate_nil (suc n) (suc b) h = get_elem?-replicate_nil n b (omega arith)

-- A global batch has exactly the rows of its trajectories, in order: row `i` is in batch `b` where
-- its trajectory id divided by the batch size is `b`. So the rows of a trajectory are never split.
pub group_row_indices-rows :
    (id : ℕ) (ids : List ℕ) (size b : ℕ) (grouped : List (List ℕ))
    → group_row_indices (id ∷ ids) size ≡ ok grouped
    → b < num_global_batches (id ∷ ids) size
    → get_elem? grouped b ≡ some (rows_in size b (id ∷ ids) 0)
unfolding group_row_indices
group_row_indices-rows id ids size b grouped h l =
    let (_, h1) = assert-eq-ok (ltb 0 size) _ h in
    let (_, h2) = assert-eq-ok (covers (id ∷ ids) (maximum (id ∷ ids) + 1)) _ h1 in
    let e : fill size (replicate (num_global_batches (id ∷ ids) size) []) (id ∷ ids) 0 ≡ grouped =
      ok-eq h2 in
    rw (← e) (
      get_elem?-fill size (replicate (num_global_batches (id ∷ ids) size) []) (id ∷ ids) 0 b
        (get_elem?-replicate_nil (num_global_batches (id ∷ ids) size) b l))
