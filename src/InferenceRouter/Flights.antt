-- ===== src/InferenceRouter/Flights.antt =====
-- infer_router.py: the tables of the router and the requests in flight.
use mathlib.Core.Path.{subst}
use axrl.Prelude.{
  All, ok, >>=-eq-ok, ok-eq, ◌-◌, ℕ, zero, suc, ◌+◌, ◌≤◌, ◌<◌, ◌≡◌, inl, inr, refl, ap, sym, ◌∙◌,
  none, some, List, [], ◌∷◌, some-eq, length, get_elem?, ltb, leb, ◌==◌, if◌then◌else◌, Bool-cases,
  Option-cases, dict_get, dict_set, dict_get-set_same, dict_get-set_other, Distinct,
  Distinct-dict_set, arith,
}
use axrl.InferenceRouter.{
  InferenceRouter, argmin, add_at, sub_at, or_zero, count_of, keep_active_workers,
  keep_active_counts, drop_idle, has_room, cleanup_if_needed, counted,
}

-- A request in flight is its session and its worker. How many there are at a worker, and how many
-- of a session.
abbrev pub at_worker : ℕ → List (ℕ × ℕ) → ℕ
at_worker worker [] = 0
at_worker worker (f ∷ fs) = (if f.1 == worker then 1 else 0) + at_worker worker fs

abbrev pub of_session : ℕ → List (ℕ × ℕ) → ℕ
of_session session [] = 0
of_session session (f ∷ fs) = (if f.0 == session then 1 else 0) + of_session session fs

-- The tables agree with the requests in flight, whose workers there are.
pub record IsRouting (r : InferenceRouter) (flights : List (ℕ × ℕ)) : Type 0 where
  pub loads :
      (i : ℕ) → i < length r.workloads → get_elem? r.workloads i ≡ some (at_worker i flights)
  pub sessions : (s : ℕ) → count_of r.session_count s ≡ of_session s flights
  pub mapped : (s w : ℕ) → dict_get r.session_worker s ≡ some w → w < length r.workloads
  pub distinct : Distinct r.session_count
  pub flying : All (λ f. f.1 < length r.workloads) flights

pub get_elem?-lt_some {ℓ} :
    {A : Type ℓ} (xs : List A) (i : ℕ) {a : A} → get_elem? xs i ≡ some a → i < length xs
get_elem?-lt_some [] i h = cc
get_elem?-lt_some (x ∷ xs) zero h = omega arith
get_elem?-lt_some (x ∷ xs) (suc i) h = omega (arith, get_elem?-lt_some xs i h)

length-add_at : (ws : List ℕ) (i : ℕ) → length (add_at ws i) ≡ length ws
unfolding add_at
length-add_at [] i = refl
length-add_at (w ∷ ws) zero = refl
length-add_at (w ∷ ws) (suc i) = ap suc (length-add_at ws i)

-- A workload in range goes down by one.
pub sub_at-ok :
    (ws : List ℕ) (i : ℕ)
    → i < length ws
    → (rest : List ℕ) × (sub_at ws i ≡ ok rest) × (length rest ≡ length ws)
unfolding sub_at
sub_at-ok [] i h = absurd (omega (arith, h))
sub_at-ok (w ∷ ws) zero h = ((w - 1) ∷ ws, refl, refl)
sub_at-ok (w ∷ ws) (suc i) h =
    let (rest, e, l) = sub_at-ok ws i (omega (arith, h)) in (w ∷ rest, rw e refl, ap suc l)

get_elem?-add_at :
    (ws : List ℕ) (i j x : ℕ)
    → get_elem? ws j ≡ some x
    → get_elem? (add_at ws i) j ≡ some ((if i == j then 1 else 0) + x)
unfolding add_at
get_elem?-add_at [] i j x h = cc
get_elem?-add_at (w ∷ ws) zero zero x h = ap some (let e : w ≡ x = some-eq h in ground (arith, e))
get_elem?-add_at (w ∷ ws) zero (suc j) x h = h ∙ ap some (ground arith)
get_elem?-add_at (w ∷ ws) (suc i) zero x h = h ∙ ap some (ground arith)
get_elem?-add_at (w ∷ ws) (suc i) (suc j) x h =
    get_elem?-add_at ws i j x h
    ∙ ap (λ b. some ((if b then 1 else 0) + x))
        (let e : (i == j) ≡ (suc i == suc j) = ground arith in e)

pub get_elem?-sub_at :
    (ws : List ℕ) (i j x y : ℕ) {rest : List ℕ}
    → sub_at ws i ≡ ok rest
    → get_elem? ws j ≡ some x
    → x ≡ (if i == j then 1 else 0) + y
    → get_elem? rest j ≡ some y
unfolding sub_at
get_elem?-sub_at [] i j x y r h e = cc
get_elem?-sub_at (w ∷ ws) zero zero x y r h e =
    ap (λ rest. get_elem? rest 0) (sym (ok-eq r))
    ∙ ap some (let e' : w ≡ x = some-eq h in ground (arith, e', e))
get_elem?-sub_at (w ∷ ws) zero (suc j) x y r h e =
    ap (λ rest. get_elem? rest (suc j)) (sym (ok-eq r)) ∙ (h ∙ ap some (ground (arith, e)))
get_elem?-sub_at (w ∷ ws) (suc i) zero x y r h e =
    let (rest, f, r') = >>=-eq-ok (sub_at ws i) _ r in
    ap (λ rest. get_elem? rest 0) (sym (ok-eq r')) ∙ (h ∙ ap some (ground (arith, e)))
get_elem?-sub_at (w ∷ ws) (suc i) (suc j) x y r h e =
    let (rest, f, r') = >>=-eq-ok (sub_at ws i) _ r in
    ap (λ rest. get_elem? rest (suc j)) (sym (ok-eq r'))
    ∙ get_elem?-sub_at ws i j x y f h (ground (arith, e))

pub keep_active_workers-get :
    (counts d : List (ℕ × ℕ)) (s : ℕ)
    → dict_get (keep_active_workers counts d) s
      ≡ (if ltb 0 (count_of counts s) then dict_get d s else none)
unfolding keep_active_workers
keep_active_workers-get counts [] s = elim (Bool-cases (ltb 0 (count_of counts s))) [
  | inl e ↦ rw e refl
  | inr e ↦ rw e refl
]
keep_active_workers-get counts (entry ∷ d) s = elim (Bool-cases (entry.0 == s)) [
  | inl k ↦
      let same : entry.0 ≡ s = ground (arith, k) in
      let here : ltb 0 (count_of counts entry.0) ≡ ltb 0 (count_of counts s) =
        ap (λ x. ltb 0 (count_of counts x)) same in
      elim (Bool-cases (ltb 0 (count_of counts s))) [
        | inl a ↦ let a' = here ∙ a in rw (a', a, k) refl
        | inr a ↦ let a' = here ∙ a in rw (a', a) (keep_active_workers-get counts d s ∙ rw a refl)
      ]
  | inr k ↦ elim (Bool-cases (ltb 0 (count_of counts entry.0))) [
    | inl a ↦ rw (a, k) (keep_active_workers-get counts d s)
    | inr a ↦ rw (a, k) (keep_active_workers-get counts d s)
  ]
]

keep_active_counts-none :
    (d : List (ℕ × ℕ)) (s : ℕ) → dict_get d s ≡ none → dict_get (keep_active_counts d) s ≡ none
unfolding keep_active_counts
keep_active_counts-none [] s h = refl
keep_active_counts-none (entry ∷ d) s h = elim (Bool-cases (entry.0 == s)) [
  | inl k ↦ let h' : some entry.1 ≡ none = rw k at h in cc
  | inr k ↦
      let h' : dict_get d s ≡ none = rw k at h in
      elim (Bool-cases (ltb 0 entry.1)) [
        | inl a ↦ rw (a, k) (keep_active_counts-none d s h')
        | inr a ↦ rw a (keep_active_counts-none d s h')
      ]
]

keep_active_counts-Distinct : (d : List (ℕ × ℕ)) → Distinct d → Distinct (keep_active_counts d)
unfolding keep_active_counts
keep_active_counts-Distinct [] h = tt
keep_active_counts-Distinct (entry ∷ d) h = elim (Bool-cases (ltb 0 entry.1)) [
  | inl a ↦ rw a (keep_active_counts-none d entry.0 h.0, keep_active_counts-Distinct d h.1)
  | inr a ↦ rw a (keep_active_counts-Distinct d h.1)
]

keep_active_counts-count :
    (d : List (ℕ × ℕ)) (s : ℕ) → Distinct d → count_of (keep_active_counts d) s ≡ count_of d s
unfolding keep_active_counts
keep_active_counts-count [] s h = refl
keep_active_counts-count (entry ∷ d) s h = elim (Bool-cases (ltb 0 entry.1)) [
  | inl a ↦ elim (Bool-cases (entry.0 == s)) [
    | inl k ↦
        let l : dict_get (entry ∷ keep_active_counts d) s ≡ dict_get (entry ∷ d) s = rw k refl in
        rw a (ap or_zero l)
    | inr k ↦
        let l : dict_get (entry ∷ keep_active_counts d) s ≡ dict_get (keep_active_counts d) s =
          rw k refl in
        let m : dict_get (entry ∷ d) s ≡ dict_get d s = rw k refl in
        rw a (ap or_zero l ∙ keep_active_counts-count d s h.1 ∙ ap or_zero (sym m))
  ]
  | inr a ↦ elim (Bool-cases (entry.0 == s)) [
    | inl k ↦
        let same : entry.0 ≡ s = ground (arith, k) in
        let gone : dict_get d s ≡ none = ap (dict_get d) (sym same) ∙ h.0 in
        let m : dict_get (entry ∷ d) s ≡ some entry.1 = rw k refl in
        let z : 0 ≡ entry.1 = ground (arith, a) in
        rw a (ap or_zero (keep_active_counts-none d s gone) ∙ z ∙ ap or_zero (sym m))
    | inr k ↦
        let m : dict_get (entry ∷ d) s ≡ dict_get d s = rw k refl in
        rw a (keep_active_counts-count d s h.1 ∙ ap or_zero (sym m))
  ]
]

pub drop_idle-IsRouting :
    (r : InferenceRouter) (fs : List (ℕ × ℕ)) → IsRouting r fs → IsRouting (drop_idle r) fs
unfolding drop_idle
drop_idle-IsRouting r fs i = record {
  loads = i.loads;
  sessions = λ s. keep_active_counts-count r.session_count s i.distinct ∙ i.sessions s;
  mapped = λ s w h.
      let h' = sym (keep_active_workers-get r.session_count r.session_worker s) ∙ h in
      elim (Bool-cases (ltb 0 (count_of r.session_count s))) [
        | inl a ↦ i.mapped s w (sym (rw a refl) ∙ h')
        | inr a ↦ let no : none ≡ some w = sym (rw a refl) ∙ h' in cc
      ];
  distinct = keep_active_counts-Distinct r.session_count i.distinct;
  flying = i.flying;
}

pub cleanup-IsRouting :
    (r : InferenceRouter) (fs : List (ℕ × ℕ)) → IsRouting r fs → IsRouting (cleanup_if_needed r) fs
unfolding cleanup_if_needed
cleanup-IsRouting r fs i =
    elim (Bool-cases (has_room r.max_cached_session_ids (length r.session_worker))) [
      | inl e ↦ rw e i
      | inr e ↦ rw e (drop_idle-IsRouting r fs i)
    ]

-- A request of session `s` that goes to worker `w`.
pub flown-IsRouting :
    (r : InferenceRouter) (fs : List (ℕ × ℕ)) (s w : ℕ) (workers : List (ℕ × ℕ))
    → IsRouting r fs
    → ((t v : ℕ) → dict_get workers t ≡ some v → v < length r.workloads)
    → w < length r.workloads
    → IsRouting
        (record (counted r s) { workloads = add_at r.workloads w; session_worker = workers })
        ((s, w) ∷ fs)
flown-IsRouting r fs s w workers i m there = record {
  loads = λ j l.
      get_elem?-add_at r.workloads w j (at_worker j fs)
        (i.loads j (omega (arith, l, length-add_at r.workloads w)));
  sessions = λ t. elim (Bool-cases (s == t)) [
    | inl k ↦
        let same : s ≡ t = ground (arith, k) in
        let get : dict_get (counted r s).session_count t ≡ some (count_of r.session_count s + 1) =
          ap (dict_get (counted r s).session_count) (sym same)
          ∙ dict_get-set_same r.session_count s _ in
        rw k (
          ap or_zero get
          ∙ omega (arith, i.sessions s, i.sessions t, ap (λ x. of_session x fs) same))
    | inr k ↦
        rw k (ap or_zero (dict_get-set_other r.session_count s t _ k) ∙ i.sessions t ∙ omega arith)
  ];
  mapped = λ t v h. omega (arith, m t v h, length-add_at r.workloads w);
  distinct = Distinct-dict_set r.session_count s _ i.distinct;
  flying =
      subst (λ n. All (λ f. f.1 < n) ((s, w) ∷ fs)) (sym (length-add_at r.workloads w))
        (there, i.flying);
}

pub set-mapped :
    (workers : List (ℕ × ℕ)) (s w n : ℕ)
    → ((t v : ℕ) → dict_get workers t ≡ some v → v < n)
    → w < n
    → (t v : ℕ) → dict_get (dict_set workers s w) t ≡ some v
    → v < n
set-mapped workers s w n m l t v h = elim (Bool-cases (s == t)) [
  | inl k ↦
      let same : s ≡ t = ground (arith, k) in
      let e : w ≡ v =
        some-eq
          (sym (dict_get-set_same workers s w) ∙ ap (dict_get (dict_set workers s w)) same ∙ h) in
      omega (arith, e, l)
  | inr k ↦ m t v (sym (dict_get-set_other workers s t w k) ∙ h)
]

-- The least loaded worker.
pub argmin-least :
    (ws : List ℕ) (i v : ℕ)
    → argmin ws ≡ some (i, v)
    → (get_elem? ws i ≡ some v) × ((j x : ℕ) → get_elem? ws j ≡ some x → v ≤ x)
unfolding argmin
argmin-least [] i v h = cc
argmin-least (w ∷ ws) i v h = elim (Option-cases (argmin ws)) [
  | inl e ↦
      let h' : some (0, w) ≡ some (i, v) = rw e at h in
      let e0 : 0 ≡ i = ap (λ p. p.0) (some-eq h') in
      let e1 : w ≡ v = ap (λ p. p.1) (some-eq h') in
      (rw (← e0) (ap some e1), λ j x g. least_one ws w v e e1 j x g)
  | inr ((k, u), e) ↦
      let (at, least) = argmin-least ws k u e in
      elim (Bool-cases (leb w u)) [
        | inl b ↦
            let h' : some (0, w) ≡ some (i, v) = rw (e, b) at h in
            let e0 : 0 ≡ i = ap (λ p. p.0) (some-eq h') in
            let e1 : w ≡ v = ap (λ p. p.1) (some-eq h') in
            (
              rw (← e0) (ap some e1),
              λ j x g. below ws w u v least (ground (arith, e1, b)) (omega (arith, e1)) j x g,
            )
        | inr b ↦
            let h' : some (suc k, u) ≡ some (i, v) = rw (e, b) at h in
            let e0 : suc k ≡ i = ap (λ p. p.0) (some-eq h') in
            let e1 : u ≡ v = ap (λ p. p.1) (some-eq h') in
            (
              rw (← e0) (at ∙ ap some e1),
              λ j x g. below ws w u v least (omega (arith, e1)) (ground (arith, e1, b)) j x g,
            )
      ]
]
  where
    below :
        (ws : List ℕ) (w u v : ℕ)
        → ((j x : ℕ) → get_elem? ws j ≡ some x → u ≤ x)
        → v ≤ u
        → v ≤ w
        → (j x : ℕ) → get_elem? (w ∷ ws) j ≡ some x
        → v ≤ x
    below ws w u v least a b zero x g = let e : w ≡ x = some-eq g in omega (arith, e, b)
    below ws w u v least a b (suc j) x g = omega (arith, least j x g, a)

    least_one :
        (ws : List ℕ) (w v : ℕ)
        → argmin ws ≡ none
        → w ≡ v
        → (j x : ℕ) → get_elem? (w ∷ ws) j ≡ some x
        → v ≤ x
    least_one ws w v n e zero x g = let e' : w ≡ x = some-eq g in omega (arith, e', e)
    least_one [] w v n e (suc j) x g = cc
    least_one (y ∷ ws) w v n e (suc j) x g = elim (Option-cases (argmin ws)) [
      | inl f ↦ let n' : some (0, y) ≡ none = rw f at n in cc
      | inr ((k, u), f) ↦ elim (Bool-cases (leb y u)) [
        | inl b ↦ let n' : some (0, y) ≡ none = rw (f, b) at n in cc
        | inr b ↦ let n' : some (suc k, u) ≡ none = rw (f, b) at n in cc
      ]
    ]
