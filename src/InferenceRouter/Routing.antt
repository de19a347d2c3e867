-- ===== src/InferenceRouter/Routing.antt =====
-- infer_router.py: routing keeps the tables right and the workers balanced.
use mathlib.Core.Path.{subst}
use axrl.Prelude.{
  All, All-append, ℕ, zero, suc, ◌+◌, ◌-◌, ◌≤◌, ◌<◌, ◌≡◌, ◌⊎◌, inl, inr, refl, ap, sym, ◌∙◌, true,
  Option, some, List, [], ◌∷◌, ◌++◌, Result, ok, length, replicate, get_elem?, ltb, leb, ◌==◌,
  Bool-cases, Option-cases, dict_get, dict_set, dict_get-set_same, dict_get-set_other,
  Distinct-dict_set, arith,
}
use axrl.InferenceRouter.{
  InferenceRouter, create, argmin, add_at, or_zero, count_of, cleanup_if_needed, assign_least,
  choose_worker, counted, assign_worker_index, on_conversations_finish,
}
use axrl.InferenceRouter.Flights.{
  IsRouting, at_worker, of_session, get_elem?-lt_some, get_elem?-sub_at, sub_at-ok, flown-IsRouting,
  set-mapped, cleanup-IsRouting, argmin-least,
}

-- What a call of `_assign_worker_index` for a session has done.
pub record Assigned (r : InferenceRouter) (fs : List (ℕ × ℕ)) (s : ℕ)
    (res : Result (InferenceRouter × ℕ)) : Type 0 where
  pub router : InferenceRouter
  pub worker : ℕ
  pub returns : res ≡ ok (router, worker)
  pub routing : IsRouting router ((s, worker) ∷ fs)
  pub load : ℕ
  pub least : ℕ
  pub loaded : get_elem? r.workloads worker ≡ some load
  pub minimal : (j x : ℕ) → get_elem? r.workloads j ≡ some x → least ≤ x
  pub balanced : (load ≡ least) ⊎ (load < least + r.max_imbalance)

assign_least-Assigned :
    (r : InferenceRouter) (fs : List (ℕ × ℕ)) (s i v : ℕ)
    → IsRouting r fs
    → argmin r.workloads ≡ some (i, v)
    → Assigned r fs s (ok (assign_least (counted r s) s i))
unfolding assign_least
assign_least-Assigned r fs s i v h e =
    let (at, least) = argmin-least r.workloads i v e in
    record {
      router = cleanup_if_needed (record (counted r s) {
        session_worker = dict_set r.session_worker s i;
        workloads = add_at r.workloads i;
      });
      worker = i;
      returns = refl;
      routing =
          cleanup-IsRouting
            (record (counted r s) {
              session_worker = dict_set r.session_worker s i;
              workloads = add_at r.workloads i;
            })
            ((s, i) ∷ fs)
            (flown-IsRouting r fs s i (dict_set r.session_worker s i) h
              (set-mapped r.session_worker s i (length r.workloads) h.mapped
                (get_elem?-lt_some r.workloads i at))
              (get_elem?-lt_some r.workloads i at));
      load = v;
      least = v;
      loaded = at;
      minimal = least;
      balanced = inl refl;
    }

choose_worker-Assigned :
    (r : InferenceRouter) (fs : List (ℕ × ℕ)) (s i v : ℕ)
    → IsRouting r fs
    → argmin r.workloads ≡ some (i, v)
    → Assigned r fs s (choose_worker (counted r s) s i v)
unfolding choose_worker
choose_worker-Assigned r fs s i v h e = elim (Option-cases (dict_get r.session_worker s)) [
  | inl n ↦ rw (n, choose_worker) (assign_least-Assigned r fs s i v h e)
  | inr (p, f) ↦
      let here : get_elem? r.workloads p ≡ some (at_worker p fs) = h.loads p (h.mapped s p f) in
      elim (Bool-cases (ltb (at_worker p fs) (v + r.max_imbalance))) [
        | inr c ↦ rw (f, here, c, choose_worker) (assign_least-Assigned r fs s i v h e)
        | inl c ↦
            let (at, least) = argmin-least r.workloads i v e in
            record {
              router = record (counted r s) { workloads = add_at r.workloads p };
              worker = p;
              returns = rw (f, here, c, choose_worker) refl;
              routing = flown-IsRouting r fs s p r.session_worker h h.mapped (h.mapped s p f);
              load = at_worker p fs;
              least = v;
              loaded = here;
              minimal = least;
              balanced = inr (ground (arith, c));
            }
      ]
]

argmin-some : (w : ℕ) (ws : List ℕ) → (i : ℕ) × (v : ℕ) × (argmin (w ∷ ws) ≡ some (i, v))
unfolding argmin
argmin-some w ws = elim (Option-cases (argmin ws)) [
  | inl e ↦ (0, w, rw e refl)
  | inr ((k, u), e) ↦ elim (Bool-cases (leb w u)) [
    | inl b ↦ (0, w, rw (e, b) refl)
    | inr b ↦ (suc k, u, rw (e, b) refl)
  ]
]

argmin-total : (ws : List ℕ) → 0 < length ws → (i : ℕ) × (v : ℕ) × (argmin ws ≡ some (i, v))
argmin-total [] h = absurd (omega arith)
argmin-total (w ∷ ws) h = argmin-some w ws

-- With at least one worker a request of a session is assigned. The tables then count it as in
-- flight, and its worker's load was the least of all, or below the least plus `max_imbalance`.
pub assign_worker_index-Assigned :
    (r : InferenceRouter) (fs : List (ℕ × ℕ)) (s : ℕ)
    → IsRouting r fs
    → 0 < length r.workloads
    → Assigned r fs s (assign_worker_index r (some s))
unfolding assign_worker_index
assign_worker_index-Assigned r fs s h n =
    let (i, v, e) = argmin-total r.workloads n in
    rw (e, assign_worker_index) (choose_worker-Assigned r fs s i v h e)

at_worker-append :
    (w : ℕ) (before after : List (ℕ × ℕ))
    → at_worker w (before ++ after) ≡ at_worker w before + at_worker w after
at_worker-append w [] after = omega arith
at_worker-append w (f ∷ before) after = omega (arith, at_worker-append w before after)

of_session-append :
    (s : ℕ) (before after : List (ℕ × ℕ))
    → of_session s (before ++ after) ≡ of_session s before + of_session s after
of_session-append s [] after = omega arith
of_session-append s (f ∷ before) after = omega (arith, of_session-append s before after)

count-found : (d : List (ℕ × ℕ)) (s n : ℕ) → count_of d s ≡ suc n → dict_get d s ≡ some (suc n)
count-found d s n h = elim (Option-cases (dict_get d s)) [
  | inl e ↦ let h' : 0 ≡ suc n = ap or_zero (sym e) ∙ h in absurd (omega (arith, h'))
  | inr (m, e) ↦ let h' : m ≡ suc n = ap or_zero (sym e) ∙ h in e ∙ ap some h'
]

All-split : (P : ℕ × ℕ → Type 0) (xs ys : List (ℕ × ℕ)) → All P (xs ++ ys) → All P xs × All P ys
All-split P [] ys h = (tt, h)
All-split P (x ∷ xs) ys h = let (hx, hy) = All-split P xs ys h.1 in ((h.0, hx), hy)

-- A request in flight can finish, which takes just that request out of the tables.
pub on_conversations_finish-IsRouting :
    (r : InferenceRouter) (before after : List (ℕ × ℕ)) (s w : ℕ)
    → IsRouting r (before ++ (s, w) ∷ after)
    → (r' : InferenceRouter) × (on_conversations_finish r (some s) w ≡ ok r')
      × IsRouting r' (before ++ after)
unfolding on_conversations_finish
on_conversations_finish-IsRouting r before after s w h =
    let refl_s : (s == s) ≡ true = ground arith in
    let one : of_session s ((s, w) ∷ after) ≡ suc (of_session s after) = rw refl_s (omega arith) in
    let n = of_session s before + of_session s after in
    let total : count_of r.session_count s ≡ suc n =
      h.sessions s ∙ of_session-append s before ((s, w) ∷ after) ∙ omega (arith, one) in
    let found = count-found r.session_count s n total in
    let (left, (there, right)) =
      All-split (λ (f : ℕ × ℕ). f.1 < length r.workloads) before ((s, w) ∷ after) h.flying in
    let (rest, run, l_rest) = sub_at-ok r.workloads w there in
    (
      record r { workloads = rest; session_count = dict_set r.session_count s (suc n - 1) },
      rw (run, found, on_conversations_finish) refl,
      record {
        loads = λ j l.
            get_elem?-sub_at r.workloads w j (at_worker j (before ++ (s, w) ∷ after))
              (at_worker j (before ++ after)) run (h.loads j (omega (arith, l, l_rest)))
              (omega (
                arith,
                at_worker-append j before ((s, w) ∷ after),
                at_worker-append j before after,
              ));
        sessions = λ t. elim (Bool-cases (s == t)) [
          | inl k ↦
              let same : s ≡ t = ground (arith, k) in
              ap (λ x. or_zero (dict_get (dict_set r.session_count s (suc n - 1)) x)) (sym same)
              ∙ ap or_zero (dict_get-set_same r.session_count s (suc n - 1))
              ∙ omega (arith, of_session-append s before after)
              ∙ ap (λ x. of_session x (before ++ after)) same
          | inr k ↦
              let skip : of_session t ((s, w) ∷ after) ≡ of_session t after = rw k (omega arith) in
              ap or_zero (dict_get-set_other r.session_count s t (suc n - 1) k)
              ∙ h.sessions t
              ∙ omega (
                arith,
                of_session-append t before ((s, w) ∷ after),
                of_session-append t before after,
                skip,
              )
        ];
        mapped = λ t v e. omega (arith, h.mapped t v e, l_rest);
        distinct = Distinct-dict_set r.session_count s (suc n - 1) h.distinct;
        flying =
            subst (λ n. All (λ f. f.1 < n) (before ++ after)) (sym l_rest)
              (All-append (λ (f : ℕ × ℕ). f.1 < length r.workloads) before after left right);
      },
    )

replicate-zero :
    (n i : ℕ) → i < length (replicate {A = ℕ} n 0) → get_elem? (replicate {A = ℕ} n 0) i ≡ some 0
replicate-zero zero i l = absurd (omega arith)
replicate-zero (suc n) zero l = refl
replicate-zero (suc n) (suc i) l = replicate-zero n i (omega arith)

-- A new router has no request in flight.
pub create-IsRouting :
    (max_imbalance : ℕ) (max_cached : Option ℕ) (num_workers : ℕ)
    → IsRouting (create max_imbalance max_cached num_workers) []
create-IsRouting max_imbalance max_cached num_workers = record {
  loads = replicate-zero num_workers;
  sessions = λ s. refl;
  mapped = λ s w h. cc;
  distinct = tt;
  flying = tt;
}
