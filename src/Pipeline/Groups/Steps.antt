-- ===== src/Pipeline/Groups/Steps.antt =====
-- pipeline/controller.py: one result of the queue, as `stream_rollout_groups` takes it.
use mathlib.Core.Path.{subst}
use axrl.Prelude.{
  ℕ, ◌<◌, ◌≡◌, refl, ap, sym, inl, inr, Bool, true, not, Option, none, some, Option-cases,
  Bool-cases, List, [], ◌∷◌, Result, ok, >>=-eq-ok, ok-eq, assert-eq-ok, length, All, All-map,
  All-append, ltb, ◌==◌, arith, dict_get, dict_set, dict_pop, All-dict_set, All-dict_pop,
  All-dict_get,
}
use axrl.Data.Sample.{Float}
use axrl.Pipeline.Groups.{
  RolloutResult, RolloutGroup, Numerics, Stream, id_of, get_rollout_group_id, waiting, or_empty,
  with_group, first_id, get_group_filter_type, normalize_group_rewards, complete_group,
  stream_result,
}
use axrl.Pipeline.Groups.Rewards.{weighed, normalize_group_rewards_lem, normalize_group_rewards-ok}
use axrl.Pipeline.Groups.Pending.{
  IsReady, AllReady, same_conversation, IsPending, IsYielded, waiting-All, Balances, grown,
  grown-All, length-grown, IsPending-grown, Balances-grown, IsPending-popped, Balances-popped,
}

module _ {ℓ} {History : Type ℓ} (num : Numerics)
    (update_score_history : History → ℕ → List Float → Result History) (size : ℕ)
    (filter_zero_std : Bool) where
  abbrev step : Stream History → RolloutResult → Result (Stream History × Option RolloutGroup)
  step = stream_result num update_score_history size filter_zero_std

  get_rollout_group_id-eq :
      (r : RolloutResult) {k : ℕ} → get_rollout_group_id r ≡ ok k → id_of r ≡ k
  unfolding get_rollout_group_id
  get_rollout_group_id-eq r h = ok-eq (assert-eq-ok (not (id_of r == 0)) (ok (id_of r)) h).1

  complete_group_lem :
      (s : Stream History) (k : ℕ) (group : List RolloutResult) {s' : Stream History}
      {o : Option RolloutGroup}
      → complete_group num update_score_history size filter_zero_std s k group ≡ ok (s', o)
      → All (λ r. id_of r ≡ k) group
      → (g : RolloutGroup) × (o ≡ some g)
        × (s'.pending_groups ≡ dict_pop s.pending_groups k)
        × IsYielded num size filter_zero_std g
        × All (λ r. id_of r ≡ k) g.results
        × (length g.results ≡ length group)
        × ((weight : RolloutResult → ℕ) → weighed weight g.results ≡ weighed weight group)
  unfolding complete_group
  complete_group_lem s k group {s' = s'} {o = o} h ids =
      let (full, h) = assert-eq-ok (length group == size) _ h in
      let ((h', results), e, h) =
        >>=-eq-ok (normalize_group_rewards num update_score_history s.history group) _ h in
      let done = ok-eq h in
      let (l, own, conv, rewarded, same) =
        normalize_group_rewards_lem num update_score_history s.history group k e ids in
      let l' : length results ≡ size = ground (arith, full, l) in
      (
        record {
          results = results;
          filter_type = get_group_filter_type num filter_zero_std results;
        },
        sym (ap (λ p. p.1) done),
        sym (ap (λ p. p.0.pending_groups) done),
        (l', (k, own), (first_id group, conv), rewarded, refl),
        own,
        l,
        same,
      )

  -- One result keeps the waiting groups short and apart, completes a group at most, and is not
  -- lost.
  pub stream_result_lem :
      (s : Stream History) (r : RolloutResult) {s' : Stream History} {o : Option RolloutGroup}
      → step s r ≡ ok (s', o)
      → IsPending size s.pending_groups
      → IsPending size s'.pending_groups
        × All (IsYielded num size filter_zero_std) (with_group o [])
        × Balances r s.pending_groups s'.pending_groups (with_group o [])
  unfolding stream_result get_rollout_group_id complete_group
  stream_result_lem s r {s' = s'} {o = o} h pending =
      let (k, e, h) = >>=-eq-ok (get_rollout_group_id r) _ h in
      let own = get_rollout_group_id-eq r e in
      let group = grown size s.pending_groups r k own pending in
      elim (Bool-cases (ltb (length group) size)) [
        | inl short ↦
            let h' : ok (record s { pending_groups = dict_set s.pending_groups k group }, none)
                ≡ ok (s', o) =
              rw short at h in
            subst
              (λ (done : Stream History × Option RolloutGroup).
                IsPending size done.0.pending_groups
                × All (IsYielded num size filter_zero_std) (with_group done.1 [])
                × Balances r s.pending_groups done.0.pending_groups (with_group done.1 []))
              (ok-eq h')
              (
                IsPending-grown size s.pending_groups r k own pending (ground (arith, short)),
                tt,
                Balances-grown size s.pending_groups r k own pending,
              )
        | inr full ↦
            let h' : complete_group num update_score_history size filter_zero_std
                  (record s { pending_groups = dict_set s.pending_groups k group }) k group
                ≡ ok (s', o) =
              rw full at h in
            let (g, e, p, y, ids, l, same) =
              complete_group_lem (record s { pending_groups = dict_set s.pending_groups k group }) k
                group h' (grown-All size s.pending_groups r k own pending) in
            (
              subst (IsPending size) (sym p)
                  (IsPending-popped size s.pending_groups r k own pending),
              subst (λ o. All (IsYielded num size filter_zero_std) (with_group o [])) (sym e)
                  (y, tt),
              subst
                  (λ (pg : List (ℕ × List RolloutResult)).
                    Balances r s.pending_groups pg (with_group o []))
                  (sym p)
                  (subst
                    (λ o.
                      Balances r s.pending_groups (dict_pop (dict_set s.pending_groups k group) k)
                        (with_group o []))
                    (sym e) (Balances-popped size s.pending_groups r k own pending g ids l same)),
            )
      ]

  module _ (conv : ℕ → ℕ)
      (recorded : (h : History) (id : ℕ) (scores : List Float)
        → (h' : History) × (update_score_history h id scores ≡ ok h')) where
    waiting-IsReady :
        (pending : List (ℕ × List RolloutResult)) (k : ℕ)
        → AllReady conv pending
        → All (IsReady conv) (waiting pending k)
    waiting-IsReady pending k h = elim (Option-cases (dict_get pending k)) [
      | inl e ↦ subst (All (IsReady conv)) (sym (ap or_empty e)) tt
      | inr (group, e) ↦
          subst (All (IsReady conv)) (sym (ap or_empty e))
            (All-dict_get (λ entry. All (IsReady conv) entry.1) pending k h e)
    ]

    -- A result that is ready is taken without an error.
    pub stream_result-ok :
        (s : Stream History) (r : RolloutResult)
        → 1 < size
        → IsPending size s.pending_groups
        → AllReady conv s.pending_groups
        → IsReady conv r
        → (s' : Stream History) × (o : Option RolloutGroup) × (step s r ≡ ok (s', o))
          × AllReady conv s'.pending_groups
    unfolding stream_result get_rollout_group_id complete_group
    stream_result-ok s r two pending ready (some_id, same_conv, scored) =
        let k = id_of r in
        let group = grown size s.pending_groups r k refl pending in
        let n : not (id_of r == 0) ≡ true = ground (arith, some_id) in
        let l = length-grown size s.pending_groups r k refl pending in
        let short = (waiting-All size s.pending_groups k pending.1).1 in
        let ids = grown-All size s.pending_groups r k refl pending in
        let set_ready = λ (g : All (IsReady conv) group).
          All-dict_set (λ entry. All (IsReady conv) entry.1) s.pending_groups k group ready g in
        let group_ready : All (IsReady conv) group =
          All-append (IsReady conv) (waiting s.pending_groups k) (r ∷ [])
            (waiting-IsReady s.pending_groups k ready) ((some_id, same_conv, scored), tt) in
        elim (Bool-cases (ltb (length group) size)) [
          | inl e ↦ (
            record s { pending_groups = dict_set s.pending_groups k group },
            none,
            rw (n, e) refl,
            set_ready group_ready,
          )
          | inr e ↦
              let full : (length group == size) ≡ true = ground (arith, e, l, short, two) in
              let (done, run) =
                normalize_group_rewards-ok num update_score_history s.history group (conv k)
                  recorded (ground (arith, e, two)) (same_conversation conv k group group_ready ids)
                  (All-map (IsReady conv) (λ r. (score : Float) × (r.score ≡ some score)) group
                    (λ r h. h.2) group_ready) in
              (
                record {
                  pending_groups = dict_pop (dict_set s.pending_groups k group) k;
                  history = done.0;
                },
                some (record {
                  results = done.1;
                  filter_type = get_group_filter_type num filter_zero_std done.1;
                }),
                rw (n, e, full, run) refl,
                All-dict_pop (λ entry. All (IsReady conv) entry.1)
                    (dict_set s.pending_groups k group) k (set_ready group_ready),
              )
        ]
