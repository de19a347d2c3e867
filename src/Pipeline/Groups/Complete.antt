-- ===== src/Pipeline/Groups/Complete.antt =====
-- pipeline/controller.py: the groups that `stream_rollout_groups` yields for a sequence of results.
use mathlib.Core.Path.{subst}
use native.Mathlib.Nat.{add-mod, mod-eq_of_lt, mod-mod, mod_self, zero-mod, suc-mul}
use axrl.Prelude.{
  ℕ, ◌+◌, ◌*◌, ◌%◌, ◌<◌, ◌≡◌, refl, ap, sym, ◌∙◌, inl, inr, Bool, true, Option, none, some,
  Bool-cases, List, [], ◌∷◌, Result, ok, >>=-eq-ok, ok-eq, assert-eq-ok, length, All, ltb, ◌==◌,
  arith, total,
}
use axrl.Data.Sample.{Float}
use axrl.Pipeline.Groups.{
  RolloutResult, RolloutGroup, Numerics, Stream, waiting, or_empty, with_group, stream_result,
  stream_results, stream_rollout_groups,
}
use axrl.Pipeline.Groups.Pending.{
  IsReady, AllReady, IsWaiting, IsPending, IsYielded, of_group, of_group-All, held, waiting-All,
  weighed_groups,
}
use axrl.Pipeline.Groups.Rewards.{weighed}
use axrl.Pipeline.Groups.Steps.{stream_result_lem, stream_result-ok}

abbrev pub in_groups : ℕ → List RolloutGroup → ℕ
in_groups i groups = total (λ g. of_group i g.results) groups

abbrev pub sizes : List RolloutGroup → ℕ
sizes groups = total (λ g. length g.results) groups

-- Every result is in a group that is yielded or waits in its own.
record IsKept (before : List (ℕ × List RolloutResult)) (results : List RolloutResult)
    (after : List (ℕ × List RolloutResult)) (groups : List RolloutGroup) : Type 0 where
  pub all :
      (weight : RolloutResult → ℕ)
      → held weight before + weighed weight results
        ≡ held weight after + weighed_groups weight groups
  pub each :
      (i : ℕ)
      → of_group i results + length (waiting before i)
        ≡ length (waiting after i) + in_groups i groups

total-with_group :
    (weight : RolloutGroup → ℕ) (o : Option RolloutGroup) (groups : List RolloutGroup)
    → total weight (with_group o groups) ≡ total weight (with_group o []) + total weight groups
total-with_group weight none groups = omega arith
total-with_group weight (some g) groups = omega arith

All-with_group :
    (P : RolloutGroup → Type 0) (o : Option RolloutGroup) (groups : List RolloutGroup)
    → All P (with_group o [])
    → All P groups
    → All P (with_group o groups)
All-with_group P none groups h hs = hs
All-with_group P (some g) groups h hs = (h.0, hs)

module _ {ℓ} {History : Type ℓ} (num : Numerics)
    (update_score_history : History → ℕ → List Float → Result History) (size : ℕ)
    (filter_zero_std : Bool) where
  stream_results_lem :
      (s : Stream History) (results : List RolloutResult) {s' : Stream History}
      {groups : List RolloutGroup}
      → stream_results num update_score_history size filter_zero_std s results ≡ ok (s', groups)
      → IsPending size s.pending_groups
      → IsPending size s'.pending_groups
        × All (IsYielded num size filter_zero_std) groups
        × IsKept s.pending_groups results s'.pending_groups groups
  unfolding stream_results
  stream_results_lem s [] h pending =
      subst
        (λ (done : Stream History × List RolloutGroup).
          IsPending size done.0.pending_groups
          × All (IsYielded num size filter_zero_std) done.1
          × IsKept s.pending_groups [] done.0.pending_groups done.1)
        (ok-eq h) (pending, tt, record { all = λ weight. omega arith; each = λ i. omega arith })
  stream_results_lem s (r ∷ results) h pending =
      let ((s1, o), e, h) =
        >>=-eq-ok (stream_result num update_score_history size filter_zero_std s r) _ h in
      let ((s2, groups), f, h) =
        >>=-eq-ok (stream_results num update_score_history size filter_zero_std s1 results) _ h in
      let (p1, y1, b1) =
        stream_result_lem num update_score_history size filter_zero_std s r e pending in
      let (p2, y2, k2) = stream_results_lem s1 results f p1 in
      subst
        (λ (done : Stream History × List RolloutGroup).
          IsPending size done.0.pending_groups
          × All (IsYielded num size filter_zero_std) done.1
          × IsKept s.pending_groups (r ∷ results) done.0.pending_groups done.1)
        (ok-eq h)
        (
          p2,
          All-with_group (IsYielded num size filter_zero_std) o groups y1 y2,
          record {
            all = λ weight. omega (
              arith,
              b1.0 weight,
              k2.all weight,
              total-with_group (λ g. weighed weight g.results) o groups,
            );
            each = λ i.
                omega
                  (arith, b1.1 i, k2.each i, total-with_group (λ g. of_group i g.results) o groups);
          },
        )

  stream_results-ok :
      (conv : ℕ → ℕ)
      → ((h : History) (id : ℕ) (scores : List Float)
          → (h' : History) × (update_score_history h id scores ≡ ok h'))
      → 1 < size
      → (s : Stream History) (results : List RolloutResult) → IsPending size s.pending_groups
      → AllReady conv s.pending_groups
      → All (IsReady conv) results
      → (s' : Stream History) × (groups : List RolloutGroup) × (stream_results num
            update_score_history size filter_zero_std s results
          ≡ ok (s', groups))
  unfolding stream_results
  stream_results-ok conv recorded two s [] pending ready h = (s, [], refl)
  stream_results-ok conv recorded two s (r ∷ results) pending ready h =
      let (s1, o, e, ready1) =
        stream_result-ok num update_score_history size filter_zero_std conv recorded s r two pending
          ready h.0 in
      let (p1, y, b) =
        stream_result_lem num update_score_history size filter_zero_std s r e pending in
      let (s2, groups, f) = stream_results-ok conv recorded two s1 results p1 ready1 h.1 in
      (s2, with_group o groups, rw (e, f) refl)

-- A yielded group has all the results of a group, or none.
whole_groups :
    (num : Numerics) (size : ℕ) (f : Bool) (i : ℕ) (groups : List RolloutGroup)
    → All (IsYielded num size f) groups
    → in_groups i groups % size ≡ 0
whole_groups num size f i [] h = zero-mod size
whole_groups num size f i (g ∷ groups) h =
    let (l, (k, own), conv, rewarded, filter) = h.0 in
    let own_all = of_group-All i k g.results own in
    let part : of_group i g.results % size ≡ 0 = elim (Bool-cases (i == k)) [
      | inl e ↦ rw (own_all, e, l) (mod_self size)
      | inr e ↦ rw (own_all, e) (zero-mod size)
    ] in
    add-mod (of_group i g.results) (in_groups i groups) size
    ∙ (rw (part, whole_groups num size f i groups h.1) (zero-mod size))

sizes-eq :
    (num : Numerics) (size : ℕ) (f : Bool) (groups : List RolloutGroup)
    → All (IsYielded num size f) groups
    → sizes groups ≡ length groups * size
sizes-eq num size f [] h = omega arith
sizes-eq num size f (g ∷ groups) h =
    omega (arith, sizes-eq num size f groups h.1, h.0.0, suc-mul (length groups) size)

length-weighed : (results : List RolloutResult) → weighed (λ r. 1) results ≡ length results
length-weighed [] = refl
length-weighed (r ∷ results) = omega (arith, length-weighed results)

sizes-weighed : (groups : List RolloutGroup) → weighed_groups (λ r. 1) groups ≡ sizes groups
sizes-weighed [] = refl
sizes-weighed (g ∷ groups) = omega (arith, length-weighed g.results, sizes-weighed groups)

-- Fewer than `size`, and a multiple of it.
none_left : (size w n : ℕ) → w < size → n % size ≡ 0 → (w + n) % size ≡ 0 → w ≡ 0
none_left size w n lt d h =
    sym (mod-eq_of_lt lt)
    ∙ (sym (mod-mod w size)
        ∙ (sym (
              add-mod w n size
              ∙ (ap (λ m. (w % size + m) % size) d ∙ ap (λ m. m % size) (omega arith)))
            ∙ h))

waiting-lt :
    (size : ℕ) (pending : List (ℕ × List RolloutResult)) (i : ℕ)
    → 0 < size
    → All (IsWaiting size) pending
    → length (waiting pending i) < size
waiting-lt size pending i some_size h =
    let short = (waiting-All size pending i h).1 in omega (arith, short)

pending-nil :
    (size : ℕ) (pending : List (ℕ × List RolloutResult))
    → All (IsWaiting size) pending
    → ((i : ℕ) → length (waiting pending i) ≡ 0)
    → pending ≡ []
pending-nil size [] h none_waits = refl
pending-nil size (entry ∷ pending) h none_waits =
    let same : (entry.0 == entry.0) ≡ true = ground arith in
    let z = none_waits entry.0 in
    let z' : length entry.1 ≡ 0 = rw (same, or_empty) at z in absurd (omega (arith, z', h.0.0))

module _ {ℓ} {History : Type ℓ} (num : Numerics)
    (update_score_history : History → ℕ → List Float → Result History) where
  -- Results that come in any order, each with an identifier and a score, of groups that each have
  -- one conversation and a multiple of `group_size` results, are grouped without an error: no
  -- result is left waiting, and each group has `group_size` results of one group and one
  -- conversation, with the score as reward and the group's mean as baseline. The results of the
  -- groups are the results received, each as often as it came, but for the fields that rewarding
  -- sets: whatever results weigh by what was received of them, the groups weigh the same. The data
  -- set's method that records scores must not fail.
  pub stream_rollout_groups_complete :
      (conv : ℕ → ℕ) (group_size : ℕ) (filter_zero_std : Bool) (history : History)
      (results : List RolloutResult)
      → ((h : History) (id : ℕ) (scores : List Float)
          → (h' : History) × (update_score_history h id scores ≡ ok h'))
      → 1 < group_size
      → All (IsReady conv) results
      → ((i : ℕ) → of_group i results % group_size ≡ 0)
      → (s : Stream History) × (groups : List RolloutGroup) × (stream_rollout_groups num
            update_score_history group_size filter_zero_std history results
          ≡ ok (s, groups))
        × (s.pending_groups ≡ [])
        × (length groups * group_size ≡ length results)
        × All (IsYielded num group_size filter_zero_std) groups
        × ((weight : RolloutResult → ℕ) → weighed weight results ≡ weighed_groups weight groups)
  unfolding stream_rollout_groups
  stream_rollout_groups_complete conv size f history results recorded two ready whole =
      let start : Stream History = record { pending_groups = []; history = history } in
      let (s, groups, run) =
        stream_results-ok num update_score_history size f conv recorded two start results (tt, tt)
          tt ready in
      let (pending, yielded, kept) =
        stream_results_lem num update_score_history size f start results run (tt, tt) in
      let t : ltb 1 size ≡ true = ground (arith, two) in
      let left : s.pending_groups ≡ [] = pending-nil size s.pending_groups pending.1 (λ i.
        none_left size (length (waiting s.pending_groups i)) (in_groups i groups)
          (waiting-lt size s.pending_groups i (omega (arith, two)) pending.1)
          (whole_groups num size f i groups yielded)
          (ap (λ n. n % size) (sym (kept.each i) ∙ omega arith) ∙ whole i)) in
      (
        s,
        groups,
        rw t run,
        left,
        omega (
          arith,
          sizes-eq num size f groups yielded,
          sizes-weighed groups,
          length-weighed results,
          kept.all (λ r. 1),
          ap (held (λ r. 1)) left,
        ),
        yielded,
        λ weight. omega (arith, kept.all weight, ap (held weight) left),
      )

  -- Whatever the results, when the stream goes on: each group yielded is whole and rewarded, and a
  -- group that waits is short of `group_size`. The results that wait and those in the groups
  -- yielded are the results received, each as often as it came, but for the fields that rewarding
  -- sets: whatever results weigh by what was received of them, the two weigh as much as what came;
  -- and of each group, as many results wait or are in groups as came.
  pub stream_rollout_groups-kept :
      (group_size : ℕ) (filter_zero_std : Bool) (history : History) (results : List RolloutResult)
      (s : Stream History) (groups : List RolloutGroup)
      → stream_rollout_groups num update_score_history group_size filter_zero_std history results
        ≡ ok (s, groups)
      → All (IsYielded num group_size filter_zero_std) groups
        × IsPending group_size s.pending_groups
        × ((i : ℕ) → of_group i results ≡ length (waiting s.pending_groups i) + in_groups i groups)
        × ((weight : RolloutResult → ℕ)
            → weighed weight results ≡ held weight s.pending_groups + weighed_groups weight groups)
  unfolding stream_rollout_groups
  stream_rollout_groups-kept size f history results s groups h =
      let (two, run) = assert-eq-ok (ltb 1 size) _ h in
      let (pending, yielded, kept) =
        stream_results_lem num update_score_history size f
          (record { pending_groups = []; history = history }) results run (tt, tt) in
      (
        yielded,
        pending,
        (λ i. omega (arith, kept.each i)),
        λ weight. omega (arith, kept.all weight),
      )
