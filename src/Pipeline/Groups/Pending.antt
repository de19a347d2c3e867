-- ===== src/Pipeline/Groups/Pending.antt =====
-- pipeline/controller.py: what one result does to the groups that wait for more.
use mathlib.Core.Path.{subst}
use axrl.Prelude.{
  ℕ, ◌+◌, ◌-◌, ◌≤◌, ◌<◌, ◌≡◌, refl, ap, sym, ◌∙◌, inl, inr, Bool, true, false, some, Option-cases,
  Bool-cases, List, [], ◌∷◌, ◌++◌, length, length-append, All, All-append, ◌==◌, if◌then◌else◌,
  arith, one_if_same, total, total-append, dict_get, dict_set, dict_pop, dict_get-set_same,
  dict_get-set_other, dict_get-pop_same, dict_pop-set, dict_get-pop_other, Distinct,
  Distinct-dict_set, Distinct-dict_pop, All-dict_set, All-dict_pop, All-dict_get,
}
use axrl.Data.Sample.{Float}
use axrl.Pipeline.Groups.{
  RolloutResult, RolloutGroup, Numerics, id_of, waiting, or_empty, scores_of, get_group_filter_type,
}
use axrl.Pipeline.Groups.Rewards.{IsRewarded, received, weighed}

-- A result with an identifier and a score, of the one conversation of its group.
abbrev pub IsReady : (ℕ → ℕ) → RolloutResult → Type 0
IsReady conv r =
    (0 < id_of r)
    × (r.conversation_id ≡ conv (id_of r))
    × ((score : Float) × (r.score ≡ some score))

abbrev pub AllReady : (ℕ → ℕ) → List (ℕ × List RolloutResult) → Type 0
AllReady conv pending = All (λ entry. All (IsReady conv) entry.1) pending

pub same_conversation :
    (conv : ℕ → ℕ) (k : ℕ) (group : List RolloutResult)
    → All (IsReady conv) group
    → All (λ r. id_of r ≡ k) group
    → All (λ r. r.conversation_id ≡ conv k) group
same_conversation conv k [] h ids = tt
same_conversation conv k (r ∷ group) h ids =
    (h.0.1 ∙ ap conv ids.0, same_conversation conv k group h.1 ids.1)

-- A group that waits is short of `size` results, which are all its own.
abbrev pub IsWaiting : ℕ → ℕ × List RolloutResult → Type 0
IsWaiting size entry =
    (0 < length entry.1) × (length entry.1 < size) × All (λ r. id_of r ≡ entry.0) entry.1

abbrev pub IsPending : ℕ → List (ℕ × List RolloutResult) → Type 0
IsPending size pending = Distinct pending × All (IsWaiting size) pending

-- A group as it is yielded: `size` results of one group and of one conversation, rewarded, and the
-- filter that they pass or not.
abbrev pub IsYielded : Numerics → ℕ → Bool → RolloutGroup → Type 0
IsYielded num size filter_zero_std g =
    (length g.results ≡ size)
    × ((k : ℕ) × All (λ r. id_of r ≡ k) g.results)
    × ((c : ℕ) × All (λ r. r.conversation_id ≡ c) g.results)
    × All (IsRewarded num (scores_of g.results)) g.results
    × (g.filter_type ≡ get_group_filter_type num filter_zero_std g.results)

-- How many results a list has of a group.
abbrev pub of_group : ℕ → List RolloutResult → ℕ
of_group i results = total (λ r. one_if_same i (id_of r)) results

pub of_group-All :
    (i k : ℕ) (results : List RolloutResult)
    → All (λ r. id_of r ≡ k) results
    → of_group i results ≡ (if i == k then length results else 0)
of_group-All i k [] h = ground arith
of_group-All i k (r ∷ results) (e, h) =
    let more = of_group-All i k results h in rw e (ground (arith, more))

pub waiting-All :
    (size : ℕ) (pending : List (ℕ × List RolloutResult)) (k : ℕ)
    → All (IsWaiting size) pending
    → All (λ r. id_of r ≡ k) (waiting pending k) × (length (waiting pending k) ≤ size - 1)
waiting-All size pending k h = elim (Option-cases (dict_get pending k)) [
  | inl e ↦ subst IsOwn (sym (ap or_empty e)) (tt, omega arith)
  | inr (group, e) ↦
      let (some_left, short, ids) = All-dict_get (IsWaiting size) pending k h e in
      subst IsOwn (sym (ap or_empty e)) (ids, omega arith)
]
  where
    IsOwn : List RolloutResult → Type 0
    IsOwn xs = All (λ r. id_of r ≡ k) xs × (length xs ≤ size - 1)

waiting-set_same :
    (pending : List (ℕ × List RolloutResult)) (k : ℕ) (group : List RolloutResult)
    → waiting (dict_set pending k group) k ≡ group
waiting-set_same pending k group = ap or_empty (dict_get-set_same pending k group)

waiting-set_other :
    (pending : List (ℕ × List RolloutResult)) (k i : ℕ) (group : List RolloutResult)
    → (k == i) ≡ false
    → waiting (dict_set pending k group) i ≡ waiting pending i
waiting-set_other pending k i group n = ap or_empty (dict_get-set_other pending k i group n)

waiting-pop_same :
    (pending : List (ℕ × List RolloutResult)) (k : ℕ)
    → Distinct pending
    → waiting (dict_pop pending k) k ≡ []
waiting-pop_same pending k d = ap or_empty (dict_get-pop_same pending k d)

waiting-pop_other :
    (pending : List (ℕ × List RolloutResult)) (k i : ℕ)
    → (k == i) ≡ false
    → waiting (dict_pop pending k) i ≡ waiting pending i
waiting-pop_other pending k i n = ap or_empty (dict_get-pop_other pending k i n)

-- What the results that wait weigh.
abbrev pub held : (RolloutResult → ℕ) → List (ℕ × List RolloutResult) → ℕ
held weight pending = total (λ entry. weighed weight entry.1) pending

held-set :
    (weight : RolloutResult → ℕ) (pending : List (ℕ × List RolloutResult)) (k : ℕ)
    (group : List RolloutResult)
    → held weight (dict_set pending k group) + weighed weight (waiting pending k)
      ≡ held weight pending + weighed weight group
held-set weight [] k group = omega arith
held-set weight (entry ∷ pending) k group = elim (Bool-cases (entry.0 == k)) [
  | inl e ↦ rw (e, or_empty) (omega arith)
  | inr e ↦ rw (e, or_empty) (omega (arith, held-set weight pending k group))
]

held-pop :
    (weight : RolloutResult → ℕ) (pending : List (ℕ × List RolloutResult)) (k : ℕ)
    → held weight (dict_pop pending k) + weighed weight (waiting pending k) ≡ held weight pending
held-pop weight [] k = omega arith
held-pop weight (entry ∷ pending) k = elim (Bool-cases (entry.0 == k)) [
  | inl e ↦ rw (e, or_empty) (omega arith)
  | inr e ↦ rw (e, or_empty) (omega (arith, held-pop weight pending k))
]

-- What the results of groups weigh.
abbrev pub weighed_groups : (RolloutResult → ℕ) → List RolloutGroup → ℕ
weighed_groups weight groups = total (λ g. weighed weight g.results) groups

-- The result is one of those that wait or are in groups afterwards, beside those before it.
abbrev pub Balances :
    RolloutResult
    → List (ℕ × List RolloutResult)
    → List (ℕ × List RolloutResult)
    → List RolloutGroup
    → Type 0
Balances r before after groups =
    ((weight : RolloutResult → ℕ)
      → weight (received r) + held weight before ≡ held weight after + weighed_groups weight groups)
    × ((i : ℕ)
        → one_if_same i (id_of r) + length (waiting before i)
          ≡ length (waiting after i) + total (λ g. of_group i g.results) groups)

module _ (size : ℕ) (pending : List (ℕ × List RolloutResult)) (r : RolloutResult) (k : ℕ)
    (own : id_of r ≡ k) (h : IsPending size pending) where
  abbrev pub grown : List RolloutResult
  grown = waiting pending k ++ r ∷ []

  pub grown-All : All (λ x. id_of x ≡ k) grown
  grown-All =
      All-append (λ x. id_of x ≡ k) (waiting pending k) (r ∷ []) (waiting-All size pending k h.1).0
        (own, tt)

  pub length-grown : length grown ≡ length (waiting pending k) + 1
  length-grown = length-append (waiting pending k) (r ∷ [])

  weighed-grown :
      (weight : RolloutResult → ℕ)
      → weighed weight grown ≡ weighed weight (waiting pending k) + weight (received r)
  weighed-grown weight =
      let parts = total-append (λ r. weight (received r)) (waiting pending k) (r ∷ []) in
      omega (arith, parts)

  pub IsPending-grown : length grown < size → IsPending size (dict_set pending k grown)
  IsPending-grown lt = (
    Distinct-dict_set pending k grown h.0,
    All-dict_set (IsWaiting size) pending k grown h.1 (omega (arith, length-grown), lt, grown-All),
  )

  count-grown :
      (i : ℕ)
      → one_if_same i (id_of r) + length (waiting pending i)
        ≡ length (waiting (dict_set pending k grown) i) + 0
  count-grown i = elim (Bool-cases (k == i)) [
    | inl e ↦
        let same : k ≡ i = ground (arith, e) in
        let o : one_if_same i (id_of r) ≡ 1 = rw own (ground (arith, e)) in
        let w = ap length (waiting-set_same pending k grown) in
        subst
          (λ i.
            one_if_same i (id_of r) ≡ 1
            → one_if_same i (id_of r) + length (waiting pending i)
              ≡ length (waiting (dict_set pending k grown) i) + 0)
          same (λ o. omega (arith, o, w, length-grown)) o
    | inr e ↦
        let o : one_if_same i (id_of r) ≡ 0 = rw own (ground (arith, e)) in
        omega (arith, o, ap length (waiting-set_other pending k i grown e))
  ]

  pub Balances-grown : Balances r pending (dict_set pending k grown) []
  Balances-grown = (
    (λ weight. omega (arith, held-set weight pending k grown, weighed-grown weight)),
    count-grown,
  )

  pub IsPending-popped : IsPending size (dict_pop (dict_set pending k grown) k)
  IsPending-popped =
      subst (IsPending size) (sym (dict_pop-set pending k grown))
        (Distinct-dict_pop pending k h.0, All-dict_pop (IsWaiting size) pending k h.1)

  count-popped :
      (g : RolloutGroup)
      → All (λ r. id_of r ≡ k) g.results
      → length g.results ≡ length grown
      → (i : ℕ)
      → one_if_same i (id_of r) + length (waiting pending i)
        ≡ length (waiting (dict_pop (dict_set pending k grown) k) i)
          + total (λ g. of_group i g.results) (g ∷ [])
  count-popped g ids l i =
      let own_all = of_group-All i k g.results ids in
      let pops = ap (λ d. length (waiting d i)) (dict_pop-set pending k grown) in
      elim (Bool-cases (k == i)) [
        | inl e ↦
            let same : k ≡ i = ground (arith, e) in
            let o : one_if_same i (id_of r) ≡ 1 = rw own (ground (arith, e)) in
            let all : of_group i g.results ≡ length g.results =
              own_all ∙ (let t : (i == k) ≡ true = ground (arith, e) in rw t refl) in
            let w : length (waiting (dict_pop pending k) i) ≡ 0 =
              subst (λ i. length (waiting (dict_pop pending k) i) ≡ 0) same
                (ap length (waiting-pop_same pending k h.0)) in
            let b : length (waiting pending k) ≡ length (waiting pending i) =
              ap (λ i. length (waiting pending i)) same in
            omega (arith, o, all, w, b, pops, l, length-grown)
        | inr e ↦
            let o : one_if_same i (id_of r) ≡ 0 = rw own (ground (arith, e)) in
            let none_of : of_group i g.results ≡ 0 =
              own_all ∙ (let t : (i == k) ≡ false = ground (arith, e) in rw t refl) in
            omega (arith, o, none_of, pops, ap length (waiting-pop_other pending k i e))
      ]

  pub Balances-popped :
      (g : RolloutGroup)
      → All (λ r. id_of r ≡ k) g.results
      → length g.results ≡ length grown
      → ((weight : RolloutResult → ℕ) → weighed weight g.results ≡ weighed weight grown)
      → Balances r pending (dict_pop (dict_set pending k grown) k) (g ∷ [])
  Balances-popped g ids l same = (
    (λ weight.
        let pops = ap (held weight) (dict_pop-set pending k grown) in
        omega (arith, pops, held-pop weight pending k, weighed-grown weight, same weight)),
    count-popped g ids l,
  )
