-- ===== src/Pipeline/Batches/Filled.antt =====
-- pipeline/controller.py: what the batches of `stream_online_train_group_batches` hold.
use axrl.Prelude.{
  ℕ, ◌+◌, ◌≤◌, ◌<◌, ◌≡◌, refl, ap, sym, ◌∙◌, inl, inr, Bool, true, false, Option, Bool-cases, List,
  [], ◌∷◌, ◌++◌, length, length-append, take, drop, take-append-drop, length-drop, All, All-append,
  ltb, if◌then◌else◌, arith, total, total-append,
}
use axrl.Pipeline.Groups.{
  RolloutGroup, GroupFilterType, pass, zero_std_all_fail, zero_std_all_success, is_pass,
}
use axrl.Pipeline.Batches.{
  Counter, update, TrainGroupBatch, Online, prepare_online_train_group_batch, with_batch, keep,
  skip, clear,
}

-- 1 for a filter type, 0 for the others.
abbrev pub as_pass : GroupFilterType → ℕ
as_pass pass = 1
as_pass zero_std_all_fail = 0
as_pass zero_std_all_success = 0

abbrev pub as_fail : GroupFilterType → ℕ
as_fail pass = 0
as_fail zero_std_all_fail = 1
as_fail zero_std_all_success = 0

abbrev pub as_success : GroupFilterType → ℕ
as_success pass = 0
as_success zero_std_all_fail = 0
as_success zero_std_all_success = 1

-- What the groups of two lists weigh together.
abbrev pub both : (RolloutGroup → ℕ) → List RolloutGroup → List RolloutGroup → ℕ
both weight valid skipped = total weight valid + total weight skipped

-- A counter has, for each filter type, the number of the groups of two lists that have it.
abbrev pub Counts : Counter → List RolloutGroup → List RolloutGroup → Type 0
Counts c valid skipped =
    (c.passes ≡ both (λ g. as_pass g.filter_type) valid skipped)
    × (c.fails ≡ both (λ g. as_fail g.filter_type) valid skipped)
    × (c.successes ≡ both (λ g. as_success g.filter_type) valid skipped)

update-counts :
    (c : Counter) (t : GroupFilterType)
    → ((update c t).passes ≡ c.passes + as_pass t)
      × ((update c t).fails ≡ c.fails + as_fail t)
      × ((update c t).successes ≡ c.successes + as_success t)
unfolding update
update-counts c pass = (omega arith, omega arith, omega arith)
update-counts c zero_std_all_fail = (omega arith, omega arith, omega arith)
update-counts c zero_std_all_success = (omega arith, omega arith, omega arith)

-- The same groups, in other places, have the same counts.
Counts-moved :
    (c : Counter) (valid skipped valid' skipped' : List RolloutGroup)
    → ((weight : RolloutGroup → ℕ) → both weight valid' skipped' ≡ both weight valid skipped)
    → Counts c valid skipped
    → Counts c valid' skipped'
Counts-moved c valid skipped valid' skipped' same h = (
  omega (arith, h.0, same (λ g. as_pass g.filter_type)),
  omega (arith, h.1, same (λ g. as_fail g.filter_type)),
  omega (arith, h.2, same (λ g. as_success g.filter_type)),
)

-- One more group.
Counts-more :
    (c : Counter) (g : RolloutGroup) (valid skipped valid' skipped' : List RolloutGroup)
    → ((weight : RolloutGroup → ℕ)
        → both weight valid' skipped' ≡ both weight valid skipped + weight g)
    → Counts c valid skipped
    → Counts (update c g.filter_type) valid' skipped'
Counts-more c g valid skipped valid' skipped' more h =
    let (p, f, t) = update-counts c g.filter_type in
    (
      omega (arith, h.0, p, more (λ g. as_pass g.filter_type)),
      omega (arith, h.1, f, more (λ g. as_fail g.filter_type)),
      omega (arith, h.2, t, more (λ g. as_success g.filter_type)),
    )

-- 1 for a group that is filtered.
abbrev invalid : RolloutGroup → ℕ
invalid g = if is_pass g.filter_type then 0 else 1

abbrev pub AllValid : List RolloutGroup → Type 0
AllValid groups = All (λ g. is_pass g.filter_type ≡ true) groups

invalid-zero : (groups : List RolloutGroup) → AllValid groups → total invalid groups ≡ 0
invalid-zero [] h = refl
invalid-zero (g ∷ groups) h =
    let z : invalid g ≡ 0 = rw h.0 refl in omega (arith, z, invalid-zero groups h.1)

AllValid-of_total : (groups : List RolloutGroup) → total invalid groups ≡ 0 → AllValid groups
AllValid-of_total [] h = tt
AllValid-of_total (g ∷ groups) h = elim (Bool-cases (is_pass g.filter_type)) [
  | inl e ↦ (e, AllValid-of_total groups (omega (arith, h)))
  | inr e ↦ let one : invalid g ≡ 1 = rw e refl in absurd (omega (arith, one, h))
]

length-total : (groups : List RolloutGroup) → total (λ g. 1) groups ≡ length groups
length-total [] = refl
length-total (g ∷ groups) = omega (arith, length-total groups)

-- A batch has the groups asked for, all valid, and counts for each filter type its groups that
-- have it.
abbrev pub IsBatch : ℕ → TrainGroupBatch → Type 0
IsBatch target b =
    (length b.valid_groups ≡ target)
    × AllValid b.valid_groups
    × Counts b.filter_type_counts b.valid_groups b.skipped_groups

-- The groups held are counted, and the valid ones are valid; without `strict_on_policy` they are
-- too few for a batch.
pub record IsHeld (target : ℕ) (strict : Bool) (s : Online) : Type 0 where
  pub valid : AllValid s.valid_rollouts
  pub counts : Counts s.group_filter_types s.valid_rollouts s.skipped_rollouts
  pub few : strict ≡ false → length s.valid_rollouts < target

-- What the groups of a batch, and those held, weigh.
abbrev pub groups_of : (RolloutGroup → ℕ) → TrainGroupBatch → ℕ
groups_of weight b = both weight b.valid_groups b.skipped_groups

abbrev pub groups_held : (RolloutGroup → ℕ) → Online → ℕ
groups_held weight s = both weight s.valid_rollouts s.skipped_rollouts

module _ (shuffle : ℕ → List RolloutGroup → List RolloutGroup)
    (reorders : (n : ℕ) (weight : RolloutGroup → ℕ) (groups : List RolloutGroup)
      → total weight (shuffle n groups) ≡ total weight groups)
    (target : ℕ) (scheduled : ℕ) (strict : Bool) where
  length-shuffle : (n : ℕ) (groups : List RolloutGroup) → length (shuffle n groups) ≡ length groups
  length-shuffle n groups =
      sym (length-total (shuffle n groups)) ∙ (reorders n (λ g. 1) groups ∙ length-total groups)

  -- A batch of enough valid groups.
  prepare_lem :
      (s : Online)
      → AllValid s.valid_rollouts
      → Counts s.group_filter_types s.valid_rollouts s.skipped_rollouts
      → target ≤ length s.valid_rollouts
      → IsBatch target (prepare_online_train_group_batch shuffle target scheduled strict s)
        × ((weight : RolloutGroup → ℕ)
            → groups_of weight (prepare_online_train_group_batch shuffle target scheduled strict s)
              ≡ groups_held weight s)
  unfolding prepare_online_train_group_batch
  prepare_lem s valid counts enough =
      let groups = shuffle s.shuffles s.valid_rollouts in
      let skipped = s.skipped_rollouts in
      let l = length-shuffle s.shuffles s.valid_rollouts in
      let z = reorders s.shuffles invalid s.valid_rollouts ∙ invalid-zero s.valid_rollouts valid in
      let parts = take-append-drop target groups in
      let d = length-drop target groups in
      let t = ap length parts in
      let a = length-append (take target groups) (drop target groups) in
      let x = ap (total invalid) parts in
      let y = total-append invalid (take target groups) (drop target groups) in
      let whole = λ (weight : RolloutGroup → ℕ). reorders s.shuffles weight s.valid_rollouts in
      let cut : (weight : RolloutGroup → ℕ)
          → both weight (take target groups) (skipped ++ drop target groups)
            ≡ both weight s.valid_rollouts skipped =
        λ weight. omega (
          arith,
          whole weight,
          ap (total weight) parts,
          total-append weight (take target groups) (drop target groups),
          total-append weight skipped (drop target groups),
        ) in
      let all : (weight : RolloutGroup → ℕ)
          → both weight groups skipped ≡ both weight s.valid_rollouts skipped =
        λ weight. omega (arith, whole weight) in
      elim (Bool-cases (ltb target (length groups))) [
        | inl e ↦ rw e (
          (
            omega (arith, l, d, t, a, enough),
            AllValid-of_total (take target groups) (omega (arith, x, y, z)),
            Counts-moved s.group_filter_types s.valid_rollouts skipped (take target groups)
                (skipped ++ drop target groups) cut counts,
          ),
          cut,
        )
        | inr e ↦ rw e (
          (
            (let le : length groups ≤ target = ground (arith, e) in omega (arith, le, l, enough)),
            AllValid-of_total groups z,
            Counts-moved s.group_filter_types s.valid_rollouts skipped groups skipped all counts,
          ),
          all,
        )
      ]

  -- What one group does: the state stays well formed, a batch is whole, and no group is lost.
  abbrev pub IsStep : ((RolloutGroup → ℕ) → ℕ) → Online × List TrainGroupBatch → Type 0
  IsStep before done =
      IsHeld target strict done.0
      × All (IsBatch target) done.1
      × ((weight : RolloutGroup → ℕ)
          → before weight ≡ groups_held weight done.0 + total (groups_of weight) done.1)

  -- One more group than those held.
  abbrev pub one_more : Online → RolloutGroup → (RolloutGroup → ℕ) → ℕ
  one_more s g weight = groups_held weight s + weight g

  abbrev pub batches_of : Online × Option TrainGroupBatch → Online × List TrainGroupBatch
  batches_of done = (done.0, with_batch done.1 [])

  AllValid-snoc :
      (groups : List RolloutGroup) (g : RolloutGroup)
      → AllValid groups
      → is_pass g.filter_type ≡ true
      → AllValid (groups ++ g ∷ [])
  AllValid-snoc groups g h e =
      All-append (λ g. is_pass g.filter_type ≡ true) groups (g ∷ []) h (e, tt)

  keep_lem :
      (s : Online) (g : RolloutGroup)
      → IsHeld target strict s
      → is_pass g.filter_type ≡ true
      → AllValid (keep s g).valid_rollouts
        × Counts (keep s g).group_filter_types (keep s g).valid_rollouts (keep s g).skipped_rollouts
        × ((weight : RolloutGroup → ℕ) → groups_held weight (keep s g) ≡ one_more s g weight)
  unfolding keep
  keep_lem s g h valid =
      let more : (weight : RolloutGroup → ℕ) → groups_held weight (keep s g) ≡ one_more s g weight =
        λ weight. omega (arith, total-append weight s.valid_rollouts (g ∷ [])) in
      (
        AllValid-snoc s.valid_rollouts g h.valid valid,
        Counts-more s.group_filter_types g s.valid_rollouts s.skipped_rollouts
            (s.valid_rollouts ++ g ∷ []) s.skipped_rollouts more h.counts,
        more,
      )

  pub kept_lem :
      (s : Online) (g : RolloutGroup)
      → IsHeld target strict s
      → is_pass g.filter_type ≡ true
      → (strict ≡ false → length (keep s g).valid_rollouts < target)
      → IsStep (one_more s g) (keep s g, [])
  kept_lem s g h valid few =
      let (all_valid, counts, n) = keep_lem s g h valid in
      (
        record { valid = all_valid; counts = counts; few = few },
        tt,
        λ weight. omega (arith, n weight),
      )

  pub full_lem :
      (s : Online) (g : RolloutGroup)
      → 0 < target
      → IsHeld target strict s
      → is_pass g.filter_type ≡ true
      → target ≤ length (keep s g).valid_rollouts
      → IsStep (one_more s g) (
        clear (keep s g),
        prepare_online_train_group_batch shuffle target scheduled strict (keep s g) ∷ [],
      )
  unfolding clear
  full_lem s g some_target h valid enough =
      let (all_valid, counts, n) = keep_lem s g h valid in
      let (batch, all) = prepare_lem (keep s g) all_valid counts enough in
      (
        record { valid = tt; counts = (refl, refl, refl); few = λ e. some_target },
        (batch, tt),
        λ weight. omega (arith, all weight, n weight),
      )

  pub skipped_lem :
      (s : Online) (g : RolloutGroup)
      → IsHeld target strict s
      → IsStep (one_more s g) (skip s g, [])
  unfolding skip
  skipped_lem s g h =
      let more : (weight : RolloutGroup → ℕ) → groups_held weight (skip s g) ≡ one_more s g weight =
        λ weight. omega (arith, total-append weight s.skipped_rollouts (g ∷ [])) in
      (
        record {
          valid = h.valid;
          counts =
              Counts-more s.group_filter_types g s.valid_rollouts s.skipped_rollouts
                s.valid_rollouts (s.skipped_rollouts ++ g ∷ []) more h.counts;
          few = h.few;
        },
        tt,
        λ weight. omega (arith, more weight),
      )
