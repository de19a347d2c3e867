-- ===== src/Pipeline/Groups/Rewards.antt =====
-- pipeline/controller.py: what `normalize_group_rewards` makes of a group.
use mathlib.Core.Path.{subst}
use axrl.Prelude.{
  ℕ, suc, ◌≡◌, ◌<◌, refl, ap, sym, ◌∙◌, inl, inr, true, false, Option, none, some, Bool-cases, List,
  [], ◌∷◌, Result, ok, >>=-eq-ok, ok-eq, assert-eq-ok, length, All, All-map, ltb, ◌==◌, arith, map,
  total,
}
use axrl.Data.Sample.{Float, Sample}
use axrl.Pipeline.Groups.{
  RolloutResult, Numerics, id_of, scores_of, all_same, one_conversation, reward_result, reward_each,
  advantage_of, required, map_rows, reward_turn, reward_packed, first_id, normalize_group_rewards,
}

-- A result has its score as the reward, and the mean of the group as the baseline.
abbrev pub IsRewarded : Numerics → List Float → RolloutResult → Type 0
IsRewarded num scores r =
    (score : Float) × (r.score ≡ some score)
    × (r.reward ≡ some score)
    × (r.reward_baseline ≡ some (num.mean scores))
    × (r.scalar_advantage ≡ some (advantage_of num score (num.mean scores) (num.std scores)))

-- A row without what rewarding sets.
abbrev pub unrewarded : Sample → Sample
unrewarded s = record s { reward = 0; reward_baseline = 0; advantage = [] }

abbrev pub unrewarded_rows : Option (List Sample) → Option (List Sample)
unrewarded_rows none = none
unrewarded_rows (some rows) = some (map unrewarded rows)

-- A result as it is received: without what rewarding sets.
abbrev pub received : RolloutResult → RolloutResult
received r = record r {
  score_mean = none;
  score_std = none;
  turn_samples = unrewarded_rows r.turn_samples;
  packed_samples = unrewarded_rows r.packed_samples;
  reward = none;
  reward_baseline = none;
  scalar_advantage = none;
}

-- What results weigh by what was received of them.
abbrev pub weighed : (RolloutResult → ℕ) → List RolloutResult → ℕ
weighed weight results = total (λ r. weight (received r)) results

required-eq-ok : (score : Option Float) {v : Float} → required score ≡ ok v → score ≡ some v
required-eq-ok none h = cc
required-eq-ok (some w) h = ap some (ok-eq h)

module _ (num : Numerics) where
  reward_each-cons :
      (mean std : Float) (r : RolloutResult) (group : List RolloutResult)
      {results : List RolloutResult}
      → reward_each num mean std (r ∷ group) ≡ ok results
      → (score : Float) × (more : List RolloutResult) × (r.score ≡ some score)
        × (reward_each num mean std group ≡ ok more)
        × (reward_result num mean std score r ∷ more ≡ results)
  unfolding reward_each
  reward_each-cons mean std r group h =
      let (score, e, h) = >>=-eq-ok (required r.score) _ h in
      let (more, f, h) = >>=-eq-ok (reward_each num mean std group) _ h in
      (score, more, required-eq-ok r.score e, f, ok-eq h)

  -- What holds of the results holds of the rewarded ones, if a reward does not change it.
  All-reward_each {κ μ} :
      (P : RolloutResult → Type κ) (Q : RolloutResult → Type μ) (mean std : Float)
      (group : List RolloutResult) {results : List RolloutResult}
      → ((r : RolloutResult) (score : Float)
          → r.score ≡ some score
          → P r
          → Q (reward_result num mean std score r))
      → reward_each num mean std group ≡ ok results
      → All P group
      → All Q results
  unfolding reward_each
  All-reward_each P Q mean std [] keeps h held = subst (All Q) (ok-eq h) tt
  All-reward_each P Q mean std (r ∷ group) keeps h held =
      let (score, more, e, f, same) = reward_each-cons mean std r group h in
      subst (All Q) same (keeps r score e held.0, All-reward_each P Q mean std group keeps f held.1)

  length-reward_each :
      (mean std : Float) (group : List RolloutResult) {results : List RolloutResult}
      → reward_each num mean std group ≡ ok results
      → length results ≡ length group
  unfolding reward_each
  length-reward_each mean std [] h = ap length (sym (ok-eq h))
  length-reward_each mean std (r ∷ group) h =
      let (score, more, e, f, same) = reward_each-cons mean std r group h in
      ap length (sym same) ∙ ap suc (length-reward_each mean std group f)

  scores_of-reward_each :
      (mean std : Float) (group : List RolloutResult) {results : List RolloutResult}
      → reward_each num mean std group ≡ ok results
      → scores_of results ≡ scores_of group
  unfolding reward_each reward_result
  scores_of-reward_each mean std [] h = ap scores_of (sym (ok-eq h))
  scores_of-reward_each mean std (r ∷ group) h =
      let (score, more, e, f, same) = reward_each-cons mean std r group h in
      ap scores_of (sym same) ∙ (rw e (ap (◌∷◌ score) (scores_of-reward_each mean std group f)))

  map-unrewarded :
      (f : Sample → Sample) (rows : List Sample)
      → ((s : Sample) → unrewarded (f s) ≡ unrewarded s)
      → map unrewarded (map f rows) ≡ map unrewarded rows
  map-unrewarded f [] same = refl
  map-unrewarded f (s ∷ rows) same =
      ap (λ t. t ∷ map unrewarded (map f rows)) (same s)
      ∙ ap (◌∷◌ (unrewarded s)) (map-unrewarded f rows same)

  map_rows-unrewarded :
      (f : Sample → Sample) (o : Option (List Sample))
      → ((s : Sample) → unrewarded (f s) ≡ unrewarded s)
      → unrewarded_rows (map_rows num f o) ≡ unrewarded_rows o
  map_rows-unrewarded f none same = refl
  map_rows-unrewarded f (some rows) same = ap some (map-unrewarded f rows same)

  -- Rewarding keeps what was received.
  received-reward_result :
      (mean std score : Float) (r : RolloutResult)
      → received (reward_result num mean std score r) ≡ received r
  unfolding reward_result reward_turn reward_packed
  received-reward_result mean std score r =
      let advantage = advantage_of num score mean std in
      ap
        (λ o. record (received r) {
          turn_samples = o;
          packed_samples =
              unrewarded_rows
                (map_rows num (reward_packed num score mean advantage) r.packed_samples);
        })
        (map_rows-unrewarded (reward_turn num score mean advantage) r.turn_samples (λ s. refl))
      ∙ ap (λ o. record (received r) { packed_samples = o })
          (map_rows-unrewarded (reward_packed num score mean advantage) r.packed_samples
            (λ s. refl))

  weighed-reward_each :
      (weight : RolloutResult → ℕ) (mean std : Float) (group : List RolloutResult)
      {results : List RolloutResult}
      → reward_each num mean std group ≡ ok results
      → weighed weight results ≡ weighed weight group
  unfolding reward_each
  weighed-reward_each weight mean std [] h = ap (weighed weight) (sym (ok-eq h))
  weighed-reward_each weight mean std (r ∷ group) h =
      let (score, more, e, f, same) = reward_each-cons mean std r group h in
      let one = ap weight (received-reward_result mean std score r) in
      ap (weighed weight) (sym same)
      ∙ omega (arith, one, weighed-reward_each weight mean std group f)

  -- With every score there, each result is rewarded.
  reward_each-ok :
      (mean std : Float) (group : List RolloutResult)
      → All (λ r. (v : Float) × (r.score ≡ some v)) group
      → (results : List RolloutResult) × (reward_each num mean std group ≡ ok results)
  unfolding reward_each
  reward_each-ok mean std [] h = ([], refl)
  reward_each-ok mean std (r ∷ group) ((v, e), h) =
      let (more, f) = reward_each-ok mean std group h in
      (reward_result num mean std v r ∷ more, rw (e, f) refl)

length-scores_of :
    (group : List RolloutResult)
    → All (λ r. (v : Float) × (r.score ≡ some v)) group
    → length (scores_of group) ≡ length group
length-scores_of [] h = refl
length-scores_of (r ∷ group) ((v, e), h) = rw e (ap suc (length-scores_of group h))

all_same-All :
    (id : ℕ) (group : List RolloutResult)
    → all_same id group ≡ true
    → All (λ r. r.conversation_id ≡ id) group
all_same-All id [] h = tt
all_same-All id (r ∷ group) h = elim (Bool-cases (r.conversation_id == id)) [
  | inl e ↦ (ground (arith, e), all_same-All id group (rw e at h))
  | inr e ↦ let h' : false ≡ true = rw e at h in cc
]

all_same_of_All :
    (id : ℕ) (group : List RolloutResult)
    → All (λ r. r.conversation_id ≡ id) group
    → all_same id group ≡ true
all_same_of_All id [] h = refl
all_same_of_All id (r ∷ group) (e, h) =
    let t : (r.conversation_id == id) ≡ true = ground (arith, e) in
    rw t (all_same_of_All id group h)

module _ {ℓ} {History : Type ℓ} (num : Numerics)
    (update_score_history : History → ℕ → List Float → Result History) where
  -- What a group looks like after it is normalized.
  pub normalize_group_rewards_lem :
      (history : History) (group : List RolloutResult) (k : ℕ) {h' : History}
      {results : List RolloutResult}
      → normalize_group_rewards num update_score_history history group ≡ ok (h', results)
      → All (λ r. id_of r ≡ k) group
      → (length results ≡ length group)
        × All (λ r. id_of r ≡ k) results
        × All (λ r. r.conversation_id ≡ first_id group) results
        × All (IsRewarded num (scores_of results)) results
        × ((weight : RolloutResult → ℕ) → weighed weight results ≡ weighed weight group)
  unfolding normalize_group_rewards reward_result id_of
  normalize_group_rewards_lem history group k {results = results} h ids =
      let scores = scores_of group in
      let (one, h) = assert-eq-ok (one_conversation group) _ h in
      let (all, h) = assert-eq-ok (length scores == length group) _ h in
      let (two, h) = assert-eq-ok (ltb 1 (length scores)) _ h in
      let (h'', u, h) = >>=-eq-ok (update_score_history history (first_id group) scores) _ h in
      let (rs, e, h) = >>=-eq-ok (reward_each num (num.mean scores) (num.std scores) group) _ h in
      let same : rs ≡ results = ap (λ p. p.1) (ok-eq h) in
      let e' : reward_each num (num.mean scores) (num.std scores) group ≡ ok results =
        e ∙ ap ok same in
      let kept = scores_of-reward_each num (num.mean scores) (num.std scores) group e' in
      (
        length-reward_each num (num.mean scores) (num.std scores) group e',
        All-reward_each num (λ r. id_of r ≡ k) (λ r. id_of r ≡ k) (num.mean scores) (num.std scores)
            group (λ r v s i. i) e' ids,
        All-reward_each num (λ r. r.conversation_id ≡ first_id group)
            (λ r. r.conversation_id ≡ first_id group) (num.mean scores) (num.std scores) group
            (λ r v s i. i) e' (first_id-All group one),
        subst (λ xs. All (IsRewarded num xs) results) (sym kept)
            (All-reward_each num (λ r. Unit {0}) (IsRewarded num scores) (num.mean scores)
              (num.std scores) group (λ r v s i. (v, s, refl, refl, refl)) e' (trivial group)),
        λ weight. weighed-reward_each num weight (num.mean scores) (num.std scores) group e',
      )
    where
      trivial : (group : List RolloutResult) → All (λ r. Unit {0}) group
      trivial [] = tt
      trivial (r ∷ group) = (tt, trivial group)

      first_id-All :
          (group : List RolloutResult)
          → one_conversation group ≡ true
          → All (λ r. r.conversation_id ≡ first_id group) group
      first_id-All [] h = tt
      first_id-All (r ∷ group) h =
          all_same-All r.conversation_id (r ∷ group)
            (let t : (r.conversation_id == r.conversation_id) ≡ true = ground arith in rw t h)

  -- A group of results of one conversation, each with a score, is normalized without an error.
  pub normalize_group_rewards-ok :
      (history : History) (group : List RolloutResult) (c : ℕ)
      → ((h : History) (id : ℕ) (scores : List Float)
          → (h' : History) × (update_score_history h id scores ≡ ok h'))
      → 1 < length group
      → All (λ r. r.conversation_id ≡ c) group
      → All (λ r. (v : Float) × (r.score ≡ some v)) group
      → (done : History × List RolloutResult) × (normalize_group_rewards num update_score_history
            history group
          ≡ ok done)
  unfolding normalize_group_rewards
  normalize_group_rewards-ok history [] c total two conv scored = absurd (omega (arith, two))
  normalize_group_rewards-ok history (r ∷ group) c total two conv scored =
      let scores = scores_of (r ∷ group) in
      let l = length-scores_of (r ∷ group) scored in
      let one = all_same_of_All r.conversation_id group (
        All-map (λ x. x.conversation_id ≡ c) (λ x. x.conversation_id ≡ r.conversation_id) group
          (λ x e. e ∙ sym conv.0) conv.1) in
      let all : (length scores == length (r ∷ group)) ≡ true = ground (arith, l) in
      let some_two : ltb 1 (length scores) ≡ true = ground (arith, l, two) in
      let (h', u) = total history r.conversation_id scores in
      let (rs, e) = reward_each-ok num (num.mean scores) (num.std scores) (r ∷ group) scored in
      ((h', rs), rw (one, all, some_two, u, e) refl)
