-- ===== src/TaskQueue/Order.antt =====
-- ray_task_queue.py: the order in which the tasks of one key are given out.
use axrl.Prelude.{
  ℕ, ◌≡◌, inl, inr, refl, ap, sym, ◌∙◌, Option, some, List, [], ◌∷◌, ◌++◌, map, ◌==◌, if◌then◌else◌,
  Bool-cases, dict_get, dict_set, dict_get-set_same, dict_get-set_other, arith, append_assoc,
  append-nil, map-append,
}
use axrl.TaskQueue.{QueuedTask, TaskAssignment, TaskQueue, pending_of, put, put_many, take_next}
use axrl.TaskQueue.Runs.{
  Run, created, called_put, called_put_many, called_get, called_complete, refused, take_next-Takes,
  take_next-none, complete-result, create-result,
}

module _ {ℓ} {A : Type ℓ} where
  -- The tasks that were put for a key, those that were given out for it, and those that wait.
  abbrev pub puts_of : ℕ → List (ℕ × A) → List A
  puts_of key [] = []
  puts_of key (p ∷ ps) = (if p.0 == key then p.1 ∷ [] else []) ++ puts_of key ps

  abbrev pub tasks_of : ℕ → List (TaskAssignment A) → List A
  tasks_of key [] = []
  tasks_of key (a ∷ rest) = (if a.key == key then a.task ∷ [] else []) ++ tasks_of key rest

  abbrev pub waiting : TaskQueue A → ℕ → List A
  waiting q key = map (λ t. t.task) (pending_of q key)

  puts_of-append :
      (key : ℕ) (ps rs : List (ℕ × A)) → puts_of key (ps ++ rs) ≡ puts_of key ps ++ puts_of key rs
  puts_of-append key [] rs = refl
  puts_of-append key (p ∷ ps) rs =
      ap (λ l. (if p.0 == key then p.1 ∷ [] else []) ++ l) (puts_of-append key ps rs)
      ∙ sym (append_assoc (if p.0 == key then p.1 ∷ [] else []) (puts_of key ps) (puts_of key rs))

  tasks_of-append :
      (key : ℕ) (rest more : List (TaskAssignment A))
      → tasks_of key (rest ++ more) ≡ tasks_of key rest ++ tasks_of key more
  tasks_of-append key [] more = refl
  tasks_of-append key (a ∷ rest) more =
      ap (λ l. (if a.key == key then a.task ∷ [] else []) ++ l) (tasks_of-append key rest more)
      ∙ sym (
          append_assoc (if a.key == key then a.task ∷ [] else []) (tasks_of key rest)
            (tasks_of key more))

  -- The deque of `k` once that of `key` is set.
  pending_of-set :
      (q q' : TaskQueue A) (key k : ℕ) (l : List (QueuedTask A))
      → q'.pending ≡ dict_set q.pending key l
      → pending_of q' k ≡ (if key == k then l else pending_of q k)
  unfolding pending_of
  pending_of-set q q' key k l e = elim (Bool-cases (key == k)) [
    | inl s ↦
        let same : key ≡ k = ground (arith, s) in
        let found : dict_get q'.pending k ≡ some l =
          rw e (rw same (dict_get-set_same q.pending k l)) in
        rw (s, found, pending_of) refl
    | inr s ↦
        let found : dict_get q'.pending k ≡ dict_get q.pending k =
          rw e (dict_get-set_other q.pending key k l s) in
        rw (s, found, pending_of) refl
  ]

  puts_of-map :
      (key k : ℕ) (tasks : List A)
      → puts_of k (map (λ t. (key, t)) tasks) ≡ (if key == k then tasks else [])
  puts_of-map key k [] = elim (Bool-cases (key == k)) [ inl s ↦ rw s refl | inr s ↦ rw s refl ]
  puts_of-map key k (t ∷ tasks) = elim (Bool-cases (key == k)) [
    | inl s ↦ rw s (ap (◌∷◌ t) (puts_of-map key k tasks ∙ rw s refl))
    | inr s ↦ rw s (puts_of-map key k tasks ∙ rw s refl)
  ]

  abbrev mk : ℕ → A → QueuedTask A
  mk now t = record { task = t; queued_at = now }

  map-task :
      (now : ℕ) (tasks : List A) → map (λ t. t.task) (map (λ (t : A). mk now t) tasks) ≡ tasks
  map-task now [] = refl
  map-task now (t ∷ tasks) = ap (◌∷◌ t) (map-task now tasks)

  -- Tasks that are put for one key go to the end of what waits for it.
  extended :
      (q q' : TaskQueue A) (puts : List (ℕ × A)) (given : List (TaskAssignment A)) (tasks : List A)
      (key now k : ℕ)
      → q'.pending ≡ dict_set q.pending key (pending_of q key ++ map (λ (t : A). mk now t) tasks)
      → tasks_of k given ++ waiting q k ≡ puts_of k puts
      → tasks_of k given ++ waiting q' k ≡ puts_of k (puts ++ map (λ t. (key, t)) tasks)
  extended q q' puts given tasks key now k e h =
      let set = pending_of-set q q' key k _ e in
      elim (Bool-cases (key == k)) [
        | inl s ↦
            let same : key ≡ k = ground (arith, s) in
            let w : waiting q' k ≡ waiting q k ++ tasks =
              ap (map (λ t. t.task)) (set ∙ (rw s (rw same refl)))
              ∙ map-append (λ t. t.task) (pending_of q k) _
              ∙ ap (λ l. waiting q k ++ l) (map-task now tasks) in
            ap (λ l. tasks_of k given ++ l) w
            ∙ sym (append_assoc (tasks_of k given) (waiting q k) tasks)
            ∙ ap (λ l. l ++ tasks) h
            ∙ sym (
                puts_of-append k puts _
                ∙ ap (λ l. puts_of k puts ++ l) (puts_of-map key k tasks ∙ rw s refl))
        | inr s ↦
            let w : waiting q' k ≡ waiting q k = ap (map (λ t. t.task)) (set ∙ rw s refl) in
            ap (λ l. tasks_of k given ++ l) w
            ∙ h
            ∙ sym (
                puts_of-append k puts _
                ∙ ap (λ l. puts_of k puts ++ l) (puts_of-map key k tasks ∙ rw s refl)
                ∙ append-nil (puts_of k puts))
      ]

  -- An assignment takes the first task that waits for its key.
  taken :
      (q q' : TaskQueue A) (given : List (TaskAssignment A)) (a : TaskAssignment A)
      (puts : List (ℕ × A)) (worker_id key id now k : ℕ)
      → take_next q worker_id key id now ≡ (q', some a)
      → tasks_of k given ++ waiting q k ≡ puts_of k puts
      → tasks_of k (given ++ a ∷ []) ++ waiting q' k ≡ puts_of k puts
  taken q q' given a puts worker_id key id now k h fifo =
      let t = take_next-Takes q worker_id key id now h in
      let set = pending_of-set q q' key k t.rest (ap (λ x. x.pending) t.result) in
      let split = tasks_of-append k given (a ∷ []) in
      elim (Bool-cases (key == k)) [
        | inl s ↦
            let same : key ≡ k = ground (arith, s) in
            let mine : tasks_of k (a ∷ []) ≡ t.head.task ∷ [] =
              rw (t.same_key, s, t.same_task) refl in
            let before : waiting q k ≡ t.head.task ∷ waiting q' k =
              ap (map (λ x. x.task)) (ap (pending_of q) (sym same) ∙ t.queued)
              ∙ ap (λ l. t.head.task ∷ map (λ x. x.task) l) (sym (set ∙ rw s refl)) in
            ap (λ l. l ++ waiting q' k) (split ∙ ap (λ l. tasks_of k given ++ l) mine)
            ∙ append_assoc (tasks_of k given) (t.head.task ∷ []) (waiting q' k)
            ∙ ap (λ l. tasks_of k given ++ l) (sym before)
            ∙ fifo
        | inr s ↦
            let mine : tasks_of k (a ∷ []) ≡ [] = rw (t.same_key, s) refl in
            let before : waiting q' k ≡ waiting q k = ap (map (λ x. x.task)) (set ∙ rw s refl) in
            ap (λ l. l ++ waiting q' k)
              (split ∙ ap (λ l. tasks_of k given ++ l) mine ∙ append-nil (tasks_of k given))
            ∙ ap (λ l. tasks_of k given ++ l) before
            ∙ fifo
      ]

  -- After any calls the tasks of a key that were given out, followed by those that still wait, are
  -- exactly the tasks that were put for the key, in that order: none is lost, none is given out
  -- twice, and none overtakes another.
  pub given-in-order :
      (limit : Option ℕ) (q : TaskQueue A) (puts : List (ℕ × A)) (given : List (TaskAssignment A))
      (k : ℕ)
      → Run limit q puts given
      → tasks_of k given ++ waiting q k ≡ puts_of k puts
  unfolding put put_many
  given-in-order limit q puts given k (created h) =
      rw (create-result limit h) (unfold pending_of in refl)
  given-in-order limit _ _ given k (called_put {q = q} {puts = puts} r task key now) =
      extended q (put q task key now) puts given (task ∷ []) key now k refl
        (given-in-order limit q puts given k r)
  given-in-order limit _ _ given k (called_put_many {q = q} {puts = puts} r tasks key now) =
      extended q (put_many q tasks key now) puts given tasks key now k refl
        (given-in-order limit q puts given k r)
  given-in-order limit q' puts _ k
        (called_get {q = q} {given = given} r worker_id key id now a unused h) =
      taken q q' given a puts worker_id key id now k h (given-in-order limit q puts given k r)
  given-in-order limit q' puts given k (refused {q = q} r worker_id key id now h) =
      rw (take_next-none q worker_id key id now h) (given-in-order limit q puts given k r)
  given-in-order limit q' puts given k (called_complete {q = q} r id h) =
      let (_, _, e) = complete-result q id h in
      let same : waiting q' k ≡ waiting q k = rw e (unfold pending_of in refl) in
      ap (λ l. tasks_of k given ++ l) same ∙ given-in-order limit q puts given k r
