-- ===== src/TaskQueue/Runs.antt =====
-- ray_task_queue.py: what holds of the queue after any sequence of calls.
use axrl.Prelude.{
  ℕ, zero, suc, ◌+◌, ◌≤◌, ◌<◌, ◌≡◌, inl, inr, refl, ap, sym, ◌∙◌, false, Option, none, some, List,
  [], ◌∷◌, ◌++◌, map, ok, err, Error, ok-eq, some-eq, length, length-append, leb, Bool-cases,
  Option-cases, List-cases, dict_get, dict_set, dict_pop, length-dict_set_fresh, length-dict_pop,
  arith,
}
use axrl.TaskQueue.{
  QueuedTask, TaskAssignment, TaskQueue, create, fresh, pending_of, put, put_many, is_full,
  record_running, take_next, complete,
}

module _ {ℓ} {A : Type ℓ} where
  -- The calls of a queue, with the tasks put and the assignments given out, in order. An
  -- identifier that is made for an assignment is not in use.
  pub data Run (limit : Option ℕ)
      : TaskQueue A → List (ℕ × A) → List (TaskAssignment A) → Type ℓ where
    created : {q : TaskQueue A} → create limit ≡ ok q → Run limit q [] []
    called_put :
        {q : TaskQueue A} {puts : List (ℕ × A)} {given : List (TaskAssignment A)}
        → Run limit q puts given
        → (task : A) (key now : ℕ) → Run limit (put q task key now) (puts ++ (key, task) ∷ []) given
    called_put_many :
        {q : TaskQueue A} {puts : List (ℕ × A)} {given : List (TaskAssignment A)}
        → Run limit q puts given
        → (tasks : List A) (key now : ℕ)
        → Run limit (put_many q tasks key now) (puts ++ map (λ task. (key, task)) tasks) given
    called_get :
        {q q' : TaskQueue A} {puts : List (ℕ × A)} {given : List (TaskAssignment A)}
        → Run limit q puts given
        → (worker_id key id now : ℕ) (a : TaskAssignment A) → dict_get q.running id ≡ none
        → take_next q worker_id key id now ≡ (q', some a)
        → Run limit q' puts (given ++ a ∷ [])
    refused :
        {q q' : TaskQueue A} {puts : List (ℕ × A)} {given : List (TaskAssignment A)}
        → Run limit q puts given
        → (worker_id key id now : ℕ) → take_next q worker_id key id now ≡ (q', none)
        → Run limit q' puts given
    called_complete :
        {q q' : TaskQueue A} {puts : List (ℕ × A)} {given : List (TaskAssignment A)}
        → Run limit q puts given
        → (id : ℕ) → complete q id ≡ ok q'
        → Run limit q' puts given

  -- What a call of `take_next` that assigns a task has done.
  pub record Takes (q : TaskQueue A) (key id : ℕ) (q' : TaskQueue A) (a : TaskAssignment A)
      : Type ℓ where
    pub head : QueuedTask A
    pub rest : List (QueuedTask A)
    pub queued : pending_of q key ≡ head ∷ rest
    pub room : is_full q ≡ false
    pub same_task : a.task ≡ head.task
    pub same_key : a.key ≡ key
    pub same_id : a.assignment_id ≡ id
    pub result :
        q' ≡ record q { pending = dict_set q.pending key rest; running = record_running q a }

  pub take_next-Takes :
      (q : TaskQueue A) (worker_id key id now : ℕ) {q' : TaskQueue A} {a : TaskAssignment A}
      → take_next q worker_id key id now ≡ (q', some a)
      → Takes q key id q' a
  unfolding take_next
  take_next-Takes q worker_id key id now {q' = q'} {a = a} h =
      elim (List-cases (pending_of q key)) [
        | inl e ↦ let h' : (q, none) ≡ (q', some a) = rw (e, take_next) at h in cc
        | inr (head, rest, e) ↦ elim (Bool-cases (is_full q)) [
          | inl f ↦ let h' : (q, none) ≡ (q', some a) = rw (e, f, take_next) at h in cc
          | inr f ↦
              let b : TaskAssignment A = record {
                assignment_id = id;
                task = head.task;
                worker_id = worker_id;
                queued_at = head.queued_at;
                assigned_at = now;
                key = key;
              } in
              let h' : (
                record q { pending = dict_set q.pending key rest; running = record_running q b },
                some b,
              )
                  ≡ (q', some a) =
                rw (e, f, take_next) at h in
              let same : b ≡ a = some-eq (ap (λ p. p.1) h') in
              let left : record q {
                pending = dict_set q.pending key rest;
                running = record_running q b;
              }
                  ≡ q' =
                ap (λ p. p.0) h' in
              rw (← same) (record {
                head = head;
                rest = rest;
                queued = e;
                room = f;
                same_task = refl;
                same_key = refl;
                same_id = refl;
                result = sym left;
              })
        ]
      ]

  -- A call that assigns nothing leaves the queue as it is.
  pub take_next-none :
      (q : TaskQueue A) (worker_id key id now : ℕ) {q' : TaskQueue A}
      → take_next q worker_id key id now ≡ (q', none)
      → q' ≡ q
  unfolding take_next
  take_next-none q worker_id key id now {q' = q'} h = elim (List-cases (pending_of q key)) [
    | inl e ↦
        let h' : ◌≡◌ {A = TaskQueue A × Option (TaskAssignment A)} (q, none) (q', none) =
          rw (e, take_next) at h in
        sym (ap (λ p. p.0) h')
    | inr (head, rest, e) ↦ elim (Bool-cases (is_full q)) [
      | inl f ↦
          let h' : ◌≡◌ {A = TaskQueue A × Option (TaskAssignment A)} (q, none) (q', none) =
            rw (e, f, take_next) at h in
          sym (ap (λ p. p.0) h')
      | inr f ↦
          let b : TaskAssignment A = record {
            assignment_id = id;
            task = head.task;
            worker_id = worker_id;
            queued_at = head.queued_at;
            assigned_at = now;
            key = key;
          } in
          let h' : (
            record q { pending = dict_set q.pending key rest; running = record_running q b },
            some b,
          )
              ≡ (q', none) =
            rw (e, f, take_next) at h in
          let no : some b ≡ none = ap (λ p. p.1) h' in cc
    ]
  ]

  pub complete-result :
      (q : TaskQueue A) (id : ℕ) {q' : TaskQueue A}
      → complete q id ≡ ok q'
      → (a : TaskAssignment A) × (dict_get q.running id ≡ some a)
        × (q'
            ≡ record q { running = dict_pop q.running id; completed_count = q.completed_count + 1 })
  unfolding complete
  complete-result q id {q' = q'} h = elim (Option-cases q.max_running_tasks) [
    | inl e ↦ let h' : err Error.assertion_error ≡ ok q' = rw (e, complete) at h in cc
    | inr (m, e) ↦ elim (Option-cases (dict_get q.running id)) [
      | inl f ↦ let h' : err Error.assertion_error ≡ ok q' = rw (e, f, complete) at h in cc
      | inr (a, f) ↦
          let h' : ok (record q {
            running = dict_pop q.running id;
            completed_count = q.completed_count + 1;
          })
              ≡ ok q' =
            rw (e, f, complete) at h in
          (a, f, sym (ok-eq h'))
    ]
  ]

  pub create-result : (limit : Option ℕ) {q : TaskQueue A} → create limit ≡ ok q → q ≡ fresh limit
  unfolding create
  create-result none h = sym (ok-eq h)
  create-result (some zero) h = cc
  create-result (some (suc m)) h = sym (ok-eq h)

  -- What holds of the running table.
  record IsBounded (limit : Option ℕ) (q : TaskQueue A) (given : List (TaskAssignment A))
      : Type 0 where
    same_limit : q.max_running_tasks ≡ limit
    within : (m : ℕ) → limit ≡ some m → length q.running ≤ m
    counted : (m : ℕ) → limit ≡ some m → length q.running + q.completed_count ≡ length given

  record_running-some :
      (q : TaskQueue A) (a : TaskAssignment A) (m : ℕ)
      → q.max_running_tasks ≡ some m
      → record_running q a ≡ dict_set q.running a.assignment_id a
  unfolding record_running
  record_running-some q a m e = rw e refl

  is_full-room :
      (q : TaskQueue A) (m : ℕ)
      → q.max_running_tasks ≡ some m
      → is_full q ≡ false
      → length q.running < m
  unfolding is_full
  is_full-room q m e f = let f' : leb m (length q.running) ≡ false = rw e at f in ground (arith, f')

  Run-IsBounded :
      {limit : Option ℕ} {q : TaskQueue A} {puts : List (ℕ × A)} {given : List (TaskAssignment A)}
      → Run limit q puts given
      → IsBounded limit q given
  unfolding put put_many
  Run-IsBounded {limit = limit} (created h) =
      let e = create-result limit h in
      rw e (record { same_limit = refl; within = λ m f. omega arith; counted = λ m f. refl })
  Run-IsBounded (called_put r task key now) =
      let b = Run-IsBounded r in
      record { same_limit = b.same_limit; within = b.within; counted = b.counted }
  Run-IsBounded (called_put_many r tasks key now) =
      let b = Run-IsBounded r in
      record { same_limit = b.same_limit; within = b.within; counted = b.counted }
  Run-IsBounded {limit = limit}
        (called_get {q = q} {given = given} r worker_id key id now a unused h) =
      let b = Run-IsBounded r in
      let t = take_next-Takes q worker_id key id now h in
      let unused' : dict_get q.running a.assignment_id ≡ none = rw t.same_id unused in
      rw t.result (record {
        same_limit = b.same_limit;
        within = λ m f. rw (record_running-some q a m (b.same_limit ∙ f)) (
            omega (
              arith,
              length-dict_set_fresh q.running a.assignment_id a unused',
              is_full-room q m (b.same_limit ∙ f) t.room,
            ));
        counted = λ m f. rw (record_running-some q a m (b.same_limit ∙ f)) (
            omega (
              arith,
              length-dict_set_fresh q.running a.assignment_id a unused',
              b.counted m f,
              length-append given (a ∷ []),
            ));
      })
  Run-IsBounded (refused {q = q} r worker_id key id now h) =
      rw (take_next-none q worker_id key id now h) (Run-IsBounded r)
  Run-IsBounded {limit = limit} (called_complete {q = q} r id h) =
      let b = Run-IsBounded r in
      let (a, found, e) = complete-result q id h in
      rw e (record {
        same_limit = b.same_limit;
        within = λ m f. omega (arith, length-dict_pop q.running id found, b.within m f);
        counted = λ m f. omega (arith, length-dict_pop q.running id found, b.counted m f);
      })

  -- A queue with a limit never has more tasks running than the limit, whatever calls are made, and
  -- each assignment that was given out is either running or counted as completed.
  pub running-bounded :
      (m : ℕ) (q : TaskQueue A) (puts : List (ℕ × A)) (given : List (TaskAssignment A))
      → Run (some m) q puts given
      → (length q.running ≤ m) × (length q.running + q.completed_count ≡ length given)
  running-bounded m q puts given r = let b = Run-IsBounded r in (b.within m refl, b.counted m refl)
