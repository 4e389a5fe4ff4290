-- ===== src/GoPool/Steps.antt =====
-- What every step of the pool in utils/gopool.go keeps.
use anycable_go.Base.{
  ℕ, ◌+◌, ◌-◌, ◌≡◌, refl, ◌∙◌, sym, ap, some, List, [], ◌∷◌, ◌++◌, length, leb, arith, inl, inr,
  Bool-cases, Option-cases, count, count-append,
}
use anycable_go.GoPool.{
  Worker, Stage, starting, waiting, running, GoPool, PoolEvent, queues, spawns, times_out, takes,
  returns, take_task, finish_task, task_list, pool_event, pool_events, get_elem?, set, erase,
  worker_respawn_threshold,
}
use anycable_go.GoPool.Places.{
  stage_tasks, held-set, held-erase, length-set, length-erase, InBounds, get_elem?-InBounds,
  set-InBounds, erase-InBounds,
}
use anycable_go.GoPool.Soundness.{Sound, Keeps, reaches, start_worker-Keeps, queue-Keeps}

-- How often a task has been called, is in a worker's hands or waits in the channel.
module _ (p : GoPool) (i : ℕ) (w : Worker) (s : Sound p) (at : get_elem? p.workers i ≡ some w) where
  take-Keeps :
      (work : List ℕ) (stage : Stage) (p' : GoPool)
      → p.work ≡ work
      → w.stage ≡ stage
      → take_task p i w work stage ≡ some p'
      → Keeps [] p p'
  unfolding take_task
  take-Keeps [] stage p' e f h = absurd (cc)
  take-Keeps (t ∷ work) (starting task) p' e f h = absurd (cc)
  take-Keeps (t ∷ work) (running u) p' e f h = absurd (cc)
  take-Keeps (t ∷ work) waiting p' e f h =
      let v = record w { stage = running t } in
      reaches [] p (record p { work = work; workers = set p.workers i v })
        (
          record {
            places = s.places ∙ sym (length-set p.workers i v);
            limit = s.limit;
            room = let shorter = ap (λ (z : List ℕ). length z) e in let r = s.room in omega arith;
            bounds =
                set-InBounds p.workers i v s.bounds (get_elem?-InBounds p.workers i w s.bounds at);
          },
          refl,
          refl,
          λ u.
              let free = ap (λ (z : Stage). count u (stage_tasks z)) f in
              let before = ap (λ (z : List ℕ). count u z) e in
              omega (arith, held-set u p.workers i w v at),
        )
        refl h

  -- A worker that has called its task and stays.
  stays-Keeps :
      (v : Worker) (tasks : List ℕ)
      → stage_tasks w.stage ≡ tasks
      → v.stage ≡ waiting
      → InBounds v
      → Keeps [] p (record p { workers = set p.workers i v; done = p.done ++ tasks })
  stays-Keeps v tasks e f b = (
    record {
      places = s.places ∙ sym (length-set p.workers i v);
      limit = s.limit;
      room = s.room;
      bounds = set-InBounds p.workers i v s.bounds b;
    },
    refl,
    refl,
    λ u.
        let free = ap (λ (z : Stage). count u (stage_tasks z)) f in
        let before = ap (λ (z : List ℕ). count u z) e in
        omega (arith, held-set u p.workers i w v at, count-append u p.done tasks),
  )

  leaves-Keeps :
      (tasks : List ℕ)
      → stage_tasks w.stage ≡ tasks
      → Keeps [] p
          (record p { sem = p.sem - 1; workers = erase p.workers i; done = p.done ++ tasks })
  leaves-Keeps tasks e =
      let less = length-erase p.workers i w at in
      let places = s.places in
      let limit = s.limit in
      (
        record {
          places = omega arith;
          limit = omega arith;
          room = s.room;
          bounds = erase-InBounds p.workers i s.bounds;
        },
        refl,
        refl,
        λ u.
            let before = ap (λ (z : List ℕ). count u z) e in
            omega (arith, held-erase u p.workers i w at, count-append u p.done tasks),
      )

  finish-Keeps :
      (stage : Stage) (p' : GoPool)
      → w.stage ≡ stage
      → finish_task p i w stage ≡ some p'
      → Keeps [] p p'
  unfolding finish_task
  finish-Keeps waiting p' f h = absurd (cc)
  finish-Keeps (starting task) p' f h =
      reaches [] p _
        (stays-Keeps (record w { stage = waiting }) (task_list task) (ap stage_tasks f) refl
          (get_elem?-InBounds p.workers i w s.bounds at))
        refl h
  finish-Keeps (running t) p' f h =
      elim (Bool-cases (leb worker_respawn_threshold (w.counter + 1))) [
        | inl last ↦ reaches [] p _ (leaves-Keeps (t ∷ []) (ap stage_tasks f)) (rw last refl) h
        | inr more ↦
            reaches [] p _
              (stays-Keeps (record { counter = w.counter + 1; stage = waiting }) (t ∷ [])
                (ap stage_tasks f) refl (ground arith))
              (rw more refl) h
      ]

-- The tasks that an event takes in.
abbrev pub taken_in : PoolEvent → List ℕ
taken_in (queues t) = t ∷ []
taken_in (spawns t) = t ∷ []
taken_in (times_out t) = []
taken_in (takes i) = []
taken_in (returns i) = []

abbrev pub all_taken_in : List PoolEvent → List ℕ
all_taken_in [] = []
all_taken_in (e ∷ es) = taken_in e ++ all_taken_in es

pub pool_event-Keeps :
    (p : GoPool) (e : PoolEvent) (p' : GoPool)
    → Sound p
    → pool_event p e ≡ some p'
    → Keeps (taken_in e) p p'
unfolding pool_event
pool_event-Keeps p (queues t) p' s h = queue-Keeps p t p' s h
pool_event-Keeps p (spawns t) p' s h = start_worker-Keeps p (some t) p' s h
pool_event-Keeps p (times_out t) p' s h = reaches [] p p (s, refl, refl, λ u. omega arith) refl h
pool_event-Keeps p (takes i) p' s h = elim (Option-cases (get_elem? p.workers i)) [
  | inl missing ↦ absurd (ground arith)
  | inr (w, at) ↦ take-Keeps p i w s at p.work w.stage p' refl refl (ground arith)
]
pool_event-Keeps p (returns i) p' s h = elim (Option-cases (get_elem? p.workers i)) [
  | inl missing ↦ absurd (ground arith)
  | inr (w, at) ↦ finish-Keeps p i w s at w.stage p' refl (ground arith)
]

-- Whatever the order in which tasks are scheduled and workers go on, there are never more workers than
-- the size, the channel holds no more than its room, a worker leaves before its counter passes the
-- threshold, and no task is lost or doubled: each is called, is in a worker's hands or waits as often
-- as it was before and has been taken in since.
pub pool_events-Keeps :
    (es : List PoolEvent) (p p' : GoPool)
    → Sound p
    → pool_events es p ≡ some p'
    → Keeps (all_taken_in es) p p'
unfolding pool_events
pool_events-Keeps [] p p' s h = reaches [] p p (s, refl, refl, λ u. omega arith) refl h
pool_events-Keeps (e ∷ es) p p' s h = elim (Option-cases (pool_event p e)) [
  | inl halted ↦ absurd (ground arith)
  | inr (q, step) ↦
      let (sound, size, queue, all) = pool_event-Keeps p e q s step in
      let (sound', size', queue', all') = pool_events-Keeps es q p' sound (rw step at h) in
      (
        sound',
        size' ∙ size,
        queue' ∙ queue,
        λ t.
            let first = all t in
            let later = all' t in omega (arith, count-append t (taken_in e) (all_taken_in es)),
      )
]
