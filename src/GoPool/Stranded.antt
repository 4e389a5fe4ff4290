-- ===== src/GoPool/Stranded.antt =====
-- The tasks that wait in a pool of utils/gopool.go whose last worker leaves.
use anycable_go.Base.{
  ℕ, ◌+◌, ◌-◌, ◌≡◌, refl, ◌∙◌, ap, some, List, [], ◌∷◌, ◌++◌, append-nil, append_assoc, arith, inl,
  inr, Option-cases,
}
use anycable_go.GoPool.{
  Worker, running, GoPool, PoolEvent, queues, spawns, times_out, takes, returns, pool_event,
  pool_events, worker_respawn_threshold,
}
use anycable_go.GoPool.Steps.{taken_in, all_taken_in}

-- Nobody chooses to start a worker.
abbrev pub NoSpawns : List PoolEvent → Type 0
NoSpawns [] = Unit
NoSpawns (spawns t ∷ es) = ⊥
NoSpawns (queues t ∷ es) = NoSpawns es
NoSpawns (times_out t ∷ es) = NoSpawns es
NoSpawns (takes i ∷ es) = NoSpawns es
NoSpawns (returns i ∷ es) = NoSpawns es

-- A pool without workers, after it has taken tasks in.
abbrev pub OnlyWaits : List ℕ → GoPool → GoPool → Type 0
OnlyWaits ts p p' = (p'.workers ≡ []) × (p'.done ≡ p.done) × (p'.work ≡ p.work ++ ts)

step-OnlyWaits :
    (p : GoPool) (e : PoolEvent) (p' : GoPool)
    → NoSpawns (e ∷ [])
    → p.workers ≡ []
    → pool_event p e ≡ some p'
    → OnlyWaits (taken_in e) p p'
unfolding pool_event
step-OnlyWaits p (spawns t) p' calm empty h = absurd calm
step-OnlyWaits p (queues t) p' calm empty h = ground arith
step-OnlyWaits p (times_out t) p' calm empty h = ground (arith, append-nil p.work)
step-OnlyWaits p (takes i) p' calm empty h = absurd (ground arith)
step-OnlyWaits p (returns i) p' calm empty h = absurd (ground arith)

first-NoSpawns :
    (e : PoolEvent) (es : List PoolEvent) → NoSpawns (e ∷ es) → NoSpawns (e ∷ []) × NoSpawns es
first-NoSpawns (spawns t) es h = absurd h
first-NoSpawns (queues t) es h = (tt, h)
first-NoSpawns (times_out t) es h = (tt, h)
first-NoSpawns (takes i) es h = (tt, h)
first-NoSpawns (returns i) es h = (tt, h)

steps-OnlyWaits :
    (es : List PoolEvent) (p p' : GoPool)
    → NoSpawns es
    → p.workers ≡ []
    → pool_events es p ≡ some p'
    → OnlyWaits (all_taken_in es) p p'
unfolding pool_events
steps-OnlyWaits [] p p' calm empty h = ground (arith, append-nil p.work)
steps-OnlyWaits (e ∷ es) p p' calm empty h = elim (Option-cases (pool_event p e)) [
  | inl halted ↦ absurd (ground arith)
  | inr (q, step) ↦
      let (here, later) = first-NoSpawns e es calm in
      let (none_left, done, work) = step-OnlyWaits p e q here empty step in
      let (none_left', done', work') = steps-OnlyWaits es q p' later none_left (rw step at h) in
      (
        none_left',
        done' ∙ done,
        work'
            ∙ ap (λ (z : List ℕ). z ++ all_taken_in es) work
            ∙ append_assoc p.work (taken_in e) (all_taken_in es),
      )
]

-- If the only worker of a pool calls the last task before it leaves, no other task is called until a
-- schedule happens to choose a new worker: those in the channel stay, and later ones join them.
pub last_worker_strands :
    (p p' : GoPool) (w : Worker) (t : ℕ) (es : List PoolEvent)
    → p.workers ≡ w ∷ []
    → w.stage ≡ running t
    → worker_respawn_threshold ≡ w.counter + 1
    → NoSpawns es
    → pool_events (returns 0 ∷ es) p ≡ some p'
    → (p'.workers ≡ []) × (p'.done ≡ p.done ++ t ∷ []) × (p'.work ≡ p.work ++ all_taken_in es)
unfolding pool_events pool_event
last_worker_strands p p' w t es only calls last calm h =
    let q = record p { sem = p.sem - 1; workers = []; done = p.done ++ t ∷ [] } in
    let gone : pool_event p (returns 0) ≡ some q = ground arith in
    steps-OnlyWaits es q p' calm refl (rw gone at h)
