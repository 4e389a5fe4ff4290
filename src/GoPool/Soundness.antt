-- ===== src/GoPool/Soundness.antt =====
-- What stays true of the pool of utils/gopool.go, and its steps that have no worker of their own.
use anycable_go.Base.{
  ℕ, ◌+◌, ◌≤◌, ◌≡◌, refl, subst, Option, some, List, [], ◌∷◌, ◌++◌, length, length-append, ltb,
  ltb→lt, arith, All, inl, inr, Bool-cases, count, count-append,
}
use anycable_go.GoPool.{GoPool, queues, new_worker, start_worker, task_list, pool_event}
use anycable_go.GoPool.Places.{held, held-append, InBounds, append-InBounds}

abbrev pub total : ℕ → GoPool → ℕ
total t p = count t p.done + held t p.workers + count t p.work

pub record Sound (p : GoPool) : Type 0 where
  pub places : p.sem ≡ length p.workers
  pub limit : p.sem ≤ p.size
  pub room : length p.work ≤ p.queue
  pub bounds : All InBounds p.workers

-- A step that takes these tasks in.
abbrev pub Keeps : List ℕ → GoPool → GoPool → Type 0
Keeps ts p p' =
    Sound p'
    × (p'.size ≡ p.size)
    × (p'.queue ≡ p.queue)
    × ((t : ℕ) → total t p' ≡ total t p + count t ts)

pub reaches :
    (ts : List ℕ) (p q : GoPool) {p' : GoPool} {o : Option GoPool}
    → Keeps ts p q
    → o ≡ some q
    → o ≡ some p'
    → Keeps ts p p'
reaches ts p q {p'} k there e = let same : q ≡ p' = cc in subst (Keeps ts p) same k

pub start_worker-Keeps :
    (p : GoPool) (task : Option ℕ) (p' : GoPool)
    → Sound p
    → start_worker p task ≡ some p'
    → Keeps (task_list task) p p'
unfolding start_worker
start_worker-Keeps p task p' s e = elim (Bool-cases (ltb p.sem p.size)) [
  | inr full ↦ absurd (ground arith)
  | inl free ↦
      reaches (task_list task) p
        (record p { sem = p.sem + 1; workers = p.workers ++ new_worker task ∷ [] })
        (
          record {
            places = omega (arith, length-append p.workers (new_worker task ∷ []), s.places);
            limit = let less = ltb→lt _ _ free in omega arith;
            room = s.room;
            bounds = append-InBounds p.workers (new_worker task) s.bounds (omega arith);
          },
          refl,
          refl,
          λ t. omega (arith, held-append t p.workers (new_worker task)),
        )
        (rw free refl) e
]

pub queue-Keeps :
    (p : GoPool) (task : ℕ) (p' : GoPool)
    → Sound p
    → pool_event p (queues task) ≡ some p'
    → Keeps (task ∷ []) p p'
unfolding pool_event
queue-Keeps p task p' s e = elim (Bool-cases (ltb (length p.work) p.queue)) [
  | inr full ↦ absurd (ground arith)
  | inl free ↦
      reaches (task ∷ []) p (record p { work = p.work ++ task ∷ [] })
        (
          record {
            places = s.places;
            limit = s.limit;
            room = let less = ltb→lt _ _ free in omega (arith, length-append p.work (task ∷ []));
            bounds = s.bounds;
          },
          refl,
          refl,
          λ t. omega (arith, count-append t p.work (task ∷ [])),
        )
        (rw free refl) e
]
