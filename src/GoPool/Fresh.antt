-- ===== src/GoPool/Fresh.antt =====
-- A new pool of utils/gopool.go, and every pool that comes of it.
use native.Mathlib.Decide.{dec_lt}
use anycable_go.Base.{
  ℕ, zero, suc, ◌+◌, ◌/◌, ◌≤◌, ◌<◌, ◌≡◌, refl, ◌∙◌, sym, ap, subst, Option, none, some, List, [],
  ◌∷◌, ◌++◌, length, ltb, if◌then◌else◌, arith, inl, inr, ◌⊎◌, String, count,
}
use anycable_go.GoPool.{
  GoPool, PoolEvent, new_worker, start_worker, then_pool, spawn_workers, spawn_size, queue_size,
  new_go_pool, pool_events,
}
use anycable_go.GoPool.Soundness.{Sound, total, start_worker-Keeps}
use anycable_go.GoPool.Steps.{all_taken_in, pool_events-Keeps}

abbrev pub max : ℕ → ℕ → ℕ
max a b = if ltb a b then b else a

abbrev pub min : ℕ → ℕ → ℕ
min a b = if ltb a b then a else b

spawn_size_bounds : (size : ℕ) → 1 ≤ size → (1 ≤ spawn_size size) × (spawn_size size ≤ size)
unfolding spawn_size
spawn_size_bounds size h = ground arith

queue_size_lem : (size : ℕ) → queue_size size ≡ max 1 (size / 2)
unfolding queue_size
queue_size_lem size = ground arith

spawn_size_lem : (size : ℕ) → spawn_size size ≡ max 1 (min 1024 (size / 5))
unfolding spawn_size
spawn_size_lem size = ground arith

null_pool : (name : String) → new_go_pool name 0 ≡ none
unfolding new_go_pool
null_pool name = refl

start_free :
    (p : GoPool) (task : Option ℕ)
    → p.sem < p.size
    → (p' : GoPool) × (start_worker p task ≡ some p') × (p'.sem ≡ p.sem + 1) × (p'.work ≡ p.work)
unfolding start_worker
start_free p task h = (
  record p { sem = p.sem + 1; workers = p.workers ++ new_worker task ∷ [] },
  ground arith,
  refl,
  refl,
)

abbrev Spawned : ℕ → GoPool → Option GoPool → Type 0
Spawned n p o =
    (p' : GoPool) × (o ≡ some p')
    × Sound p'
    × (p'.size ≡ p.size)
    × (p'.queue ≡ p.queue)
    × (p'.sem ≡ p.sem + n)
    × ((t : ℕ) → total t p' ≡ total t p)

spawn_all : (n : ℕ) (p : GoPool) → Sound p → p.sem + n ≤ p.size → Spawned n p (spawn_workers n p)
unfolding spawn_workers
spawn_all zero p s room = (p, refl, s, refl, refl, omega arith, λ t. refl)
spawn_all (suc n) p s room =
    let (q, step, more, work) = start_free p none (omega arith) in
    let (sound, size, queue, all) = start_worker-Keeps p none q s step in
    let (p', rest, sound', size', queue', sem', all') = spawn_all n q sound (omega arith) in
    (
      p',
      ap (then_pool (spawn_workers n)) step ∙ rest,
      sound',
      size' ∙ size,
      queue' ∙ queue,
      omega arith,
      λ t. let a = all t in let b = all' t in omega arith,
    )

-- A pool of size 0 is never made: its first worker waits for ever. Any other starts with a fifth of its
-- size in workers, one at least and 1024 at most, and with room for half of its size in tasks, one
-- at least.
pub new_go_pool_cases :
    (name : String) (size : ℕ)
    → ((size ≡ 0) × (new_go_pool name size ≡ none))
      ⊎ ((1 ≤ size)
          × ((p : GoPool) × (new_go_pool name size ≡ some p)
              × Sound p
              × (p.size ≡ size)
              × (p.queue ≡ max 1 (size / 2))
              × (length p.workers ≡ max 1 (min 1024 (size / 5)))
              × ((t : ℕ) → total t p ≡ 0)))
unfolding new_go_pool
new_go_pool_cases name size = elim (dec_lt 0 size) [
  | no null ↦
      inl (omega arith, let null_size : size ≡ 0 = omega arith in rw null_size (null_pool name))
  | yes pos ↦
      let p : GoPool = record {
        name = name;
        size = size;
        queue = queue_size size;
        sem = 0;
        work = [];
        workers = [];
        done = [];
      } in
      let (low, high) = spawn_size_bounds size (omega arith) in
      let (p', made, sound, size', queue', sem', all') =
        spawn_all (spawn_size size) p
          (record { places = refl; limit = omega arith; room = omega arith; bounds = tt })
          (omega arith) in
      let places = sound.places in
      let started : p'.sem ≡ spawn_size size = omega arith in
      inr (
        omega arith,
        (
          p',
          made,
          sound,
          size',
          queue' ∙ queue_size_lem size,
          sym places ∙ started ∙ spawn_size_lem size,
          all',
        ),
      )
]

-- A pool that was made with a size: whatever happens to it, there are never more workers than the size,
-- its channel never holds more than its room, and every task that was taken in has been called, is in
-- a worker's hands or waits, as often as it was taken in.
pub go_pool_safe :
    (name : String) (size : ℕ) (p p' : GoPool) (es : List PoolEvent)
    → new_go_pool name size ≡ some p
    → pool_events es p ≡ some p'
    → (length p'.workers ≤ size)
      × (length p'.work ≤ max 1 (size / 2))
      × ((t : ℕ) → total t p' ≡ count t (all_taken_in es))
go_pool_safe name size p p' es made run = elim (new_go_pool_cases name size) [
  | inl (null, never) ↦ absurd (cc)
  | inr (pos, (q, made', sound, size', queue, workers, all)) ↦
      let same : q ≡ p = cc in
      let (sound', size'', queue'', all'') =
        pool_events-Keeps es p p' (subst Sound same sound) run in
      let sz = ap (λ (z : GoPool). z.size) same in
      let qu = ap (λ (z : GoPool). z.queue) same in
      let places = sound'.places in
      let limit = sound'.limit in
      let fits : length p'.work ≤ p'.queue = sound'.room in
      let room : p'.queue ≡ max 1 (size / 2) = queue'' ∙ sym qu ∙ queue in
      (
        omega arith,
        rw room at fits,
        λ t.
            let before = ap (λ (z : GoPool). total t z) same ∙ refl in
            let start = all t in let after = all'' t in omega arith,
      )
]
