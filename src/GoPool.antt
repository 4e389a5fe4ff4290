-- ===== src/GoPool.antt =====
-- utils/gopool.go: the pool of goroutines that runs the hub's tasks. A send to a channel, a receive and
-- a call of a task are one step each, in any order of the workers and of those who schedule.
mod Places
pub mod Soundness
pub mod Steps
pub mod Stranded
pub mod Fresh
mod Tests
use anycable_go.Base.{
  ℕ, zero, suc, ◌+◌, ◌-◌, ◌/◌, String, Bool, true, false, Option, none, some, List, [], ◌∷◌, ◌++◌,
  length, ltb, leb, ◌==◌, if◌then◌else◌,
}

abbrev pub worker_respawn_threshold : ℕ
worker_respawn_threshold = 65536

-- Tasks are told apart by numbers. A worker calls the task that it was made with, which is none for a
-- worker of a new pool, then waits for the channel `work`, or calls a task from it.
pub data Stage : Type 0 where
  starting : Option ℕ → Stage
  waiting : Stage
  running : ℕ → Stage

pub record Worker : Type 0 where
  pub counter : ℕ
  pub stage : Stage

-- `sem` is the number of values in the channel of that name, whose capacity is `size`; `done` holds the
-- tasks that have returned.
pub record GoPool : Type 0 where
  pub name : String
  pub size : ℕ
  pub queue : ℕ
  pub sem : ℕ
  pub work : List ℕ
  pub workers : List Worker
  pub done : List ℕ

abbrev pub new_worker : Option ℕ → Worker
new_worker task = record { counter = 1; stage = starting task }

-- A send to `sem`, and the goroutine that follows it; `none` where the send has to wait.
unfoldable pub start_worker : GoPool → Option ℕ → Option GoPool
start_worker p task =
    if ltb p.sem p.size
    then some (record p { sem = p.sem + 1; workers = p.workers ++ new_worker task ∷ [] })
    else none

abbrev pub then_pool : (GoPool → Option GoPool) → Option GoPool → Option GoPool
then_pool f none = none
then_pool f (some p) = f p

unfoldable pub spawn_workers : ℕ → GoPool → Option GoPool
unfolding start_worker
spawn_workers zero p = some p
spawn_workers (suc n) p = then_pool (spawn_workers n) (start_worker p none)

unfoldable pub spawn_size : ℕ → ℕ
spawn_size size =
    let spawn = size / 5 in
    let spawn' = if spawn == 0 then 1 else spawn in if ltb 1024 spawn' then 1024 else spawn'

unfoldable pub queue_size : ℕ → ℕ
queue_size size = let queue = size / 2 in if queue == 0 then 1 else queue

-- `none` where the loop waits for ever. A negative size panics, and is left out.
unfoldable pub new_go_pool : String → ℕ → Option GoPool
unfolding spawn_workers spawn_size queue_size
new_go_pool name size = spawn_workers (spawn_size size) (record {
  name = name;
  size = size;
  queue = queue_size size;
  sem = 0;
  work = [];
  workers = [];
  done = [];
})

-- The cases of the `select` in `schedule`, and what a worker does: it receives a task, or its task
-- returns.
pub data PoolEvent : Type 0 where
  queues : ℕ → PoolEvent
  spawns : ℕ → PoolEvent
  times_out : ℕ → PoolEvent
  takes : ℕ → PoolEvent
  returns : ℕ → PoolEvent

module _ {ℓ} {A : Type ℓ} where
  abbrev pub get_elem? : List A → ℕ → Option A
  get_elem? [] i = none
  get_elem? (x ∷ xs) zero = some x
  get_elem? (x ∷ xs) (suc i) = get_elem? xs i

  abbrev pub set : List A → ℕ → A → List A
  set [] i v = []
  set (x ∷ xs) zero v = v ∷ xs
  set (x ∷ xs) (suc i) v = x ∷ set xs i v

  -- A list without the element at a place.
  abbrev pub erase : List A → ℕ → List A
  erase [] i = []
  erase (x ∷ xs) zero = xs
  erase (x ∷ xs) (suc i) = x ∷ erase xs i

take_task : GoPool → ℕ → Worker → List ℕ → Stage → Option GoPool
take_task p i w (t ∷ work) waiting =
    some (record p { work = work; workers = set p.workers i (record w { stage = running t }) })
take_task p i w _ _ = none

abbrev pub task_list : Option ℕ → List ℕ
task_list none = []
task_list (some t) = t ∷ []

-- The first task is not counted; after the last the worker leaves, and gives back its place in `sem`.
finish_task : GoPool → ℕ → Worker → Stage → Option GoPool
finish_task p i w (starting task) = some (record p {
  workers = set p.workers i (record w { stage = waiting });
  done = p.done ++ task_list task;
})
finish_task p i w (running t) =
    let counter = w.counter + 1 in
    if leb worker_respawn_threshold counter
    then some (record p { sem = p.sem - 1; workers = erase p.workers i; done = p.done ++ t ∷ [] })
    else some (record p {
      workers = set p.workers i (record { counter = counter; stage = waiting });
      done = p.done ++ t ∷ [];
    })
finish_task p i w waiting = none

-- `none` where the event cannot happen.
unfoldable pub pool_event : GoPool → PoolEvent → Option GoPool
unfolding start_worker take_task finish_task
pool_event p (queues t) =
    if ltb (length p.work) p.queue then some (record p { work = p.work ++ t ∷ [] }) else none
pool_event p (spawns t) = start_worker p (some t)
pool_event p (times_out t) = some p
pool_event p (takes i) = elim (get_elem? p.workers i) [
  | none ↦ none
  | some w ↦ take_task p i w p.work w.stage
]
pool_event p (returns i) = elim (get_elem? p.workers i) [
  | none ↦ none
  | some w ↦ finish_task p i w w.stage
]

unfoldable pub pool_events : List PoolEvent → GoPool → Option GoPool
unfolding pool_event
pool_events [] p = some p
pool_events (e ∷ es) p = then_pool (pool_events es) (pool_event p e)
