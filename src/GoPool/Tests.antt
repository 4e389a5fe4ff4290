-- ===== src/GoPool/Tests.antt =====
-- GoPool: the properties at small pools.
use anycable_go.Base.{ℕ, ◌≤◌, ◌≡◌, refl, some, none, List, [], ◌∷◌, arith, count}
use anycable_go.GoPool.{
  GoPool, PoolEvent, queues, spawns, takes, returns, times_out, running, new_go_pool, pool_events,
  Worker, Stage, starting,
}
use anycable_go.GoPool.Soundness.{total}
use anycable_go.GoPool.Fresh.{go_pool_safe}
use anycable_go.GoPool.Stranded.{last_worker_strands}

abbrev small : GoPool
small = record {
  name = "broadcast";
  size = 2;
  queue = 1;
  sem = 1;
  work = [];
  workers = record { counter = 1; stage = starting none } ∷ [];
  done = [];
}

small_made : new_go_pool "broadcast" 2 ≡ some small
unfolding new_go_pool
small_made = refl

abbrev day : List PoolEvent
day =
    queues 7 ∷ returns 0 ∷ spawns 8 ∷ takes 0 ∷ queues 9 ∷ times_out 5 ∷ returns 1 ∷ returns 0 ∷ []

abbrev evening : GoPool
evening = record small {
  sem = 2;
  work = 9 ∷ [];
  workers =
      record { counter = 2; stage = Stage.waiting }
      ∷ record { counter = 1; stage = Stage.waiting }
      ∷ [];
  done = 8 ∷ 7 ∷ [];
}

day_goes : pool_events day small ≡ some evening
unfolding pool_events
day_goes = refl

go_pool_safe_example : (2 ≤ 2) × (1 ≤ 1) × ((t : ℕ) → total t evening ≡ count t (7 ∷ 8 ∷ 9 ∷ []))
go_pool_safe_example = go_pool_safe "broadcast" 2 small evening day small_made day_goes

abbrev tired : Worker
tired = record { counter = 65535; stage = running 1 }

abbrev busy : GoPool
busy = record small { size = 5; queue = 2; work = 2 ∷ []; workers = tired ∷ [] }

abbrev left : GoPool
left = record small { size = 5; queue = 2; sem = 0; work = 2 ∷ 3 ∷ []; workers = []; done = 1 ∷ [] }

busy_leaves : pool_events (returns 0 ∷ queues 3 ∷ []) busy ≡ some left
unfolding pool_events
busy_leaves = refl

last_worker_strands_example : (left.workers ≡ []) × (left.done ≡ 1 ∷ []) × (left.work ≡ 2 ∷ 3 ∷ [])
last_worker_strands_example =
    last_worker_strands busy left tired 1 (queues 3 ∷ []) refl refl (omega arith) tt busy_leaves
