-- ===== src/GoPool/Places.antt =====
-- The places of a list of workers, and how often a task stands in a list or in the hands of workers.
use anycable_go.Base.{
  ℕ, zero, suc, ◌+◌, ◌≤◌, ◌<◌, ◌≡◌, refl, some, List, [], ◌∷◌, ◌++◌, length, arith, All, count,
}
use anycable_go.GoPool.{
  Worker, Stage, starting, waiting, running, worker_respawn_threshold, get_elem?, set, erase,
  task_list,
}

-- The task that a worker has in hand.
abbrev pub stage_tasks : Stage → List ℕ
stage_tasks (starting task) = task_list task
stage_tasks waiting = []
stage_tasks (running t) = t ∷ []

abbrev pub held : ℕ → List Worker → ℕ
held t [] = 0
held t (w ∷ ws) = count t (stage_tasks w.stage) + held t ws

pub held-append :
    (t : ℕ) (ws : List Worker) (w : Worker)
    → held t (ws ++ w ∷ []) ≡ held t ws + count t (stage_tasks w.stage)
held-append t [] w = omega arith
held-append t (x ∷ ws) w = omega (arith, held-append t ws w)

pub held-set :
    (t : ℕ) (ws : List Worker) (i : ℕ) (w v : Worker)
    → get_elem? ws i ≡ some w
    → held t (set ws i v) + count t (stage_tasks w.stage)
      ≡ held t ws + count t (stage_tasks v.stage)
held-set t [] i w v e = absurd (cc)
held-set t (x ∷ ws) zero w v e = let same : x ≡ w = ground arith in rw same (omega arith)
held-set t (x ∷ ws) (suc i) w v e = omega (arith, held-set t ws i w v e)

pub held-erase :
    (t : ℕ) (ws : List Worker) (i : ℕ) (w : Worker)
    → get_elem? ws i ≡ some w
    → held t (erase ws i) + count t (stage_tasks w.stage) ≡ held t ws
held-erase t [] i w e = absurd (cc)
held-erase t (x ∷ ws) zero w e = let same : x ≡ w = ground arith in rw same (omega arith)
held-erase t (x ∷ ws) (suc i) w e = omega (arith, held-erase t ws i w e)

pub length-set : (ws : List Worker) (i : ℕ) (v : Worker) → length (set ws i v) ≡ length ws
length-set [] i v = refl
length-set (x ∷ ws) zero v = refl
length-set (x ∷ ws) (suc i) v = omega (arith, length-set ws i v)

pub length-erase :
    (ws : List Worker) (i : ℕ) (w : Worker)
    → get_elem? ws i ≡ some w
    → length (erase ws i) + 1 ≡ length ws
length-erase [] i w e = absurd (cc)
length-erase (x ∷ ws) zero w e = omega arith
length-erase (x ∷ ws) (suc i) w e = omega (arith, length-erase ws i w e)

-- A worker leaves before its counter passes the threshold.
abbrev pub InBounds : Worker → Type 0
InBounds w = (1 ≤ w.counter) × (w.counter < worker_respawn_threshold)

pub get_elem?-InBounds :
    (ws : List Worker) (i : ℕ) (w : Worker) → All InBounds ws → get_elem? ws i ≡ some w → InBounds w
get_elem?-InBounds [] i w h e = absurd (cc)
get_elem?-InBounds (x ∷ ws) zero w h e = let same : x ≡ w = ground arith in rw (← same) h.0
get_elem?-InBounds (x ∷ ws) (suc i) w h e = get_elem?-InBounds ws i w h.1 e

pub set-InBounds :
    (ws : List Worker) (i : ℕ) (v : Worker)
    → All InBounds ws
    → InBounds v
    → All InBounds (set ws i v)
set-InBounds [] i v h b = tt
set-InBounds (x ∷ ws) zero v h b = (b, h.1)
set-InBounds (x ∷ ws) (suc i) v h b = (h.0, set-InBounds ws i v h.1 b)

pub erase-InBounds : (ws : List Worker) (i : ℕ) → All InBounds ws → All InBounds (erase ws i)
erase-InBounds [] i h = tt
erase-InBounds (x ∷ ws) zero h = h.1
erase-InBounds (x ∷ ws) (suc i) h = (h.0, erase-InBounds ws i h.1)

pub append-InBounds :
    (ws : List Worker) (v : Worker) → All InBounds ws → InBounds v → All InBounds (ws ++ v ∷ [])
append-InBounds [] v h b = (b, tt)
append-InBounds (x ∷ ws) v h b = (h.0, append-InBounds ws v h.1 b)
