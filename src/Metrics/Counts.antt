-- ===== src/Metrics/Counts.antt =====
-- What the deltas of a counter of metrics/counter.go add up to.
use anycable_go.Base.{ℕ, ◌+◌, ◌%◌, ◌<◌, ◌≡◌, String, List, [], ◌∷◌, arith}
use anycable_go.Metrics.{
  Counter, CounterEvent, adds, rotates, counter_events, counter_add, update_delta, u64_mod,
  new_counter,
}

abbrev pub sum : List ℕ → ℕ
sum [] = 0
sum (x ∷ xs) = x + sum xs

-- What was added over all events.
abbrev pub added : List CounterEvent → ℕ
added [] = 0
added (adds n ∷ es) = n + added es
added (rotates ∷ es) = added es

counter_events_value :
    (c : Counter) (es : List CounterEvent)
    → c.value < u64_mod
    → (counter_events c es).0.value ≡ (c.value + added es) % u64_mod
unfolding counter_events counter_add update_delta
counter_events_value c [] small = omega arith
counter_events_value c (adds n ∷ es) small =
    omega (arith, counter_events_value (counter_add c n) es (omega arith))
counter_events_value c (rotates ∷ es) small =
    omega (arith, counter_events_value (update_delta c) es small)

counter_events_last :
    (c : Counter) (es : List CounterEvent)
    → c.value < u64_mod
    → c.last_interval_value < u64_mod
    → (c.last_interval_value + sum (counter_events c es).1) % u64_mod
      ≡ (counter_events c es).0.last_interval_value
unfolding counter_events counter_add update_delta
counter_events_last c [] small last = omega arith
counter_events_last c (adds n ∷ es) small last =
    counter_events_last (counter_add c n) es (omega arith) last
counter_events_last c (rotates ∷ es) small last =
    omega (arith, counter_events_last (update_delta c) es small small)

-- Over any sequence of additions and rotations of a new counter its value is the sum of what was
-- added, and the deltas that the rotations recorded add up to its value at the last rotation, both
-- up to the wrap of uint64: each addition is reported in exactly one interval.
pub counter_deltas_sum :
    (name desc : String) (es : List CounterEvent)
    → let r = counter_events (new_counter name desc) es in
      (r.0.value ≡ added es % u64_mod) × (sum r.1 % u64_mod ≡ r.0.last_interval_value)
unfolding new_counter
counter_deltas_sum name desc es =
    let value = counter_events_value (new_counter name desc) es (omega arith) in
    let last = counter_events_last (new_counter name desc) es (omega arith) (omega arith) in
    (omega arith, omega arith)
