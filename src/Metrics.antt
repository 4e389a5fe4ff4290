-- ===== src/Metrics.antt =====
-- metrics/counter.go, metrics/gauge.go and the registry of metrics/metrics.go: an atomic access or a
-- locked section is one step.
pub mod Counts
pub mod Snapshot
pub mod Running
pub mod Making
mod Tests
use anycable_go.Base.{
  ℕ, ◌+◌, ◌-◌, ◌%◌, ◌^◌, String, Bool, true, false, Option, none, some, List, [], ◌∷◌, ◌==◌,
  if◌then◌else◌,
}
use anycable_go.Base.GoMap.{GoMap, lookup, insert, adjust}
use anycable_go.Base.Outcome.{Outcome, ok, panic}

-- Counters and gauges are uint64.
abbrev pub u64_mod : ℕ
u64_mod = 2 ^ 64

-- `atomic.AddUint64`.
abbrev pub add_u64 : ℕ → ℕ → ℕ
add_u64 a n = (a + n) % u64_mod

abbrev pub sub_u64 : ℕ → ℕ → ℕ
sub_u64 a n = (a + (u64_mod - n % u64_mod)) % u64_mod

abbrev pub inc : ℕ → ℕ
inc n = (n + 1) % u64_mod

-- The addition of `^uint64(0)`.
abbrev pub dec : ℕ → ℕ
dec n = (n + (u64_mod - 1)) % u64_mod

pub record Counter : Type 0 where
  pub name : String
  pub desc : String
  pub value : ℕ
  pub last_interval_value : ℕ
  pub last_interval_delta : ℕ

unfoldable pub new_counter : String → String → Counter
new_counter name desc = record {
  name = name;
  desc = desc;
  value = 0;
  last_interval_value = 0;
  last_interval_delta = 0;
}

unfoldable pub interval_value : Counter → ℕ
interval_value c = if c.last_interval_value == 0 then c.value else c.last_interval_delta

unfoldable pub counter_add : Counter → ℕ → Counter
counter_add c n = record c { value = add_u64 c.value n }

unfoldable pub update_delta : Counter → Counter
update_delta c = record c {
  last_interval_delta = sub_u64 c.value c.last_interval_value;
  last_interval_value = c.value;
}

pub record Gauge : Type 0 where
  pub name : String
  pub desc : String
  pub value : ℕ

unfoldable pub new_gauge : String → String → Gauge
new_gauge name desc = record { name = name; desc = desc; value = 0 }

-- `Set64`, and `Set` at an int that is not negative.
unfoldable pub gauge_set : Gauge → ℕ → Gauge
gauge_set g value = record g { value = value % u64_mod }

unfoldable pub gauge_inc : Gauge → Gauge
gauge_inc g = record g { value = inc g.value }

unfoldable pub gauge_dec : Gauge → Gauge
gauge_dec g = record g { value = dec g.value }

pub record Metrics : Type 0 where
  pub counters : GoMap Counter
  pub gauges : GoMap Gauge

unfoldable pub new_metrics : Metrics
new_metrics = record { counters = []; gauges = [] }

unfoldable pub register_counter : Metrics → String → String → Metrics
unfolding new_counter
register_counter m name desc = record m {
  counters = insert name (new_counter name desc) m.counters;
}

unfoldable pub register_gauge : Metrics → String → String → Metrics
unfolding new_gauge
register_gauge m name desc = record m { gauges = insert name (new_gauge name desc) m.gauges }

-- `m.Counter(name).Add(n)`: a name that is not registered gives nil, and a panic.
unfoldable pub add_to_counter : Metrics → String → ℕ → Outcome Metrics
unfolding counter_add
add_to_counter m name n = elim (lookup name m.counters) [
  | none ↦ panic
  | some c ↦ ok (record m { counters = insert name (counter_add c n) m.counters })
]

unfoldable pub set_gauge : Metrics → String → ℕ → Outcome Metrics
unfolding gauge_set
set_gauge m name value = elim (lookup name m.gauges) [
  | none ↦ panic
  | some g ↦ ok (record m { gauges = insert name (gauge_set g value) m.gauges })
]

-- The two loops of `IntervalSnapshot`, the second over the first's map.
unfoldable pub snapshot_counters : GoMap Counter → GoMap ℕ → GoMap ℕ
unfolding interval_value
snapshot_counters [] snapshot = snapshot
snapshot_counters ((name, c) ∷ rest) snapshot =
    snapshot_counters rest (insert name (interval_value c) snapshot)

unfoldable pub snapshot_gauges : GoMap Gauge → GoMap ℕ → GoMap ℕ
snapshot_gauges [] snapshot = snapshot
snapshot_gauges ((name, g) ∷ rest) snapshot = snapshot_gauges rest (insert name g.value snapshot)

unfoldable pub interval_snapshot : Metrics → GoMap ℕ
unfolding snapshot_counters snapshot_gauges
interval_snapshot m = snapshot_gauges m.gauges (snapshot_counters m.counters [])

unfoldable pub rotate_counters : GoMap Counter → GoMap Counter
unfolding update_delta
rotate_counters [] = []
rotate_counters ((name, c) ∷ rest) = (name, update_delta c) ∷ rotate_counters rest

unfoldable pub rotate : Metrics → Metrics
unfolding rotate_counters
rotate m = record m { counters = rotate_counters m.counters }

-- What happens to a counter, and the deltas that its rotations record.
pub data CounterEvent : Type 0 where
  adds : ℕ → CounterEvent
  rotates : CounterEvent

unfoldable pub counter_events : Counter → List CounterEvent → Counter × List ℕ
unfolding counter_add update_delta
counter_events c [] = (c, [])
counter_events c (adds n ∷ es) = counter_events (counter_add c n) es
counter_events c (rotates ∷ es) =
    let c' = update_delta c in
    let (c'', deltas) = counter_events c' es in (c'', c'.last_interval_delta ∷ deltas)
