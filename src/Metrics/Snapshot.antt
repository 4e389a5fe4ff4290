-- ===== src/Metrics/Snapshot.antt =====
-- What the snapshot of metrics/metrics.go tells of each metric after a rotation.
use anycable_go.Base.{
  ℕ, ◌≡◌, refl, ap, String, Option, none, some, List, [], ◌∷◌, arith, ◌==◌, =s=_iff, if◌then◌else◌,
  opt_map,
}
use anycable_go.Base.GoMap.{GoMap, lookup, insert, keys, IsMap, lookup-insert, has-elem}
use anycable_go.Metrics.{
  Counter, Gauge, Metrics, interval_value, snapshot_counters, snapshot_gauges, interval_snapshot,
  rotate, rotate_counters, update_delta, sub_u64,
}

abbrev pub or_else {ℓ} : {A : Type ℓ} → Option A → Option A → Option A
or_else none b = b
or_else (some a) b = some a

drop_none {ℓ} : {A : Type ℓ} (a b : Option A) → or_else a (or_else b none) ≡ or_else a b
drop_none none none = refl
drop_none none (some b) = refl
drop_none (some a) b = refl

lookup-snapshot_counters :
    (name : String) (counters : GoMap Counter) (snapshot : GoMap ℕ)
    → IsMap counters
    → lookup name (snapshot_counters counters snapshot)
      ≡ or_else (opt_map interval_value (lookup name counters)) (lookup name snapshot)
unfolding snapshot_counters lookup
lookup-snapshot_counters name [] snapshot m = refl
lookup-snapshot_counters name ((k, c) ∷ rest) snapshot m = ground (
  arith,
  =s=_iff k name,
  has-elem k rest,
  m.0,
  lookup-insert k name (interval_value c) snapshot,
  lookup-snapshot_counters name rest (insert k (interval_value c) snapshot) m.1,
)

lookup-snapshot_gauges :
    (name : String) (gauges : GoMap Gauge) (snapshot : GoMap ℕ)
    → IsMap gauges
    → lookup name (snapshot_gauges gauges snapshot)
      ≡ or_else (opt_map (λ (g : Gauge). g.value) (lookup name gauges)) (lookup name snapshot)
unfolding snapshot_gauges lookup
lookup-snapshot_gauges name [] snapshot m = refl
lookup-snapshot_gauges name ((k, g) ∷ rest) snapshot m = ground (
  arith,
  =s=_iff k name,
  has-elem k rest,
  m.0,
  lookup-insert k name g.value snapshot,
  lookup-snapshot_gauges name rest (insert k g.value snapshot) m.1,
)

pub lookup-rotate_counters :
    (name : String) (counters : GoMap Counter)
    → lookup name (rotate_counters counters) ≡ opt_map update_delta (lookup name counters)
unfolding rotate_counters lookup
lookup-rotate_counters name [] = refl
lookup-rotate_counters name ((k, c) ∷ rest) = ground (arith, lookup-rotate_counters name rest)

keys-rotate_counters : (counters : GoMap Counter) → keys (rotate_counters counters) ≡ keys counters
unfolding rotate_counters
keys-rotate_counters [] = refl
keys-rotate_counters ((k, c) ∷ rest) = ap (λ (t : List String). k ∷ t) (keys-rotate_counters rest)

rotate_counters-IsMap :
    (counters : GoMap Counter) → IsMap counters → IsMap (rotate_counters counters)
unfolding rotate_counters
rotate_counters-IsMap [] m = m
rotate_counters-IsMap ((k, c) ∷ rest) m =
    (rw (keys-rotate_counters rest) (m.0), rotate_counters-IsMap rest m.1)

-- What a counter shows after a rotation: its growth since the rotation before, and its whole value
-- if that is 0.
abbrev pub growth : Counter → ℕ
growth c = if c.value == 0 then c.value else sub_u64 c.value c.last_interval_value

rotated : (o : Option Counter) → opt_map interval_value (opt_map update_delta o) ≡ opt_map growth o
unfolding interval_value update_delta
rotated none = refl
rotated (some c) = refl

-- A snapshot after a rotation tells every metric by its name: a gauge its value, and a counter that
-- is no gauge as well what was added since the rotation before.
pub rotate-interval_snapshot :
    (m : Metrics) (name : String)
    → IsMap m.counters
    → IsMap m.gauges
    → lookup name (interval_snapshot (rotate m))
      ≡ or_else
          (opt_map (λ (g : Gauge). g.value) (lookup name m.gauges))
          (opt_map growth (lookup name m.counters))
unfolding interval_snapshot rotate lookup
rotate-interval_snapshot m name cs gs =
    let taken =
      lookup-snapshot_gauges name m.gauges (snapshot_counters (rotate_counters m.counters) []) gs in
    let counted =
      lookup-snapshot_counters name (rotate_counters m.counters) []
        (rotate_counters-IsMap m.counters cs) in
    rw (taken, counted, lookup-rotate_counters name m.counters, rotated (lookup name m.counters))
      (drop_none (opt_map (λ (g : Gauge). g.value) (lookup name m.gauges))
        (opt_map growth (lookup name m.counters)))
