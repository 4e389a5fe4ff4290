-- ===== src/Node/Metering/Values.antt =====
-- The values that stand in the registry of metrics/metrics.go under a name.
use anycable_go.Base.{
  ℕ, ◌%◌, ◌≡◌, refl, ◌∙◌, ap, String, ◌=s=◌, =s=_iff, =s=_refl, Bool-cases, some, List, [], ◌∷◌,
  if◌then◌else◌, inl, inr, arith, All, opt_map,
}
use anycable_go.Base.GoMap.{lookup, insert, lookup-insert}
use anycable_go.Base.Outcome.{ok}
use anycable_go.Metrics.{
  Counter, Gauge, Metrics, add_u64, u64_mod, new_counter, new_gauge, counter_add, gauge_set,
  update_delta, register_counter, register_gauge, add_to_counter, set_gauge, rotate,
}
use anycable_go.Metrics.Snapshot.{lookup-rotate_counters}
use anycable_go.Node.Metering.{register_gauges, register_counters}

abbrev pub HasCount : Metrics → String → ℕ → Type 0
HasCount m name v = (c : Counter) × (lookup name m.counters ≡ some c) × (c.value ≡ v)

abbrev pub HasShown : Metrics → String → ℕ → Type 0
HasShown m name v = (g : Gauge) × (lookup name m.gauges ≡ some g) × (g.value ≡ v)

-- What an addition to a counter, and a value for a gauge, do to each metric.
abbrev pub AddsTo : String → ℕ → Metrics → Metrics → Type 0
AddsTo k n m m' =
    ((j : String) (v : ℕ) → HasCount m j v → HasCount m' j (if k =s= j then add_u64 v n else v))
    × (m'.gauges ≡ m.gauges)

abbrev pub Sets : String → ℕ → Metrics → Metrics → Type 0
Sets k n m m' =
    ((j : String) (v : ℕ) → HasShown m j v → HasShown m' j (if k =s= j then n % u64_mod else v))
    × (m'.counters ≡ m.counters)

counter_found :
    (k j : String) (n v : ℕ) (m : Metrics) (c d : Counter)
    → lookup k m.counters ≡ some c
    → lookup j m.counters ≡ some d
    → d.value ≡ v
    → HasCount
        (record m { counters = insert k (counter_add c n) m.counters })
        j
        (if k =s= j then add_u64 v n else v)
unfolding counter_add
counter_found k j n v m c d at_k at_j e = elim (Bool-cases (k =s= j)) [
  | inl same ↦
      let k_is_j : k ≡ j = (=s=_iff k j).0 same in
      let one : c ≡ d = let there = ap (λ z. lookup z m.counters) k_is_j in ground arith in
      rw same (
        counter_add c n,
        lookup-insert k j (counter_add c n) m.counters ∙ rw same refl,
        ap (λ (z : Counter). add_u64 z.value n) one ∙ ap (λ z. add_u64 z n) e,
      )
  | inr other ↦ rw other (d, lookup-insert k j (counter_add c n) m.counters ∙ rw other at_j, e)
]

pub added :
    (k : String) (n v : ℕ) (m : Metrics)
    → HasCount m k v
    → (m' : Metrics) × (add_to_counter m k n ≡ ok m') × AddsTo k n m m'
unfolding add_to_counter
added k n v m (c, at_k, _) = (
  record m { counters = insert k (counter_add c n) m.counters },
  rw (add_to_counter, at_k) refl,
  (λ j w has_j. counter_found k j n w m c has_j.0 at_k has_j.1 has_j.2, refl),
)

gauge_found :
    (k j : String) (n v : ℕ) (m : Metrics) (g d : Gauge)
    → lookup j m.gauges ≡ some d
    → d.value ≡ v
    → HasShown
        (record m { gauges = insert k (gauge_set g n) m.gauges })
        j
        (if k =s= j then n % u64_mod else v)
unfolding gauge_set
gauge_found k j n v m g d at_j e = elim (Bool-cases (k =s= j)) [
  | inl same ↦
      rw same (gauge_set g n, lookup-insert k j (gauge_set g n) m.gauges ∙ rw same refl, refl)
  | inr other ↦ rw other (d, lookup-insert k j (gauge_set g n) m.gauges ∙ rw other at_j, e)
]

pub set_one :
    (k : String) (n v : ℕ) (m : Metrics)
    → HasShown m k v
    → (m' : Metrics) × (set_gauge m k n ≡ ok m') × Sets k n m m'
unfolding set_gauge
set_one k n v m (g, at_k, _) = (
  record m { gauges = insert k (gauge_set g n) m.gauges },
  rw (set_gauge, at_k) refl,
  (λ j w has_j. gauge_found k j n w m g has_j.0 has_j.1 has_j.2, refl),
)

pub rotate-HasCount : (j : String) (v : ℕ) (m : Metrics) → HasCount m j v → HasCount (rotate m) j v
unfolding rotate update_delta
rotate-HasCount j v m (c, at_j, e) =
    (update_delta c, lookup-rotate_counters j m.counters ∙ ap (opt_map update_delta) at_j, e)

counter_kept :
    (name j desc : String) (m : Metrics)
    → HasCount m j 0
    → HasCount (register_counter m name desc) j 0
unfolding register_counter new_counter
counter_kept name j desc m (c, at_j, e) = elim (Bool-cases (name =s= j)) [
  | inl same ↦ (
    new_counter name desc,
    lookup-insert name j (new_counter name desc) m.counters ∙ rw same refl,
    refl,
  )
  | inr other ↦ (c, lookup-insert name j (new_counter name desc) m.counters ∙ rw other at_j, e)
]

counters_kept :
    (l : List (String × String)) (j : String) (m : Metrics)
    → HasCount m j 0
    → HasCount (register_counters l m) j 0
unfolding register_counters
counters_kept [] j m h = h
counters_kept ((name, desc) ∷ rest) j m h =
    counters_kept rest j (register_counter m name desc) (counter_kept name j desc m h)

pub counters_registered :
    (l : List (String × String)) (m : Metrics) → All (λ r. HasCount (register_counters l m) r.0 0) l
unfolding register_counters register_counter new_counter
counters_registered [] m = tt
counters_registered ((name, desc) ∷ rest) m =
    let m' = register_counter m name desc in
    (
      counters_kept rest name m' (
        new_counter name desc,
        lookup-insert name name _ m.counters ∙ rw (=s=_refl name) refl,
        refl,
      ),
      counters_registered rest m',
    )

pub register_counters-gauges :
    (l : List (String × String)) (m : Metrics) → (register_counters l m).gauges ≡ m.gauges
unfolding register_counters register_counter
register_counters-gauges [] m = refl
register_counters-gauges ((name, desc) ∷ rest) m =
    register_counters-gauges rest (register_counter m name desc)

gauge_kept :
    (name j desc : String) (m : Metrics)
    → HasShown m j 0
    → HasShown (register_gauge m name desc) j 0
unfolding register_gauge new_gauge
gauge_kept name j desc m (g, at_j, e) = elim (Bool-cases (name =s= j)) [
  | inl same ↦ (
    new_gauge name desc,
    lookup-insert name j (new_gauge name desc) m.gauges ∙ rw same refl,
    refl,
  )
  | inr other ↦ (g, lookup-insert name j (new_gauge name desc) m.gauges ∙ rw other at_j, e)
]

gauges_kept :
    (l : List (String × String)) (j : String) (m : Metrics)
    → HasShown m j 0
    → HasShown (register_gauges l m) j 0
unfolding register_gauges
gauges_kept [] j m h = h
gauges_kept ((name, desc) ∷ rest) j m h =
    gauges_kept rest j (register_gauge m name desc) (gauge_kept name j desc m h)

pub gauges_registered :
    (l : List (String × String)) (m : Metrics) → All (λ r. HasShown (register_gauges l m) r.0 0) l
unfolding register_gauges register_gauge new_gauge
gauges_registered [] m = tt
gauges_registered ((name, desc) ∷ rest) m =
    let m' = register_gauge m name desc in
    (
      gauges_kept rest name m'
          (new_gauge name desc, lookup-insert name name _ m.gauges ∙ rw (=s=_refl name) refl, refl),
      gauges_registered rest m',
    )
