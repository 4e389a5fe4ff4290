-- ===== src/Stats.antt =====
-- stats/stats.go: samples of durations, with their least, their greatest and their percentiles. A duration
-- is a number of nanoseconds that is not negative.
pub mod Sorting
pub mod Ranks
mod Tests
use anycable_go.Base.{
  ℕ, zero, suc, ◌+◌, ◌-◌, ◌*◌, ◌/◌, Bool, true, false, Option, none, some, List, [], ◌∷◌, ◌++◌,
  length, leb, ◌==◌, if◌then◌else◌,
}

pub record ResAggregate : Type 0 where
  pub samples : List ℕ
  pub sorted : Bool

unfoldable pub round_to_ms : ℕ → ℕ
round_to_ms d = (d + 500000) / 1000000

unfoldable pub insert_asc : ℕ → List ℕ → List ℕ
insert_asc x [] = x ∷ []
insert_asc x (y ∷ ys) = let rest = insert_asc x ys in if leb x y then x ∷ y ∷ ys else y ∷ rest

-- `sort.Sort` by `byAsc`.
unfoldable pub sort_asc : List ℕ → List ℕ
unfolding insert_asc
sort_asc [] = []
sort_asc (x ∷ xs) = insert_asc x (sort_asc xs)

unfoldable pub add : ℕ → ResAggregate → ResAggregate
add rtt agg = record { samples = agg.samples ++ rtt ∷ []; sorted = false }

unfoldable pub sort : ResAggregate → ResAggregate
sort agg = if agg.sorted then agg else record { samples = sort_asc agg.samples; sorted = true }

-- `samples[i]`, which panics past the end.
abbrev pub get_elem? : List ℕ → ℕ → Option ℕ
get_elem? [] i = none
get_elem? (x ∷ xs) zero = some x
get_elem? (x ∷ xs) (suc i) = get_elem? xs i

-- The aggregate that is left, and the value; none where the code panics.
unfoldable pub min : ResAggregate → ResAggregate × Option ℕ
unfolding sort
min agg =
    if length agg.samples == 0
    then (agg, some 0)
    else (let agg' = sort agg in (agg', get_elem? agg'.samples 0))

unfoldable pub max : ResAggregate → ResAggregate × Option ℕ
unfolding sort
max agg =
    if length agg.samples == 0
    then (agg, some 0)
    else (let agg' = sort agg in (agg', get_elem? agg'.samples (length agg'.samples - 1)))

sorted_percentile : ℕ → List ℕ → Option ℕ
sorted_percentile p xs = if length xs == 0 then some 0 else get_elem? xs (p * length xs / 100)

unfoldable pub percentile : ℕ → ResAggregate → ResAggregate × Option ℕ
unfolding sort sorted_percentile
percentile p agg =
    if leb p 0
    then (agg, none)
    else (if leb 100 p
        then (agg, none)
        else (let agg' = sort agg in (agg', sorted_percentile p agg'.samples)))

-- What is done to an aggregate.
pub data StatsEvent : Type 0 where
  adds : ℕ → StatsEvent
  asks_min : StatsEvent
  asks_max : StatsEvent
  asks_percentile : ℕ → StatsEvent

unfoldable pub stats_event : ResAggregate → StatsEvent → ResAggregate
unfolding add min max percentile
stats_event agg (adds rtt) = add rtt agg
stats_event agg asks_min = (min agg).0
stats_event agg asks_max = (max agg).0
stats_event agg (asks_percentile p) = (percentile p agg).0

unfoldable pub stats_events : List StatsEvent → ResAggregate → ResAggregate
unfolding stats_event
stats_events [] agg = agg
stats_events (e ∷ es) agg = stats_events es (stats_event agg e)
