-- ===== src/Stats/Tests.antt =====
-- Stats: the properties at a few samples.
use anycable_go.Base.{ℕ, ◌≤◌, ◌<◌, ◌≡◌, refl, ◌*◌, ◌/◌, some, List, [], ◌∷◌, length, arith}
use anycable_go.Stats.{
  StatsEvent, adds, asks_max, ResAggregate, sort_asc, min, max, percentile, stats_events,
}
use anycable_go.Stats.Ranks.{no_samples, added, summary_ranks}
use anycable_go.Stats.Sorting.{below, at_most}

abbrev asked : List StatsEvent
asked = adds 30 ∷ adds 10 ∷ asks_max ∷ adds 20 ∷ adds 40 ∷ []

median : (percentile 50 (stats_events asked no_samples)).1 ≡ some 30
unfolding percentile stats_events sort_asc
median = refl

abbrev asked_agg : ResAggregate
asked_agg = stats_events asked no_samples

summary_ranks_example :
    ((v : ℕ) × ((min asked_agg).1 ≡ some v)
      × (below v (added asked) ≡ 0)
      × (0 < at_most v (added asked)))
    × ((v : ℕ) × ((max asked_agg).1 ≡ some v)
        × (below v (added asked) < length (added asked))
        × (at_most v (added asked) ≡ length (added asked)))
    × ((v : ℕ) × ((percentile 50 asked_agg).1 ≡ some v)
        × (below v (added asked) ≤ 50 * length (added asked) / 100)
        × (50 * length (added asked) / 100 < at_most v (added asked)))
summary_ranks_example = summary_ranks asked 50 (omega arith) (omega arith) (omega arith)
