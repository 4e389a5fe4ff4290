-- ===== src/Stats/Ranks.antt =====
-- The values that stats/stats.go finds, by how many samples are below them.
use native.Mathlib.Nat.{mul-le-mul_right}
use anycable_go.Base.{
  ℕ, ◌+◌, ◌-◌, ◌*◌, ◌/◌, ◌≤◌, ◌<◌, ◌≡◌, refl, ◌∙◌, sym, ap, subst, Bool, true, false, Option, none,
  some, List, [], ◌∷◌, ◌++◌, length, length-append, append-nil, append_assoc, leb, ltb, ◌==◌,
  if◌then◌else◌, arith, if_holds,
}
use anycable_go.Stats.{
  ResAggregate, sort_asc, add, sort, get_elem?, min, max, sorted_percentile, percentile, StatsEvent,
  adds, asks_min, asks_max, asks_percentile, stats_event, stats_events,
}
use anycable_go.Stats.Sorting.{
  count_if, below, at_most, IsAscending, count_if-sort_asc, sort_asc-IsAscending, rank, there,
}

abbrev pub no_samples : ResAggregate
no_samples = record { samples = []; sorted = false }

abbrev pub added : List StatsEvent → List ℕ
added [] = []
added (adds rtt ∷ es) = rtt ∷ added es
added (asks_min ∷ es) = added es
added (asks_max ∷ es) = added es
added (asks_percentile p ∷ es) = added es

-- The samples are those that were added, in some order, which is ascending where it is said to be.
record IsOf (xs : List ℕ) (agg : ResAggregate) : Type 0 where
  counts : (f : ℕ → Bool) → count_if f agg.samples ≡ count_if f xs
  number : length agg.samples ≡ length xs
  ascending : agg.sorted ≡ true → IsAscending agg.samples

count_if-append :
    (f : ℕ → Bool) (xs ys : List ℕ) → count_if f (xs ++ ys) ≡ count_if f xs + count_if f ys
count_if-append f [] ys = omega arith
count_if-append f (x ∷ xs) ys = omega (arith, count_if-append f xs ys)

all_counted : (xs : List ℕ) → count_if (λ x. true) xs ≡ length xs
all_counted [] = refl
all_counted (x ∷ xs) = omega (arith, all_counted xs)

sort-IsOf :
    (xs : List ℕ) (agg : ResAggregate)
    → IsOf xs agg
    → IsOf xs (sort agg) × ((sort agg).sorted ≡ true)
unfolding sort
sort-IsOf xs agg h =
    if_holds (λ z. IsOf xs z × (z.sorted ≡ true)) agg.sorted agg
      (record { samples = sort_asc agg.samples; sorted = true }) (λ done. (h, done))
      (λ _. (
        record {
          counts = λ f. count_if-sort_asc f agg.samples ∙ h.counts f;
          number =
              sym (all_counted (sort_asc agg.samples))
              ∙ count_if-sort_asc (λ x. true) agg.samples
              ∙ all_counted agg.samples
              ∙ h.number;
          ascending = λ _. sort_asc-IsAscending agg.samples;
        },
        refl,
      ))

add-IsOf :
    (xs : List ℕ) (rtt : ℕ) (agg : ResAggregate) → IsOf xs agg → IsOf (xs ++ rtt ∷ []) (add rtt agg)
unfolding add
add-IsOf xs rtt agg h = record {
  counts = λ f. omega (
    arith,
    h.counts f,
    count_if-append f xs (rtt ∷ []),
    count_if-append f agg.samples (rtt ∷ []),
  );
  number =
      omega (arith, h.number, length-append xs (rtt ∷ []), length-append agg.samples (rtt ∷ []));
  ascending = λ e. absurd (cc);
}

-- What a question leaves: the aggregate, or the sorted one.
if-IsOf :
    (xs : List ℕ) (agg : ResAggregate) (b : Bool) (u v : Option ℕ)
    → IsOf xs agg
    → let r : ResAggregate × Option ℕ = if b then (agg, u) else (sort agg, v) in IsOf xs r.0
if-IsOf xs agg true u v h = h
if-IsOf xs agg false u v h = (sort-IsOf xs agg h).0

events-IsOf :
    (es : List StatsEvent) (xs : List ℕ) (agg : ResAggregate)
    → IsOf xs agg
    → IsOf (xs ++ added es) (stats_events es agg)
unfolding stats_events stats_event min max percentile
events-IsOf [] xs agg h = subst (λ z. IsOf z agg) (sym (append-nil xs)) h
events-IsOf (adds rtt ∷ es) xs agg h =
    subst (λ z. IsOf z (stats_events es (add rtt agg))) (append_assoc xs (rtt ∷ []) (added es))
      (events-IsOf es (xs ++ rtt ∷ []) (add rtt agg) (add-IsOf xs rtt agg h))
events-IsOf (asks_min ∷ es) xs agg h =
    events-IsOf es xs (min agg).0 (if-IsOf xs agg (length agg.samples == 0) _ _ h)
events-IsOf (asks_max ∷ es) xs agg h =
    events-IsOf es xs (max agg).0 (if-IsOf xs agg (length agg.samples == 0) _ _ h)
events-IsOf (asks_percentile p ∷ es) xs agg h = events-IsOf es xs (percentile p agg).0 (
    if_holds (λ (z : ResAggregate × Option ℕ). IsOf xs z.0) (leb p 0) (agg, none) _ (λ _. h)
      (λ _. if-IsOf xs agg (leb 100 p) _ _ h))

-- The element of the sorted samples at a place is as far up as the place says.
sorted_rank :
    (xs : List ℕ) (agg : ResAggregate) (i : ℕ)
    → IsOf xs agg
    → i < length xs
    → (v : ℕ) × (get_elem? (sort agg).samples i ≡ some v) × (below v xs ≤ i) × (i < at_most v xs)
sorted_rank xs agg i h inside =
    let (h', done) = sort-IsOf xs agg h in
    let (v, e) = there (sort agg).samples i (omega (arith, h'.number)) in
    let r = rank v (sort agg).samples i (h'.ascending done) e in
    (
      v,
      e,
      omega (arith, r.0, h'.counts (λ z. ltb z v)),
      omega (arith, r.1, h'.counts (λ z. leb z v)),
    )

place_inside : (p n : ℕ) → p < 100 → 0 < n → p * n / 100 < n
place_inside p n h some_n =
    let most = mul-le-mul_right {m = p} {n = 99} n (omega arith) in omega arith

percentile_value :
    (p n : ℕ) (agg : ResAggregate)
    → 0 < p
    → p < 100
    → length (sort agg).samples ≡ n
    → 0 < n
    → (percentile p agg).1 ≡ get_elem? (sort agg).samples (p * n / 100)
unfolding percentile sorted_percentile
percentile_value p n agg low high number some_n =
    let xs = (sort agg).samples in
    if_holds (λ (z : ResAggregate × Option ℕ). z.1 ≡ get_elem? xs (p * n / 100)) (leb p 0)
      (agg, none) _ (λ e. absurd (ground arith))
      (λ _.
        if_holds (λ (z : ResAggregate × Option ℕ). z.1 ≡ get_elem? xs (p * n / 100)) (leb 100 p)
          (agg, none) _ (λ e. absurd (ground arith))
          (λ _.
            if_holds (λ z. z ≡ get_elem? xs (p * n / 100)) (length xs == 0) (some 0) _
              (λ e. absurd (ground arith)) (λ _. ap (λ k. get_elem? xs (p * k / 100)) number)))

min_value :
    (agg : ResAggregate) → 0 < length agg.samples → (min agg).1 ≡ get_elem? (sort agg).samples 0
unfolding min
min_value agg some_n =
    let e = (sort agg).samples in
    if_holds (λ (z : ResAggregate × Option ℕ). z.1 ≡ get_elem? e 0) (length agg.samples == 0)
      (agg, some 0) _ (λ none_there. absurd (ground arith)) (λ _. refl)

max_value :
    (n : ℕ) (agg : ResAggregate)
    → 0 < length agg.samples
    → length (sort agg).samples ≡ n
    → (max agg).1 ≡ get_elem? (sort agg).samples (n - 1)
unfolding max
max_value n agg some_n number =
    let e = (sort agg).samples in
    if_holds (λ (z : ResAggregate × Option ℕ). z.1 ≡ get_elem? e (n - 1)) (length agg.samples == 0)
      (agg, some 0) _ (λ none_there. absurd (ground arith))
      (λ _. ap (λ k. get_elem? e (k - 1)) number)

at_most_le : (v : ℕ) (xs : List ℕ) → at_most v xs ≤ length xs
at_most_le v [] = omega arith
at_most_le v (x ∷ xs) = ground (arith, at_most_le v xs)

-- In an aggregate that has samples, whatever was added and asked before and in whatever order: the least
-- value is one with no sample below it and at least one not above it; all samples are at most the
-- greatest value, and at least one is not below it; and a percentile between 1 and 99 is a value with no
-- more samples below it than its share of all, rounded down, and more than its share not above it.
pub summary_ranks :
    (es : List StatsEvent) (p : ℕ)
    → 0 < p
    → p < 100
    → 0 < length (added es)
    → let agg = stats_events es no_samples in
      let number = length (added es) in
      ((v : ℕ) × ((min agg).1 ≡ some v) × (below v (added es) ≡ 0) × (0 < at_most v (added es)))
      × ((v : ℕ) × ((max agg).1 ≡ some v)
          × (below v (added es) < number)
          × (at_most v (added es) ≡ number))
      × ((v : ℕ) × ((percentile p agg).1 ≡ some v)
          × (below v (added es) ≤ p * number / 100)
          × (p * number / 100 < at_most v (added es)))
summary_ranks es p low high some_added =
    let xs = added es in
    let agg = stats_events es no_samples in
    let start : IsOf [] no_samples = record {
      counts = λ f. refl;
      number = refl;
      ascending = λ e. absurd (cc);
    } in
    let h = events-IsOf es [] no_samples start in
    let number = (sort-IsOf xs agg h).0.number in
    let some_kept : 0 < length agg.samples = omega (arith, h.number) in
    let (u, e_u, low_u, high_u) = sorted_rank xs agg 0 h some_added in
    let (w, e_w, low_w, high_w) = sorted_rank xs agg (length xs - 1) h (omega arith) in
    let (v, e, low_v, high_v) =
      sorted_rank xs agg (p * length xs / 100) h (place_inside p (length xs) high some_added) in
    (
      (u, min_value agg some_kept ∙ e_u, omega arith, high_u),
      (
        w,
        max_value (length xs) agg some_kept number ∙ e_w,
        omega arith,
        omega (arith, at_most_le w xs),
      ),
      (v, percentile_value p (length xs) agg low high number some_added ∙ e, low_v, high_v),
    )
