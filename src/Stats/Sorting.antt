-- ===== src/Stats/Sorting.antt =====
-- The ascending order of stats/stats.go: what it keeps of the samples, and what a place in it tells.

use anycable_go.Base.{
  ℕ, zero, suc, ◌+◌, ◌≤◌, ◌<◌, ◌≡◌, refl, Bool, some, List, [], ◌∷◌, length, leb, ltb,
  if◌then◌else◌, arith, if_holds,
}
use anycable_go.Stats.{insert_asc, sort_asc, get_elem?}

-- How many of the values pass a test.
abbrev pub count_if : (ℕ → Bool) → List ℕ → ℕ
count_if f [] = 0
count_if f (x ∷ xs) = (if f x then 1 else 0) + count_if f xs

abbrev pub below : ℕ → List ℕ → ℕ
below v xs = count_if (λ x. ltb x v) xs

abbrev pub at_most : ℕ → List ℕ → ℕ
at_most v xs = count_if (λ x. leb x v) xs

-- Nothing behind a value is below it.
abbrev pub IsAscending : List ℕ → Type 0
IsAscending [] = Unit
IsAscending (x ∷ xs) = (below x xs ≡ 0) × IsAscending xs

count_if-insert_asc :
    (f : ℕ → Bool) (x : ℕ) (ys : List ℕ)
    → count_if f (insert_asc x ys) ≡ (if f x then 1 else 0) + count_if f ys
unfolding insert_asc
count_if-insert_asc f x [] = refl
count_if-insert_asc f x (y ∷ ys) =
    if_holds (λ z. count_if f z ≡ (if f x then 1 else 0) + count_if f (y ∷ ys)) (leb x y)
      (x ∷ y ∷ ys) (y ∷ insert_asc x ys) (λ _. refl)
      (λ _. omega (arith, count_if-insert_asc f x ys))

pub count_if-sort_asc : (f : ℕ → Bool) (xs : List ℕ) → count_if f (sort_asc xs) ≡ count_if f xs
unfolding sort_asc
count_if-sort_asc f [] = refl
count_if-sort_asc f (x ∷ xs) =
    omega (arith, count_if-insert_asc f x (sort_asc xs), count_if-sort_asc f xs)

below_le : (x y : ℕ) (xs : List ℕ) → x ≤ y → below x xs ≤ below y xs
below_le x y [] h = omega arith
below_le x y (z ∷ zs) h = ground (arith, below_le x y zs h)

insert_asc-IsAscending : (x : ℕ) (ys : List ℕ) → IsAscending ys → IsAscending (insert_asc x ys)
unfolding insert_asc
insert_asc-IsAscending x [] h = (refl, tt)
insert_asc-IsAscending x (y ∷ ys) h =
    if_holds IsAscending (leb x y) (x ∷ y ∷ ys) (y ∷ insert_asc x ys)
      (λ first. (ground (arith, below_le x y ys, h.0), h))
      (λ later. (
        ground (arith, count_if-insert_asc (λ z. ltb z y) x ys, h.0),
        insert_asc-IsAscending x ys h.1,
      ))

pub sort_asc-IsAscending : (xs : List ℕ) → IsAscending (sort_asc xs)
unfolding sort_asc
sort_asc-IsAscending [] = tt
sort_asc-IsAscending (x ∷ xs) = insert_asc-IsAscending x (sort_asc xs) (sort_asc-IsAscending xs)

not_below : (x v : ℕ) (xs : List ℕ) (i : ℕ) → get_elem? xs i ≡ some v → below x xs ≡ 0 → x ≤ v
not_below x v [] i e h = absurd (cc)
not_below x v (y ∷ ys) zero e h = ground arith
not_below x v (y ∷ ys) (suc i) e h = not_below x v ys i e (ground arith)

pub rank :
    (v : ℕ) (xs : List ℕ) (i : ℕ)
    → IsAscending xs
    → get_elem? xs i ≡ some v
    → (below v xs ≤ i) × (i < at_most v xs)
rank v [] i h e = absurd (cc)
rank v (x ∷ xs) zero h e =
    let same : x ≡ v = ground arith in
    let none_below : below v xs ≡ 0 = rw⁻¹ same h.0 in (ground arith, ground arith)
rank v (x ∷ xs) (suc i) h e =
    let least = not_below x v xs i e h.0 in
    let later = rank v xs i h.1 e in (ground arith, ground arith)

pub there : (xs : List ℕ) (i : ℕ) → i < length xs → (v : ℕ) × (get_elem? xs i ≡ some v)
there [] i h = absurd (omega arith)
there (x ∷ xs) zero h = (x, refl)
there (x ∷ xs) (suc i) h = there xs i (omega arith)
