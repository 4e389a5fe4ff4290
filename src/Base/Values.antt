-- ===== src/Base/Values.antt =====
-- A predicate on every value of a map, kept by the operations on maps, and how often a key stands.
use Prim.Native.Nat.{ℕ, suc}
use Prim.Native.String.{String}
use mathlib.Core.Path.{◌≡◌, refl}
use mathlib.Core.Logic.{inl, inr}
use mathlib.Core.Bool.{Bool, true, false}
use mathlib.Core.Option.{some}
use mathlib.Core.List.{List, [], ◌∷◌}
use native.Mathlib.Omega.{arith}
use anycable_go.Base.Tests.{◌=s=◌, =s=_iff, if◌then◌else◌, Bool-cases}
use anycable_go.Base.Lists.{elem}
use anycable_go.Base.GoMap.{GoMap, lookup, insert, delete, adjust, keys, IsMap, has, has-elem}

abbrev pub AllValues {ℓ κ} : {V : Type ℓ} → (V → Type κ) → GoMap V → Type κ
AllValues P [] = Unit
AllValues P ((j, v) ∷ m) = P v × AllValues P m

module _ {ℓ κ} {V : Type ℓ} (P : V → Type κ) where
  pub insert-AllValues :
      (k : String) (v : V) (m : GoMap V) → P v → AllValues P m → AllValues P (insert k v m)
  unfolding insert
  insert-AllValues k v [] p h = (p, tt)
  insert-AllValues k v ((j, w) ∷ m) p h = elim (Bool-cases (j =s= k)) [
    | inl same ↦ rw same (p, h.1)
    | inr other ↦ rw other (h.0, insert-AllValues k v m p h.1)
  ]

  pub delete-AllValues : (k : String) (m : GoMap V) → AllValues P m → AllValues P (delete k m)
  unfolding delete
  delete-AllValues k [] h = tt
  delete-AllValues k ((j, w) ∷ m) h = elim (Bool-cases (j =s= k)) [
    | inl same ↦ rw same (delete-AllValues k m h.1)
    | inr other ↦ rw other (h.0, delete-AllValues k m h.1)
  ]

  pub adjust-AllValues :
      (k : String) (f : V → V) (m : GoMap V)
      → ((v : V) → P v → P (f v))
      → AllValues P m
      → AllValues P (adjust k f m)
  unfolding adjust
  adjust-AllValues k f [] keep h = tt
  adjust-AllValues k f ((j, w) ∷ m) keep h = elim (Bool-cases (j =s= k)) [
    | inl same ↦ rw same (keep w h.0, h.1)
    | inr other ↦ rw other (h.0, adjust-AllValues k f m keep h.1)
  ]

  pub lookup-AllValues :
      (k : String) (m : GoMap V) (v : V) → AllValues P m → lookup k m ≡ some v → P v
  unfolding lookup
  lookup-AllValues k [] v h e = absurd (cc)
  lookup-AllValues k ((j, w) ∷ m) v h e = elim (Bool-cases (j =s= k)) [
    | inl same ↦ let w≡v : w ≡ v = ground arith in rw (w≡v) at h.0
    | inr other ↦ lookup-AllValues k m v h.1 (ground arith)
  ]

-- How often a text stands in a list.
abbrev pub occurrences : String → List String → ℕ
occurrences k [] = 0
occurrences k (j ∷ ks) = let rest = occurrences k ks in if j =s= k then suc rest else rest

abbrev pub one_if : Bool → ℕ
one_if true = 1
one_if false = 0

occurrences-elem-false : (k : String) (ks : List String) → elem k ks ≡ false → occurrences k ks ≡ 0
occurrences-elem-false k [] h = refl
occurrences-elem-false k (j ∷ ks) h = ground (arith, occurrences-elem-false k ks)

pub occurrences-keys {ℓ} :
    {V : Type ℓ} (k : String) (m : GoMap V) → IsMap m → occurrences k (keys m) ≡ one_if (has k m)
unfolding lookup
occurrences-keys k [] h = refl
occurrences-keys k ((j, v) ∷ m) h =
    ground (
      arith,
      =s=_iff j k,
      occurrences-keys k m h.1,
      has-elem k m,
      occurrences-elem-false k (keys m),
    )
