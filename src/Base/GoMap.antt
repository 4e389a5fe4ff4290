-- ===== src/Base/GoMap.antt =====
-- Go's `map[string]V` as an association list whose keys the operations keep distinct. A range
-- over a map follows the list; Go leaves its order open.
use Prim.Native.Nat.{suc}
use Prim.Native.String.{String}
use mathlib.Core.Path.{◌≡◌, refl}
use mathlib.Core.Bool.{Bool, true, false, ◌||◌}
use mathlib.Core.Option.{Option, none, some}
use mathlib.Core.List.{List, [], ◌∷◌}
use native.Mathlib.Omega.{arith}
use anycable_go.Base.Tests.{◌=s=◌, =s=_iff, =s=_refl, if◌then◌else◌, is_some}
use anycable_go.Base.Lists.{length, elem}

abbrev pub GoMap {ℓ} : Type ℓ → Type ℓ
GoMap V = List (String × V)

module _ {ℓ} {V : Type ℓ} where
  -- `m[k]` with the flag `ok`.
  unfoldable pub lookup : String → GoMap V → Option V
  lookup k [] = none
  lookup k ((j, v) ∷ m) = if j =s= k then some v else lookup k m

  abbrev pub has : String → GoMap V → Bool
  has k m = is_some (lookup k m)

  -- `m[k] = v`.
  unfoldable pub insert : String → V → GoMap V → GoMap V
  insert k v [] = (k, v) ∷ []
  insert k v ((j, w) ∷ m) = if j =s= k then (k, v) ∷ m else (j, w) ∷ insert k v m

  -- `delete(m, k)`.
  unfoldable pub delete : String → GoMap V → GoMap V
  delete k [] = []
  delete k ((j, w) ∷ m) = let rest = delete k m in if j =s= k then rest else (j, w) ∷ rest

  -- An update in place of the value at `k`, which does nothing where the key is missing.
  unfoldable pub adjust : String → (V → V) → GoMap V → GoMap V
  adjust k f [] = []
  adjust k f ((j, w) ∷ m) = if j =s= k then (j, f w) ∷ m else (j, w) ∷ adjust k f m

  abbrev pub keys : GoMap V → List String
  keys [] = []
  keys ((j, v) ∷ m) = j ∷ keys m

  -- No key stands twice.
  abbrev pub IsMap : GoMap V → Type 0
  IsMap [] = Unit
  IsMap ((j, v) ∷ m) = (elem j (keys m) ≡ false) × IsMap m

  pub lookup-insert :
      (k j : String) (v : V) (m : GoMap V)
      → lookup j (insert k v m) ≡ (if k =s= j then some v else lookup j m)
  unfolding lookup insert
  lookup-insert k j v [] = refl
  lookup-insert k j v ((i, w) ∷ m) =
      ground (arith, =s=_iff k j, =s=_iff i k, =s=_iff i j, lookup-insert k j v m)

  pub lookup-delete :
      (k j : String) (m : GoMap V) → lookup j (delete k m) ≡ (if k =s= j then none else lookup j m)
  unfolding lookup delete
  lookup-delete k j [] = ground arith
  lookup-delete k j ((i, w) ∷ m) =
      ground (arith, =s=_iff k j, =s=_iff i k, =s=_iff i j, lookup-delete k j m)

  pub lookup-adjust_self :
      (k : String) (f : V → V) (m : GoMap V) (v : V)
      → lookup k m ≡ some v
      → lookup k (adjust k f m) ≡ some (f v)
  unfolding lookup adjust
  lookup-adjust_self k f [] v h = cc
  lookup-adjust_self k f ((i, w) ∷ m) v h = ground (arith, lookup-adjust_self k f m v)

  pub lookup-adjust-none :
      (k j : String) (f : V → V) (m : GoMap V) → lookup j m ≡ none → lookup j (adjust k f m) ≡ none
  unfolding lookup adjust
  lookup-adjust-none k j f [] h = refl
  lookup-adjust-none k j f ((i, w) ∷ m) h = ground (arith, lookup-adjust-none k j f m)

  pub lookup-adjust_ne :
      (k j : String) (f : V → V) (m : GoMap V)
      → (k =s= j) ≡ false
      → lookup j (adjust k f m) ≡ lookup j m
  unfolding lookup adjust
  lookup-adjust_ne k j f [] h = refl
  lookup-adjust_ne k j f ((i, w) ∷ m) h =
      ground (arith, =s=_iff k j, =s=_iff i k, =s=_iff i j, lookup-adjust_ne k j f m)

  pub has-elem : (k : String) (m : GoMap V) → has k m ≡ elem k (keys m)
  unfolding lookup
  has-elem k [] = refl
  has-elem k ((i, w) ∷ m) = ground (arith, has-elem k m)

  elem-insert :
      (k j : String) (v : V) (m : GoMap V)
      → elem j (keys (insert k v m)) ≡ (k =s= j || elem j (keys m))
  unfolding insert
  elem-insert k j v [] = refl
  elem-insert k j v ((i, w) ∷ m) =
      ground (arith, =s=_iff k j, =s=_iff i k, =s=_iff i j, elem-insert k j v m)

  pub elem-delete :
      (k j : String) (m : GoMap V)
      → elem j (keys (delete k m)) ≡ (if k =s= j then false else elem j (keys m))
  unfolding delete
  elem-delete k j [] = ground arith
  elem-delete k j ((i, w) ∷ m) =
      ground (arith, =s=_iff k j, =s=_iff i k, =s=_iff i j, elem-delete k j m)

  pub keys-adjust : (k : String) (f : V → V) (m : GoMap V) → keys (adjust k f m) ≡ keys m
  unfolding adjust
  keys-adjust k f [] = refl
  keys-adjust k f ((i, w) ∷ m) = ground (arith, keys-adjust k f m)

  pub adjust-IsMap : (k : String) (f : V → V) (m : GoMap V) → IsMap m → IsMap (adjust k f m)
  unfolding adjust
  adjust-IsMap k f [] h = tt
  adjust-IsMap k f ((i, w) ∷ m) h = ground (arith, keys-adjust k f m, adjust-IsMap k f m h.1)

  pub insert-IsMap : (k : String) (v : V) (m : GoMap V) → IsMap m → IsMap (insert k v m)
  unfolding insert
  insert-IsMap k v [] h = (refl, tt)
  insert-IsMap k v ((i, w) ∷ m) h =
      ground (arith, =s=_iff i k, =s=_iff k i, elem-insert k i v m, insert-IsMap k v m h.1)

  pub delete-IsMap : (k : String) (m : GoMap V) → IsMap m → IsMap (delete k m)
  unfolding delete
  delete-IsMap k [] h = tt
  delete-IsMap k ((i, w) ∷ m) h = ground (arith, elem-delete k i m, delete-IsMap k m h.1)

  -- A map is empty exactly when no key is found.
  pub eq_nil_of_lookup : (m : GoMap V) → ((k : String) → lookup k m ≡ none) → m ≡ []
  unfolding lookup
  eq_nil_of_lookup [] h = refl
  eq_nil_of_lookup ((i, w) ∷ m) h = ground (arith, h i, =s=_refl i)

  -- Deleting a key that is there takes one entry away; a missing key changes nothing.
  pub delete-missing : (k : String) (m : GoMap V) → elem k (keys m) ≡ false → delete k m ≡ m
  unfolding delete
  delete-missing k [] h = refl
  delete-missing k ((i, w) ∷ m) h = ground (arith, delete-missing k m)

  pub length-delete :
      (k : String) (m : GoMap V)
      → IsMap m
      → elem k (keys m) ≡ true
      → suc (length (delete k m)) ≡ length m
  unfolding delete
  length-delete k [] h e = cc
  length-delete k ((i, w) ∷ m) h e =
      ground (arith, =s=_iff i k, length-delete k m h.1, delete-missing k m)

  pub length-insert :
      (k : String) (v : V) (m : GoMap V)
      → length (insert k v m) ≡ (if elem k (keys m) then length m else suc (length m))
  unfolding insert
  length-insert k v [] = refl
  length-insert k v ((i, w) ∷ m) = ground (arith, length-insert k v m)

  pub length-adjust : (k : String) (f : V → V) (m : GoMap V) → length (adjust k f m) ≡ length m
  unfolding adjust
  length-adjust k f [] = refl
  length-adjust k f ((i, w) ∷ m) = ground (arith, length-adjust k f m)
