-- ===== src/Hub/Nested.antt =====
-- The rows of the maps of node/hub.go stay maps: no key stands twice at any level of `streams`.
use anycable_go.Base.{String, List, [], ◌∷◌, inl, inr, ◌==◌, length, Bool-cases}
use anycable_go.Base.GoMap.{
  GoMap, lookup, delete, adjust, has, IsMap, insert-IsMap, delete-IsMap, adjust-IsMap,
}
use anycable_go.Base.Values.{AllValues, insert-AllValues, delete-AllValues, adjust-AllValues}
use anycable_go.Hub.State.{
  or_empty, ensure, release_cell, drop_empty_session, drop_empty_stream, release_stream,
  release_streams,
}
use anycable_go.Hub.Rows.{Streams}

abbrev pub IsNested {ℓ} : {V : Type ℓ} → GoMap (GoMap V) → Type 0
IsNested m = IsMap m × AllValues IsMap m

abbrev pub IsKeyed : Streams → Type 0
IsKeyed m = IsMap m × AllValues IsNested m

-- Updates, deletions and tests in terms of any predicate on the values.
module _ {ℓ κ} {V : Type ℓ} (P : V → Type κ) where
  abbrev Holds : GoMap V → Type κ
  Holds m = IsMap m × AllValues P m

  pub adjust-Holds :
      (k : String) (f : V → V) (m : GoMap V)
      → ((v : V) → P v → P (f v))
      → IsMap m × AllValues P m
      → IsMap (adjust k f m) × AllValues P (adjust k f m)
  adjust-Holds k f m keep h = (adjust-IsMap k f m h.0, adjust-AllValues P k f m keep h.1)

  pub delete-Holds :
      (k : String) (m : GoMap V)
      → IsMap m × AllValues P m
      → IsMap (delete k m) × AllValues P (delete k m)
  delete-Holds k m h = (delete-IsMap k m h.0, delete-AllValues P k m h.1)

pub ensure-Holds {ℓ κ} :
    {V : Type ℓ} (P : GoMap V → Type κ) (k : String) (m : GoMap (GoMap V))
    → P []
    → IsMap m × AllValues P m
    → IsMap (ensure k m) × AllValues P (ensure k m)
unfolding ensure
ensure-Holds P k m p h = elim (Bool-cases (has k m)) [
  | inl old ↦ rw old h
  | inr new ↦ rw new (insert-IsMap k [] m h.0, insert-AllValues P k [] m p h.1)
]

pub drop_row-IsKeyed :
    (stream sid identifier : String) (m : Streams)
    → IsKeyed m
    → IsKeyed (adjust stream (adjust sid (delete identifier)) m)
drop_row-IsKeyed stream sid identifier m =
    adjust-Holds IsNested stream _ m
      λ row r. adjust-Holds IsMap sid _ row (λ ids. delete-IsMap identifier ids) r

drop_empty_session-IsKeyed :
    (sid stream : String) (m : Streams) → IsKeyed m → IsKeyed (drop_empty_session sid stream m)
unfolding drop_empty_session
drop_empty_session-IsKeyed sid stream m h =
    elim (Bool-cases (length (or_empty (lookup sid (or_empty (lookup stream m)))) == 0)) [
      | inl gone ↦ rw gone (adjust-Holds IsNested stream _ m (λ row. delete-Holds IsMap sid row) h)
      | inr kept ↦ rw kept h
    ]

drop_empty_stream-IsKeyed :
    (stream : String) (m : Streams) → IsKeyed m → IsKeyed (drop_empty_stream stream m)
unfolding drop_empty_stream
drop_empty_stream-IsKeyed stream m h =
    elim (Bool-cases (length (or_empty (lookup stream m)) == 0)) [
      | inl gone ↦ rw gone (delete-Holds IsNested stream m h)
      | inr kept ↦ rw kept h
    ]

pub release_stream-IsKeyed :
    (sid identifier stream : String) (m : Streams)
    → IsKeyed m
    → IsKeyed (release_stream sid identifier stream m)
unfolding release_stream
release_stream-IsKeyed sid identifier stream m h =
    drop_empty_stream-IsKeyed stream
      (drop_empty_session sid stream (release_cell sid identifier stream m))
      (drop_empty_session-IsKeyed sid stream (release_cell sid identifier stream m)
        (drop_row-IsKeyed stream sid identifier m h))

pub release_streams-IsKeyed :
    (sid identifier : String) (list : List String) (m : Streams)
    → IsKeyed m
    → IsKeyed (release_streams sid identifier list m)
unfolding release_streams
release_streams-IsKeyed sid identifier [] m h = h
release_streams-IsKeyed sid identifier (stream ∷ rest) m h =
    release_streams-IsKeyed sid identifier rest _ (release_stream-IsKeyed sid identifier stream m h)
