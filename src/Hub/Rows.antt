-- ===== src/Hub/Rows.antt =====
-- The maps of node/hub.go read through one lookup: the cell of a stream and a session holds the
-- identifiers under which the session listens to the stream.
use anycable_go.Base.{
  ◌≡◌, refl, ◌∙◌, String, Bool, true, ◌&&◌, Option, none, some, List, [], ◌∷◌, arith, inl, inr,
  length, ◌==◌, ◌=s=◌, =s=_iff, =s=_refl, if◌then◌else◌, elem, Bool-cases, Option-cases, opt_map,
}
use anycable_go.Base.GoMap.{
  GoMap, lookup, delete, adjust, lookup-insert, lookup-delete, lookup-adjust_self,
  lookup-adjust-none, lookup-adjust_ne, elem-delete, delete-missing,
}
use anycable_go.Hub.State.{
  or_empty, ensure, release_cell, drop_empty_session, drop_empty_stream, release_stream,
  release_streams,
}

-- One equation for an update in place.
pub lookup-adjust {ℓ} :
    {V : Type ℓ} (k j : String) (f : V → V) (m : GoMap V)
    → lookup j (adjust k f m) ≡ (if k =s= j then opt_map f (lookup j m) else lookup j m)
lookup-adjust k j f m = elim (Bool-cases (k =s= j)) [
  | inl same ↦ elim (Option-cases (lookup j m)) [
    | inl e ↦ rw (same, e) (lookup-adjust-none k j f m e)
    | inr (v, e) ↦
        rw (same, e)
          (let k≡j : k ≡ j = (=s=_iff k j).0 same in rw (k≡j) (lookup-adjust_self j f m v e))
  ]
  | inr other ↦ rw other (lookup-adjust_ne k j f m other)
]

pub lookup-ensure {ℓ} :
    {V : Type ℓ} (k j : String) (m : GoMap (List V))
    → lookup j (ensure k m) ≡ (if k =s= j then some (or_empty (lookup j m)) else lookup j m)
unfolding ensure
lookup-ensure {V} k j m = elim (Bool-cases (k =s= j)) [
  | inl same ↦
      let k≡j : k ≡ j = (=s=_iff k j).0 same in ground (arith, lookup-insert k j [] m, k≡j, same)
  | inr other ↦ ground (arith, lookup-insert k j [] m, other)
]

abbrev pub Streams : Type 0
Streams = GoMap (GoMap (GoMap Bool))

abbrev pub cell : Streams → String → String → Option (GoMap Bool)
cell streams stream sid = lookup sid (or_empty (lookup stream streams))

-- An empty cell is not kept.
abbrev pub trim : Option (GoMap Bool) → Option (GoMap Bool)
trim none = none
trim (some ids) = if length ids == 0 then none else some ids

abbrev pub drop_id : String → Option (GoMap Bool) → Option (GoMap Bool)
drop_id identifier c = trim (opt_map (delete identifier) c)

pub cell-adjust :
    (streams : Streams) (stream sid stream' sid' : String) (f : GoMap Bool → GoMap Bool)
    → cell (adjust stream (adjust sid f) streams) stream' sid' ≡ (
        if stream =s= stream' && sid =s= sid'
        then opt_map f (cell streams stream' sid')
        else cell streams stream' sid')
unfolding lookup
cell-adjust streams stream sid stream' sid' f =
    rw (lookup-adjust stream stream' (adjust sid f) streams)
      (elim (Option-cases (lookup stream' streams)) [
        | inl e ↦ rw e (ground arith)
        | inr (row, e) ↦ rw e (ground (arith, lookup-adjust sid sid' f row))
      ])

pub cell-release_cell :
    (streams : Streams) (sid identifier stream stream' sid' : String)
    → cell (release_cell sid identifier stream streams) stream' sid' ≡ (
        if stream =s= stream' && sid =s= sid'
        then opt_map (delete identifier) (cell streams stream' sid')
        else cell streams stream' sid')
unfolding release_cell
cell-release_cell streams sid identifier stream stream' sid' =
    cell-adjust streams stream sid stream' sid' (delete identifier)

cell-drop_session :
    (streams : Streams) (sid stream stream' sid' : String)
    → cell (adjust stream (delete sid) streams) stream' sid'
      ≡ (if stream =s= stream' && sid =s= sid' then none else cell streams stream' sid')
unfolding lookup
cell-drop_session streams sid stream stream' sid' =
    rw (lookup-adjust stream stream' (delete sid) streams)
      (elim (Option-cases (lookup stream' streams)) [
        | inl e ↦ rw e (ground arith)
        | inr (row, e) ↦ rw e (ground (arith, lookup-delete sid sid' row))
      ])

cell_at :
    (streams : Streams) (sid stream stream' sid' : String)
    → stream =s= stream' && sid =s= sid' ≡ true
    → cell streams stream' sid' ≡ cell streams stream sid
cell_at streams sid stream stream' sid' h = ground (arith, =s=_iff stream stream', =s=_iff sid sid')

pub cell-drop_empty_session :
    (streams : Streams) (sid stream stream' sid' : String)
    → cell (drop_empty_session sid stream streams) stream' sid' ≡ (
        if stream =s= stream' && sid =s= sid'
        then trim (cell streams stream' sid')
        else cell streams stream' sid')
unfolding drop_empty_session
cell-drop_empty_session streams sid stream stream' sid' = ground (
  arith,
  cell-drop_session streams sid stream stream' sid',
  cell_at streams sid stream stream' sid',
)

pub eq_nil_of_length {ℓ} : {A : Type ℓ} (xs : List A) → length xs ≡ 0 → xs ≡ []
eq_nil_of_length [] h = refl
eq_nil_of_length (x ∷ xs) h = absurd (omega arith)

pub cell-drop_empty_stream :
    (streams : Streams) (stream stream' sid' : String)
    → cell (drop_empty_stream stream streams) stream' sid' ≡ cell streams stream' sid'
unfolding drop_empty_stream lookup
cell-drop_empty_stream streams stream stream' sid' = ground (
  arith,
  lookup-delete stream stream' streams,
  =s=_iff stream stream',
  eq_nil_of_length (or_empty (lookup stream streams)),
)

pub cell-release_stream :
    (streams : Streams) (sid identifier stream stream' sid' : String)
    → cell (release_stream sid identifier stream streams) stream' sid' ≡ (
        if stream =s= stream' && sid =s= sid'
        then drop_id identifier (cell streams stream' sid')
        else cell streams stream' sid')
unfolding release_stream
cell-release_stream streams sid identifier stream stream' sid' =
    let freed = release_cell sid identifier stream streams in
    cell-drop_empty_stream (drop_empty_session sid stream freed) stream stream' sid'
    ∙ ground (
      arith,
      cell-drop_empty_session freed sid stream stream' sid',
      cell-release_cell streams sid identifier stream stream' sid',
    )

delete_idem : (k : String) (m : GoMap Bool) → delete k (delete k m) ≡ delete k m
delete_idem k m = delete-missing k (delete k m) (rw (elem-delete k k m, =s=_refl k))

drop_id_idem :
    (identifier : String) (c : Option (GoMap Bool))
    → drop_id identifier (drop_id identifier c) ≡ drop_id identifier c
drop_id_idem identifier none = refl
drop_id_idem identifier (some ids) = ground (arith, delete_idem identifier ids)

-- The loop of `unsubscribeSessionFromChannel` drops the identifier from the session's cell in each
-- listed stream and touches no other cell.
pub cell-release_streams :
    (streams : Streams) (sid identifier : String) (list : List String) (stream' sid' : String)
    → cell (release_streams sid identifier list streams) stream' sid' ≡ (
        if sid =s= sid' && elem stream' list
        then drop_id identifier (cell streams stream' sid')
        else cell streams stream' sid')
unfolding release_streams
cell-release_streams streams sid identifier [] stream' sid' = ground arith
cell-release_streams streams sid identifier (stream ∷ rest) stream' sid' = ground (
  arith,
  cell-release_streams (release_stream sid identifier stream streams) sid identifier rest stream'
      sid',
  cell-release_stream streams sid identifier stream stream' sid',
  drop_id_idem identifier (cell streams stream' sid'),
)
