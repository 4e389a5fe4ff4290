-- ===== src/Hub/Streams.antt =====
-- What each operation of node/hub.go does to a cell of `streams`, and to the streams listed for a
-- session and a channel in `sessionsStreams`.
use anycable_go.Base.{
  ◌≡◌, refl, ◌∙◌, String, Bool, true, false, ◌&&◌, Option, none, some, List, [], ◌∷◌, ◌++◌, arith,
  inl, inr, length, ◌==◌, ◌=s=◌, =s=_iff, =s=_refl, if◌then◌else◌, elem, Bool-cases, opt_map,
}
use anycable_go.Base.GoMap.{
  GoMap, lookup, insert, delete, adjust, has, lookup-insert, lookup-delete, has-elem,
  delete-missing,
}
use anycable_go.Hub.State.{
  Hub, or_empty, ensure, listed, unsubscribe_session_from_channel, unsubscribe_channels,
  subscribe_session, unsubscribe_session,
}
use anycable_go.Hub.Rows.{
  cell, drop_id, lookup-adjust, lookup-ensure, cell-release_streams, cell-adjust,
}

abbrev ids_or_empty : Option (GoMap Bool) → GoMap Bool
ids_or_empty none = []
ids_or_empty (some ids) = ids

lookup_row :
    (row : GoMap (GoMap Bool)) (sid identifier sid' : String)
    → lookup sid' (adjust sid (insert identifier true) (ensure sid row)) ≡ (
        if sid =s= sid'
        then some (insert identifier true (or_empty (lookup sid' row)))
        else lookup sid' row)
lookup_row row sid identifier sid' = ground (
  arith,
  lookup-adjust sid sid' (insert identifier true) (ensure sid row),
  lookup-ensure sid sid' row,
)

pub cell-subscribe_session :
    (h : Hub) (sid stream identifier stream' sid' : String)
    → cell (subscribe_session h sid stream identifier).streams stream' sid' ≡ (
        if stream =s= stream' && sid =s= sid'
        then some (insert identifier true (or_empty (cell h.streams stream' sid')))
        else cell h.streams stream' sid')
unfolding subscribe_session lookup
cell-subscribe_session h sid stream identifier stream' sid' = ground (
  arith,
  lookup-adjust stream stream' (λ row. adjust sid (insert identifier true) (ensure sid row))
      (ensure stream h.streams),
  lookup-ensure stream stream' h.streams,
  lookup_row (or_empty (lookup stream' h.streams)) sid identifier sid',
)

pub listed-subscribe_session :
    (h : Hub) (sid stream identifier sid' identifier' : String)
    → listed (subscribe_session h sid stream identifier).sessions_streams sid' identifier' ≡ (
        if sid =s= sid' && identifier =s= identifier'
        then listed h.sessions_streams sid' identifier' ++ stream ∷ []
        else listed h.sessions_streams sid' identifier')
unfolding subscribe_session lookup
listed-subscribe_session h sid stream identifier sid' identifier' = ground (
  arith,
  lookup-adjust sid sid'
      (λ row. insert identifier (or_empty (lookup identifier row) ++ stream ∷ []) row)
      (ensure sid h.sessions_streams),
  lookup-ensure sid sid' h.sessions_streams,
  lookup-insert identifier identifier'
      (or_empty (lookup identifier (or_empty (lookup sid' h.sessions_streams))) ++ stream ∷ [])
      (or_empty (lookup sid' h.sessions_streams)),
  =s=_iff identifier identifier',
)

-- A missing identifier can be deleted as well: the early returns change no more than a deletion.
pub cell-unsubscribe_session :
    (h : Hub) (sid stream identifier stream' sid' : String)
    → cell (unsubscribe_session h sid stream identifier).streams stream' sid' ≡ (
        if stream =s= stream' && sid =s= sid'
        then opt_map (delete identifier) (cell h.streams stream' sid')
        else cell h.streams stream' sid')
unfolding unsubscribe_session lookup
cell-unsubscribe_session h sid stream identifier stream' sid' = ground (
  arith,
  =s=_iff stream stream',
  =s=_iff sid sid',
  cell-adjust h.streams stream sid stream' sid' (delete identifier),
  delete-missing identifier (or_empty (cell h.streams stream sid)),
  has-elem identifier (or_empty (cell h.streams stream sid)),
)

pub cell-unsubscribe_session_from_channel :
    (h : Hub) (sid identifier stream' sid' : String)
    → cell (unsubscribe_session_from_channel h sid identifier).streams stream' sid' ≡ (
        if sid =s= sid' && elem stream' (listed h.sessions_streams sid identifier)
        then drop_id identifier (cell h.streams stream' sid')
        else cell h.streams stream' sid')
unfolding unsubscribe_session_from_channel lookup
cell-unsubscribe_session_from_channel h sid identifier stream' sid' = ground (
  arith,
  cell-release_streams h.streams sid identifier (listed h.sessions_streams sid identifier) stream'
      sid',
)

-- Releasing a channel leaves the registry and the lists of streams alone.
pub record SameLists (h h' : Hub) : Type 0 where
  pub sessions_streams : h'.sessions_streams ≡ h.sessions_streams
  pub sessions : h'.sessions ≡ h.sessions
  pub identifiers : h'.identifiers ≡ h.identifiers

pub from_channel-SameLists :
    (h : Hub) (sid identifier : String)
    → SameLists h (unsubscribe_session_from_channel h sid identifier)
unfolding unsubscribe_session_from_channel
from_channel-SameLists h sid identifier = ground arith

pub channels-SameLists :
    (h : Hub) (sid : String) (channels : List String)
    → SameLists h (unsubscribe_channels h sid channels)
unfolding unsubscribe_channels
channels-SameLists h sid [] = ground arith
channels-SameLists h sid (channel ∷ rest) = ground (
  arith,
  from_channel-SameLists h sid channel,
  channels-SameLists (unsubscribe_session_from_channel h sid channel) sid rest,
)

-- What releasing one channel after another makes of a cell; `hit` tells the channels that list
-- the cell's stream.
pub drops : (String → Bool) → List String → Option (GoMap Bool) → Option (GoMap Bool)
drops hit [] c = c
drops hit (id ∷ ids) c = drops hit ids (if hit id then drop_id id c else c)

pub cell-unsubscribe_channels :
    (h : Hub) (sid : String) (channels : List String) (stream' sid' : String)
    → cell (unsubscribe_channels h sid channels).streams stream' sid' ≡ (
        if sid =s= sid'
        then drops
            (λ id. elem stream' (listed h.sessions_streams sid id))
            channels
            (cell h.streams stream' sid')
        else cell h.streams stream' sid')
unfolding unsubscribe_channels drops
cell-unsubscribe_channels h sid [] stream' sid' = ground arith
cell-unsubscribe_channels h sid (channel ∷ rest) stream' sid' =
    let h' = unsubscribe_session_from_channel h sid channel in
    cell-unsubscribe_channels h' sid rest stream' sid'
    ∙ rw ((from_channel-SameLists h sid channel).sessions_streams)
        (ground (arith, cell-unsubscribe_session_from_channel h sid channel stream' sid'))

-- Every identifier of the cell is among the channels still to be released, and some such channel
-- lists the stream at all.
abbrev pub Remaining : (String → Bool) → List String → Option (GoMap Bool) → Type 0
Remaining hit channels c =
    (ids : GoMap Bool)
    → c ≡ some ids
    → ((id : String) → has id ids ≡ true → (elem id channels && hit id) ≡ true)
      × ((id : String) × ((elem id channels && hit id) ≡ true))

drops-none-none : (hit : String → Bool) (channels : List String) → drops hit channels none ≡ none
unfolding drops
drops-none-none hit [] = refl
drops-none-none hit (id ∷ ids) = ground (arith, drops-none-none hit ids)

skip_miss :
    (hit : String → Bool) (id : String) (rest : List String) (k : String)
    → hit id ≡ false
    → (elem k (id ∷ rest) && hit k) ≡ true
    → (elem k rest && hit k) ≡ true
skip_miss hit id rest k miss h = ground (arith, =s=_iff id k)

skip_deleted :
    (hit : String → Bool) (id : String) (rest : List String) (k : String) (ids : GoMap Bool)
    → (has k ids ≡ true → (elem k (id ∷ rest) && hit k) ≡ true)
    → has k (delete id ids) ≡ true
    → (elem k rest && hit k) ≡ true
skip_deleted hit id rest k ids keep h = ground (arith, lookup-delete id k ids)

head_key : (ids : GoMap Bool) → (length ids == 0) ≡ false → (k : String) × (has k ids ≡ true)
unfolding lookup
head_key [] h = absurd (ground arith)
head_key ((k, v) ∷ ids) h = (k, ground (arith, =s=_refl k))

drop_id-some :
    (id : String) (c : Option (GoMap Bool)) (ids' : GoMap Bool)
    → drop_id id c ≡ some ids'
    → (ids : GoMap Bool) × (c ≡ some ids)
      × (ids' ≡ delete id ids)
      × ((length (delete id ids) == 0) ≡ false)
drop_id-some id none ids' e = cc
drop_id-some id (some ids) ids' e = (ids, refl, ground arith, ground arith)

Remaining-hit :
    (hit : String → Bool) (id : String) (rest : List String) (c : Option (GoMap Bool))
    → Remaining hit (id ∷ rest) c
    → Remaining hit rest (drop_id id c)
Remaining-hit hit id rest c r ids' e =
    let (ids, was, now, some_left) = drop_id-some id c ids' e in
    let (k, kept) = head_key (delete id ids) some_left in
    let step = λ (j : String). skip_deleted hit id rest j ids ((r ids was).0 j) in
    (λ j h. step j (rw (← now) h), (k, step k kept))

Remaining-miss :
    (hit : String → Bool) (id : String) (rest : List String) (c : Option (GoMap Bool))
    → hit id ≡ false
    → Remaining hit (id ∷ rest) c
    → Remaining hit rest c
Remaining-miss hit id rest c miss r ids e =
    let (all, (k, one)) = r ids e in
    (λ j h. skip_miss hit id rest j miss (all j h), (k, skip_miss hit id rest k miss one))

pub drops-none :
    (hit : String → Bool) (channels : List String) (c : Option (GoMap Bool))
    → Remaining hit channels c
    → drops hit channels c ≡ none
unfolding drops
drops-none hit [] none r = refl
drops-none hit [] (some ids) r = absurd (let (_, (k, one)) = r ids refl in cc)
drops-none hit (id ∷ rest) c r = elim (Bool-cases (hit id)) [
  | inl yes_hit ↦ rw yes_hit (drops-none hit rest (drop_id id c) (Remaining-hit hit id rest c r))
  | inr miss ↦ rw miss (drops-none hit rest c (Remaining-miss hit id rest c miss r))
]
