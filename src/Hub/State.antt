-- ===== src/Hub/State.antt =====
-- The sessions and streams of node/hub.go, and what registers, subscribes and removes them.
use anycable_go.Base.{
  ℕ, String, Bool, true, Option, none, some, List, [], ◌∷◌, ◌++◌, length, ◌==◌, if◌then◌else◌,
}
use anycable_go.Base.GoMap.{GoMap, lookup, insert, delete, adjust, has, keys}

-- A session as the hub sees it: its UID and its connection identifiers.
pub record HubSession : Type 0 where
  pub uid : String
  pub identifiers : String

pub record Hub : Type 0 where
  pub sessions : GoMap HubSession
  pub identifiers : GoMap (GoMap Bool)
  pub streams : GoMap (GoMap (GoMap Bool))
  pub sessions_streams : GoMap (GoMap (List String))
  pub dropped : List String

-- `dropped` has a key of `identifiers` for each time that its map was deleted: a pointer to the map of a key
-- leads to the one that stands there as long as none has been deleted since.

-- The maps of `NewHub`; its channels are the events of `handle`.
unfoldable pub new_hub : Hub
new_hub = record {
  sessions = [];
  identifiers = [];
  streams = [];
  sessions_streams = [];
  dropped = [];
}

-- Reading a missing key gives a nil map or slice, which is empty.
abbrev pub or_empty {ℓ} : {A : Type ℓ} → Option (List A) → List A
or_empty none = []
or_empty (some xs) = xs

unfoldable pub hub_size : Hub → ℕ
hub_size h = length h.sessions

unfoldable pub uniq_size : Hub → ℕ
uniq_size h = length h.identifiers

unfoldable pub streams_size : Hub → ℕ
streams_size h = length h.streams

-- The `if _, ok := m[k]; !ok { m[k] = make(...) }` of the code.
unfoldable pub ensure {ℓ} : {V : Type ℓ} → String → GoMap (List V) → GoMap (List V)
ensure k m = if has k m then m else insert k [] m

unfoldable pub add_session : Hub → HubSession → Hub
unfolding ensure
add_session h session = record h {
  sessions = insert session.uid session h.sessions;
  identifiers =
      adjust session.identifiers (insert session.uid true)
        (ensure session.identifiers h.identifiers);
}

-- One round of the loop in `unsubscribeSessionFromChannel`.
unfoldable pub release_cell :
    String → String → String → GoMap (GoMap (GoMap Bool)) → GoMap (GoMap (GoMap Bool))
release_cell sid identifier stream streams = adjust stream (adjust sid (delete identifier)) streams

unfoldable pub drop_empty_session :
    String → String → GoMap (GoMap (GoMap Bool)) → GoMap (GoMap (GoMap Bool))
drop_empty_session sid stream streams =
    if length (or_empty (lookup sid (or_empty (lookup stream streams)))) == 0
    then adjust stream (delete sid) streams
    else streams

unfoldable pub drop_empty_stream : String → GoMap (GoMap (GoMap Bool)) → GoMap (GoMap (GoMap Bool))
drop_empty_stream stream streams =
    if length (or_empty (lookup stream streams)) == 0 then delete stream streams else streams

unfoldable pub release_stream :
    String → String → String → GoMap (GoMap (GoMap Bool)) → GoMap (GoMap (GoMap Bool))
unfolding release_cell drop_empty_session drop_empty_stream
release_stream sid identifier stream streams =
    drop_empty_stream stream
      (drop_empty_session sid stream (release_cell sid identifier stream streams))

unfoldable pub release_streams :
    String → String → List String → GoMap (GoMap (GoMap Bool)) → GoMap (GoMap (GoMap Bool))
release_streams sid identifier [] streams = streams
release_streams sid identifier (stream ∷ rest) streams =
    release_streams sid identifier rest (release_stream sid identifier stream streams)

-- `h.sessionsStreams[sid][identifier]`.
abbrev pub listed : GoMap (GoMap (List String)) → String → String → List String
listed m sid identifier = or_empty (lookup identifier (or_empty (lookup sid m)))

unfoldable pub unsubscribe_session_from_channel : Hub → String → String → Hub
unsubscribe_session_from_channel h sid identifier =
    if has sid h.sessions_streams
    then record h {
      streams = release_streams sid identifier (listed h.sessions_streams sid identifier) h.streams;
    }
    else h

-- The range over the channels of a session.
unfoldable pub unsubscribe_channels : Hub → String → List String → Hub
unsubscribe_channels h sid [] = h
unsubscribe_channels h sid (channel ∷ rest) =
    unsubscribe_channels (unsubscribe_session_from_channel h sid channel) sid rest

unfoldable pub unsubscribe_session_from_all_channels : Hub → String → Hub
unsubscribe_session_from_all_channels h sid =
    let h' = unsubscribe_channels h sid (keys (or_empty (lookup sid h.sessions_streams))) in
    record h' { sessions_streams = delete sid h'.sessions_streams }

unfoldable pub drop_empty_identifier : String → GoMap (GoMap Bool) → GoMap (GoMap Bool)
drop_empty_identifier id m = if length (or_empty (lookup id m)) == 0 then delete id m else m

note_drop : String → GoMap (GoMap Bool) → List String → List String
note_drop id m dropped = if length (or_empty (lookup id m)) == 0 then id ∷ dropped else dropped

unfoldable pub remove_session : Hub → HubSession → Hub
unfolding drop_empty_identifier note_drop
remove_session h session =
    let h' = unsubscribe_session_from_all_channels h session.uid in
    if has session.uid h.sessions
    then record h' {
      sessions = delete session.uid h'.sessions;
      identifiers =
          drop_empty_identifier session.identifiers
            (adjust session.identifiers (delete session.uid) h'.identifiers);
      dropped =
          note_drop session.identifiers
            (adjust session.identifiers (delete session.uid) h'.identifiers) h'.dropped;
    }
    else h

unfoldable pub subscribe_session : Hub → String → String → String → Hub
unfolding ensure
subscribe_session h sid stream identifier = record h {
  streams =
      adjust stream (λ row. adjust sid (insert identifier true) (ensure sid row))
        (ensure stream h.streams);
  sessions_streams =
      adjust sid (λ row. insert identifier (or_empty (lookup identifier row) ++ stream ∷ []) row)
        (ensure sid h.sessions_streams);
}

-- The three early returns, then the deletion; nothing else is cleaned up here.
unfoldable pub unsubscribe_session : Hub → String → String → String → Hub
unsubscribe_session h sid stream identifier = elim (lookup stream h.streams) [
  | none ↦ h
  | some row ↦ elim (lookup sid row) [
    | none ↦ h
    | some ids ↦
        if has identifier ids
        then record h { streams = adjust stream (adjust sid (delete identifier)) h.streams }
        else h
  ]
]
