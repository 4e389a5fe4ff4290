-- ===== src/Hub/Tasks.antt =====
-- What node/hub.go hands to the pool of goroutines: broadcasts and remote disconnects, with the lookups by
-- identifiers.
use anycable_go.Base.Values.{occurrences}
use anycable_go.Base.{ℕ, String, Bool, Option, none, some, List, [], ◌∷◌, ◌++◌, ◌==◌, if◌then◌else◌}
use anycable_go.Base.GoMap.{GoMap, lookup, insert, has, keys}
use anycable_go.Common.{DisconnectMessage, Json, null}
use anycable_go.Encoders.{reply, CachedEncodedMessage, new_cached_encoded_message}
use anycable_go.Hub.State.{Hub, HubSession, or_empty}

-- What `json.Unmarshal` makes of the data: nil where it fails.
unfoldable pub build_message : (String → Option Json) → String → String → CachedEncodedMessage
unfolding new_cached_encoded_message
build_message unmarshal text identifier = new_cached_encoded_message (
    reply (record {
      kind = "";
      identifier = identifier;
      message = elim (unmarshal text) [ none ↦ null | some msg ↦ msg ];
    }))

unfoldable pub stream_sessions_snapshot : GoMap (GoMap Bool) → GoMap (List String)
stream_sessions_snapshot [] = []
stream_sessions_snapshot ((sid, ids) ∷ src) = (sid, keys ids) ∷ stream_sessions_snapshot src

-- A message handed to a session, or a session told to close.
pub data Delivery : Type 0 where
  send : HubSession → CachedEncodedMessage → Delivery
  send_disconnect : HubSession → DisconnectMessage → Delivery
  close : HubSession → String → ℕ → Delivery

-- The inner loop of a broadcast over a session's identifiers, with the cache `buf`.
unfoldable pub broadcast_ids :
    (String → CachedEncodedMessage)
    → HubSession
    → List String
    → GoMap CachedEncodedMessage
    → GoMap CachedEncodedMessage × List Delivery
broadcast_ids build session [] buf = (buf, [])
broadcast_ids build session (id ∷ ids) buf =
    let bdata : CachedEncodedMessage = elim (lookup id buf) [ none ↦ build id | some msg ↦ msg ] in
    let buf' = if has id buf then buf else insert id bdata buf in
    let (buf'', out) = broadcast_ids build session ids buf' in (buf'', send session bdata ∷ out)

-- The outer loop over the snapshot; a session that is not registered is passed over.
unfoldable pub broadcast_sessions :
    (String → CachedEncodedMessage)
    → GoMap HubSession
    → GoMap (List String)
    → GoMap CachedEncodedMessage
    → List Delivery
broadcast_sessions build sessions [] buf = []
broadcast_sessions build sessions ((sid, ids) ∷ rest) buf = elim (lookup sid sessions) [
  | none ↦ broadcast_sessions build sessions rest buf
  | some session ↦
      let (buf', out) = broadcast_ids build session ids buf in
      out ++ broadcast_sessions build sessions rest buf'
]

-- Work handed to the pool: the closures of `broadcastToStream` and `disconnectSessions`. The second holds
-- a pointer to the map of the identifiers' sessions: the identifiers, and how often a map of theirs had been
-- deleted when it was made.
pub data Task : Type 0 where
  broadcast_task : String → String → Task
  disconnect_task : String → ℕ → Bool → Task

unfoldable pub broadcast_to_stream : Hub → String → String → List Task
broadcast_to_stream h stream text =
    if has stream h.streams then broadcast_task stream text ∷ [] else []

unfoldable pub disconnect_sessions : Hub → String → Bool → List Task
disconnect_sessions h identifier reconnect = elim (lookup identifier h.identifiers) [
  | none ↦ []
  | some ids ↦ disconnect_task identifier (occurrences identifier h.dropped) reconnect ∷ []
]

unfoldable pub new_disconnect_message : String → Bool → DisconnectMessage
new_disconnect_message reason reconnect = record {
  kind = "disconnect";
  reason = reason;
  reconnect = reconnect;
}

unfoldable pub disconnect_each : GoMap HubSession → DisconnectMessage → List String → List Delivery
disconnect_each sessions msg [] = []
disconnect_each sessions msg (id ∷ ids) =
    let rest = disconnect_each sessions msg ids in
    elim (lookup id sessions) [
      | none ↦ rest
      | some ses ↦ send_disconnect ses msg ∷ close ses "Closed remotely" 1000 ∷ rest
    ]

-- What a pointer to a map leads to: the map of now, or one that was deleted, which was empty and to which
-- nothing has been added.
unfoldable pub pointed_ids : Hub → String → ℕ → List String
pointed_ids h identifier age =
    if occurrences identifier h.dropped == age
    then keys (or_empty (lookup identifier h.identifiers))
    else []

unfoldable pub run_task : (String → Option Json) → Hub → Task → List Delivery
unfolding new_disconnect_message pointed_ids
run_task unmarshal h (broadcast_task stream text) =
    broadcast_sessions (build_message unmarshal text) h.sessions
      (stream_sessions_snapshot (or_empty (lookup stream h.streams))) []
run_task unmarshal h (disconnect_task identifier age reconnect) =
    disconnect_each h.sessions (new_disconnect_message "remote" reconnect)
      (pointed_ids h identifier age)

-- The first registered session of the identifiers' map.
unfoldable pub find_registered : GoMap HubSession → List String → Option HubSession
find_registered sessions [] = none
find_registered sessions (id ∷ ids) =
    let rest = find_registered sessions ids in
    elim (lookup id sessions) [ none ↦ rest | some ses ↦ some ses ]

unfoldable pub find_by_identifier : Hub → String → Option HubSession
find_by_identifier h id = elim (lookup id h.identifiers) [
  | none ↦ none
  | some ids ↦ find_registered h.sessions (keys ids)
]
