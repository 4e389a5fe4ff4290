-- ===== src/Hub/Broadcast.antt =====
-- What a broadcast of node/hub.go delivers: the loop with its cache of built messages against a
-- plain description, and each subscriber counted.
use anycable_go.Base.{
  ℕ, suc, ◌+◌, ◌≡◌, refl, ◌∙◌, ap, String, Bool, false, ◌&&◌, Option, none, some, List, [], ◌∷◌,
  ◌++◌, map, arith, inl, inr, ◌=s=◌, =s=_iff, if◌then◌else◌, Option-cases,
}
use anycable_go.Base.GoMap.{GoMap, lookup, insert, has, keys, lookup-insert, has-elem}
use anycable_go.Base.Values.{occurrences, one_if, occurrences-keys, lookup-AllValues}
use anycable_go.Common.{Json}
use anycable_go.Encoders.{CachedEncodedMessage, EncodedMessage, reply, ping, disconnect}
use anycable_go.Hub.State.{Hub, HubSession, or_empty, new_hub}
use anycable_go.Hub.Tasks.{
  Delivery, send, send_disconnect, close, Task, broadcast_ids, broadcast_sessions,
  stream_sessions_snapshot, run_task, broadcast_task, broadcast_to_stream, build_message,
}
use anycable_go.Hub.{HubEvent, run}
use anycable_go.Hub.Invariant.{subscribed, Inv}
use anycable_go.Hub.Registry.{run-new_hub-Inv}
use anycable_go.Hub.Nested.{IsNested}
use anycable_go.Hub.Keyed.{Keyed, run-Keyed, new_hub-Keyed}
use anycable_go.Hub.Refinement.{nobody, specified_run, run-new_hub-Agrees}

-- Each identifier of each registered session gets the message built for it.
abbrev pub sends :
    (String → CachedEncodedMessage) → GoMap HubSession → GoMap (List String) → List Delivery
sends build sessions [] = []
sends build sessions ((sid, ids) ∷ rest) = elim (lookup sid sessions) [
  | none ↦ sends build sessions rest
  | some session ↦ map (λ id. send session (build id)) ids ++ sends build sessions rest
]

-- What the cache holds was built for its identifier.
abbrev Built : (String → CachedEncodedMessage) → GoMap CachedEncodedMessage → Type 0
Built build buf =
    (id : String) (msg : CachedEncodedMessage) → lookup id buf ≡ some msg → msg ≡ build id

Built-insert :
    (build : String → CachedEncodedMessage) (buf : GoMap CachedEncodedMessage) (id : String)
    → Built build buf
    → Built build (insert id (build id) buf)
Built-insert build buf id b j msg e =
    ground (arith, lookup-insert id j (build id) buf, =s=_iff id j, b j msg)

broadcast_ids_lem :
    (build : String → CachedEncodedMessage) (session : HubSession) (ids : List String)
    (buf : GoMap CachedEncodedMessage)
    → Built build buf
    → Built build (broadcast_ids build session ids buf).0
      × ((broadcast_ids build session ids buf).1 ≡ map (λ id. send session (build id)) ids)
unfolding broadcast_ids
broadcast_ids_lem build session [] buf b = (b, refl)
broadcast_ids_lem build session (id ∷ ids) buf b = elim (Option-cases (lookup id buf)) [
  | inl e ↦
      let ih =
        broadcast_ids_lem build session ids (insert id (build id) buf)
          (Built-insert build buf id b) in
      rw e (ih.0, ap (λ out. send session (build id) ∷ out) ih.1)
  | inr (msg, e) ↦
      let ih = broadcast_ids_lem build session ids buf b in
      let m : msg ≡ build id = b id msg e in rw e (ih.0, rw (m, ih.1))
]

-- The cache of built messages changes nothing of what is sent.
pub broadcast_sessions_lem :
    (build : String → CachedEncodedMessage) (sessions : GoMap HubSession)
    (snapshot : GoMap (List String)) (buf : GoMap CachedEncodedMessage)
    → Built build buf
    → broadcast_sessions build sessions snapshot buf ≡ sends build sessions snapshot
unfolding broadcast_sessions
broadcast_sessions_lem build sessions [] buf b = refl
broadcast_sessions_lem build sessions ((sid, ids) ∷ rest) buf b =
    elim (Option-cases (lookup sid sessions)) [
      | inl e ↦ rw (e, broadcast_sessions, sends) (broadcast_sessions_lem build sessions rest buf b)
      | inr (session, e) ↦
          let (b', out) = broadcast_ids_lem build session ids buf b in
          rw (e, broadcast_sessions, sends, out)
            (ap (λ more. map (λ id. send session (build id)) ids ++ more)
              (broadcast_sessions_lem build sessions rest (broadcast_ids build session ids buf).0
                b'))
    ]

-- Whether a delivery is a message for an identifier to the session of a UID.
abbrev is_reply_for : String → EncodedMessage → Bool
is_reply_for identifier (reply r) = r.identifier =s= identifier
is_reply_for identifier (ping _) = false
is_reply_for identifier (disconnect _) = false

abbrev is_for : String → String → Delivery → Bool
is_for uid identifier (send s msg) = s.uid =s= uid && is_reply_for identifier msg.target
is_for uid identifier (send_disconnect s msg) = false
is_for uid identifier (close s reason code) = false

-- How many messages for the identifier go to the session.
abbrev pub sent_to : String → String → List Delivery → ℕ
sent_to uid identifier [] = 0
sent_to uid identifier (d ∷ out) =
    let rest = sent_to uid identifier out in if is_for uid identifier d then suc rest else rest

pub sent_to-append :
    (uid identifier : String) (xs ys : List Delivery)
    → sent_to uid identifier (xs ++ ys) ≡ sent_to uid identifier xs + sent_to uid identifier ys
sent_to-append uid identifier [] ys = omega arith
sent_to-append uid identifier (d ∷ xs) ys = ground (arith, sent_to-append uid identifier xs ys)

module _ (unmarshal : String → Option Json) (text uid identifier : String) where
  sent_to-ids :
      (session : HubSession) (ids : List String)
      → sent_to uid identifier (map (λ id. send session (build_message unmarshal text id)) ids)
        ≡ (if session.uid =s= uid then occurrences identifier ids else 0)
  unfolding build_message
  sent_to-ids session [] = ground arith
  sent_to-ids session (id ∷ ids) = ground (arith, sent_to-ids session ids)

  -- The messages that a row of the map yields for one session and identifier.
  abbrev row_count : GoMap HubSession → GoMap (GoMap Bool) → ℕ
  row_count sessions row =
      if has uid sessions then one_if (has identifier (or_empty (lookup uid row))) else 0

  sent_to-row :
      (sessions : GoMap HubSession) (row : GoMap (GoMap Bool))
      → ((sid : String) (s : HubSession) → lookup sid sessions ≡ some s → s.uid ≡ sid)
      → IsNested row
      → sent_to uid identifier
          (sends (build_message unmarshal text) sessions (stream_sessions_snapshot row))
        ≡ row_count sessions row
  unfolding stream_sessions_snapshot lookup
  sent_to-row sessions [] named n = ground arith
  sent_to-row sessions ((sid, ids) ∷ rest) named n = elim (Option-cases (lookup sid sessions)) [
    | inl e ↦
        rw (e, sends, sent_to)
          (ground (arith, =s=_iff sid uid, sent_to-row sessions rest named (n.0.1, n.1.1)))
    | inr (session, e) ↦
        rw (e, sends)
          (sent_to-append uid identifier
              (map (λ id. send session (build_message unmarshal text id)) (keys ids))
              (sends (build_message unmarshal text) sessions (stream_sessions_snapshot rest))
            ∙ ground (
              arith,
              =s=_iff sid uid,
              named sid session e,
              sent_to-ids session (keys ids),
              occurrences-keys identifier ids n.1.0,
              has-elem sid rest,
              sent_to-row sessions rest named (n.0.1, n.1.1),
            ))
  ]

-- A task that broadcasts sends each identifier of each registered session of the stream the
-- message built for that identifier: the cache of built messages changes nothing, whatever the
-- hub holds.
pub run_task-sends :
    (unmarshal : String → Option Json) (h : Hub) (stream text : String)
    → run_task unmarshal h (broadcast_task stream text)
      ≡ sends
          (build_message unmarshal text)
          h.sessions
          (stream_sessions_snapshot (or_empty (lookup stream h.streams)))
unfolding run_task lookup
run_task-sends unmarshal h stream text =
    broadcast_sessions_lem (build_message unmarshal text) h.sessions
      (stream_sessions_snapshot (or_empty (lookup stream h.streams))) [] (λ id msg e. absurd (cc))

-- The pool's work with no event of the hub in between.
abbrev pub run_tasks : (String → Option Json) → Hub → List Task → List Delivery
run_tasks unmarshal h [] = []
run_tasks unmarshal h (t ∷ ts) = run_task unmarshal h t ++ run_tasks unmarshal h ts

sent_to-nil :
    (uid identifier : String) (out : List Delivery)
    → sent_to uid identifier (out ++ []) ≡ sent_to uid identifier out
sent_to-nil uid identifier out = omega (arith, sent_to-append uid identifier out [])

broadcast_count :
    (unmarshal : String → Option Json) (h : Hub) (stream text uid identifier : String)
    → Inv h
    → Keyed h
    → sent_to uid identifier (run_tasks unmarshal h (broadcast_to_stream h stream text))
      ≡ one_if (has uid h.sessions && subscribed h stream uid identifier)
unfolding broadcast_to_stream lookup
broadcast_count unmarshal h stream text uid identifier v k =
    elim (Option-cases (lookup stream h.streams)) [
      | inl e ↦ rw (e, broadcast_to_stream) (ground arith)
      | inr (row, e) ↦
          rw (e, broadcast_to_stream)
            (sent_to-nil uid identifier (run_task unmarshal h (broadcast_task stream text))
              ∙ rw (run_task-sends unmarshal h stream text, e)
                  (ground (
                    arith,
                    sent_to-row unmarshal text uid identifier h.sessions row
                        (λ sid s found. (v.registered sid s found).0)
                        (lookup-AllValues IsNested stream h.streams row k.streams.1 e),
                  )))
    ]

-- After any events, a broadcast to a stream sends a message for an identifier to a session
-- exactly once if by the contract the session is registered and listens to the stream under that
-- identifier, and never otherwise.
pub broadcast-once :
    (es : List HubEvent) (unmarshal : String → Option Json) (stream text uid identifier : String)
    → let h = (run new_hub es).0 in
      let a = specified_run nobody es in
      sent_to uid identifier (run_tasks unmarshal h (broadcast_to_stream h stream text))
      ≡ one_if (a.live uid && a.listens stream uid identifier)
broadcast-once es unmarshal stream text uid identifier =
    let h = (run new_hub es).0 in
    let g = run-new_hub-Agrees es in
    broadcast_count unmarshal h stream text uid identifier (run-new_hub-Inv es)
      (run-Keyed new_hub es new_hub-Keyed)
    ∙ rw (g.live uid, g.listens stream uid identifier)
