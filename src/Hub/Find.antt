-- ===== src/Hub/Find.antt =====
-- Looking sessions up by their connection identifiers in node/hub.go, and disconnecting them.
use anycable_go.Base.{
  ℕ, suc, ◌≡◌, ◌∙◌, String, Bool, true, ◌&&◌, Option, none, some, List, [], ◌∷◌, arith, inl, inr,
  ◌≢◌, subst, sym, ◌=s=◌, ◌==◌, =s=_iff, if◌then◌else◌, is_some, elem, Option-cases,
}
use mathlib.Core.List.{append-nil}
use anycable_go.Base.GoMap.{GoMap, lookup, has, keys, IsMap, has-elem}
use anycable_go.Base.Values.{occurrences, one_if, occurrences-keys, lookup-AllValues}
use anycable_go.Common.{Json, DisconnectMessage}
use anycable_go.Hub.State.{Hub, HubSession, or_empty, new_hub}
use anycable_go.Hub.Invariant.{Inv}
use anycable_go.Hub.Tasks.{
  pointed_ids, Delivery, send, send_disconnect, close, disconnect_sessions, disconnect_each,
  new_disconnect_message, find_registered, find_by_identifier, run_task,
}
use anycable_go.Hub.{HubEvent, run}
use anycable_go.Hub.Registry.{known, run-Inv, run-new_hub-Inv}
use anycable_go.Hub.Keyed.{Keyed, run-Keyed, new_hub-Keyed}
use anycable_go.Hub.Broadcast.{run_tasks}

find_registered-found :
    (sessions : GoMap HubSession) (ids : List String) (uid : String)
    → elem uid ids ≡ true
    → has uid sessions ≡ true
    → is_some (find_registered sessions ids) ≡ true
unfolding find_registered
find_registered-found sessions [] uid m h = cc
find_registered-found sessions (id ∷ ids) uid m h =
    ground (arith, =s=_iff id uid, find_registered-found sessions ids uid)

find_registered_sound :
    (sessions : GoMap HubSession) (ids : List String) (s : HubSession)
    → find_registered sessions ids ≡ some s
    → (uid : String) × (elem uid ids ≡ true) × (lookup uid sessions ≡ some s)
unfolding find_registered
find_registered_sound sessions [] s e = absurd (cc)
find_registered_sound sessions (id ∷ ids) s e = elim (Option-cases (lookup id sessions)) [
  | inl gone ↦
      let (uid, m, l) = find_registered_sound sessions ids s (ground arith) in
      (uid, ground arith, l)
  | inr (ses, here) ↦ (id, ground (arith, =s=_iff id id), ground arith)
]

-- What a lookup by identifiers returns is a session that is registered under its own UID and
-- whose UID stands under those identifiers.
pub find_by_identifier_sound :
    (es : List HubEvent) (identifiers : String) (s : HubSession)
    → find_by_identifier (run new_hub es).0 identifiers ≡ some s
    → (lookup s.uid (run new_hub es).0.sessions ≡ some s)
      × (known (run new_hub es).0.identifiers identifiers s.uid ≡ true)
unfolding find_by_identifier lookup
find_by_identifier_sound es identifiers s e =
    let h = (run new_hub es).0 in
    elim (Option-cases (lookup identifiers h.identifiers)) [
      | inl gone ↦ absurd (ground arith)
      | inr (ids, here) ↦
          let (uid, m, l) = find_registered_sound h.sessions (keys ids) s (ground arith) in
          let named = (run-new_hub-Inv es).registered uid s l in
          (
            subst (λ (u : String). lookup u h.sessions ≡ some s) (sym named.0) l,
            subst (λ (u : String). known h.identifiers identifiers u ≡ true) (sym named.0)
                (rw here (has-elem uid ids ∙ m)),
          )
    ]

-- No registered session is missed: a lookup by its identifiers finds a session.
pub find_by_identifier-found :
    (es : List HubEvent) (uid : String) (s : HubSession)
    → lookup uid (run new_hub es).0.sessions ≡ some s
    → find_by_identifier (run new_hub es).0 s.identifiers ≢ none
unfolding find_by_identifier lookup
find_by_identifier-found es uid s e =
    let h = (run new_hub es).0 in
    let named = (run-new_hub-Inv es).registered uid s e in
    ground (
      arith,
      has-elem uid (or_empty (lookup s.identifiers h.identifiers)),
      find_registered-found h.sessions (keys (or_empty (lookup s.identifiers h.identifiers))) uid,
    )

-- How often a session is told of a disconnect, and how often it is closed.
abbrev pub told : String → List Delivery → ℕ
told uid [] = 0
told uid (send s msg ∷ out) = told uid out
told uid (send_disconnect s msg ∷ out) =
    let rest = told uid out in if s.uid =s= uid then suc rest else rest
told uid (close s reason code ∷ out) = told uid out

abbrev pub closed : String → List Delivery → ℕ
closed uid [] = 0
closed uid (send s msg ∷ out) = closed uid out
closed uid (send_disconnect s msg ∷ out) = closed uid out
closed uid (close s reason code ∷ out) =
    let rest = closed uid out in if s.uid =s= uid then suc rest else rest

module _ (uid : String) (sessions : GoMap HubSession) (msg : DisconnectMessage) where
  disconnect_each-counts :
      (ids : List String)
      → ((sid : String) (s : HubSession) → lookup sid sessions ≡ some s → s.uid ≡ sid)
      → (told uid (disconnect_each sessions msg ids)
          ≡ (if has uid sessions then occurrences uid ids else 0))
        × (closed uid (disconnect_each sessions msg ids)
            ≡ (if has uid sessions then occurrences uid ids else 0))
  unfolding disconnect_each
  disconnect_each-counts [] named = ground arith
  disconnect_each-counts (id ∷ ids) named = elim (Option-cases (lookup id sessions)) [
    | inl gone ↦
        rw (gone, disconnect_each)
          (ground (arith, =s=_iff id uid, disconnect_each-counts ids named))
    | inr (s, here) ↦
        rw (here, disconnect_each, told, closed)
          (ground (arith, =s=_iff id uid, named id s here, disconnect_each-counts ids named))
  ]

-- Whether no map of the identifiers' sessions was deleted from one hub to another.
abbrev pub kept : Hub → Hub → String → Bool
kept h h' identifiers = occurrences identifiers h'.dropped == occurrences identifiers h.dropped

pointed_counts :
    (uid : String) (h h' : Hub) (identifiers : String)
    → Inv h'
    → Keyed h'
    → (if has uid h'.sessions
        then occurrences uid (pointed_ids h' identifiers (occurrences identifiers h.dropped))
        else 0)
      ≡ one_if
          (kept h h' identifiers && has uid h'.sessions && known h'.identifiers identifiers uid)
unfolding pointed_ids lookup
pointed_counts uid h h' identifiers v k = elim (Option-cases (lookup identifiers h'.identifiers)) [
  | inl gone ↦ ground arith
  | inr (ids, here) ↦ ground (
    arith,
    occurrences-keys uid ids
        (lookup-AllValues IsMap identifiers h'.identifiers ids k.identifiers.1 here),
  )
]

-- A remote disconnect of some identifiers finds a map of their sessions after any events, and its task runs
-- after any further ones. If the identifiers were unknown, or their map was deleted meanwhile, since its
-- last session was removed, the task does nothing. Otherwise it tells every session that is registered and
-- known under the identifiers by then, also one that has come in between, once, closes it once, and does
-- neither to any other session.
pub disconnect_sessions-once :
    (es later : List HubEvent) (unmarshal : String → Option Json) (identifiers : String)
    (reconnect : Bool) (uid : String)
    → let h = (run new_hub es).0 in
      let h' = (run h later).0 in
      let out = run_tasks unmarshal h' (disconnect_sessions h identifiers reconnect) in
      let due =
        has identifiers h.identifiers
        && kept h h' identifiers
        && has uid h'.sessions
        && known h'.identifiers identifiers uid in
      (told uid out ≡ one_if due) × (closed uid out ≡ one_if due)
unfolding disconnect_sessions lookup run_task
disconnect_sessions-once es later unmarshal identifiers reconnect uid =
    let h = (run new_hub es).0 in
    let h' = (run h later).0 in
    let msg = new_disconnect_message "remote" reconnect in
    let v = run-Inv h later (run-new_hub-Inv es) in
    let k = run-Keyed h later (run-Keyed new_hub es new_hub-Keyed) in
    let ids = pointed_ids h' identifiers (occurrences identifiers h.dropped) in
    elim (Option-cases (lookup identifiers h.identifiers)) [
      | inl gone ↦ rw (gone, disconnect_sessions, run_tasks) (ground arith)
      | inr (row, here) ↦
          rw (here, disconnect_sessions)
            (rw append-nil (
              let counts =
                disconnect_each-counts uid h'.sessions msg ids
                  (λ sid s found. (v.registered sid s found).0) in
              let due = pointed_counts uid h h' identifiers v k in
              (counts.0 ∙ due, counts.1 ∙ due)))
    ]
