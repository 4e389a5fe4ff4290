-- ===== src/Hub/Registry.antt =====
-- The registry of node/hub.go: sessions under their UIDs and under their connection identifiers,
-- and how registration and removal keep the invariant.
use anycable_go.Base.{
  ◌≡◌, ◌∙◌, String, Bool, true, false, not, ◌&&◌, ◌||◌, none, some, List, [], ◌∷◌, arith, inl, inr,
  ◌=s=◌, =s=_iff, =s=_refl, if◌then◌else◌, Bool-cases,
}
use anycable_go.Base.GoMap.{
  GoMap, lookup, insert, delete, adjust, has, keys, lookup-insert, lookup-delete,
}
use anycable_go.Hub.State.{
  Hub, HubSession, or_empty, ensure, listed, unsubscribe_session_from_all_channels, add_session,
  remove_session, drop_empty_identifier, new_hub,
}
use anycable_go.Hub.{
  HubEvent, register, subscribe, broadcast, remote_disconnect, handle, handle_registration,
  handle_subscription, run,
}
use anycable_go.Hub.Rows.{cell, lookup-adjust, lookup-ensure, eq_nil_of_length}
use anycable_go.Hub.Streams.{channels-SameLists}
use anycable_go.Hub.Invariant.{Covered, Traced, Registered, Inv, new_hub-Inv, subscribe_session-Inv}
use anycable_go.Hub.Preserve.{cell-all_channels, unsubscribe_session-Inv, from_channel-Inv}

-- Whether a UID stands under connection identifiers.
abbrev pub known : GoMap (GoMap Bool) → String → String → Bool
known m identifiers uid = has uid (or_empty (lookup identifiers m))

pub known-add :
    (m : GoMap (GoMap Bool)) (j uid i u : String)
    → known (adjust j (insert uid true) (ensure j m)) i u ≡ (j =s= i && uid =s= u || known m i u)
unfolding lookup
known-add m j uid i u = ground (
  arith,
  lookup-adjust j i (insert uid true) (ensure j m),
  lookup-ensure j i m,
  lookup-insert uid u true (or_empty (lookup i m)),
)

known-drop_empty :
    (m : GoMap (GoMap Bool)) (j i u : String) → known (drop_empty_identifier j m) i u ≡ known m i u
unfolding drop_empty_identifier lookup
known-drop_empty m j i u =
    ground (arith, lookup-delete j i m, =s=_iff j i, eq_nil_of_length (or_empty (lookup j m)))

known-delete :
    (m : GoMap (GoMap Bool)) (j uid i u : String)
    → known (adjust j (delete uid) m) i u ≡ (not (j =s= i && uid =s= u) && known m i u)
unfolding lookup
known-delete m j uid i u =
    ground (arith, lookup-adjust j i (delete uid) m, lookup-delete uid u (or_empty (lookup i m)))

pub known-remove :
    (m : GoMap (GoMap Bool)) (j uid i u : String)
    → known (drop_empty_identifier j (adjust j (delete uid) m)) i u
      ≡ (not (j =s= i && uid =s= u) && known m i u)
known-remove m j uid i u =
    known-drop_empty (adjust j (delete uid) m) j i u ∙ known-delete m j uid i u

pub add_session-Inv : (h : Hub) (session : HubSession) → Inv h → Inv (add_session h session)
unfolding add_session
add_session-Inv h session v = record {
  covered = v.covered;
  traced = v.traced;
  registered = λ uid s now. ground (
    arith,
    lookup-insert session.uid uid session h.sessions,
    =s=_iff session.uid uid,
    =s=_refl s.identifiers,
    known-add h.identifiers session.identifiers session.uid s.identifiers uid,
    v.registered uid s,
  );
}

-- Leaving all channels keeps the registry and forgets the session's lists.
all_channels_lists :
    (h : Hub) (sid : String)
    → let h' = unsubscribe_session_from_all_channels h sid in
      (h'.sessions_streams ≡ delete sid h.sessions_streams)
      × (h'.sessions ≡ h.sessions)
      × (h'.identifiers ≡ h.identifiers)
unfolding unsubscribe_session_from_all_channels
all_channels_lists h sid =
    ground (arith, channels-SameLists h sid (keys (or_empty (lookup sid h.sessions_streams))))

module _ (h : Hub) (session : HubSession) (here : has session.uid h.sessions ≡ true) where
  pub remove_session_parts :
      let h' = remove_session h session in
      (h'.sessions ≡ delete session.uid h.sessions)
      × (h'.identifiers
          ≡ drop_empty_identifier session.identifiers
              (adjust session.identifiers (delete session.uid) h.identifiers))
      × (h'.streams ≡ (unsubscribe_session_from_all_channels h session.uid).streams)
      × (h'.sessions_streams ≡ delete session.uid h.sessions_streams)
  unfolding remove_session
  remove_session_parts = ground (arith, all_channels_lists h session.uid)

module _ (h : Hub) (session : HubSession) (v : Inv h)
    (here : has session.uid h.sessions ≡ true) where
  pub cell-remove_session :
      (stream sid : String)
      → cell (remove_session h session).streams stream sid
        ≡ (if session.uid =s= sid then none else cell h.streams stream sid)
  cell-remove_session stream sid =
      rw ((remove_session_parts h session here).2) (cell-all_channels h session.uid v stream sid)

  listed-remove_session :
      (sid identifier : String)
      → (session.uid =s= sid) ≡ false
      → listed (remove_session h session).sessions_streams sid identifier
        ≡ listed h.sessions_streams sid identifier
  listed-remove_session sid identifier other =
      rw ((remove_session_parts h session here).3)
        (rw (lookup-delete session.uid sid h.sessions_streams, other))

  remove-Covered : Covered (remove_session h session)
  unfolding lookup
  remove-Covered stream sid identifier now = ground (
    arith,
    cell-remove_session stream sid,
    listed-remove_session sid identifier,
    v.covered stream sid identifier,
  )

  remove-Traced : Traced (remove_session h session)
  remove-Traced stream sid ids now = elim (Bool-cases (session.uid =s= sid)) [
    | inl same ↦ absurd (ground (arith, cell-remove_session stream sid))
    | inr other ↦
        let old : cell h.streams stream sid ≡ some ids =
          ground (arith, cell-remove_session stream sid) in
        let (id, l) = v.traced stream sid ids old in (id, rw (listed-remove_session sid id other) l)
  ]

  remove-Registered : Registered (remove_session h session)
  remove-Registered uid s now = ground (
    arith,
    remove_session_parts h session here,
    lookup-delete session.uid uid h.sessions,
    v.registered uid s,
    known-remove h.identifiers session.identifiers session.uid s.identifiers uid,
  )

  remove_here-Inv : Inv (remove_session h session)
  remove_here-Inv = record {
    covered = remove-Covered;
    traced = remove-Traced;
    registered = remove-Registered;
  }

pub remove_missing :
    (h : Hub) (session : HubSession)
    → has session.uid h.sessions ≡ false
    → remove_session h session ≡ h
unfolding remove_session
remove_missing h session gone = rw gone

pub remove_session-Inv : (h : Hub) (session : HubSession) → Inv h → Inv (remove_session h session)
remove_session-Inv h session v = elim (Bool-cases (has session.uid h.sessions)) [
  | inl here ↦ remove_here-Inv h session v here
  | inr gone ↦ rw (remove_missing h session gone) v
]

-- Every event keeps the invariant.
pub handle-Inv : (h : Hub) (e : HubEvent) → Inv h → Inv (handle h e).0
unfolding handle handle_registration handle_subscription
handle-Inv h (register r) v = elim (Bool-cases (r.event =s= "add")) [
  | inl add ↦ rw add (add_session-Inv h r.session v)
  | inr remove ↦ rw remove (remove_session-Inv h r.session v)
]
handle-Inv h (subscribe s) v = elim (Bool-cases (s.event =s= "add")) [
  | inl add ↦ rw add (subscribe_session-Inv h s.session s.stream s.identifier v)
  | inr other ↦ elim (Bool-cases (s.event =s= "removeAll")) [
    | inl all ↦ rw (other, all) (from_channel-Inv h s.session s.identifier v)
    | inr one ↦ rw (other, one) (unsubscribe_session-Inv h s.session s.stream s.identifier v)
  ]
]
handle-Inv h (broadcast m) v = v
handle-Inv h (remote_disconnect m) v = v

pub run-Inv : (h : Hub) (es : List HubEvent) → Inv h → Inv (run h es).0
unfolding run
run-Inv h [] v = v
run-Inv h (e ∷ es) v = run-Inv (handle h e).0 es (handle-Inv h e v)

-- After any events since the hub was made, every subscription is listed for its session, so that
-- it can be found again when the session leaves, every cell of a session is listed too, and every
-- registered session stands under its UID and under its identifiers.
pub run-new_hub-Inv : (es : List HubEvent) → Inv (run new_hub es).0
run-new_hub-Inv es = run-Inv new_hub es new_hub-Inv
