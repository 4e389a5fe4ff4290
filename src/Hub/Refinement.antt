-- ===== src/Hub/Refinement.antt =====
-- The hub of node/hub.go against its contract: a set of registered sessions and a relation that
-- says who listens to what, with neither nested maps nor lists of streams.
use anycable_go.Base.{
  ◌≡◌, refl, String, Bool, true, false, not, ◌&&◌, ◌||◌, List, [], ◌∷◌, arith, inl, inr, ◌=s=◌,
  ◌++◌, =s=_iff, =s=_refl, if◌then◌else◌, Bool-cases,
}
use anycable_go.Base.GoMap.{lookup, has, lookup-insert, lookup-delete}
use anycable_go.Hub.State.{
  Hub, HubSession, or_empty, unsubscribe_session_from_channel, subscribe_session,
  unsubscribe_session, add_session, remove_session, new_hub,
}
use anycable_go.Hub.{
  HubEvent, HubSubscription, register, subscribe, broadcast, remote_disconnect, handle,
  handle_registration, handle_subscription, run,
}
use anycable_go.Hub.Rows.{cell}
use anycable_go.Hub.Streams.{
  cell-subscribe_session, cell-unsubscribe_session, cell-unsubscribe_session_from_channel,
  from_channel-SameLists,
}
use anycable_go.Hub.Invariant.{
  subscribed, Inv, new_hub-Inv, has-opt_map, has-drop_id, unsubscribe_session-SameLists,
}
use anycable_go.Hub.Registry.{handle-Inv, remove_session_parts, cell-remove_session, remove_missing}

-- `listens stream sid identifier`.
pub record Membership : Type 0 where
  pub live : String → Bool
  pub listens : String → String → String → Bool

abbrev pub nobody : Membership
nobody = record { live = λ uid. false; listens = λ stream sid identifier. false }

abbrev pub join : Membership → String → Membership
join a uid = record a { live = λ u. uid =s= u || a.live u }

-- A session that is not registered cannot leave.
abbrev pub leave : Membership → String → Membership
leave a uid = record {
  live = λ u. not (uid =s= u) && a.live u;
  listens =
      λ stream sid identifier. not (a.live uid && uid =s= sid) && a.listens stream sid identifier;
}

abbrev pub start_stream : Membership → HubSubscription → Membership
start_stream a s = record a {
  listens = λ stream sid identifier.
      (s.stream =s= stream && s.session =s= sid && s.identifier =s= identifier)
      || a.listens stream sid identifier;
}

abbrev pub stop_stream : Membership → HubSubscription → Membership
stop_stream a s = record a {
  listens = λ stream sid identifier.
      not (s.stream =s= stream && s.session =s= sid && s.identifier =s= identifier)
      && a.listens stream sid identifier;
}

-- All the streams of a channel, whichever they are.
abbrev pub stop_channel : Membership → HubSubscription → Membership
stop_channel a s = record a {
  listens = λ stream sid identifier.
      not (s.session =s= sid && s.identifier =s= identifier) && a.listens stream sid identifier;
}

pub specified : Membership → HubEvent → Membership
specified a (register r) = if r.event =s= "add" then join a r.session.uid else leave a r.session.uid
specified a (subscribe s) =
    if s.event =s= "add"
    then start_stream a s
    else (if s.event =s= "removeAll" then stop_channel a s else stop_stream a s)
specified a (broadcast m) = a
specified a (remote_disconnect m) = a

pub specified_run : Membership → List HubEvent → Membership
specified_run a [] = a
specified_run a (e ∷ es) = specified_run (specified a e) es

pub record Agrees (a : Membership) (h : Hub) : Type 0 where
  pub live : (uid : String) → has uid h.sessions ≡ a.live uid
  pub listens :
      (stream sid identifier : String)
      → subscribed h stream sid identifier ≡ a.listens stream sid identifier

module _ (a : Membership) (h : Hub) (g : Agrees a h) where
  add-Agrees : (session : HubSession) → Agrees (join a session.uid) (add_session h session)
  unfolding add_session
  add-Agrees session = record {
    live = λ uid. ground (arith, lookup-insert session.uid uid session h.sessions, g.live uid);
    listens = g.listens;
  }

  subscribe-Agrees :
      (s : HubSubscription)
      → Agrees (start_stream a s) (subscribe_session h s.session s.stream s.identifier)
  unfolding subscribe_session
  subscribe-Agrees s = record {
    live = g.live;
    listens = λ stream sid identifier. ground (
      arith,
      cell-subscribe_session h s.session s.stream s.identifier stream sid,
      lookup-insert s.identifier identifier true (or_empty (cell h.streams stream sid)),
      g.listens stream sid identifier,
    );
  }

  unsubscribe-Agrees :
      (s : HubSubscription)
      → Agrees (stop_stream a s) (unsubscribe_session h s.session s.stream s.identifier)
  unsubscribe-Agrees s = record {
    live = λ uid.
        rw ((unsubscribe_session-SameLists h s.session s.stream s.identifier).sessions)
          (g.live uid);
    listens = λ stream sid identifier. ground (
      arith,
      cell-unsubscribe_session h s.session s.stream s.identifier stream sid,
      has-opt_map s.identifier identifier (cell h.streams stream sid),
      g.listens stream sid identifier,
    );
  }

  module _ (v : Inv h) where
    channel-Agrees :
        (s : HubSubscription)
        → Agrees (stop_channel a s) (unsubscribe_session_from_channel h s.session s.identifier)
    channel-Agrees s = record {
      live = λ uid. rw ((from_channel-SameLists h s.session s.identifier).sessions) (g.live uid);
      listens = λ stream sid identifier. ground (
        arith,
        cell-unsubscribe_session_from_channel h s.session s.identifier stream sid,
        has-drop_id s.identifier identifier (cell h.streams stream sid),
        v.covered stream sid identifier,
        =s=_iff s.session sid,
        =s=_iff s.identifier identifier,
        g.listens stream sid identifier,
      );
    }

    remove_here-Agrees :
        (session : HubSession)
        → has session.uid h.sessions ≡ true
        → Agrees (leave a session.uid) (remove_session h session)
    unfolding lookup
    remove_here-Agrees session here = record {
      live = λ uid. ground (
        arith,
        remove_session_parts h session here,
        lookup-delete session.uid uid h.sessions,
        g.live uid,
      );
      listens = λ stream sid identifier. ground (
        arith,
        cell-remove_session h session v here stream sid,
        g.live session.uid,
        g.listens stream sid identifier,
      );
    }

    remove_missing-Agrees :
        (session : HubSession)
        → has session.uid h.sessions ≡ false
        → Agrees (leave a session.uid) (remove_session h session)
    remove_missing-Agrees session gone = rw (remove_missing h session gone) (record {
      live = λ uid. ground (arith, g.live uid, g.live session.uid, =s=_iff session.uid uid);
      listens = λ stream sid identifier.
          ground (arith, g.live session.uid, g.listens stream sid identifier);
    })

-- Each event changes who is registered and who listens to what exactly as the contract says.
pub handle-Agrees :
    (a : Membership) (h : Hub) (e : HubEvent)
    → Inv h
    → Agrees a h
    → Agrees (specified a e) (handle h e).0
unfolding handle handle_registration handle_subscription specified
handle-Agrees a h (register r) v g = elim (Bool-cases (r.event =s= "add")) [
  | inl add ↦ rw add (add-Agrees a h g r.session)
  | inr remove ↦ elim (Bool-cases (has r.session.uid h.sessions)) [
    | inl here ↦ rw remove (remove_here-Agrees a h g v r.session here)
    | inr gone ↦ rw remove (remove_missing-Agrees a h g v r.session gone)
  ]
]
handle-Agrees a h (subscribe s) v g = elim (Bool-cases (s.event =s= "add")) [
  | inl add ↦ rw add (subscribe-Agrees a h g s)
  | inr other ↦ elim (Bool-cases (s.event =s= "removeAll")) [
    | inl all ↦ rw (other, all) (channel-Agrees a h g v s)
    | inr one ↦ rw (other, one) (unsubscribe-Agrees a h g s)
  ]
]
handle-Agrees a h (broadcast m) v g = g
handle-Agrees a h (remote_disconnect m) v g = g

run-Agrees :
    (a : Membership) (h : Hub) (es : List HubEvent)
    → Inv h
    → Agrees a h
    → Agrees (specified_run a es) (run h es).0
unfolding run specified_run
run-Agrees a h [] v g = g
run-Agrees a h (e ∷ es) v g =
    run-Agrees (specified a e) (handle h e).0 es (handle-Inv h e v) (handle-Agrees a h e v g)

-- Over any sequence of events since it was made, the hub is its contract: the sessions that it
-- holds and the triples of stream, session and identifier under which it would deliver are those
-- of the abstract relation, on which each event is one operation on sets.
pub run-new_hub-Agrees : (es : List HubEvent) → Agrees (specified_run nobody es) (run new_hub es).0
unfolding new_hub
run-new_hub-Agrees es = run-Agrees nobody new_hub es new_hub-Inv (record {
  live = λ uid. unfold lookup in refl;
  listens = λ stream sid identifier. unfold lookup in refl;
})

pub specified_run-append :
    (a : Membership) (xs ys : List HubEvent)
    → specified_run a (xs ++ ys) ≡ specified_run (specified_run a xs) ys
unfolding specified_run
specified_run-append a [] ys = refl
specified_run-append a (x ∷ xs) ys = specified_run-append (specified a x) xs ys

-- A session that is removed last is not in the contract.
pub removed_last :
    (es : List HubEvent) (s : HubSession)
    → (specified_run nobody (es ++ register (record { event = "remove"; session = s }) ∷ [])).live
        s.uid
      ≡ false
unfolding specified_run specified
removed_last es s = rw (specified_run-append nobody es _) (rw (=s=_refl s.uid) refl)

pub run-append : (h : Hub) (xs ys : List HubEvent) → (run h (xs ++ ys)).0 ≡ (run (run h xs).0 ys).0
unfolding run
run-append h [] ys = refl
run-append h (x ∷ xs) ys = run-append (handle h x).0 xs ys
