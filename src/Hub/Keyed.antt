-- ===== src/Hub/Keyed.antt =====
-- The maps of node/hub.go stay maps: no key stands twice at any level of `streams`, nor among the
-- UIDs of a session's identifiers.
use anycable_go.Base.{
  ◌≡◌, String, Bool, true, false, List, [], ◌∷◌, inl, inr, arith, ◌=s=◌, ◌==◌, length, Bool-cases,
  =s=_refl,
}
use anycable_go.Base.GoMap.{
  GoMap, lookup, delete, adjust, has, IsMap, insert-IsMap, delete-IsMap, length-adjust,
}
use anycable_go.Hub.State.{
  Hub, HubSession, or_empty, ensure, unsubscribe_session_from_channel,
  unsubscribe_session_from_all_channels, unsubscribe_channels, subscribe_session,
  unsubscribe_session, add_session, remove_session, drop_empty_identifier, new_hub, streams_size,
}
use anycable_go.Hub.{
  HubEvent, register, subscribe, broadcast, remote_disconnect, handle, handle_registration,
  handle_subscription, run,
}
use anycable_go.Hub.Rows.{cell}
use anycable_go.Hub.Streams.{from_channel-SameLists, cell-unsubscribe_session}
use anycable_go.Hub.Invariant.{unsubscribe_session-SameLists, subscribed, has-opt_map}
use anycable_go.Hub.Registry.{remove_session_parts, remove_missing}
use anycable_go.Hub.Nested.{
  IsNested, IsKeyed, adjust-Holds, delete-Holds, ensure-Holds, drop_row-IsKeyed,
  release_streams-IsKeyed,
}

pub record Keyed (h : Hub) : Type 0 where
  pub streams : IsKeyed h.streams
  pub identifiers : IsNested h.identifiers

subscribe-IsKeyed :
    (h : Hub) (sid stream identifier : String)
    → IsKeyed h.streams
    → IsKeyed (subscribe_session h sid stream identifier).streams
unfolding subscribe_session
subscribe-IsKeyed h sid stream identifier k =
    adjust-Holds IsNested stream _ (ensure stream h.streams)
      (λ row r.
        adjust-Holds IsMap sid _ (ensure sid row) (λ ids. insert-IsMap identifier true ids)
          (ensure-Holds IsMap sid row tt r))
      (ensure-Holds IsNested stream h.streams (tt, tt) k)

unsubscribe-IsKeyed :
    (h : Hub) (sid stream identifier : String)
    → IsKeyed h.streams
    → IsKeyed (unsubscribe_session h sid stream identifier).streams
unfolding unsubscribe_session
unsubscribe-IsKeyed h sid stream identifier k =
    ground (arith, drop_row-IsKeyed stream sid identifier h.streams k)

channel-IsKeyed :
    (h : Hub) (sid identifier : String)
    → IsKeyed h.streams
    → IsKeyed (unsubscribe_session_from_channel h sid identifier).streams
unfolding unsubscribe_session_from_channel
channel-IsKeyed h sid identifier k = elim (Bool-cases (has sid h.sessions_streams)) [
  | inl known ↦ rw known (release_streams-IsKeyed sid identifier _ h.streams k)
  | inr unknown ↦ rw unknown k
]

channels-IsKeyed :
    (h : Hub) (sid : String) (channels : List String)
    → IsKeyed h.streams
    → IsKeyed (unsubscribe_channels h sid channels).streams
unfolding unsubscribe_channels
channels-IsKeyed h sid [] k = k
channels-IsKeyed h sid (channel ∷ rest) k =
    channels-IsKeyed (unsubscribe_session_from_channel h sid channel) sid rest
      (channel-IsKeyed h sid channel k)

all_channels-IsKeyed :
    (h : Hub) (sid : String)
    → IsKeyed h.streams
    → IsKeyed (unsubscribe_session_from_all_channels h sid).streams
unfolding unsubscribe_session_from_all_channels
all_channels-IsKeyed h sid k = channels-IsKeyed h sid _ k

drop_identifier-IsNested :
    (j uid : String) (m : GoMap (GoMap Bool))
    → IsNested m
    → IsNested (drop_empty_identifier j (adjust j (delete uid) m))
unfolding drop_empty_identifier
drop_identifier-IsNested j uid m h =
    let h' = adjust-Holds IsMap j (delete uid) m (λ ids. delete-IsMap uid ids) h in
    elim (Bool-cases (length (or_empty (lookup j (adjust j (delete uid) m))) == 0)) [
      | inl gone ↦ rw gone (delete-Holds IsMap j (adjust j (delete uid) m) h')
      | inr kept ↦ rw kept h'
    ]

add_session-Keyed : (h : Hub) (session : HubSession) → Keyed h → Keyed (add_session h session)
unfolding add_session
add_session-Keyed h session k = record {
  streams = k.streams;
  identifiers =
      adjust-Holds IsMap session.identifiers _ (ensure session.identifiers h.identifiers)
        (λ ids. insert-IsMap session.uid true ids)
        (ensure-Holds IsMap session.identifiers h.identifiers tt k.identifiers);
}

remove_session-Keyed : (h : Hub) (session : HubSession) → Keyed h → Keyed (remove_session h session)
remove_session-Keyed h session k = elim (Bool-cases (has session.uid h.sessions)) [
  | inl here ↦
      let parts = remove_session_parts h session here in
      record {
        streams = rw (parts.2) (all_channels-IsKeyed h session.uid k.streams);
        identifiers =
            rw (parts.1) (
              drop_identifier-IsNested session.identifiers session.uid h.identifiers k.identifiers);
      }
  | inr gone ↦ rw (remove_missing h session gone) k
]

handle-Keyed : (h : Hub) (e : HubEvent) → Keyed h → Keyed (handle h e).0
unfolding handle handle_registration handle_subscription
handle-Keyed h (register r) k = elim (Bool-cases (r.event =s= "add")) [
  | inl add ↦ rw add (add_session-Keyed h r.session k)
  | inr remove ↦ rw remove (remove_session-Keyed h r.session k)
]
handle-Keyed h (subscribe s) k = elim (Bool-cases (s.event =s= "add")) [
  | inl add ↦ rw add (record {
    streams = subscribe-IsKeyed h s.session s.stream s.identifier k.streams;
    identifiers = unfold subscribe_session in k.identifiers;
  })
  | inr other ↦ elim (Bool-cases (s.event =s= "removeAll")) [
    | inl all ↦
        rw (other, all)
          (record {
            streams = channel-IsKeyed h s.session s.identifier k.streams;
            identifiers =
                rw ((from_channel-SameLists h s.session s.identifier).identifiers) k.identifiers;
          })
    | inr one ↦
        rw (other, one)
          (record {
            streams = unsubscribe-IsKeyed h s.session s.stream s.identifier k.streams;
            identifiers =
                rw ((unsubscribe_session-SameLists h s.session s.stream s.identifier).identifiers)
                  k.identifiers;
          })
  ]
]
handle-Keyed h (broadcast m) k = k
handle-Keyed h (remote_disconnect m) k = k

pub run-Keyed : (h : Hub) (es : List HubEvent) → Keyed h → Keyed (run h es).0
unfolding run
run-Keyed h [] k = k
run-Keyed h (e ∷ es) k = run-Keyed (handle h e).0 es (handle-Keyed h e k)

pub new_hub-Keyed : Keyed new_hub
unfolding new_hub
new_hub-Keyed = record { streams = (tt, tt); identifiers = (tt, tt) }

-- Leaving one stream ends that subscription, and yet the hub counts as many streams as before,
-- also when nobody listens to the stream any more.
pub unsubscribe_session-streams_size :
    (h : Hub) (sid stream identifier : String)
    → (subscribed (unsubscribe_session h sid stream identifier) stream sid identifier ≡ false)
      × (streams_size (unsubscribe_session h sid stream identifier) ≡ streams_size h)
unfolding streams_size
unsubscribe_session-streams_size h sid stream identifier = (
  ground (
    arith,
    =s=_refl stream,
    =s=_refl sid,
    =s=_refl identifier,
    cell-unsubscribe_session h sid stream identifier stream sid,
    has-opt_map identifier identifier (cell h.streams stream sid),
  ),
  unfold unsubscribe_session in
      ground (arith, length-adjust stream (adjust sid (delete identifier)) h.streams),
)
