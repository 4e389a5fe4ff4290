-- ===== src/Hub.antt =====
-- node/hub.go: the sessions, the streams that they are subscribed to, and the loop that handles
-- registrations, subscriptions, broadcasts and remote disconnects. A locked section is one step.
pub mod State
pub mod Tasks
pub mod Rows
pub mod Streams
pub mod Invariant
pub mod Preserve
pub mod Registry
pub mod Refinement
pub mod Nested
pub mod Keyed
pub mod Broadcast
pub mod Find
mod Tests
use anycable_go.Base.{
  ℕ, String, Bool, true, false, Option, none, some, List, [], ◌∷◌, ◌++◌, length, ◌==◌, ◌=s=◌,
  if◌then◌else◌, is_some,
}
use anycable_go.Base.GoMap.{GoMap, lookup, insert, delete, adjust, has, keys}
use anycable_go.Common.{StreamMessage, RemoteDisconnectMessage, DisconnectMessage, Json, null}
use anycable_go.Encoders.{
  EncodedMessage, reply, disconnect, CachedEncodedMessage, new_cached_encoded_message,
}
use anycable_go.Hub.State.{
  Hub, HubSession, add_session, remove_session, subscribe_session, unsubscribe_session,
  unsubscribe_session_from_channel,
}
use anycable_go.Hub.Tasks.{Task, broadcast_to_stream, disconnect_sessions}

pub record HubSubscription : Type 0 where
  pub event : String
  pub session : String
  pub stream : String
  pub identifier : String

pub record HubRegistration : Type 0 where
  pub event : String
  pub session : HubSession

-- What the channels of the hub carry; `shutdown` ends the loop.
pub data HubEvent : Type 0 where
  register : HubRegistration → HubEvent
  subscribe : HubSubscription → HubEvent
  broadcast : StreamMessage → HubEvent
  remote_disconnect : RemoteDisconnectMessage → HubEvent

unfoldable pub handle_registration : Hub → HubRegistration → Hub
handle_registration h r =
    if r.event =s= "add" then add_session h r.session else remove_session h r.session

unfoldable pub handle_subscription : Hub → HubSubscription → Hub
handle_subscription h s =
    if s.event =s= "add"
    then subscribe_session h s.session s.stream s.identifier
    else (if s.event =s= "removeAll"
        then unsubscribe_session_from_channel h s.session s.identifier
        else unsubscribe_session h s.session s.stream s.identifier)

-- A case of the `select` in `Run`.
unfoldable pub handle : Hub → HubEvent → Hub × List Task
handle h (register r) = (handle_registration h r, [])
handle h (subscribe s) = (handle_subscription h s, [])
handle h (broadcast m) = (h, broadcast_to_stream h m.stream m.content)
handle h (remote_disconnect m) = (h, disconnect_sessions h m.identifier m.reconnect)

-- The loop of `Run` over the events that reach it before the shutdown, and the tasks it makes.
unfoldable pub run : Hub → List HubEvent → Hub × List Task
run h [] = (h, [])
run h (e ∷ es) = let (h', tasks) = handle h e in let (h'', more) = run h' es in (h'', tasks ++ more)
