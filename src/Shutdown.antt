-- ===== src/Shutdown.antt =====
-- `Shutdown` of node/node.go: the sessions of the hub are told and closed one after the other, and then
-- the disconnector and the controller are shut down. The hub's loop has stopped by then.
mod Tests
pub mod Each
pub mod Loop
pub mod Whole
use anycable_go.Base.{
  ℕ, ◌+◌, String, Bool, true, false, Option, none, some, List, [], ◌∷◌, length, ltb, if◌then◌else◌,
}
use anycable_go.Base.GoMap.{GoMap}
use anycable_go.Encoders.{EncodedMessage, Encoder}
use anycable_go.Encoders
use anycable_go.Hub.State.{HubSession, hub_size}
use anycable_go.Hub.Tasks.{new_disconnect_message}
use anycable_go.Disconnector.{
  DisconnectQueue, QueueEvent, queue_events, Taker, Shared, queue_shutdown_beside,
}
use anycable_go.Node.{Node}
use anycable_go.Session.{
  Session, Channel, World, Wire, Ran, too_deep, panicked, ran, disconnect, close_going_away,
}
use anycable_go.Session.Outgoing.{send_message}
use anycable_go.Commands.{and_run}

-- The room of the hub's channel `register`.
abbrev pub register_capacity : ℕ
register_capacity = 2048

-- What a pointer in the hub's map `sessions` leads to: the session with its encoder, its channel and its
-- connection.
pub record Member : Type 0 where
  pub session : Session
  pub encoder : Encoder
  pub channel : Channel
  pub wire : List Wire

abbrev pub world_of : Node → Member → World
world_of n m = record { node = n; session = m.session; channel = m.channel; wire = m.wire }

abbrev pub member_of : Member → World → Member
member_of m w = record m { session = w.session; channel = w.channel; wire = w.wire }

abbrev pub restart_message : EncodedMessage
unfolding new_disconnect_message
restart_message = Encoders.disconnect (new_disconnect_message "server_restart" true)

-- The body of the loop over the sessions.
unfoldable pub close_member : Encoder → World → Ran
close_member encoder w =
    and_run (send_message encoder w restart_message)
      (λ w'. disconnect w' "Shutdown" close_going_away)

-- How the loop ends: a call did not return, a send to the full channel `register` waits for ever since
-- nobody receives, or every session was closed.
pub data Closing : Type 0 where
  failed : Ran → Closing
  waits : Closing
  all_closed : Node → GoMap Member → Closing

abbrev pub and_member : String → Member → Closing → Closing
and_member sid m (failed r) = failed r
and_member sid m waits = waits
and_member sid m (all_closed n rest) = all_closed n ((sid, m) ∷ rest)

-- A session sends at most one removal, so it waits exactly if the removal is one too many.
unfoldable pub after_member : (Node → Closing) → String → Member → Ran → Closing
after_member next sid m too_deep = failed too_deep
after_member next sid m panicked = failed panicked
after_member next sid m (ran w) =
    if ltb register_capacity (length w.node.register)
    then waits
    else and_member sid (member_of m w) (next w.node)

unfoldable pub close_members : GoMap Member → Node → Closing
unfolding after_member close_member
close_members [] n = all_closed n []
close_members ((sid, m) ∷ rest) n =
    after_member (close_members rest) sid m (close_member m.encoder (world_of n m))

-- The node with the sessions of its hub; `is_shut` tells whether `shutdownCh` is nil.
pub record App : Type 0 where
  pub node : Node
  pub members : GoMap Member
  pub is_shut : Bool

-- `Shutdown` refuses a second call, or does not return, or is done with the calls of `DisconnectNow`
-- that were made during the disconnector's shutdown. Errors of the disconnector and the controller are logged only.
pub data Shut : Type 0 where
  refused : String → Shut
  stuck : Closing → Shut
  done : App → Shared → Shut

-- The disconnector's `Run` goes on while `Shutdown` sleeps, where `during` is what happens to the queue, and
-- while the queue is drained, where `takers` tells who of the two receives.
abbrev pub shut_queue :
    (HubSession → Option String) → List QueueEvent → List Taker → Node → GoMap Member → Shut
shut_queue disconnect_now during takers n ms =
    let (q, drained) =
      queue_shutdown_beside disconnect_now takers (queue_events n.disconnector during).0 in
    done (record { node = record n { disconnector = q }; members = ms; is_shut = true }) drained

unfoldable pub after_closing :
    (HubSession → Option String) → List QueueEvent → List Taker → Closing → Shut
after_closing disconnect_now during takers (failed r) = stuck (failed r)
after_closing disconnect_now during takers waits = stuck waits
after_closing disconnect_now during takers (all_closed n ms) =
    shut_queue disconnect_now during takers n ms

unfoldable pub node_shutdown :
    (HubSession → Option String) → List QueueEvent → List Taker → App → Shut
unfolding after_closing close_members
node_shutdown disconnect_now during takers app =
    if app.is_shut
    then refused "Already shut down"
    else (if ltb 0 (hub_size app.node.hub)
        then after_closing disconnect_now during takers (close_members app.members app.node)
        else shut_queue disconnect_now [] takers app.node app.members)
