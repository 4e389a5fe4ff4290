-- ===== src/Delivery.antt =====
-- The loop of node/hub.go over the channels of its node, which joins the parts: what the sessions and the
-- pub/sub adapters hand to the node reaches the hub in its turn.
pub mod Turns
pub mod Broadcasts
pub mod Redis
pub mod Endings
mod Tests
use anycable_go.Base.{Option, none, some, List, [], ◌∷◌, ◌++◌, ℕ, zero, suc}
use anycable_go.Common.{StreamMessage, RemoteDisconnectMessage}
use anycable_go.Hub.State.{Hub}
use anycable_go.Hub.Tasks.{Task}
use anycable_go.Hub.{
  HubEvent, HubRegistration, HubSubscription, register, subscribe, broadcast, remote_disconnect,
  handle,
}
use anycable_go.Node.{Node}

-- The channel that the `select` of `Run` receives from.
pub data Turn : Type 0 where
  registers : Turn
  subscribes : Turn
  broadcasts : Turn
  disconnects : Turn

abbrev with_hub : Node → Hub × List Task → Option (Node × List Task)
with_hub n (h, tasks) = some (record n { hub = h }, tasks)

take_registration : Node → List HubRegistration → Option (Node × List Task)
take_registration n [] = none
take_registration n (r ∷ rest) = with_hub (record n { register = rest }) (handle n.hub (register r))

take_subscription : Node → List HubSubscription → Option (Node × List Task)
take_subscription n [] = none
take_subscription n (s ∷ rest) =
    with_hub (record n { subscribe = rest }) (handle n.hub (subscribe s))

take_broadcast : Node → List StreamMessage → Option (Node × List Task)
take_broadcast n [] = none
take_broadcast n (m ∷ rest) = with_hub (record n { broadcast = rest }) (handle n.hub (broadcast m))

take_disconnect : Node → List RemoteDisconnectMessage → Option (Node × List Task)
take_disconnect n [] = none
take_disconnect n (m ∷ rest) =
    with_hub (record n { disconnect = rest }) (handle n.hub (remote_disconnect m))

-- One turn of the loop; `none` where the channel is empty.
unfoldable pub hub_takes : Node → Turn → Option (Node × List Task)
unfolding take_registration take_subscription take_broadcast take_disconnect
hub_takes n registers = take_registration n n.register
hub_takes n subscribes = take_subscription n n.subscribe
hub_takes n broadcasts = take_broadcast n n.broadcast
hub_takes n disconnects = take_disconnect n n.disconnect

abbrev pub and_tasks : List Task → Option (Node × List Task) → Option (Node × List Task)
and_tasks ts none = none
and_tasks ts (some (n, more)) = some (n, ts ++ more)

abbrev pub then_turns :
    (Node → Option (Node × List Task)) → Option (Node × List Task) → Option (Node × List Task)
then_turns f none = none
then_turns f (some (n, ts)) = and_tasks ts (f n)

unfoldable pub hub_turns : List Turn → Node → Option (Node × List Task)
unfolding hub_takes
hub_turns [] n = some (n, [])
hub_turns (t ∷ ts) n = then_turns (hub_turns ts) (hub_takes n t)
