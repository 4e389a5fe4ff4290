-- ===== src/Disconnector/Tests.antt =====
-- Disconnector: the properties at concrete queues.
use anycable_go.Base.{
  ◌≡◌, refl, String, true, false, Option, none, some, List, [], ◌∷◌, ◌++◌, ◌=s=◌, if◌then◌else◌,
}
use anycable_go.Base.Outcome.{ok}
use anycable_go.Hub.State.{HubSession}
use anycable_go.Disconnector.{
  DisconnectQueue, new_disconnect_queue_config, new_disconnect_queue, QueueEvent, enqueues,
  receives, stops, queue_events, queue_shutdown,
}
use anycable_go.Disconnector.Queue.{DrainedWell, queue_events_order, queue_shutdown-DrainedWell}

abbrev alice : HubSession
alice = record { uid = "1"; identifiers = "alice" }

abbrev bob : HubSession
bob = record { uid = "2"; identifiers = "bob" }

abbrev carol : HubSession
carol = record { uid = "3"; identifiers = "carol" }

abbrev fresh_queue : DisconnectQueue
fresh_queue = record {
  rate = 10;
  timeout = 5000;
  disconnect = [];
  signalled = false;
  is_stopped = false;
}

fresh_queue_made : new_disconnect_queue new_disconnect_queue_config ≡ ok fresh_queue
unfolding new_disconnect_queue
fresh_queue_made = refl

abbrev day : List QueueEvent
day = enqueues alice ∷ enqueues bob ∷ receives ∷ stops ∷ enqueues carol ∷ receives ∷ receives ∷ []

queue_events_order_example :
    (queue_events fresh_queue day).1 ++ (queue_events fresh_queue day).0.disconnect
    ≡ alice ∷ bob ∷ []
queue_events_order_example =
    queue_events_order new_disconnect_queue_config fresh_queue day fresh_queue_made

abbrev not_bob : HubSession → Option String
not_bob s = if s.identifiers =s= "bob" then some "down" else none

abbrev three : DisconnectQueue
three = record fresh_queue { disconnect = alice ∷ bob ∷ carol ∷ [] }

queue_shutdown-DrainedWell_example :
    let r = queue_shutdown not_bob three in
    (r.0.is_stopped ≡ true)
    × (r.0.disconnect ≡ r.1.rest)
    × DrainedWell not_bob (alice ∷ bob ∷ carol ∷ []) r.1
queue_shutdown-DrainedWell_example = queue_shutdown-DrainedWell not_bob three refl
