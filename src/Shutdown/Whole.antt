-- ===== src/Shutdown/Whole.antt =====
-- The whole of `Shutdown` of node/node.go.

use anycable_go.Base.{
  ◌+◌, ◌≤◌, ◌<◌, ◌≡◌, inl, inr, String, false, Option, List, [], ◌∷◌, length, arith,
}
use anycable_go.Base.GoMap.{GoMap}
use anycable_go.Base.Values.{AllValues}
use anycable_go.Hub.State.{HubSession, hub_size}
use anycable_go.Disconnector.{
  DisconnectQueue, QueueEvent, enqueues, receives, stops, queue_events, Taker,
}
use anycable_go.Node.{Node}
use anycable_go.Shutdown.{
  App, stuck, Closing, waits, after_closing, close_members, node_shutdown, register_capacity,
}
use anycable_go.Shutdown.Each.{SafeMember}
use anycable_go.Shutdown.Loop.{removals, leavers, enqueue_all, close_members_cases}

-- Nobody else stops the queue.
abbrev pub NoStop : List QueueEvent → Type 0
NoStop [] = Unit
NoStop (stops ∷ es) = ⊥
NoStop (receives ∷ es) = NoStop es
NoStop (enqueues s ∷ es) = NoStop es

-- The disconnector's queue once the loop over the sessions has ended and `during` has happened.
abbrev pub queue_after : App → List QueueEvent → DisconnectQueue × List HubSession
queue_after app during =
    queue_events (enqueue_all app.node.disconnector (leavers app.members)) during

module _ (disconnect_now : HubSession → Option String) (during : List QueueEvent)
    (takers : List Taker) (app : App) (running : app.is_shut ≡ false)
    (active : 0 < hub_size app.node.hub) where
  to_closing :
      (c : Closing)
      → close_members app.members app.node ≡ c
      → node_shutdown disconnect_now during takers app
        ≡ after_closing disconnect_now during takers c
  unfolding node_shutdown
  to_closing c e = rw (running, e) (ground arith)

  -- A shutdown with more removals than the channel `register` has room for never returns.
  pub node_shutdown_waits :
      AllValues SafeMember app.members
      → length app.node.register ≤ register_capacity
      → register_capacity < length app.node.register + length (removals app.members)
      → node_shutdown disconnect_now during takers app ≡ stuck waits
  unfolding after_closing
  node_shutdown_waits safe room large = elim (close_members_cases app.members app.node safe room) [
    | inl (small, _) ↦ absurd (omega arith)
    | inr (_, stays) ↦ to_closing waits stays
  ]
