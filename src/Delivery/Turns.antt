-- ===== src/Delivery/Turns.antt =====
-- The turns of the hub's loop are a run of the hub.
use anycable_go.Base.{◌≡◌, ap, sym, ◌∙◌, some, List, [], ◌∷◌, ◌++◌, inl, inr, arith, Option-cases}
use anycable_go.Common.{StreamMessage, RemoteDisconnectMessage}
use anycable_go.Hub.State.{Hub}
use anycable_go.Hub.Tasks.{Task}
use anycable_go.Hub.{
  HubEvent, HubRegistration, HubSubscription, register, subscribe, broadcast, remote_disconnect,
  handle, run,
}
use anycable_go.Node.{Node}
use anycable_go.Delivery.{
  Turn, registers, subscribes, broadcasts, disconnects, take_registration, take_subscription,
  take_broadcast, take_disconnect, hub_takes, and_tasks, then_turns, hub_turns,
}

-- The event of a turn.
abbrev Event : Node → Node → List Task → Type 0
Event n n' tasks = (e : HubEvent) × (handle n.hub e ≡ (n'.hub, tasks))

module _ (n n' : Node) (tasks : List Task) where
  take_registration-Event :
      (rs : List HubRegistration) → take_registration n rs ≡ some (n', tasks) → Event n n' tasks
  unfolding take_registration
  take_registration-Event [] h = absurd (cc)
  take_registration-Event (r ∷ rest) h = (register r, ground arith)

  take_subscription-Event :
      (ss : List HubSubscription) → take_subscription n ss ≡ some (n', tasks) → Event n n' tasks
  unfolding take_subscription
  take_subscription-Event [] h = absurd (cc)
  take_subscription-Event (s ∷ rest) h = (subscribe s, ground arith)

  take_broadcast-Event :
      (ms : List StreamMessage) → take_broadcast n ms ≡ some (n', tasks) → Event n n' tasks
  unfolding take_broadcast
  take_broadcast-Event [] h = absurd (cc)
  take_broadcast-Event (m ∷ rest) h = (broadcast m, ground arith)

  take_disconnect-Event :
      (ms : List RemoteDisconnectMessage)
      → take_disconnect n ms ≡ some (n', tasks)
      → Event n n' tasks
  unfolding take_disconnect
  take_disconnect-Event [] h = absurd (cc)
  take_disconnect-Event (m ∷ rest) h = (remote_disconnect m, ground arith)

  hub_takes-Event : (t : Turn) → hub_takes n t ≡ some (n', tasks) → Event n n' tasks
  unfolding hub_takes
  hub_takes-Event registers h = take_registration-Event n.register h
  hub_takes-Event subscribes h = take_subscription-Event n.subscribe h
  hub_takes-Event broadcasts h = take_broadcast-Event n.broadcast h
  hub_takes-Event disconnects h = take_disconnect-Event n.disconnect h

some_injective : {x y : Node × List Task} → some x ≡ some y → x ≡ y
some_injective e = cc

-- Whatever the order in which the loop receives from its channels, it is a run of the hub over the
-- events that it received.
pub hub_turns-run :
    (ts : List Turn) (n n' : Node) (tasks : List Task)
    → hub_turns ts n ≡ some (n', tasks)
    → (es : List HubEvent) × (run n.hub es ≡ (n'.hub, tasks))
unfolding hub_turns run
hub_turns-run [] n n' tasks h = ([], ground arith)
hub_turns-run (t ∷ ts) n n' tasks h = elim (Option-cases (hub_takes n t)) [
  | inl empty ↦ absurd (ground arith)
  | inr ((m, first), step) ↦ elim (Option-cases (hub_turns ts m)) [
    | inl empty ↦ absurd (ground arith)
    | inr ((m', more), rest) ↦
        let (e, taken) = hub_takes-Event n m first t step in
        let (es, later) = hub_turns-run ts m m' more rest in
        let all = ap (then_turns (hub_turns ts)) step ∙ ap (and_tasks first) rest in
        let same : some (m', first ++ more) ≡ some (n', tasks) = sym all ∙ h in
        let pair = some_injective same in
        (
          e ∷ es,
          ap (λ (p : Hub × List Task). ((run p.0 es).0, p.1 ++ (run p.0 es).1)) taken
              ∙ ap (λ (q : Hub × List Task). (q.0, first ++ q.1)) later
              ∙ ap (λ (p : Node × List Task). (p.0.hub, p.1)) pair,
        )
  ]
]
