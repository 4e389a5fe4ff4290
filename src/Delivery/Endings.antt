-- ===== src/Delivery/Endings.antt =====
-- A session that has ended on its way out of the hub.
use anycable_go.Base.{
  ℕ, ◌≡◌, refl, ap, ◌∙◌, sym, String, true, Option, none, some, List, [], ◌∷◌, ◌++◌, append_assoc,
  arith, inl, inr, Option-cases,
}
use anycable_go.Common.{Json}
use anycable_go.Hub.State.{Hub, new_hub}
use anycable_go.Hub.Tasks.{broadcast_to_stream}
use anycable_go.Hub.{HubEvent, HubRegistration, handle_registration, register, run, handle}
use anycable_go.Hub.Refinement.{removed_last, run-append}
use anycable_go.Hub.Broadcast.{run_tasks, sent_to, broadcast-once}
use anycable_go.Node.{Node, node_disconnect, hub_remove_session}
use anycable_go.Session.{
  World, ran, disconnect_now, disconnect_from_node, write_frame, shut_channel, close_channel,
  close_after, close_session, close_message,
}
use anycable_go.Session.Steps.{SafeWorld}
use anycable_go.Session.Ending.{disconnect_now_ends}
use anycable_go.Delivery.{Turn, registers, hub_takes, take_registration, hub_turns, and_tasks}

-- A turn for each registration that waits.
abbrev pub turns_for : List HubRegistration → List Turn
turns_for [] = []
turns_for (r ∷ rs) = registers ∷ turns_for rs

abbrev pub events_for : List HubRegistration → List HubEvent
events_for [] = []
events_for (r ∷ rs) = register r ∷ events_for rs

-- The loop takes every registration that waits.
all_taken :
    (rs : List HubRegistration) (n : Node)
    → hub_turns (turns_for rs) (record n { register = rs })
      ≡ some (record n { hub = (run n.hub (events_for rs)).0; register = [] }, [])
unfolding hub_turns hub_takes take_registration handle run
all_taken [] n = refl
all_taken (r ∷ rs) n =
    ap (and_tasks []) (all_taken rs (record n { hub = handle_registration n.hub r }))

events_for-append :
    (xs : List HubRegistration) (r : HubRegistration)
    → events_for (xs ++ r ∷ []) ≡ events_for xs ++ register r ∷ []
events_for-append [] r = refl
events_for-append (x ∷ xs) r = ap (λ (t : List HubEvent). register x ∷ t) (events_for-append xs r)

shut_channel-hub : (w w' : World) → shut_channel w ≡ some w' → w'.node.hub ≡ w.node.hub
unfolding shut_channel close_channel
shut_channel-hub w w' e = ground arith

disconnect_from_node-hub : (w : World) → (disconnect_from_node w).node.hub ≡ w.node.hub
unfolding disconnect_from_node node_disconnect hub_remove_session
disconnect_from_node-hub w = ground arith

close_session-hub : (w : World) → (close_session w).node.hub ≡ w.node.hub
unfolding close_session
close_session-hub w = ground arith

disconnect_now-hub :
    (w w' : World) (reason : String) (code : ℕ)
    → disconnect_now w reason code ≡ ran w'
    → w'.node.hub ≡ w.node.hub
unfolding disconnect_now
disconnect_now-hub w w' reason code e =
    let v = (write_frame (disconnect_from_node w) (close_message reason code) none).0 in
    elim (Option-cases (shut_channel v)) [
      | inl panics ↦ absurd (let p = sym (ap close_after panics) ∙ e in ground arith)
      | inr (u, shuts) ↦
          let p = sym (ap close_after shuts) ∙ e in
          let same : close_session u ≡ w' = ground arith in
          ap (λ (z : World). z.node.hub) (sym same)
          ∙ close_session-hub u
          ∙ shut_channel-hub v u shuts
          ∙ disconnect_from_node-hub w
    ]

module _ (es : List HubEvent) (rs : List HubRegistration) (uid identifiers : String) where
  -- The registrations that wait once the session has sent its removal.
  abbrev with_removal : List HubRegistration
  with_removal =
      rs
      ++ record { event = "remove"; session = record { uid = uid; identifiers = identifiers } } ∷ []

  nothing_sent :
      (h : Hub) (unmarshal : String → Option Json) (stream text identifier : String)
      → h ≡ (run (run new_hub es).0 (events_for with_removal)).0
      → sent_to uid identifier (run_tasks unmarshal h (broadcast_to_stream h stream text)) ≡ 0
  nothing_sent h unmarshal stream text identifier e =
      let hub =
        e
        ∙ sym (run-append new_hub es (events_for with_removal))
        ∙ ap (λ (t : List HubEvent). (run new_hub (es ++ t)).0) (events_for-append rs _)
        ∙ ap (λ (t : List HubEvent). (run new_hub t).0) (sym (append_assoc es (events_for rs) _)) in
      ap
        (λ (h' : Hub).
          sent_to uid identifier (run_tasks unmarshal h' (broadcast_to_stream h' stream text)))
        hub
      ∙ broadcast-once _ unmarshal stream text uid identifier
      ∙ rw (removed_last (es ++ events_for rs) (record { uid = uid; identifiers = identifiers }))
          refl

-- Once a connected session has ended, from the reading or the writing side, and the hub's loop has taken
-- the registrations that wait, no broadcast to any stream sends it anything.
pub ended_session_gets_nothing :
    (w : World) (reason : String) (code : ℕ) (es : List HubEvent)
    → SafeWorld w
    → w.session.connected ≡ true
    → w.node.hub ≡ (run new_hub es).0
    → (w' : World) × (n : Node) × (disconnect_now w reason code ≡ ran w')
      × (hub_turns (turns_for w'.node.register) w'.node ≡ some (n, []))
      × (n.register ≡ [])
      × ((unmarshal : String → Option Json) (stream text identifier : String)
          → sent_to w.session.uid identifier
              (run_tasks unmarshal n.hub (broadcast_to_stream n.hub stream text))
            ≡ 0)
unfolding node_disconnect hub_remove_session
ended_session_gets_nothing w reason code es s on hub =
    let (w', ends, safe, ended, wire, quiet) = disconnect_now_ends w reason code s in
    let told : w'.node.register
        ≡ with_removal es w.node.register w.session.uid w.session.identifiers =
      ended.removal ∙ rw on refl in
    (
      w',
      record w'.node { hub = (run w'.node.hub (events_for w'.node.register)).0; register = [] },
      ends,
      all_taken w'.node.register w'.node,
      refl,
      λ unmarshal stream text identifier.
          nothing_sent es w.node.register w.session.uid w.session.identifiers _ unmarshal stream
            text identifier
            (ap (λ (z : Hub). (run z (events_for w'.node.register)).0)
                (disconnect_now-hub w w' reason code ends ∙ hub)
              ∙ ap (λ (z : List HubRegistration). (run (run new_hub es).0 (events_for z)).0) told),
    )
