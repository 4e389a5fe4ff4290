-- ===== src/Hub/Tests.antt =====
-- The hub of node/hub.go on one history: two sessions of one user, and a stream that one leaves.
use anycable_go.Base.{◌≡◌, refl, String, true, ◌&&◌, Option, some, List, [], ◌∷◌}
use anycable_go.Base.GoMap.{lookup, insert, delete, adjust, has}
use anycable_go.Base.Values.{one_if}
use anycable_go.Common.{Json, text}
use anycable_go.Hub.State.{
  HubSession, ensure, add_session, subscribe_session, unsubscribe_session, new_hub, or_empty,
}
use anycable_go.Hub.Tasks.{
  broadcast_to_stream, run_task, broadcast_task, build_message, stream_sessions_snapshot,
  disconnect_sessions, find_by_identifier, find_registered,
}
use anycable_go.Hub.{
  HubEvent, register, subscribe, handle, handle_registration, handle_subscription, run,
}
use anycable_go.Hub.Invariant.{Inv}
use anycable_go.Hub.Registry.{known, run-new_hub-Inv}
use anycable_go.Hub.Refinement.{Agrees, specified_run, nobody, run-new_hub-Agrees}
use anycable_go.Hub.Broadcast.{sends, sent_to, run_tasks, run_task-sends, broadcast-once}
use anycable_go.Hub.Find.{told, closed, kept, disconnect_sessions-once}

abbrev alice : HubSession
alice = record { uid = "a1"; identifiers = "alice" }

abbrev alice_phone : HubSession
alice_phone = record { uid = "a2"; identifiers = "alice" }

abbrev history : List HubEvent
history =
    register (record { event = "add"; session = alice })
    ∷ register (record { event = "add"; session = alice_phone })
    ∷ subscribe (record { event = "add"; session = "a1"; stream = "news"; identifier = "chat" })
    ∷ subscribe (record { event = "add"; session = "a2"; stream = "news"; identifier = "chat" })
    ∷ subscribe (record { event = "remove"; session = "a2"; stream = "news"; identifier = "chat" })
    ∷ []

abbrev as_text : String → Option Json
as_text s = some (text s)

run-new_hub-Inv_example : Inv (run new_hub history).0
run-new_hub-Inv_example = run-new_hub-Inv history

run-new_hub-Agrees_example : Agrees (specified_run nobody history) (run new_hub history).0
run-new_hub-Agrees_example = run-new_hub-Agrees history

broadcast-once_example :
    let h = (run new_hub history).0 in
    sent_to "a1" "chat" (run_tasks as_text h (broadcast_to_stream h "news" "hi"))
    ≡ one_if (
        (specified_run nobody history).live "a1"
        && (specified_run nobody history).listens "news" "a1" "chat")
broadcast-once_example = broadcast-once history as_text "news" "hi" "a1" "chat"

run_task-sends_example :
    run_task as_text (run new_hub history).0 (broadcast_task "news" "hi")
    ≡ sends
        (build_message as_text "hi")
        (run new_hub history).0.sessions
        (stream_sessions_snapshot (or_empty (lookup "news" (run new_hub history).0.streams)))
run_task-sends_example = run_task-sends as_text (run new_hub history).0 "news" "hi"

abbrev alice_tablet : HubSession
alice_tablet = record { uid = "a3"; identifiers = "alice" }

-- One session leaves and another comes before the task runs.
abbrev later : List HubEvent
later =
    register (record { event = "remove"; session = alice })
    ∷ register (record { event = "add"; session = alice_tablet })
    ∷ []

disconnect_sessions-once_example :
    let h = (run new_hub history).0 in
    let h' = (run h later).0 in
    let out = run_tasks as_text h' (disconnect_sessions h "alice" true) in
    let due =
      has "alice" h.identifiers
      && kept h h' "alice"
      && has "a3" h'.sessions
      && known h'.identifiers "alice" "a3" in
    (told "a3" out ≡ one_if due) × (closed "a3" out ≡ one_if due)
disconnect_sessions-once_example = disconnect_sessions-once history later as_text "alice" true "a3"

registered_alice : lookup "a1" (run new_hub history).0.sessions ≡ some alice
unfolding lookup insert run handle handle_registration handle_subscription add_session
    subscribe_session unsubscribe_session new_hub adjust ensure delete
registered_alice = refl

found_alice : find_by_identifier (run new_hub history).0 "alice" ≡ some alice
unfolding lookup insert run handle handle_registration handle_subscription add_session
    subscribe_session unsubscribe_session new_hub adjust ensure delete find_by_identifier
    find_registered
found_alice = refl
