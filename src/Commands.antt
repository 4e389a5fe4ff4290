-- ===== src/Commands.antt =====
-- What node/node.go and node/session.go do with the messages of one session: the commands and
-- the replies of the controller. The controller of node/controller.go is an interface.
pub mod Reading
pub mod Frame
pub mod Health
pub mod Calls
pub mod Life
pub mod Unmoved
pub mod Effects
mod Tests
use Prim.Native.String.{len, ◌++◌ as concat}
use anycable_go.Base.{
  ℕ, ◌+◌, String, Bool, true, false, not, Option, none, some, List, [], ◌∷◌, ◌=s=◌, if◌then◌else◌,
}
use anycable_go.Base.GoMap.{GoMap, insert, delete, has, keys}
use anycable_go.Base.Outcome.{Outcome, ok, err, panic}
use anycable_go.Common.{
  SessionEnv, merge_connection_state, merge_channel_state, StreamMessage, CallResult, ConnectResult,
  CommandResult, connect_to_call_result, command_to_call_result, Status, success, failure, error,
  Message, Json, text,
}
use anycable_go.Metrics.{inc, add_u64}
use anycable_go.Encoders.{Encoder}
use anycable_go.Hub.State.{add_session, subscribe_session}
use anycable_go.Node.{
  Node, NodeCounts, remove_subscription, remove_all_subscriptions, node_broadcast,
}
use anycable_go.Protocol.{Answer}
use anycable_go.Session.{
  Session, World, hub_session, disconnect, disconnect_now, Ran, too_deep, panicked, ran,
  close_normal_closure, close_abnormal_closure, close_internal_server_err,
}
use anycable_go.Session.Outgoing.{send_json_transmission}

-- The calls of the interface `Controller` that a session makes, once they have returned.
pub record Controller : Type 0 where
  pub authenticate : String → SessionEnv → Answer ConnectResult
  pub subscribe : String → SessionEnv → String → String → Answer CommandResult
  pub unsubscribe : String → SessionEnv → String → String → Answer CommandResult
  pub perform : String → SessionEnv → String → String → String → Answer CommandResult
  pub disconnect : String → SessionEnv → String → List String → Option String

abbrev pub and_run : Ran → (World → Ran) → Ran
and_run too_deep f = too_deep
and_run panicked f = panicked
and_run (ran w) f = f w

abbrev pub with_env : World → SessionEnv → World
with_env w env = record w { session = record w.session { env = env } }

abbrev pub with_node : World → Node → World
with_node w n = record w { node = n }

abbrev pub merged_env : World → Option SessionEnv → Ran
merged_env w none = panicked
merged_env w (some env) = ran (with_env w env)

unfoldable pub transmit : Encoder → List String → World → Ran
transmit encoder [] w = ran w
transmit encoder (msg ∷ rest) w =
    and_run (send_json_transmission encoder w msg) (transmit encoder rest)

unfoldable pub broadcast_all : List StreamMessage → Node → Node
broadcast_all [] n = n
broadcast_all (msg ∷ rest) n = broadcast_all rest (node_broadcast n msg)

unfoldable pub merge_cstate : Option (GoMap String) → World → Ran
merge_cstate none w = ran w
merge_cstate (some state) w = merged_env w (merge_connection_state w.session.env state)

unfoldable pub handle_call_reply : Encoder → CallResult → World → Ran
unfolding merge_cstate broadcast_all transmit
handle_call_reply encoder reply w = and_run (merge_cstate reply.cstate w) (λ w'.
    transmit encoder reply.transmissions (with_node w' (broadcast_all reply.broadcasts w'.node)))

unfoldable pub remove_streams : String → String → List String → Node → Node
remove_streams sid identifier [] n = n
remove_streams sid identifier (stream ∷ rest) n =
    remove_streams sid identifier rest (remove_subscription n sid identifier stream)

-- The hub's maps are written at once here, and not by its loop.
unfoldable pub add_streams : String → String → List String → Node → Node
add_streams sid identifier [] n = n
add_streams sid identifier (stream ∷ rest) n =
    add_streams sid identifier rest
      (record n { hub = subscribe_session n.hub sid stream identifier })

unfoldable pub reply_streams : String → String → CommandResult → Node → Node
unfolding remove_streams add_streams
reply_streams sid identifier reply n = add_streams sid identifier reply.streams (
    if reply.stop_all_streams
    then remove_all_subscriptions n sid identifier
    else remove_streams sid identifier reply.stopped_streams n)

unfoldable pub merge_istate : String → Option (GoMap String) → World → Ran
merge_istate identifier none w = ran w
merge_istate identifier (some state) w =
    merged_env w (merge_channel_state w.session.env identifier state)

-- The call that is deferred to the end.
abbrev pub deferred_disconnect : Bool → String → ℕ → World → Ran
deferred_disconnect false reason code w = ran w
deferred_disconnect true reason code w = disconnect w reason code

unfoldable pub handle_command_reply : Encoder → String → CommandResult → World → Ran
unfolding reply_streams merge_istate handle_call_reply
handle_command_reply encoder identifier reply w =
    and_run
      (and_run
        (merge_istate identifier reply.istate
          (with_node w (reply_streams w.session.uid identifier reply w.node)))
        (handle_call_reply encoder (command_to_call_result reply)))
      (deferred_disconnect reply.disconnect "Command Failed" close_abnormal_closure)

-- A command ends with the world that it leaves and its error.
pub record Done : Type 0 where
  pub run : Ran
  pub error : Option String

abbrev refuse : World → String → Done
refuse w e = record { run = ran w; error = some e }

abbrev pub handle_result : Encoder → String → Option CommandResult → World → Ran
handle_result encoder identifier none w = ran w
handle_result encoder identifier (some res) w = handle_command_reply encoder identifier res w

abbrev pub with_subscriptions : World → GoMap Bool → World
with_subscriptions w subscriptions = record w {
  session = record w.session { subscriptions = subscriptions };
}

subscribed : Encoder → String → Answer CommandResult → World → Ran
subscribed encoder identifier a w = elim a.error [
  | some e ↦ handle_result encoder identifier a.result w
  | none ↦
      handle_result encoder identifier a.result
        (with_subscriptions w (insert identifier true w.session.subscriptions))
]

unfoldable pub subscribe : Controller → Encoder → World → String → Done
unfolding subscribed
subscribe c encoder w identifier =
    let s = w.session in
    let a = c.subscribe s.uid s.env s.identifiers identifier in
    if has identifier s.subscriptions
    then refuse w (concat "Already subscribed to " identifier)
    else record { run = subscribed encoder identifier a w; error = a.error }

-- Without an error the result is written to, which panics if it is nil.
unsubscribed_ok : Encoder → String → Option CommandResult → World → Ran
unsubscribed_ok encoder identifier none w = panicked
unsubscribed_ok encoder identifier (some res) w =
    handle_command_reply encoder identifier (record res { stop_all_streams = true })
      (with_subscriptions w (delete identifier w.session.subscriptions))

unsubscribed : Encoder → String → Answer CommandResult → World → Ran
unfolding unsubscribed_ok
unsubscribed encoder identifier a w = elim a.error [
  | some e ↦ handle_result encoder identifier a.result w
  | none ↦ unsubscribed_ok encoder identifier a.result w
]

unfoldable pub unsubscribe : Controller → Encoder → World → String → Done
unfolding unsubscribed
unsubscribe c encoder w identifier =
    let s = w.session in
    let a = c.unsubscribe s.uid s.env s.identifiers identifier in
    if has identifier s.subscriptions
    then record { run = unsubscribed encoder identifier a w; error = a.error }
    else refuse w (concat "Unknown subscription " identifier)

-- `msg.Data.(string)`.
abbrev pub text_data : Json → Option String
text_data (text d) = some d
text_data _ = none

perform_with : Controller → Encoder → World → String → Option String → Done
perform_with c encoder w identifier none = refuse w "Perform data must be a string"
perform_with c encoder w identifier (some d) =
    let s = w.session in
    let a = c.perform s.uid s.env s.identifiers identifier d in
    record { run = handle_result encoder identifier a.result w; error = a.error }

-- The text of the error leaves out the data.
unfoldable pub perform : Controller → Encoder → World → String → Json → Done
unfolding perform_with
perform c encoder w identifier content =
    if has identifier w.session.subscriptions
    then perform_with c encoder w identifier (text_data content)
    else refuse w (concat "Unknown subscription " identifier)

unfoldable pub handle_command : Controller → Encoder → World → Message → Done
unfolding subscribe unsubscribe perform
handle_command c encoder w msg =
    if msg.command =s= "subscribe"
    then subscribe c encoder w msg.identifier
    else (if msg.command =s= "unsubscribe"
        then unsubscribe c encoder w msg.identifier
        else (if msg.command =s= "message"
            then perform c encoder w msg.identifier msg.content
            else refuse w (concat "Unknown command: " msg.command)))

abbrev pub count_failed_auth : World → World
count_failed_auth w = record w {
  node = record w.node {
    counts = record w.node.counts { failed_auths = inc w.node.counts.failed_auths };
  };
}

-- A session that is authenticated: its identifiers, and its place in the hub, which is written at
-- once.
abbrev pub enter : World → String → World
enter w identifiers =
    let s = record w.session { identifiers = identifiers; connected = true } in
    record w { session = s; node = record w.node { hub = add_session w.node.hub (hub_session s) } }

authenticated : Encoder → Status → ConnectResult → World → Ran
authenticated encoder success res w =
    handle_call_reply encoder (connect_to_call_result res) (enter w res.identifier)
authenticated encoder failure res w =
    and_run (handle_call_reply encoder (connect_to_call_result res) (count_failed_auth w))
      (λ w'. disconnect w' "Auth Failed" close_normal_closure)
authenticated encoder error res w =
    and_run (handle_call_reply encoder (connect_to_call_result res) w)
      (λ w'. disconnect w' "Auth Failed" close_normal_closure)

authenticate_answer : Encoder → Answer ConnectResult → World → Ran
unfolding authenticated
authenticate_answer encoder a w = elim a.error [
  | some e ↦ disconnect w "Auth Error" close_internal_server_err
  | none ↦ elim a.result [ none ↦ panicked | some res ↦ authenticated encoder res.status res w ]
]

unfoldable pub authenticate : Controller → Encoder → World → Done
unfolding authenticate_answer
authenticate c encoder w =
    let a = c.authenticate w.session.uid w.session.env in
    record { run = authenticate_answer encoder a w; error = a.error }

-- `DisconnectNow`, for a session that was taken from the queue.
unfoldable pub disconnect_call : Controller → Session → Option String
disconnect_call c s = c.disconnect s.uid s.env s.identifiers (keys s.subscriptions)
