-- ===== src/Commands/Calls.antt =====
-- The commands of node/node.go, in a session that was made by `NewSession` and with a controller
-- that keeps to the interface's rule.
use anycable_go.Base.{
  ◌≡◌, refl, ◌≢◌, String, Bool, true, false, inl, inr, Option, none, some, if◌then◌else◌,
  Option-cases, ◌=s=◌,
}
use anycable_go.Base.GoMap.{GoMap, insert, delete, has}
use anycable_go.Common.{
  ConnectResult, CommandResult, connect_to_call_result, Status, success, failure, error, Message,
  Json,
}
use anycable_go.Encoders.{Encoder}
use anycable_go.Protocol.{Answer}
use anycable_go.Session.{World, disconnect}
use anycable_go.Commands.{
  Controller, handle_call_reply, Done, handle_result, with_subscriptions, subscribed, subscribe,
  unsubscribed_ok, unsubscribed, unsubscribe, text_data, perform_with, perform, handle_command,
  authenticate, authenticate_answer, authenticated, enter, count_failed_auth,
}
use anycable_go.Commands.Health.{
  Healthy, Answers, Calm, Runs, ran-Runs, and_run-Runs, disconnect-Runs, handle_command_reply-Runs,
  handle_call_reply-Runs, node-Healthy,
}

module _ (encoder : Encoder) (calm : Calm encoder) where
  handle_result-Runs :
      (id : String) (o : Option CommandResult) (w : World)
      → Healthy w
      → Runs (handle_result encoder id o w)
  handle_result-Runs id none w h = ran-Runs w h
  handle_result-Runs id (some res) w h = handle_command_reply-Runs encoder calm id res w h

  subscriptions-Healthy :
      (w : World) (m : GoMap Bool) → Healthy w → Healthy (with_subscriptions w m)
  subscriptions-Healthy w m h = record {
    safe = record { channel = h.safe.channel; bound = h.safe.bound };
    headers = h.headers;
    connection_state = h.connection_state;
    channel_states = h.channel_states;
  }

  subscribed-Runs :
      (id : String) (a : Answer CommandResult) (w : World)
      → Healthy w
      → Runs (subscribed encoder id a w)
  unfolding subscribed
  subscribed-Runs id a w h = elim (Option-cases a.error) [
    | inr (e, failed) ↦ rw failed (handle_result-Runs id a.result w h)
    | inl fine ↦
        let m = insert id true w.session.subscriptions in
        rw fine
          (handle_result-Runs id a.result (with_subscriptions w m) (subscriptions-Healthy w m h))
  ]

  unsubscribed_ok-Runs :
      (id : String) (o : Option CommandResult) (w : World)
      → o ≢ none
      → Healthy w
      → Runs (unsubscribed_ok encoder id o w)
  unfolding unsubscribed_ok
  unsubscribed_ok-Runs id none w there h = absurd (there refl)
  unsubscribed_ok-Runs id (some res) w there h =
      let m = delete id w.session.subscriptions in
      handle_command_reply-Runs encoder calm id (record res { stop_all_streams = true })
        (with_subscriptions w m) (subscriptions-Healthy w m h)

  unsubscribed-Runs :
      (id : String) (a : Answer CommandResult) (w : World)
      → (a.error ≡ none → a.result ≢ none)
      → Healthy w
      → Runs (unsubscribed encoder id a w)
  unfolding unsubscribed
  unsubscribed-Runs id a w there h = elim (Option-cases a.error) [
    | inr (e, failed) ↦ rw failed (handle_result-Runs id a.result w h)
    | inl fine ↦ rw fine (unsubscribed_ok-Runs id a.result w (there fine) h)
  ]

  pick : (b : Bool) (d e : Done) → Runs d.run → Runs e.run → Runs (if b then d else e).run
  pick true d e x y = x
  pick false d e x y = y

  module _ (c : Controller) (answers : Answers c) (w : World) (h : Healthy w) where
    subscribe-Runs : (id : String) → Runs (subscribe c encoder w id).run
    unfolding subscribe
    subscribe-Runs id =
        let s = w.session in
        pick (has id s.subscriptions) _ _ (ran-Runs w h)
          (subscribed-Runs id (c.subscribe s.uid s.env s.identifiers id) w h)

    unsubscribe-Runs : (id : String) → Runs (unsubscribe c encoder w id).run
    unfolding unsubscribe
    unsubscribe-Runs id =
        let s = w.session in
        pick (has id s.subscriptions) _ _
          (unsubscribed-Runs id (c.unsubscribe s.uid s.env s.identifiers id) w
            (answers.unsubscribed s.uid s.env s.identifiers id h.headers) h)
          (ran-Runs w h)

    perform_with-Runs : (id : String) (o : Option String) → Runs (perform_with c encoder w id o).run
    unfolding perform_with
    perform_with-Runs id none = ran-Runs w h
    perform_with-Runs id (some d) =
        let s = w.session in
        handle_result-Runs id (c.perform s.uid s.env s.identifiers id d).result w h

    perform-Runs : (id : String) (content : Json) → Runs (perform c encoder w id content).run
    unfolding perform
    perform-Runs id content =
        pick (has id w.session.subscriptions) _ _ (perform_with-Runs id (text_data content))
          (ran-Runs w h)

    -- A command of a healthy session ends without a panic, and leaves the session healthy, whatever
    -- the message is and however the controller answers.
    pub handle_command-Runs : (msg : Message) → Runs (handle_command c encoder w msg).run
    unfolding handle_command
    handle_command-Runs msg =
        pick (msg.command =s= "subscribe") _ _ (subscribe-Runs msg.identifier) (
          pick (msg.command =s= "unsubscribe") _ _ (unsubscribe-Runs msg.identifier) (
            pick (msg.command =s= "message") _ _ (perform-Runs msg.identifier msg.content)
              (ran-Runs w h)))

  authenticated-Runs :
      (s : Status) (res : ConnectResult) (w : World)
      → Healthy w
      → Runs (authenticated encoder s res w)
  unfolding authenticated
  authenticated-Runs success res w h =
      handle_call_reply-Runs encoder calm (connect_to_call_result res) (enter w res.identifier)
        (record {
          safe = record { channel = h.safe.channel; bound = h.safe.bound };
          headers = h.headers;
          connection_state = h.connection_state;
          channel_states = h.channel_states;
        })
  authenticated-Runs failure res w h =
      and_run-Runs (handle_call_reply encoder (connect_to_call_result res) (count_failed_auth w))
        (λ w'. disconnect w' "Auth Failed" 1000)
        (handle_call_reply-Runs encoder calm (connect_to_call_result res) (count_failed_auth w)
          (node-Healthy encoder calm w (count_failed_auth w).node h))
        (λ w' h'. disconnect-Runs w' "Auth Failed" 1000 h')
  authenticated-Runs error res w h =
      and_run-Runs (handle_call_reply encoder (connect_to_call_result res) w)
        (λ w'. disconnect w' "Auth Failed" 1000)
        (handle_call_reply-Runs encoder calm (connect_to_call_result res) w h)
        (λ w' h'. disconnect-Runs w' "Auth Failed" 1000 h')

  authenticate_answer-Runs :
      (a : Answer ConnectResult) (w : World)
      → (a.error ≡ none → a.result ≢ none)
      → Healthy w
      → Runs (authenticate_answer encoder a w)
  unfolding authenticate_answer
  authenticate_answer-Runs a w there h = elim (Option-cases a.error) [
    | inr (e, failed) ↦ rw failed (disconnect-Runs w "Auth Error" 1011 h)
    | inl fine ↦ elim (Option-cases a.result) [
      | inl nil ↦ absurd (there fine nil)
      | inr (res, some_res) ↦ rw (fine, some_res) (authenticated-Runs res.status res w h)
    ]
  ]

  pub authenticate-Runs :
      (c : Controller) (w : World) → Answers c → Healthy w → Runs (authenticate c encoder w).run
  unfolding authenticate
  authenticate-Runs c w answers h =
      authenticate_answer-Runs (c.authenticate w.session.uid w.session.env) w
        (answers.authenticated w.session.uid w.session.env h.headers) h
