-- ===== src/Commands/Health.antt =====
-- How node/node.go handles the replies of the controller, in a session that was made by `NewSession`.
use anycable_go.Base.{
  ◌≡◌, refl, sym, ◌∙◌, ap, ◌≢◌, String, Bool, true, false, List, [], ◌∷◌, inl, inr, arith, Option,
  none, some, Option-cases,
}
use anycable_go.Base.GoMap.{GoMap, adjust}
use anycable_go.Base.Outcome.{Outcome, ok, err, panic}
use anycable_go.Common.{
  SessionEnv, merge_connection_state, merge_channel_state, merge_entries, ensure_channel,
  CallResult, CommandResult, command_to_call_result,
}
use anycable_go.Encoders.{Encoder, SentFrame}
use anycable_go.Node.{Node}
use anycable_go.Session.{World, Ran, ran, disconnect}
use anycable_go.Session.Outgoing.{send_encoded, send_json_transmission}
use anycable_go.Session.Steps.{SafeWorld}
use anycable_go.Commands.{
  Controller, and_run, with_env, with_node, merged_env, transmit, broadcast_all, merge_cstate,
  handle_call_reply, reply_streams, merge_istate, deferred_disconnect, handle_command_reply,
}
use anycable_go.Commands.Frame.{Kept, Keeps-refl, send_frame-Kept, disconnect-Kept}

-- The pointers of the session's env are there, as `NewRequestInfo` and `NewSessionEnv` make them.
pub record Healthy (w : World) : Type 0 where
  pub safe : SafeWorld w
  pub headers : w.session.env.headers ≢ none
  pub connection_state : w.session.env.connection_state ≢ none
  pub channel_states : w.session.env.channel_states ≢ none

-- A call for a session with headers that has no error has a result.
pub record Answers (c : Controller) : Type 0 where
  pub authenticated :
      (uid : String) (env : SessionEnv)
      → env.headers ≢ none
      → (c.authenticate uid env).error ≡ none
      → (c.authenticate uid env).result ≢ none
  pub unsubscribed :
      (uid : String) (env : SessionEnv) (ids identifier : String)
      → env.headers ≢ none
      → (c.unsubscribe uid env ids identifier).error ≡ none
      → (c.unsubscribe uid env ids identifier).result ≢ none

-- The encoder takes every transmission.
abbrev pub Calm : Encoder → Type 0
Calm encoder = (msg : String) → encoder.encode_transmission msg ≢ panic

-- A run that ends in a healthy world.
abbrev pub Runs : Ran → Type 0
Runs r = (w : World) × (r ≡ ran w) × Healthy w

pub ran-Runs : (w : World) → Healthy w → Runs (ran w)
ran-Runs w h = (w, refl, h)

pub and_run-Runs :
    (r : Ran) (f : World → Ran)
    → Runs r
    → ((w : World) → Healthy w → Runs (f w))
    → Runs (and_run r f)
and_run-Runs r f (w, e, h) go =
    let (w', e', h') = go w h in (w', ap (λ (z : Ran). and_run z f) e ∙ e', h')

pub Kept-Runs : (w : World) (r : Ran) → Healthy w → Kept w r → Runs r
Kept-Runs w r h (w', e, safe, keeps) = (
  w',
  e,
  record {
    safe = safe;
    headers = λ n. h.headers (ap (λ (z : SessionEnv). z.headers) (sym keeps.env) ∙ n);
    connection_state =
        λ n. h.connection_state (ap (λ (z : SessionEnv). z.connection_state) (sym keeps.env) ∙ n);
    channel_states =
        λ n. h.channel_states (ap (λ (z : SessionEnv). z.channel_states) (sym keeps.env) ∙ n);
  },
)

pub disconnect-Runs :
    (w : World) (reason : String) (code : Prim.Native.Nat.ℕ)
    → Healthy w
    → Runs (disconnect w reason code)
disconnect-Runs w reason code h =
    Kept-Runs w (disconnect w reason code) h (disconnect-Kept w reason code h.safe)

pub send_encoded-Kept :
    (w : World) (o : Outcome (Option SentFrame))
    → o ≢ panic
    → SafeWorld w
    → Kept w (send_encoded w o)
unfolding send_encoded
send_encoded-Kept w (ok (some b)) calm s = send_frame-Kept w b s
send_encoded-Kept w (ok none) calm s = (w, refl, s, Keeps-refl w)
send_encoded-Kept w (err e) calm s = (w, refl, s, Keeps-refl w)
send_encoded-Kept w panic calm s = absurd (calm refl)

module _ (encoder : Encoder) (calm : Calm encoder) where
  transmit-Runs : (msgs : List String) (w : World) → Healthy w → Runs (transmit encoder msgs w)
  unfolding transmit send_json_transmission
  transmit-Runs [] w h = ran-Runs w h
  transmit-Runs (msg ∷ rest) w h =
      and_run-Runs (send_json_transmission encoder w msg) (transmit encoder rest)
        (Kept-Runs w (send_json_transmission encoder w msg) h
          (send_encoded-Kept w (encoder.encode_transmission msg) (calm msg) h.safe))
        (transmit-Runs rest)

  pub node-Healthy : (w : World) (n : Node) → Healthy w → Healthy (with_node w n)
  node-Healthy w n h = record {
    safe = record { channel = h.safe.channel; bound = h.safe.bound };
    headers = h.headers;
    connection_state = h.connection_state;
    channel_states = h.channel_states;
  }

  env-Runs :
      (w : World) (o : Option SessionEnv)
      → Healthy w
      → ((env : SessionEnv) × (o ≡ some env)
          × (env.connection_state ≢ none)
          × (env.channel_states ≢ none)
          × (env.headers ≢ none))
      → Runs (merged_env w o)
  env-Runs w o h (env, e, connection, channels, headers) = (
    with_env w env,
    ap (merged_env w) e,
    record {
      safe = record { channel = h.safe.channel; bound = h.safe.bound };
      headers = headers;
      connection_state = connection;
      channel_states = channels;
    },
  )

  pub merge_cstate-Runs :
      (c : Option (GoMap String)) (w : World) → Healthy w → Runs (merge_cstate c w)
  unfolding merge_cstate merge_connection_state
  merge_cstate-Runs none w h = ran-Runs w h
  merge_cstate-Runs (some []) w h =
      env-Runs w (some w.session.env) h
        (w.session.env, refl, h.connection_state, h.channel_states, h.headers)
  merge_cstate-Runs (some ((k, v) ∷ other)) w h =
      elim (Option-cases w.session.env.connection_state) [
        | inl gone ↦ absurd (h.connection_state gone)
        | inr (state, there) ↦
            env-Runs w (merge_connection_state w.session.env ((k, v) ∷ other)) h (
              record w.session.env {
                connection_state = some (merge_entries state ((k, v) ∷ other));
              },
              ground arith,
              (λ e. absurd (cc)),
              h.channel_states,
              h.headers,
            )
      ]

  pub merge_istate-Runs :
      (id : String) (c : Option (GoMap String)) (w : World) → Healthy w → Runs (merge_istate id c w)
  unfolding merge_istate merge_channel_state
  merge_istate-Runs id none w h = ran-Runs w h
  merge_istate-Runs id (some other) w h = elim (Option-cases w.session.env.channel_states) [
    | inl gone ↦ absurd (h.channel_states gone)
    | inr (states, there) ↦ env-Runs w (merge_channel_state w.session.env id other) h (
      record w.session.env {
        channel_states =
            some (adjust id (λ state. merge_entries state other) (ensure_channel id states));
      },
      ground arith,
      h.connection_state,
      (λ e. absurd (cc)),
      h.headers,
    )
  ]

  pub handle_call_reply-Runs :
      (reply : CallResult) (w : World) → Healthy w → Runs (handle_call_reply encoder reply w)
  unfolding handle_call_reply
  handle_call_reply-Runs reply w h =
      and_run-Runs (merge_cstate reply.cstate w)
        (λ w'.
          transmit encoder reply.transmissions
            (with_node w' (broadcast_all reply.broadcasts w'.node)))
        (merge_cstate-Runs reply.cstate w h)
        (λ w' h'.
          transmit-Runs reply.transmissions (with_node w' (broadcast_all reply.broadcasts w'.node))
            (node-Healthy w' (broadcast_all reply.broadcasts w'.node) h'))

  deferred-Runs :
      (b : Bool) (reason : String) (code : Prim.Native.Nat.ℕ) (w : World)
      → Healthy w
      → Runs (deferred_disconnect b reason code w)
  deferred-Runs false reason code w h = ran-Runs w h
  deferred-Runs true reason code w h = disconnect-Runs w reason code h

  pub handle_command_reply-Runs :
      (id : String) (reply : CommandResult) (w : World)
      → Healthy w
      → Runs (handle_command_reply encoder id reply w)
  unfolding handle_command_reply
  handle_command_reply-Runs id reply w h =
      let n = reply_streams w.session.uid id reply w.node in
      let call = handle_call_reply encoder (command_to_call_result reply) in
      and_run-Runs (and_run (merge_istate id reply.istate (with_node w n)) call)
        (deferred_disconnect reply.disconnect "Command Failed" 1006)
        (and_run-Runs (merge_istate id reply.istate (with_node w n)) call
          (merge_istate-Runs id reply.istate (with_node w n) (node-Healthy w n h))
          (handle_call_reply-Runs (command_to_call_result reply)))
        (deferred-Runs reply.disconnect "Command Failed" 1006)
