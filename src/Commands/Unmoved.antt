-- ===== src/Commands/Unmoved.antt =====
-- What a reply of the controller leaves alone: the hub beyond its own streams, the subscriptions and
-- the names of the session.
use anycable_go.Base.{
  ◌≡◌, refl, sym, ◌∙◌, ap, String, Bool, true, false, List, [], ◌∷◌, arith, Option, none, some,
}
use anycable_go.Base.GoMap.{GoMap}
use anycable_go.Common.{
  SessionEnv, StreamMessage, CallResult, CommandResult, command_to_call_result,
}
use anycable_go.Encoders.{Encoder}
use anycable_go.Node.{Node, node_broadcast}
use anycable_go.Session.{World, Ran, ran, disconnect}
use anycable_go.Session.Outgoing.{send_json_transmission}
use anycable_go.Session.Steps.{SafeWorld}
use anycable_go.Commands.{
  and_run, with_env, with_node, merged_env, transmit, broadcast_all, merge_cstate,
  handle_call_reply, reply_streams, merge_istate, deferred_disconnect, handle_command_reply,
  handle_result,
}
use anycable_go.Commands.Frame.{Kept, Keeps-refl, Keeps-trans, disconnect-Kept}
use anycable_go.Commands.Health.{
  Calm, send_encoded-Kept, Healthy, merge_cstate-Runs, merge_istate-Runs, node-Healthy,
}

module _ (encoder : Encoder) where
  -- What a run that ends keeps, whether or not its channel is safe.
  transmit-Kept :
      Calm encoder
      → (msgs : List String) (w : World) → SafeWorld w
      → Kept w (transmit encoder msgs w)
  unfolding transmit send_json_transmission
  transmit-Kept calm [] w s = (w, refl, s, Keeps-refl w)
  transmit-Kept calm (msg ∷ rest) w s =
      let (u, e, safe, keeps) =
        send_encoded-Kept w (encoder.encode_transmission msg) (calm msg) s in
      let (v, e', safe', keeps') = transmit-Kept calm rest u safe in
      (
        v,
        ap (λ (z : Ran). and_run z (transmit encoder rest)) e ∙ e',
        safe',
        Keeps-trans keeps keeps',
      )

hub-broadcast_all : (msgs : List StreamMessage) (n : Node) → (broadcast_all msgs n).hub ≡ n.hub
unfolding broadcast_all node_broadcast
hub-broadcast_all [] n = refl
hub-broadcast_all (msg ∷ rest) n = hub-broadcast_all rest (node_broadcast n msg)

-- What a reply leaves alone.
pub record Unmoved (w w' : World) : Type 0 where
  pub healthy : Healthy w'
  pub hub : w'.node.hub ≡ w.node.hub
  pub subscriptions : w'.session.subscriptions ≡ w.session.subscriptions
  pub uid : w'.session.uid ≡ w.session.uid
  pub identifiers : w'.session.identifiers ≡ w.session.identifiers

abbrev pub UnmovedRun : World → Ran → Type 0
UnmovedRun w r = (w' : World) × (r ≡ ran w') × Unmoved w w'

-- The merge of an env is a change of the env alone.
merged_env_session :
    (w w' : World) (o : Option SessionEnv)
    → merged_env w o ≡ ran w'
    → (env : SessionEnv) × (w' ≡ with_env w env)
merged_env_session w w' none e = absurd (cc)
merged_env_session w w' (some env) e = (env, ground arith)

with_env-Unmoved :
    (w w' : World) → Healthy w' → ((env : SessionEnv) × (w' ≡ with_env w env)) → Unmoved w w'
with_env-Unmoved w w' h (env, e) = record {
  healthy = h;
  hub = ap (λ (z : World). z.node.hub) e;
  subscriptions = ap (λ (z : World). z.session.subscriptions) e;
  uid = ap (λ (z : World). z.session.uid) e;
  identifiers = ap (λ (z : World). z.session.identifiers) e;
}

pub Unmoved-refl : (w : World) → Healthy w → Unmoved w w
Unmoved-refl w h = record {
  healthy = h;
  hub = refl;
  subscriptions = refl;
  uid = refl;
  identifiers = refl;
}

pub Unmoved-trans : {u v w : World} → Unmoved u v → Unmoved v w → Unmoved u w
Unmoved-trans a b = record {
  healthy = b.healthy;
  hub = b.hub ∙ a.hub;
  subscriptions = b.subscriptions ∙ a.subscriptions;
  uid = b.uid ∙ a.uid;
  identifiers = b.identifiers ∙ a.identifiers;
}

Kept-Unmoved : (w : World) (r : Ran) → Healthy w → Kept w r → UnmovedRun w r
Kept-Unmoved w r h (w', e, safe, keeps) = (
  w',
  e,
  record {
    healthy = record {
      safe = safe;
      headers = λ n. h.headers (ap (λ (z : SessionEnv). z.headers) (sym keeps.env) ∙ n);
      connection_state =
          λ n. h.connection_state (ap (λ (z : SessionEnv). z.connection_state) (sym keeps.env) ∙ n);
      channel_states =
          λ n. h.channel_states (ap (λ (z : SessionEnv). z.channel_states) (sym keeps.env) ∙ n);
    };
    hub = keeps.hub;
    subscriptions = keeps.subscriptions;
    uid = keeps.uid;
    identifiers = keeps.identifiers;
  },
)

and_run-Unmoved :
    (w : World) (r : Ran) (f : World → Ran)
    → UnmovedRun w r
    → ((v : World) → Healthy v → UnmovedRun v (f v))
    → UnmovedRun w (and_run r f)
and_run-Unmoved w r f (v, e, u) go =
    let (v', e', u') = go v u.healthy in
    (v', ap (λ (z : Ran). and_run z f) e ∙ e', Unmoved-trans u u')

module _ (encoder : Encoder) (calm : Calm encoder) where
  merge_cstate-Unmoved :
      (c : Option (GoMap String)) (w : World) → Healthy w → UnmovedRun w (merge_cstate c w)
  unfolding merge_cstate
  merge_cstate-Unmoved none w h = (w, refl, Unmoved-refl w h)
  merge_cstate-Unmoved (some state) w h =
      let (w', e, h') = merge_cstate-Runs encoder calm (some state) w h in
      (w', e, with_env-Unmoved w w' h' (merged_env_session w w' _ e))

  merge_istate-Unmoved :
      (id : String) (c : Option (GoMap String)) (w : World)
      → Healthy w
      → UnmovedRun w (merge_istate id c w)
  unfolding merge_istate
  merge_istate-Unmoved id none w h = (w, refl, Unmoved-refl w h)
  merge_istate-Unmoved id (some state) w h =
      let (w', e, h') = merge_istate-Runs encoder calm id (some state) w h in
      (w', e, with_env-Unmoved w w' h' (merged_env_session w w' _ e))

  broadcast_all-Unmoved :
      (msgs : List StreamMessage) (w : World)
      → Healthy w
      → Unmoved w (with_node w (broadcast_all msgs w.node))
  broadcast_all-Unmoved msgs w h = record {
    healthy = node-Healthy encoder calm w (broadcast_all msgs w.node) h;
    hub = hub-broadcast_all msgs w.node;
    subscriptions = refl;
    uid = refl;
    identifiers = refl;
  }

  pub handle_call_reply-Unmoved :
      (reply : CallResult) (w : World)
      → Healthy w
      → UnmovedRun w (handle_call_reply encoder reply w)
  unfolding handle_call_reply
  handle_call_reply-Unmoved reply w h =
      and_run-Unmoved w (merge_cstate reply.cstate w) _ (merge_cstate-Unmoved reply.cstate w h)
        (λ v h'.
          let u = broadcast_all-Unmoved reply.broadcasts v h' in
          let b = with_node v (broadcast_all reply.broadcasts v.node) in
          let (x, e, y) =
            Kept-Unmoved b (transmit encoder reply.transmissions b) u.healthy
              (transmit-Kept encoder calm reply.transmissions b u.healthy.safe) in
          (x, e, Unmoved-trans u y))

  deferred-Unmoved :
      (b : Bool) (reason : String) (code : Prim.Native.Nat.ℕ) (w : World)
      → Healthy w
      → UnmovedRun w (deferred_disconnect b reason code w)
  deferred-Unmoved false reason code w h = (w, refl, Unmoved-refl w h)
  deferred-Unmoved true reason code w h =
      Kept-Unmoved w (disconnect w reason code) h (disconnect-Kept w reason code h.safe)

  -- After the hub's part, a command's reply moves nothing.
  handle_command_reply-Unmoved :
      (id : String) (reply : CommandResult) (w : World)
      → Healthy w
      → UnmovedRun
          (with_node w (reply_streams w.session.uid id reply w.node))
          (handle_command_reply encoder id reply w)
  unfolding handle_command_reply
  handle_command_reply-Unmoved id reply w h =
      let n = reply_streams w.session.uid id reply w.node in
      let v = with_node w n in
      and_run-Unmoved v _ _
        (and_run-Unmoved v (merge_istate id reply.istate v) _
          (merge_istate-Unmoved id reply.istate v (node-Healthy encoder calm w n h))
          (handle_call_reply-Unmoved (command_to_call_result reply)))
        (deferred-Unmoved reply.disconnect "Command Failed" 1006)

  pub result_subscriptions :
      (id : String) (o : Option CommandResult) (w : World)
      → Healthy w
      → (w' : World) × (handle_result encoder id o w ≡ ran w')
        × Healthy w'
        × (w'.session.subscriptions ≡ w.session.subscriptions)
  result_subscriptions id none w h = (w, refl, h, refl)
  result_subscriptions id (some res) w h =
      let (w', e, u) = handle_command_reply-Unmoved id res w h in
      (w', e, u.healthy, u.subscriptions)
