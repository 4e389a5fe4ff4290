-- ===== src/Commands/Frame.antt =====
-- What a session's frames and its end leave alone in the session and in the node.
use anycable_go.Base.{◌≡◌, refl, sym, ◌∙◌, ap, subst, String, Bool, false, inl, inr, arith}
use anycable_go.Encoders.{SentFrame}
use anycable_go.Node.{node_disconnect, hub_remove_session}
use anycable_go.Session.{
  Channel, World, disconnect_from_node, close_session, Ran, ran, and_then, send_frame, disconnect,
  close_message,
}
use anycable_go.Session.Sections.{with_frame, without_channel}
use anycable_go.Session.Steps.{SafeWorld}
use anycable_go.Session.Sending.{send_frame_worlds, overflow, left-SafeWorld, closed-SafeWorld}

-- The parts that only commands and replies change.
pub record Keeps (w w' : World) : Type 0 where
  pub uid : w'.session.uid ≡ w.session.uid
  pub identifiers : w'.session.identifiers ≡ w.session.identifiers
  pub subscriptions : w'.session.subscriptions ≡ w.session.subscriptions
  pub env : w'.session.env ≡ w.session.env
  pub hub : w'.node.hub ≡ w.node.hub
  pub subscribe : w'.node.subscribe ≡ w.node.subscribe
  pub broadcast : w'.node.broadcast ≡ w.node.broadcast
  pub disconnect : w'.node.disconnect ≡ w.node.disconnect
  pub counts : w'.node.counts ≡ w.node.counts

channel-Keeps :
    (w : World) (sends : Bool) (c : Channel)
    → Keeps w (record w { session = record w.session { sends = sends }; channel = c })
channel-Keeps w sends c = record {
  uid = refl;
  identifiers = refl;
  subscriptions = refl;
  env = refl;
  hub = refl;
  subscribe = refl;
  broadcast = refl;
  disconnect = refl;
  counts = refl;
}

pub Keeps-refl : (w : World) → Keeps w w
Keeps-refl w = channel-Keeps w w.session.sends w.channel

pub Keeps-trans : {u v w : World} → Keeps u v → Keeps v w → Keeps u w
Keeps-trans a b = record {
  uid = b.uid ∙ a.uid;
  identifiers = b.identifiers ∙ a.identifiers;
  subscriptions = b.subscriptions ∙ a.subscriptions;
  env = b.env ∙ a.env;
  hub = b.hub ∙ a.hub;
  subscribe = b.subscribe ∙ a.subscribe;
  broadcast = b.broadcast ∙ a.broadcast;
  disconnect = b.disconnect ∙ a.disconnect;
  counts = b.counts ∙ a.counts;
}

disconnect_from_node-Keeps : (w : World) → Keeps w (disconnect_from_node w)
unfolding disconnect_from_node node_disconnect hub_remove_session
disconnect_from_node-Keeps w = record {
  uid = ground arith;
  identifiers = ground arith;
  subscriptions = ground arith;
  env = ground arith;
  hub = ground arith;
  subscribe = ground arith;
  broadcast = ground arith;
  disconnect = ground arith;
  counts = ground arith;
}

close_session-Keeps : (w : World) → Keeps w (close_session w)
unfolding close_session
close_session-Keeps w = record {
  uid = ground arith;
  identifiers = ground arith;
  subscriptions = ground arith;
  env = ground arith;
  hub = ground arith;
  subscribe = ground arith;
  broadcast = ground arith;
  disconnect = ground arith;
  counts = ground arith;
}

overflow-Keeps : (w : World) → Keeps w (overflow w)
overflow-Keeps w =
    let u = without_channel w in
    let first : Keeps w u = channel-Keeps w false u.channel in
    Keeps-trans first
      (Keeps-trans (disconnect_from_node-Keeps u) (close_session-Keeps (disconnect_from_node u)))

-- A run that ends, in a world as safe as before, and keeps those parts.
abbrev pub Kept : World → Ran → Type 0
Kept w r = (w' : World) × (r ≡ ran w') × SafeWorld w' × Keeps w w'

pub send_frame-Kept : (w : World) (frame : SentFrame) → SafeWorld w → Kept w (send_frame w frame)
send_frame-Kept w frame s =
    let (w', sent, safe, cases) = send_frame_worlds w frame s in
    (
      w',
      sent,
      safe,
      elim cases [
        | inl e ↦
            subst (λ (z : World). Keeps w z) (sym e)
              (channel-Keeps w w.session.sends (with_frame w frame).channel)
        | inr (inl e) ↦ subst (λ (z : World). Keeps w z) (sym e) (Keeps-refl w)
        | inr (inr e) ↦ subst (λ (z : World). Keeps w z) (sym e) (overflow-Keeps w)
      ],
    )

pub disconnect-Kept :
    (w : World) (reason : String) (code : Prim.Native.Nat.ℕ)
    → SafeWorld w
    → Kept w (disconnect w reason code)
unfolding disconnect
disconnect-Kept w reason code s =
    let (w', sent, safe, keeps) =
      send_frame-Kept (disconnect_from_node w) (close_message reason code) (left-SafeWorld w s) in
    (
      close_session w',
      ap (λ (r : Ran). and_then r close_session) sent,
      closed-SafeWorld w' safe,
      Keeps-trans (disconnect_from_node-Keeps w) (Keeps-trans keeps (close_session-Keeps w')),
    )
