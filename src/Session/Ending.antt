-- ===== src/Session/Ending.antt =====
-- How a session of node/session.go ends.

use anycable_go.Base.{
  ℕ, ◌<◌, ◌≡◌, refl, sym, ◌∙◌, ap, subst, String, true, false, some, List, [], ◌∷◌, ◌++◌, length,
  arith, if◌then◌else◌, inl, inr, Bool-cases,
}
use anycable_go.Encoders.{SentFrame}
use anycable_go.Node.{Node, node_disconnect}
use anycable_go.Session.{
  Session, Channel, World, hub_session, disconnect_from_node, close_session, close_channel,
  shut_channel, send_capacity, Ran, ran, and_then, send_frame, disconnect, close_message,
  disconnect_now, add_data_sent, close_after, Wire, shut,
}
use anycable_go.Session.Sections.{without_channel}
use anycable_go.Session.Steps.{SafeWorld}
use anycable_go.Session.Sending.{
  HasRoom, left_node, left_session, left_channel, left_wire, left-SafeWorld, closed_node,
  closed_channel, closed_sends, closed_connected, closed_wire, closed_flag, closed-SafeWorld,
  send_frame_nil, send_frame_cases, sent_unconnected,
}

-- The node once it is told of the end of a session that was connected.
abbrev pub told_node : World → Node
told_node w = if w.session.connected then node_disconnect w.node (hub_session w.session) else w.node

-- What is true of a session that has ended, beside the world that it started from.
pub record Ended (w w' : World) : Type 0 where
  pub closed : w'.session.closed ≡ true
  pub disconnected : w'.session.connected ≡ false
  pub removal : w'.node.register ≡ (told_node w).register
  pub queued : w'.node.disconnector ≡ (told_node w).disconnector

-- A disconnect always comes to its end: the session is closed and not connected, the node is told
-- exactly if it was connected, and the close frame waits behind the frames that were there if there
-- was room for it.
pub disconnect_ends :
    (w : World) (reason : String) (code : ℕ)
    → SafeWorld w
    → (w' : World) × (disconnect w reason code ≡ ran w')
      × SafeWorld w'
      × Ended w w'
      × (HasRoom w → w'.channel.frames ≡ w.channel.frames ++ close_message reason code ∷ [])
unfolding disconnect
disconnect_ends w reason code s =
    let v = disconnect_from_node w in
    let message = close_message reason code in
    let (w', sent, safe, cases) = send_frame_cases v message (left-SafeWorld w s) in
    let off : v.session.connected ≡ false = ap (λ (z : Session). z.connected) (left_session w) in
    let (connected, node, frames) = sent_unconnected v w' message off cases in
    (
      close_session w',
      ap (λ (r : Ran). and_then r close_session) sent,
      closed-SafeWorld w' safe,
      record {
        closed = closed_flag w';
        disconnected = closed_connected w' ∙ connected;
        removal = ap (λ (n : Node). n.register) (closed_node w' ∙ node ∙ left_node w);
        queued = ap (λ (n : Node). n.disconnector) (closed_node w' ∙ node ∙ left_node w);
      },
      λ room.
          ap (λ (z : Channel). z.frames) (closed_channel w')
          ∙ frames (
            ap (λ (z : Session). z.sends) (left_session w) ∙ room.0,
            subst (λ (c : Channel). length c.frames < send_capacity) (sym (left_channel w)) room.1,
          )
          ∙ ap (λ (z : Channel). z.frames ++ message ∷ []) (left_channel w),
    )

shut_channel_lem :
    (w : World)
    → SafeWorld w
    → (w' : World) × (shut_channel w ≡ some w')
      × SafeWorld w'
      × (w'.session.sends ≡ false)
      × (w'.session.connected ≡ w.session.connected)
      × (w'.node ≡ w.node)
      × (w'.wire ≡ w.wire)
unfolding shut_channel close_channel
shut_channel_lem w s = elim (Bool-cases w.session.sends) [
  | inr off ↦ (w, ground arith, s, off, refl, refl, refl)
  | inl on ↦
      let field = s.channel in
      (
        without_channel w,
        ground arith,
        record { channel = refl; bound = s.bound },
        refl,
        refl,
        refl,
        refl,
      )
]

-- The world after the write of the close frame.
abbrev after_close : World → String → ℕ → World
after_close w reason code = record (add_data_sent w 0) { wire = w.wire ++ shut reason code ∷ [] }

-- The end from the reading or the writing side never panics: the connection is closed with the
-- reason, the session is closed, not connected and without a channel, so that a frame sent later
-- changes nothing, and the node is told exactly if the session was connected.
pub disconnect_now_ends :
    (w : World) (reason : String) (code : ℕ)
    → SafeWorld w
    → (w' : World) × (disconnect_now w reason code ≡ ran w')
      × SafeWorld w'
      × Ended w w'
      × (w'.wire ≡ w.wire ++ shut reason code ∷ [])
      × ((frame : SentFrame) → send_frame w' frame ≡ ran w')
unfolding disconnect_now
disconnect_now_ends w reason code s =
    let v = disconnect_from_node w in
    let safe : SafeWorld (after_close v reason code) = record {
      channel = (left-SafeWorld w s).channel;
      bound = (left-SafeWorld w s).bound;
    } in
    let (u, done_shut, safe_u, sends, connected, node, wire) =
      shut_channel_lem (after_close v reason code) safe in
    (
      close_session u,
      ap close_after done_shut,
      closed-SafeWorld u safe_u,
      record {
        closed = closed_flag u;
        disconnected =
            closed_connected u ∙ connected ∙ ap (λ (z : Session). z.connected) (left_session w);
        removal =
            ap (λ (n : Node). n.register) (closed_node u ∙ node)
            ∙ ap (λ (n : Node). n.register) (left_node w);
        queued =
            ap (λ (n : Node). n.disconnector) (closed_node u ∙ node)
            ∙ ap (λ (n : Node). n.disconnector) (left_node w);
      },
      closed_wire u ∙ wire ∙ ap (λ (z : List Wire). z ++ shut reason code ∷ []) (left_wire w),
      λ frame. send_frame_nil (close_session u) frame (closed_sends u ∙ sends),
    )
