-- ===== src/Session/Sending.antt =====
-- How a session of node/session.go sends a frame.
use native.Mathlib.Decide.{dec_lt}
use anycable_go.Base.{
  ◌≤◌, ◌<◌, ◌≡◌, refl, ◌∙◌, ap, true, false, [], ◌∷◌, ◌++◌, length, length-append, arith,
  if◌then◌else◌, ◌⊎◌, inl, inr, Bool-cases,
}
use anycable_go.Encoders.{SentFrame}
use anycable_go.Node.{node_disconnect}
use anycable_go.Session.{
  Session, Channel, World, hub_session, disconnect_from_node, close_session, send_capacity, ran,
  send_frame_from, send_frame, close_message, close_abnormal_closure,
}
use anycable_go.Session.Sections.{with_frame, without_channel, push_nil, push_room, push_full}
use anycable_go.Session.Steps.{SafeWorld}

-- Whether a frame finds room in the session's channel.
abbrev pub HasRoom : World → Type 0
HasRoom w = (w.session.sends ≡ true) × (length w.channel.frames < send_capacity)

module _ (w : World) where
  pub left_node :
      (disconnect_from_node w).node
      ≡ (if w.session.connected then node_disconnect w.node (hub_session w.session) else w.node)
  unfolding disconnect_from_node
  left_node = ground arith

  pub left_session : (disconnect_from_node w).session ≡ record w.session { connected = false }
  unfolding disconnect_from_node
  left_session = ground arith

  pub left_channel : (disconnect_from_node w).channel ≡ w.channel
  unfolding disconnect_from_node
  left_channel = ground arith

  pub left_wire : (disconnect_from_node w).wire ≡ w.wire
  unfolding disconnect_from_node
  left_wire = ground arith

  pub left-SafeWorld : SafeWorld w → SafeWorld (disconnect_from_node w)
  unfolding disconnect_from_node
  left-SafeWorld s = record { channel = ground (arith, s.channel); bound = ground (arith, s.bound) }

  pub closed_node : (close_session w).node ≡ w.node
  unfolding close_session
  closed_node = ground arith

  pub closed_channel : (close_session w).channel ≡ w.channel
  unfolding close_session
  closed_channel = ground arith

  pub closed_sends : (close_session w).session.sends ≡ w.session.sends
  unfolding close_session
  closed_sends = ground arith

  pub closed_connected : (close_session w).session.connected ≡ w.session.connected
  unfolding close_session
  closed_connected = ground arith

  pub closed_wire : (close_session w).wire ≡ w.wire
  unfolding close_session
  closed_wire = ground arith

  pub closed_flag : (close_session w).session.closed ≡ true
  unfolding close_session
  closed_flag = ground arith

  pub closed-SafeWorld : SafeWorld w → SafeWorld (close_session w)
  unfolding close_session
  closed-SafeWorld s = record {
    channel = ground (arith, s.channel);
    bound = ground (arith, s.bound);
  }

  -- The session after a frame that found no room.
  abbrev pub overflow : World
  overflow = close_session (disconnect_from_node (without_channel w))

  pub send_frame_nil : (frame : SentFrame) → w.session.sends ≡ false → send_frame w frame ≡ ran w
  unfolding send_frame send_frame_from
  send_frame_nil frame off = rw (push_nil w frame off, send_frame_from) refl

  send_frame_room :
      (frame : SentFrame) → SafeWorld w → HasRoom w → send_frame w frame ≡ ran (with_frame w frame)
  unfolding send_frame send_frame_from
  send_frame_room frame s room = rw (push_room w frame s room.0 room.1, send_frame_from) refl

  send_frame_full :
      (frame : SentFrame)
      → SafeWorld w
      → w.session.sends ≡ true
      → send_capacity ≤ length w.channel.frames
      → send_frame w frame ≡ ran overflow
  unfolding send_frame send_frame_from
  send_frame_full frame s on full =
      let off : (disconnect_from_node (without_channel w)).session.sends ≡ false =
        unfold disconnect_from_node in ground arith in
      let inner =
        push_nil (disconnect_from_node (without_channel w))
          (close_message "Write failed" close_abnormal_closure) off in
      rw (push_full w frame s on full, send_frame_from, inner) refl

overflow_session :
    (w : World)
    → ((overflow w).session.sends ≡ false)
      × ((overflow w).session.closed ≡ true)
      × ((overflow w).session.connected ≡ false)
      × ((overflow w).channel.frames ≡ w.channel.frames)
      × ((overflow w).node ≡ (
          if w.session.connected then node_disconnect w.node (hub_session w.session) else w.node))
overflow_session w =
    let v = without_channel w in
    let u = disconnect_from_node v in
    (
      closed_sends u ∙ ap (λ (z : Session). z.sends) (left_session v),
      closed_flag u,
      closed_connected u ∙ ap (λ (z : Session). z.connected) (left_session v),
      ap (λ (z : Channel). z.frames) (closed_channel u ∙ left_channel v),
      closed_node u ∙ left_node v,
    )

-- The three fates of a frame: it waits, the channel is gone, or the channel is full and the session
-- ends.
abbrev pub SentCases : World → SentFrame → World → Type 0
SentCases w frame w' =
    (HasRoom w × (w' ≡ with_frame w frame))
    ⊎ ((w.session.sends ≡ false) × (w' ≡ w))
    ⊎ ((w.session.sends ≡ true)
        × (send_capacity ≤ length w.channel.frames)
        × (w'.session.sends ≡ false)
        × (w'.session.closed ≡ true)
        × (w'.session.connected ≡ false)
        × (w'.channel.frames ≡ w.channel.frames)
        × (w'.node ≡ (
            if w.session.connected
            then node_disconnect w.node (hub_session w.session)
            else w.node)))

-- The world after a frame is one of three.
pub send_frame_worlds :
    (w : World) (frame : SentFrame)
    → SafeWorld w
    → (w' : World) × (send_frame w frame ≡ ran w')
      × SafeWorld w'
      × ((w' ≡ with_frame w frame) ⊎ (w' ≡ w) ⊎ (w' ≡ overflow w))
send_frame_worlds w frame s = elim (Bool-cases w.session.sends) [
  | inr off ↦ (w, send_frame_nil w frame off, s, inr (inl refl))
  | inl on ↦ elim (dec_lt (length w.channel.frames) send_capacity) [
    | yes room ↦ (
      with_frame w frame,
      send_frame_room w frame s (on, room),
      record {
        channel = s.channel;
        bound = omega (arith, length-append w.channel.frames (frame ∷ []));
      },
      inl refl,
    )
    | no full ↦ (
      overflow w,
      send_frame_full w frame s on (omega arith),
      closed-SafeWorld (disconnect_from_node (without_channel w))
          (left-SafeWorld (without_channel w) (record { channel = refl; bound = s.bound })),
      inr (inr refl),
    )
  ]
]

-- A frame that is sent waits in the channel if there is room. If the channel is full, the session
-- ends instead: its channel is closed, it is closed and not connected, and the node is told if it
-- was connected. If its channel is gone, nothing happens. It never panics or goes round in circles.
pub send_frame_cases :
    (w : World) (frame : SentFrame)
    → SafeWorld w
    → (w' : World) × (send_frame w frame ≡ ran w') × SafeWorld w' × SentCases w frame w'
send_frame_cases w frame s = elim (Bool-cases w.session.sends) [
  | inr off ↦ (w, send_frame_nil w frame off, s, inr (inl (off, refl)))
  | inl on ↦ elim (dec_lt (length w.channel.frames) send_capacity) [
    | yes room ↦ (
      with_frame w frame,
      send_frame_room w frame s (on, room),
      record {
        channel = s.channel;
        bound = omega (arith, length-append w.channel.frames (frame ∷ []));
      },
      inl ((on, room), refl),
    )
    | no full ↦ (
      overflow w,
      send_frame_full w frame s on (omega arith),
      closed-SafeWorld (disconnect_from_node (without_channel w))
          (left-SafeWorld (without_channel w) (record { channel = refl; bound = s.bound })),
      (let (a, b, c, d, e) = overflow_session w in inr (inr (on, omega arith, a, b, c, d, e))),
    )
  ]
]

-- A frame of a session that the node no longer has.
pub sent_unconnected :
    (w w' : World) (frame : SentFrame)
    → w.session.connected ≡ false
    → SentCases w frame w'
    → (w'.session.connected ≡ false)
      × (w'.node ≡ w.node)
      × (HasRoom w → w'.channel.frames ≡ w.channel.frames ++ frame ∷ [])
sent_unconnected w w' frame off (inl (room, e)) = (
  ap (λ (z : World). z.session.connected) e ∙ off,
  ap (λ (z : World). z.node) e,
  λ r. ap (λ (z : World). z.channel.frames) e,
)
sent_unconnected w w' frame off (inr (inl (gone, e))) = (
  ap (λ (z : World). z.session.connected) e ∙ off,
  ap (λ (z : World). z.node) e,
  λ r. let on = r.0 in absurd (cc),
)
sent_unconnected w w' frame off (inr (inr (on, full, sends, closed, connected, frames, node))) =
    (connected, rw off at node, λ r. let room = r.1 in absurd (omega arith))
