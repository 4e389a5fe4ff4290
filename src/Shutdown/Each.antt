-- ===== src/Shutdown/Each.antt =====
-- What `Shutdown` of node/node.go does with one session.

use anycable_go.Base.{
  Option, none, ◌+◌, ◌≤◌, ◌<◌, ◌≡◌, refl, ◌≢◌, inl, inr, ◌∙◌, sym, ap, subst, true, false, not,
  some, [], ◌∷◌, ◌++◌, length, length-append, append_assoc, arith,
}
use anycable_go.Base.Outcome.{Outcome, ok, err, panic}
use anycable_go.Encoders.{SentFrame, Encoder}
use anycable_go.Node.{Node}
use anycable_go.Session.{World, send_capacity, ran, close_message, close_going_away}
use anycable_go.Session.Outgoing.{send_encoded, send_message}
use anycable_go.Session.Sections.{with_frame}
use anycable_go.Session.Steps.{SafeWorld}
use anycable_go.Session.Sending.{HasRoom, SentCases, send_frame_cases}
use anycable_go.Session.Ending.{told_node, disconnect_ends}
use anycable_go.Shutdown.{Member, world_of, member_of, restart_message, close_member}

-- What a session's own steps keep, with an encoder that does not panic.
pub record SafeMember (m : Member) : Type 0 where
  pub channel : m.session.sends ≡ not m.channel.is_closed
  pub bound : length m.channel.frames ≤ send_capacity
  pub calm : m.encoder.encode restart_message ≢ panic

told_unchanged :
    (w w' : World) (frame : SentFrame) → SentCases w frame w' → told_node w' ≡ told_node w
told_unchanged w w' frame (inl (room, e)) = ap (λ (z : World). told_node z) e
told_unchanged w w' frame (inr (inl (gone, e))) = ap (λ (z : World). told_node z) e
told_unchanged w w' frame (inr (inr (on, full, sends, closed, connected, frames, node))) =
    rw connected node

-- The message of the restart: the node is told as it would have been without it.
abbrev MessageSent : World → Encoder → World → Type 0
MessageSent w encoder w' =
    SafeWorld w'
    × (told_node w' ≡ told_node w)
    × ((b : SentFrame)
        → encoder.encode restart_message ≡ ok (some b)
        → HasRoom w
        → w' ≡ with_frame w b)

frame_of_cases :
    (w w' : World) (frame : SentFrame) → SentCases w frame w' → HasRoom w → w' ≡ with_frame w frame
frame_of_cases w w' frame (inl (room, e)) r = e
frame_of_cases w w' frame (inr (inl (gone, e))) (on, room) = absurd (cc)
frame_of_cases w w' frame (inr (inr (on, full, a, b, c, d, e))) (on', room) = absurd (omega arith)

sent_by :
    (w : World) (encoder : Encoder) (o : Outcome (Option SentFrame))
    → encoder.encode restart_message ≡ o
    → SafeWorld w
    → o ≢ panic
    → (w' : World) × (send_encoded w o ≡ ran w') × MessageSent w encoder w'
unfolding send_encoded
sent_by w encoder (ok (some f)) e s calm =
    let (w', sent, safe, cases) = send_frame_cases w f s in
    (
      w',
      sent,
      (
        safe,
        told_unchanged w w' f cases,
        λ b e' room. let same : f ≡ b = cc in rw (← same) (frame_of_cases w w' f cases room),
      ),
    )
sent_by w encoder (ok none) e s calm = (w, refl, (s, refl, λ b e' room. absurd (cc)))
sent_by w encoder (err _) e s calm = (w, refl, (s, refl, λ b e' room. absurd (cc)))
sent_by w encoder panic e s calm = absurd (calm refl)

message_sent :
    (w : World) (encoder : Encoder)
    → SafeWorld w
    → encoder.encode restart_message ≢ panic
    → (w' : World) × (send_message encoder w restart_message ≡ ran w') × MessageSent w encoder w'
unfolding send_message
message_sent w encoder s calm = sent_by w encoder (encoder.encode restart_message) refl s calm

-- Room for two frames.
abbrev pub HasRoomForTwo : Member → Type 0
HasRoomForTwo m = (m.session.sends ≡ true) × (length m.channel.frames + 1 < send_capacity)

-- How a session leaves the loop.
pub record IsTold (m m' : Member) : Type 0 where
  pub closed : m'.session.closed ≡ true
  pub disconnected : m'.session.connected ≡ false
  pub frames :
      (b : SentFrame)
      → m.encoder.encode restart_message ≡ ok (some b)
      → HasRoomForTwo m
      → m'.channel.frames ≡ m.channel.frames ++ b ∷ close_message "Shutdown" close_going_away ∷ []

framed_room :
    (n : Node) (m : Member) (v : World) (b : SentFrame)
    → v ≡ with_frame (world_of n m) b
    → HasRoomForTwo m
    → HasRoom v
framed_room n m v b e room =
    subst HasRoom (sym e)
      (room.0, let more = room.1 in omega (arith, length-append m.channel.frames (b ∷ [])))

pub close_member_ends :
    (n : Node) (m : Member)
    → SafeMember m
    → (w' : World) × (close_member m.encoder (world_of n m) ≡ ran w')
      × IsTold m (member_of m w')
      × (w'.node.register ≡ (told_node (world_of n m)).register)
      × (w'.node.disconnector ≡ (told_node (world_of n m)).disconnector)
unfolding close_member
close_member_ends n m s =
    let w = world_of n m in
    let (v, sent, (safe, told, framed)) =
      message_sent w m.encoder (record { channel = s.channel; bound = s.bound }) s.calm in
    let (w', ends, safe', ended, last) = disconnect_ends v "Shutdown" close_going_away safe in
    (
      w',
      rw sent ends,
      record {
        closed = ended.closed;
        disconnected = ended.disconnected;
        frames = λ b e room.
            last (framed_room n m v b (framed b e (room.0, omega arith)) room)
            ∙ ap (λ (z : World). z.channel.frames ++ close_message "Shutdown" close_going_away ∷ [])
                (framed b e (room.0, omega arith))
            ∙ append_assoc m.channel.frames (b ∷ []) _;
      },
      ended.removal ∙ ap (λ (z : Node). z.register) told,
      ended.queued ∙ ap (λ (z : Node). z.disconnector) told,
    )
