-- ===== src/Session/Steps.antt =====
-- The sections of node/session.go under its mutex, one step each, and what is safe in a world.

use anycable_go.Base.{
  ℕ, ◌+◌, ◌≤◌, ◌≡◌, String, true, not, Option, none, some, List, [], ◌∷◌, ◌++◌, length, ltb,
  if◌then◌else◌,
}
use anycable_go.Base.Values.{one_if}
use anycable_go.Encoders.{SentFrame}
use anycable_go.Session.{
  World, disconnect_from_node, close_session, Pushed, pushed, overflowed, push_panics, push,
  shut_channel, send_capacity,
}
use anycable_go.Session.Writer.{receive_frame, Received, frame_received}

pub data Section : Type 0 where
  connects : String → Section
  leaves : Section
  pushes : SentFrame → Section
  shuts : Section
  takes : Section
  flags : Section

-- A run's world, the frames that the channel took in and gave out, and how often the session became
-- connected.
pub record Trace : Type 0 where
  pub world : World
  pub accepted : List SentFrame
  pub taken : List SentFrame
  pub entered : ℕ

-- The frame that a push leaves in the channel.
abbrev pub taken_in : World → SentFrame → List SentFrame
taken_in w frame =
    if w.session.sends
    then (if ltb (length w.channel.frames) send_capacity then frame ∷ [] else [])
    else []

-- What `Authenticate` writes.
abbrev pub connect : World → String → World
connect w identifiers = record w {
  session = record w.session { identifiers = identifiers; connected = true };
}

pub after_push : Trace → SentFrame → Pushed → Option Trace
after_push t frame (pushed w) =
    some (record t { world = w; accepted = t.accepted ++ taken_in t.world frame })
after_push t frame (overflowed w) = some (record t { world = w })
after_push t frame push_panics = none

pub after_shut : Trace → Option World → Option Trace
after_shut t none = none
after_shut t (some w) = some (record t { world = w })

pub after_receive : Trace → Received → Trace
after_receive t (frame_received frame c) = record t {
  world = record t.world { channel = c };
  taken = t.taken ++ frame ∷ [];
}
after_receive t _ = t

unfoldable pub section : Trace → Section → Option Trace
unfolding after_push after_shut after_receive
section t (connects identifiers) = some (record t {
  world = connect t.world identifiers;
  entered = t.entered + one_if (not t.world.session.connected);
})
section t leaves = some (record t { world = disconnect_from_node t.world })
section t (pushes frame) = after_push t frame (push t.world frame)
section t shuts = after_shut t (shut_channel t.world)
section t takes = some (after_receive t (receive_frame t.world.channel))
section t flags = some (record t { world = close_session t.world })

abbrev pub next_sections : (Trace → Option Trace) → Option Trace → Option Trace
next_sections f none = none
next_sections f (some t) = f t

unfoldable pub sections : List Section → Trace → Option Trace
unfolding section
sections [] t = some t
sections (e ∷ es) t = next_sections (sections es) (section t e)

-- The field of the channel is nil exactly when the channel is closed, and the channel holds no more
-- than fits.
pub record SafeWorld (w : World) : Type 0 where
  pub channel : w.session.sends ≡ not w.channel.is_closed
  pub bound : length w.channel.frames ≤ send_capacity

pub record SafeTrace (base : ℕ) (t : Trace) : Type 0 where
  pub safe : SafeWorld t.world
  pub order : t.accepted ≡ t.taken ++ t.world.channel.frames
  pub told : length t.world.node.register + one_if t.world.session.connected ≡ base + t.entered
