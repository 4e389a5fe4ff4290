-- ===== src/Session/Writer.antt =====
-- The writing side of node/session.go: the loop `SendMessages`, a round for each frame.

use anycable_go.Base.{String, Option, none, some, List, [], ◌∷◌, if◌then◌else◌}
use anycable_go.Metrics.{inc}
use anycable_go.Encoders.{SentFrame}
use anycable_go.Session.{close_abnormal_closure, Channel, World, Ran, write_frame, disconnect_now}

abbrev pub count_sent : World → World
count_sent w = record w {
  node = record w.node { counts = record w.node.counts { sent_msg = inc w.node.counts.sent_msg } };
}

abbrev pub count_failed_sent : World → World
count_failed_sent w = record w {
  node = record w.node {
    counts = record w.node.counts { failed_sent = inc w.node.counts.failed_sent };
  };
}

-- A receive from the channel: a frame, the end, or nothing yet.
pub data Received : Type 0 where
  frame_received : SentFrame → Channel → Received
  channel_ended : Received
  nothing_yet : Received

unfoldable pub receive_frame : Channel → Received
receive_frame c = elim c.frames [
  | [] ↦ if c.is_closed then channel_ended else nothing_yet
  | frame ∷ rest ↦ frame_received frame (record c { frames = rest })
]

-- A round of `SendMessages`: it goes on, waits, or ends by the deferred `disconnectNow`.
pub data Writer : Type 0 where
  goes_on : World → Writer
  waits_for_frames : Writer
  ended : Ran → Writer

unfoldable pub after_write : World × Option String → Writer
unfolding disconnect_now
after_write (w, none) = goes_on (count_sent w)
after_write (w, some e) =
    ended (disconnect_now (count_failed_sent w) "Write Failed" close_abnormal_closure)

unfoldable pub send_messages_round : World → Option String → Writer
unfolding receive_frame after_write
send_messages_round w answer = elim (receive_frame w.channel) [
  | nothing_yet ↦ waits_for_frames
  | channel_ended ↦ ended (disconnect_now w "Write Failed" close_abnormal_closure)
  | frame_received frame c ↦ after_write (write_frame (record w { channel = c }) frame answer)
]

-- The loop of `SendMessages` over the answers of the writes; it still goes on where they end.
unfoldable pub send_messages : List (Option String) → World → Writer
unfolding send_messages_round
send_messages [] w = goes_on w
send_messages (answer ∷ answers) w = elim (send_messages_round w answer) [
  | goes_on w' ↦ send_messages answers w'
  | waits_for_frames ↦ waits_for_frames
  | ended r ↦ ended r
]
