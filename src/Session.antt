-- ===== src/Session.antt =====
-- node/session.go: one client's session, its channel of frames, and how it ends. A section under the
-- session's mutex is one step, which may fail by a panic of the channel.
pub mod Steps
pub mod Sections
pub mod Sending
pub mod Ending
pub mod Outgoing
pub mod Writer
pub mod Writing
pub mod Ping
pub mod Pinging
mod Tests
use Prim.Native.String.{len}
use anycable_go.Base.{
  ℕ, zero, suc, ◌+◌, String, Bool, true, false, Option, none, some, List, [], ◌∷◌, ◌++◌, length,
  ltb, if◌then◌else◌,
}
use anycable_go.Base.GoMap.{GoMap}
use anycable_go.Base.Outcome.{Outcome, ok, err, panic}
use anycable_go.Common.{
  SessionEnv, new_session_env, merge_connection_state, merge_channel_state, Message,
}
use anycable_go.Metrics.{inc, add_u64}
use anycable_go.Encoders.{
  SentFrame, FrameType, text_frame, close_frame, binary_frame, EncodedMessage, Encoder,
  CachedEncodedMessage, cached_fetch,
}
use anycable_go.Hub.State.{HubSession}
use anycable_go.Node.{Node, NodeCounts, node_disconnect}

abbrev pub close_normal_closure : ℕ
close_normal_closure = 1000

abbrev pub close_going_away : ℕ
close_going_away = 1001

abbrev pub close_abnormal_closure : ℕ
close_abnormal_closure = 1006

abbrev pub close_internal_server_err : ℕ
close_internal_server_err = 1011

-- `sends` tells whether the field `sendCh` is not nil, and `ticks` whether the ping timer is set.
pub record Session : Type 0 where
  pub uid : String
  pub identifiers : String
  pub connected : Bool
  pub closed : Bool
  pub sends : Bool
  pub ticks : Bool
  pub subscriptions : GoMap Bool
  pub env : SessionEnv

-- The channel that the writing goroutine ranges over.
pub record Channel : Type 0 where
  pub frames : List SentFrame
  pub is_closed : Bool

abbrev pub send_capacity : ℕ
send_capacity = 256

-- What reaches the connection.
pub data Wire : Type 0 where
  wrote : SentFrame → Wire
  shut : String → ℕ → Wire

-- A session with its node, its channel and its connection.
pub record World : Type 0 where
  pub node : Node
  pub session : Session
  pub channel : Channel
  pub wire : List Wire

unfoldable pub new_session : String → Option (GoMap String) → String → Session
new_session url headers uid = record {
  uid = uid;
  identifiers = "";
  connected = false;
  closed = false;
  sends = true;
  ticks = true;
  subscriptions = [];
  env = new_session_env url headers;
}

unfoldable pub start_session : Node → String → Option (GoMap String) → String → World
unfolding new_session
start_session n url headers uid = record {
  node = n;
  session = new_session url headers uid;
  channel = record { frames = []; is_closed = false };
  wire = [];
}

-- The session as the hub and the disconnector hold it.
abbrev pub hub_session : Session → HubSession
hub_session s = record { uid = s.uid; identifiers = s.identifiers }

unfoldable pub disconnect_from_node : World → World
disconnect_from_node w =
    let w' = record w { session = record w.session { connected = false } } in
    if w.session.connected
    then record w' { node = node_disconnect w.node (hub_session w.session) }
    else w'

-- `close`, with the stop of the timer.
unfoldable pub close_session : World → World
close_session w =
    if w.session.closed
    then w
    else record w { session = record w.session { closed = true; ticks = false } }

-- `close(s.sendCh)`; closing a closed channel panics.
unfoldable pub close_channel : Channel → Option Channel
close_channel c = if c.is_closed then none else some (record c { is_closed = true })

-- The locked section of `sendFrame`: done, done with the channel closed since it was full, or a
-- panic at a closed channel.
pub data Pushed : Type 0 where
  pushed : World → Pushed
  overflowed : World → Pushed
  push_panics : Pushed

unfoldable pub push_open : World → SentFrame → Pushed
push_open w frame =
    if w.channel.is_closed
    then push_panics
    else (if ltb (length w.channel.frames) send_capacity
        then pushed
            (record w { channel = record w.channel { frames = w.channel.frames ++ frame ∷ [] } })
        else overflowed (record w {
          session = record w.session { sends = false };
          channel = record w.channel { is_closed = true };
        }))

unfoldable pub push : World → SentFrame → Pushed
unfolding push_open
push w frame = if w.session.sends then push_open w frame else pushed w

abbrev pub close_message : String → ℕ → SentFrame
close_message reason code = record {
  frame_type = close_frame;
  payload = "";
  close_code = code;
  close_reason = reason;
}

-- `too_deep` is the fuel of `send_frame_from` run out.
pub data Ran : Type 0 where
  too_deep : Ran
  panicked : Ran
  ran : World → Ran

abbrev pub and_then : Ran → (World → World) → Ran
and_then too_deep f = too_deep
and_then panicked f = panicked
and_then (ran w) f = ran (f w)

-- `sendFrame`, `Disconnect` and `sendClose` call each other.
unfoldable pub send_frame_from : ℕ → World → SentFrame → Ran
send_frame_from zero w frame = too_deep
send_frame_from (suc k) w frame = elim (push w frame) [
  | pushed w' ↦ ran w'
  | push_panics ↦ panicked
  | overflowed w' ↦
      and_then
        (send_frame_from k (disconnect_from_node w')
          (close_message "Write failed" close_abnormal_closure))
        close_session
]

unfoldable pub send_frame : World → SentFrame → Ran
unfolding send_frame_from
send_frame w frame = send_frame_from 2 w frame

unfoldable pub disconnect : World → String → ℕ → Ran
disconnect w reason code =
    and_then (send_frame (disconnect_from_node w) (close_message reason code)) close_session

abbrev pub add_data_sent : World → ℕ → World
add_data_sent w n = record w {
  node = record w.node {
    counts = record w.node.counts { data_sent = add_u64 w.node.counts.data_sent n };
  };
}

unfoldable pub write_by_type : FrameType → World → SentFrame → Option String → World × Option String
write_by_type text_frame w frame answer = (record w { wire = w.wire ++ wrote frame ∷ [] }, answer)
write_by_type binary_frame w frame answer = (record w { wire = w.wire ++ wrote frame ∷ [] }, answer)
write_by_type close_frame w frame answer =
    (record w { wire = w.wire ++ shut frame.close_reason frame.close_code ∷ [] }, some "Closed")

-- `writeFrame`, where `answer` is the error of the connection's write. No other frame type is made.
unfoldable pub write_frame : World → SentFrame → Option String → World × Option String
unfolding write_by_type
write_frame w frame answer =
    write_by_type frame.frame_type (add_data_sent w (len frame.payload)) frame answer

-- The locked section of `disconnectNow`.
unfoldable pub shut_channel : World → Option World
unfolding close_channel
shut_channel w =
    if w.session.sends
    then (elim (close_channel w.channel) [
      | none ↦ none
      | some c ↦ some (record w { session = record w.session { sends = false }; channel = c })
    ])
    else some w

abbrev pub close_after : Option World → Ran
close_after none = panicked
close_after (some w) = ran (close_session w)

unfoldable pub disconnect_now : World → String → ℕ → Ran
unfolding write_frame
disconnect_now w reason code =
    let (w', answer) = write_frame (disconnect_from_node w) (close_message reason code) none in
    close_after (shut_channel w')
