-- ===== src/Session/Tests.antt =====
-- Session: the properties at concrete sessions.
use anycable_go.Base.{◌≡◌, refl, true, false, none, some, List, [], ◌∷◌, arith}
use anycable_go.Base.Outcome.{ok}
use anycable_go.Common.{PingMessage}
use anycable_go.Encoders.{SentFrame, text_frame, Encoder, text_of}
use anycable_go.Session.Ping.{new_ping_message, ping_timestamp, ping_rounds}
use anycable_go.Session.Pinging.{quiet_rounds, ping_rounds_go_on}
use anycable_go.Node.{Node, no_counts}
use anycable_go.Session.{World, start_session, ran, send_frame, shut, close_message}
use anycable_go.Session.Sections.{sections_safe}
use anycable_go.Session.Steps.{
  Section, connects, leaves, pushes, shuts, takes, flags, Trace, sections, SafeWorld, SafeTrace,
}
use anycable_go.Session.{wrote}
use anycable_go.Session.Writer.{send_messages, ended}
use anycable_go.Session.Writing.{quiet, send_messages_order}
use anycable_go.Session.Sending.{SentCases, send_frame_cases}

abbrev node : Node
node = record {
  hub = record {
    sessions = [];
    identifiers = [];
    streams = [];
    sessions_streams = [];
    dropped = [];
  };
  register = [];
  subscribe = [];
  broadcast = [];
  disconnect = [];
  disconnector = record {
    rate = 10;
    timeout = 5000;
    disconnect = [];
    signalled = false;
    is_stopped = false;
  };
  counts = no_counts;
}

abbrev hello : SentFrame
hello = record { frame_type = text_frame; payload = "hello"; close_code = 0; close_reason = "" }

abbrev day : List Section
day =
    connects "alice"
    ∷ pushes hello
    ∷ pushes hello
    ∷ takes
    ∷ leaves
    ∷ shuts
    ∷ pushes hello
    ∷ leaves
    ∷ flags
    ∷ takes
    ∷ []

sections_safe_example :
    (t : Trace) × (sections day (record {
      world = start_session node "/cable" none "1";
      accepted = [];
      taken = [];
      entered = 0;
    })
      ≡ some t)
    × SafeTrace 0 t
sections_safe_example = sections_safe node "/cable" none "1" day

abbrev connected_world : World
connected_world = record {
  node = node;
  session = record {
    uid = "1";
    identifiers = "alice";
    connected = true;
    closed = false;
    sends = true;
    ticks = true;
    subscriptions = [];
    env = record {
      url = "/cable";
      headers = none;
      connection_state = some [];
      channel_states = some [];
    };
  };
  channel = record { frames = hello ∷ []; is_closed = false };
  wire = [];
}

connected_world_safe : SafeWorld connected_world
connected_world_safe = record { channel = refl; bound = omega arith }

send_frame_cases_example :
    (w' : World) × (send_frame connected_world hello ≡ ran w')
    × SafeWorld w'
    × SentCases connected_world hello w'
send_frame_cases_example = send_frame_cases connected_world hello connected_world_safe

abbrev leaving_world : World
leaving_world = record connected_world {
  channel = record {
    frames = hello ∷ hello ∷ close_message "Closed remotely" 1000 ∷ hello ∷ [];
    is_closed = false;
  };
}

send_messages_order_example :
    (w' : World) × (send_messages (quiet 3) leaving_world ≡ ended (ran w'))
    × (w'.wire
        ≡ wrote hello ∷ wrote hello ∷ shut "Closed remotely" 1000 ∷ shut "Write Failed" 1006 ∷ [])
    × (w'.session.connected ≡ false)
    × (w'.session.closed ≡ true)
send_messages_order_example =
    send_messages_order (hello ∷ hello ∷ []) (hello ∷ []) "Closed remotely" 1000 leaving_world
      (record { channel = refl; bound = omega arith }) refl
      ((λ e. absurd (cc)), ((λ e. absurd (cc)), tt))

abbrev ping_encoder : Encoder
ping_encoder = record {
  id = "plain";
  encode = λ m. ok (some (text_of "ping"));
  encode_transmission = λ t. ok (some (text_of t));
  decode = λ t. ok none;
}

abbrev one_ping : PingMessage
unfolding new_ping_message ping_timestamp
one_ping = new_ping_message (λ n. "1") "s" 1500000000

ping_rounds_go_on_example :
    (w' : World) × (ping_rounds ping_encoder
        (λ t. one_ping)
        (quiet_rounds (1 ∷ 2 ∷ []))
        connected_world
      ≡ ran w')
    × (w'.session ≡ connected_world.session)
    × (w'.channel ≡ connected_world.channel)
    × (w'.wire ≡ wrote (text_of "ping") ∷ wrote (text_of "ping") ∷ [])
ping_rounds_go_on_example =
    ping_rounds_go_on ping_encoder (λ t. one_ping) (λ t. text_of "ping") (1 ∷ 2 ∷ [])
      connected_world (λ t. refl) (λ t. refl) connected_world_safe refl refl
