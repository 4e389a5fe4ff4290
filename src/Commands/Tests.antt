-- ===== src/Commands/Tests.antt =====
-- Commands: the properties at a concrete controller and session.
use anycable_go.Base.{
  ◌≡◌, refl, ◌⊎◌, true, false, none, some, List, [], ◌∷◌, arith, if◌then◌else◌, ◌=s=◌,
}
use anycable_go.Base.Outcome.{ok, err}
use anycable_go.Common.{ConnectResult, CommandResult, success, failure, null}
use anycable_go.Encoders.{Encoder, text_of}
use anycable_go.Node.{Node, no_counts}
use anycable_go.Protocol.{Answer}
use anycable_go.Session.{World, ran, start_session}
use anycable_go.Commands.{Controller, and_run, authenticate}
use anycable_go.Commands.Reading.{serve, Incoming, incoming, closing}
use anycable_go.Commands.Health.{Healthy, Answers, Calm}
use anycable_go.Commands.Life.{CalmEncoder, Ends, session_life}
use anycable_go.Commands.Effects.{Entered, TurnedAway, authenticate_cases}

abbrev node : Node
node = record {
  hub = record {
    sessions = [];
    identifiers = [];
    streams = [];
    sessions_streams = [];
    dropped = [];
  };
  register = [];
  subscribe = [];
  broadcast = [];
  disconnect = [];
  disconnector = record {
    rate = 10;
    timeout = 5000;
    disconnect = [];
    signalled = false;
    is_stopped = false;
  };
  counts = no_counts;
}

abbrev hello : Answer ConnectResult
hello = record {
  result = some (record {
    identifier = "alice";
    transmissions = "{\"type\":\"welcome\"}" ∷ [];
    broadcasts = [];
    cstate = some (("user", "alice") ∷ []);
    istate = none;
    status = success;
  });
  error = none;
}

-- Every command is rejected.
abbrev rejected : Answer CommandResult
rejected = record {
  result = some (record {
    stop_all_streams = false;
    disconnect = false;
    streams = "all" ∷ [];
    stopped_streams = [];
    transmissions = "{\"type\":\"reject_subscription\"}" ∷ [];
    broadcasts = [];
    cstate = none;
    istate = some (("step", "1") ∷ []);
    status = failure;
  });
  error = none;
}

abbrev controller : Controller
controller = record {
  authenticate = λ uid env. hello;
  subscribe = λ uid env ids id. rejected;
  unsubscribe = λ uid env ids id. rejected;
  perform = λ uid env ids id d. rejected;
  disconnect = λ uid env ids subscriptions. none;
}

controller-Answers : Answers controller
controller-Answers = record {
  authenticated = λ uid env there e n. absurd (cc);
  unsubscribed = λ uid env ids id there e n. absurd (cc);
}

abbrev encoder : Encoder
encoder = record {
  id = "json";
  encode = λ msg. ok none;
  encode_transmission = λ msg. ok (some (text_of msg));
  decode = λ raw.
      if raw =s= "subscribe"
      then ok (some (record { command = "subscribe"; identifier = "room"; content = null }))
      else err "bad";
}

encoder_transmissions : Calm encoder
encoder_transmissions msg e = absurd (cc)

encoder-CalmEncoder : CalmEncoder encoder
encoder-CalmEncoder = record {
  transmissions = encoder_transmissions;
  decoding = λ raw e. ground arith;
}

abbrev reads : List Incoming
reads = incoming "subscribe" ∷ incoming "subscribe" ∷ closing ∷ []

session_life_example : Ends (
    and_run
      (authenticate controller encoder (start_session node "/cable" (some []) "1")).run
      (λ w. (serve controller encoder reads w).run))
session_life_example =
    session_life controller controller-Answers encoder encoder-CalmEncoder node "/cable" (some [])
      "1" reads (λ e. absurd (cc))

abbrev world : World
world = record {
  node = node;
  session = record {
    uid = "1";
    identifiers = "";
    connected = false;
    closed = false;
    sends = true;
    ticks = true;
    subscriptions = [];
    env = record {
      url = "/cable";
      headers = some [];
      connection_state = some [];
      channel_states = some [];
    };
  };
  channel = record { frames = []; is_closed = false };
  wire = [];
}

world-Healthy : Healthy world
world-Healthy = record {
  safe = record { channel = refl; bound = omega arith };
  headers = λ e. absurd (cc);
  connection_state = λ e. absurd (cc);
  channel_states = λ e. absurd (cc);
}

authenticate_cases_example :
    (w' : World) × ((authenticate controller encoder world).run ≡ ran w')
    × (Entered world w' hello ⊎ TurnedAway world w' hello)
authenticate_cases_example =
    authenticate_cases controller encoder world encoder_transmissions controller-Answers
      world-Healthy
