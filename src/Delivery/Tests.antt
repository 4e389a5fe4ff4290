-- ===== src/Delivery/Tests.antt =====
-- Delivery: the properties at a hub with one session.
use anycable_go.Base.{
  ◌≡◌, refl, String, true, false, ◌&&◌, Option, none, some, List, [], ◌∷◌, ◌++◌, inl, inr, length,
  arith,
}
use anycable_go.Base.Values.{one_if}
use anycable_go.Common.{StreamMessage, PubSubCodec, Json}
use anycable_go.Hub.State.{new_hub}
use anycable_go.Hub.Tasks.{Task, broadcast_to_stream}
use anycable_go.Hub.{HubEvent, register, subscribe, run}
use anycable_go.Hub.Refinement.{nobody, specified_run}
use anycable_go.Hub.Broadcast.{run_tasks, sent_to}
use anycable_go.Node.{Node, no_counts}
use anycable_go.Session.{World, ran, disconnect_now}
use anycable_go.Session.Steps.{SafeWorld}
use anycable_go.Adapters.{
  HttpConfig, new_http_subscriber, Request, http_handler, RedisConfig, new_redis_subscriber, Round,
  found, message, receive_error, pinged, subscription, redis_start,
}
use anycable_go.Delivery.Redis.{broadcasts_in, addressed, redis_broadcasts_delivered}
use anycable_go.Delivery.{broadcasts, hub_turns}
use anycable_go.Delivery.Broadcasts.{turns_for, tasks_for, http_broadcast_delivered}
use anycable_go.Delivery.Endings
use anycable_go.Delivery.Endings.{ended_session_gets_nothing}

abbrev events : List HubEvent
events =
    register (record { event = "add"; session = record { uid = "1"; identifiers = "alice" } })
    ∷ subscribe (record { event = "add"; session = "1"; stream = "chat"; identifier = "room" })
    ∷ []

abbrev codec : PubSubCodec
codec = record {
  stream_of = λ t. some (record { stream = "chat"; content = t });
  command_of = λ t. none;
  disconnect_of = λ t. none;
}

abbrev parsed : String → Option Json
parsed t = some (Json.text t)

abbrev node : Node
node = record {
  hub = (run new_hub events).0;
  register = [];
  subscribe = [];
  broadcast = record { stream = "news"; content = "0" } ∷ [];
  disconnect = [];
  disconnector = record {
    rate = 10;
    timeout = 5000;
    disconnect = [];
    signalled = false;
    is_stopped = false;
  };
  counts = no_counts;
}

abbrev config : HttpConfig
config = record { port = 8090; path = "/_broadcast"; secret = "" }

abbrev request : Request
request = record { method = "POST"; authorization = ""; body = some "hello" }

abbrev hello : StreamMessage
hello = record { stream = "chat"; content = "hello" }

http_broadcast_delivered_example :
    let (n', status) = http_handler codec (new_http_subscriber config) request node in
    (status ≡ 201)
    × ((n'' : Node) × (tasks : List Task) × (hub_turns (broadcasts ∷ broadcasts ∷ []) n'
          ≡ some (n'', tasks_for node.hub node.broadcast ++ tasks))
        × (n''.broadcast ≡ [])
        × ((uid identifier : String)
            → sent_to uid identifier (run_tasks parsed n''.hub tasks)
              ≡ one_if (
                  (specified_run nobody events).live uid
                  && (specified_run nobody events).listens "chat" uid identifier)))
http_broadcast_delivered_example =
    http_broadcast_delivered codec parsed config request node "hello" hello events refl (inl refl)
      refl (refl, (λ e. cc)) refl

abbrev world : World
world = record {
  node = node;
  session = record {
    uid = "1";
    identifiers = "alice";
    connected = true;
    closed = false;
    sends = true;
    ticks = true;
    subscriptions = [];
    env = record {
      url = "/cable";
      headers = none;
      connection_state = some [];
      channel_states = some [];
    };
  };
  channel = record { frames = []; is_closed = false };
  wire = [];
}

world_safe : SafeWorld world
world_safe = record { channel = refl; bound = omega arith }

ended_session_gets_nothing_example :
    (w' : World) × (n : Node) × (disconnect_now world "Read closed" 1000 ≡ ran w')
    × (hub_turns (Endings.turns_for w'.node.register) w'.node ≡ some (n, []))
    × (n.register ≡ [])
    × ((unmarshal : String → Option Json) (stream text identifier : String)
        → sent_to "1" identifier (run_tasks unmarshal n.hub (broadcast_to_stream n.hub stream text))
          ≡ 0)
ended_session_gets_nothing_example =
    ended_session_gets_nothing world "Read closed" 1000 events world_safe refl refl

abbrev redis : RedisConfig
redis = record { url = "redis://localhost:6379/5"; channel = "__anycable__"; sentinels = "" }

abbrev down : Round
down = record {
  master = found "10.0.0.1:6379";
  dial = some "refused";
  has_role = true;
  subscribe = none;
  events = [];
  drawn = 7;
}

abbrev up : Round
up = record down {
  dial = none;
  events =
      subscription ∷ message "a" ∷ pinged (some "gone") ∷ message "b" ∷ receive_error "EOF" ∷ [];
}

abbrev plain_host : String → String → String
plain_host url address = address

abbrev parses : String → Option String
parses url = none

abbrev dials : List Round
dials = up ∷ down ∷ up ∷ []

abbrev texts : List String
texts = "a" ∷ "b" ∷ "a" ∷ "b" ∷ []

redis_broadcasts_delivered_example :
    let went = redis_start codec plain_host parses dials (new_redis_subscriber redis) node in
    let msgs = broadcasts_in codec texts in
    (went.error ≡ none)
    × (length went.delays ≡ 3)
    × ((n' : Node) × (tasks : List Task) × (hub_turns (turns_for (node.broadcast ++ msgs)) went.node
          ≡ some (n', tasks_for node.hub node.broadcast ++ tasks))
        × (n'.broadcast ≡ [])
        × ((uid identifier : String)
            → sent_to uid identifier (run_tasks parsed n'.hub tasks)
              ≡ addressed (specified_run nobody events) uid identifier msgs))
redis_broadcasts_delivered_example =
    redis_broadcasts_delivered codec plain_host parses parsed redis dials node events refl
      (
        inl refl,
        inl (
          refl,
          ("EOF", refl),
          (inl refl, inr (refl, omega arith, (inl refl, inl (refl, ("EOF", refl), tt)))),
        ),
      )
      refl
