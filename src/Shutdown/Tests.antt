-- ===== src/Shutdown/Tests.antt =====
-- Shutdown: the properties at a node with two sessions.
use anycable_go.Base.{
  ℕ, zero, suc, ◌<◌, ◌≡◌, refl, String, true, false, Option, none, some, List, [], ◌∷◌, length,
  arith,
}
use anycable_go.Base.GoMap.{GoMap}
use anycable_go.Base.Values.{AllValues}
use anycable_go.Base.Outcome.{ok}
use anycable_go.Encoders.{Encoder, text_of}
use anycable_go.Hub.State.{HubSession, Hub, hub_size}
use anycable_go.Hub.{HubRegistration}
use anycable_go.Disconnector.{QueueEvent, enqueues, receives, Taker, run_takes}
use anycable_go.Node.{Node, no_counts}
use anycable_go.Session.{Session}
use anycable_go.Shutdown.{Member, App, stuck, waits, node_shutdown}
use anycable_go.Shutdown.Each.{SafeMember}
use anycable_go.Shutdown.Whole.{node_shutdown_waits}

abbrev plain : Encoder
plain = record {
  id = "plain";
  encode = λ m. ok (some (text_of "restart"));
  encode_transmission = λ t. ok (some (text_of t));
  decode = λ t. ok none;
}

abbrev session_of : String → String → Session
session_of uid identifiers = record {
  uid = uid;
  identifiers = identifiers;
  connected = true;
  closed = false;
  sends = true;
  ticks = true;
  subscriptions = [];
  env = record {
    url = "/cable";
    headers = none;
    connection_state = some [];
    channel_states = some [];
  };
}

abbrev alice : Member
alice = record {
  session = session_of "1" "alice";
  encoder = plain;
  channel = record { frames = text_of "hi" ∷ []; is_closed = false };
  wire = [];
}

abbrev bob : Member
bob = record {
  session = record (session_of "2" "bob") { connected = false; sends = false };
  encoder = plain;
  channel = record { frames = []; is_closed = true };
  wire = [];
}

abbrev both : GoMap Member
both = ("1", alice) ∷ ("2", bob) ∷ []

abbrev hub : Hub
hub = record {
  sessions =
      ("1", record { uid = "1"; identifiers = "alice" })
      ∷ ("2", record { uid = "2"; identifiers = "bob" })
      ∷ [];
  identifiers = [];
  streams = [];
  sessions_streams = [];
  dropped = [];
}

abbrev node : List HubRegistration → Node
node register = record {
  hub = hub;
  register = register;
  subscribe = [];
  broadcast = [];
  disconnect = [];
  disconnector = record {
    rate = 10;
    timeout = 5000;
    disconnect = [];
    signalled = false;
    is_stopped = false;
  };
  counts = no_counts;
}

both_safe : AllValues SafeMember both
both_safe = (
  record { channel = refl; bound = omega arith; calm = λ e. cc },
  (record { channel = refl; bound = omega arith; calm = λ e. cc }, tt),
)

hub_active : 0 < hub_size hub
unfolding hub_size
hub_active = omega arith

abbrev app : List HubRegistration → App
app register = record { node = node register; members = both; is_shut = false }

abbrev answers : HubSession → Option String
answers s = none

abbrev late : HubSession
late = record { uid = "3"; identifiers = "late" }

abbrev second : List QueueEvent
second = receives ∷ enqueues late ∷ []

-- `Run` receives the first of the two that are left.
abbrev takers : List Taker
takers = run_takes ∷ []

copies : ℕ → HubRegistration → List HubRegistration
copies zero r = []
copies (suc n) r = r ∷ copies n r

length-copies : (n : ℕ) (r : HubRegistration) → length (copies n r) ≡ n
unfolding copies
length-copies zero r = refl
length-copies (suc n) r = omega (arith, length-copies n r)

abbrev full_register : List HubRegistration
full_register = copies 2048 (record { event = "remove"; session = late })

node_shutdown_waits_example : node_shutdown answers second takers (app full_register) ≡ stuck waits
node_shutdown_waits_example =
    node_shutdown_waits answers second takers (app full_register) refl hub_active both_safe
      (omega (arith, length-copies 2048 (record { event = "remove"; session = late })))
      (omega (arith, length-copies 2048 (record { event = "remove"; session = late })))
