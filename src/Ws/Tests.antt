-- ===== src/Ws/Tests.antt =====
-- Ws: the properties at concrete requests.
use anycable_go.Base.{
  ◌≡◌, refl, ◌↔◌, String, Bool, true, Option, some, List, [], ◌∷◌, ◌=s=◌, if◌then◌else◌,
}
use anycable_go.Base.Outcome.{ok}
use anycable_go.Base.{none, false, arith}
use anycable_go.Common.{null}
use anycable_go.Encoders.{Encoder, text_of}
use anycable_go.Hub.State.{new_hub}
use anycable_go.Node.{Node, no_counts}
use anycable_go.Commands.Reading.{incoming, closing}
use anycable_go.Commands.Life.{CalmEncoder}
use anycable_go.Rpc
use anycable_go.Rpc.{unavailable, status_error, failed}
use anycable_go.Rpc.Controller.{RpcServer}
use anycable_go.Rpc.Serving.{rpc_controller, rpc_controller-Serves}
use anycable_go.Ws.Connecting.{Upgrading, WsSettings}
use anycable_go.Ws.Connecting.Requests.{Handled, websocket_handler_cases}
use anycable_go.Ws.{Request, check_origin, split_commas}
use anycable_go.Ws.Origin.{AnyAllows, check_origin_allows}

abbrev request : Request
request = record {
  header = λ name.
      if name =s= "Origin" then "my.example.com" else (if name =s= "Cookie" then "a=b" else "");
  remote_host = "127.0.0.1";
}

abbrev lower : String → String
lower s = s

abbrev hosts : List String
hosts = "other.org" ∷ "*.example.com" ∷ []

hosts_split : split_commas "other.org,*.example.com" ≡ hosts
unfolding split_commas
hosts_split = refl

check_origin_allows_example :
    (b : Bool) × (check_origin lower some "other.org,*.example.com" request ≡ ok b)
    × ((b ≡ true) ↔ (
        (host : String) × (some (request.header "Origin") ≡ some host)
        × AnyAllows host (split_commas "other.org,*.example.com")))
unfolding split_commas
check_origin_allows_example =
    check_origin_allows lower some "other.org,*.example.com" request (λ e. absurd (cc))
      ((λ e. absurd (cc)), ((λ e. absurd (cc)), tt))

abbrev node : Node
node = record {
  hub = new_hub;
  register = [];
  subscribe = [];
  broadcast = [];
  disconnect = [];
  disconnector = record {
    rate = 10;
    timeout = 5000;
    disconnect = [];
    signalled = false;
    is_stopped = false;
  };
  counts = no_counts;
}

-- An encoder that reads nothing but subscriptions.
abbrev encoder : Encoder
encoder = record {
  id = "json";
  encode = λ msg. ok none;
  encode_transmission = λ msg. ok (some (text_of msg));
  decode = λ raw. ok (some (record { command = "subscribe"; identifier = raw; content = null }));
}

encoder-CalmEncoder : CalmEncoder encoder
encoder-CalmEncoder = record {
  transmissions = λ msg e. absurd (cc);
  decoding = λ raw e. absurd (cc);
}

abbrev server : RpcServer
server = record {
  ready_error = λ n. none;
  connect = λ n req. failed (status_error unavailable "gone");
  command = λ n msg. failed (status_error unavailable "gone");
  disconnect = λ n req. failed (status_error unavailable "gone");
  marshal = λ m. "{}";
}

abbrev state : Rpc.Controller.Controller
state = record { concurrency = 2; sem = 1; pending = 0; calls = 7; retries = 0; failures = 0 }

abbrev settings : WsSettings
settings = record {
  to_lower = lower;
  parse_host = λ origin. some origin;
  allowed_origins = "";
  headers_to_fetch = "Cookie" ∷ [];
}

abbrev generated : Option String
generated = some "x1"

abbrev upgrading : Upgrading
upgrading = record {
  request = request;
  url = "/cable";
  is_absolute = false;
  has_tls = false;
  host = "my.example.com";
  early_error = none;
  late_error = none;
}

websocket_handler_cases_example :
    Handled settings
      (rpc_controller server state)
      encoder
      node
      generated
      (incoming "room" ∷ closing ∷ [])
      upgrading
unfolding check_origin
websocket_handler_cases_example =
    websocket_handler_cases settings (rpc_controller server state) encoder node generated
      (incoming "room" ∷ closing ∷ []) upgrading
      (rpc_controller-Serves server state (omega arith) (omega arith)) encoder-CalmEncoder
      (λ e. absurd (cc))
