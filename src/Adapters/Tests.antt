-- ===== src/Adapters/Tests.antt =====
-- Adapters: the properties at concrete requests and connections.
use anycable_go.Base.{false, none, some, []}
use anycable_go.Common.{PubSubCodec}
use anycable_go.Node.{Node, no_counts}
use anycable_go.Adapters.{HttpConfig, new_http_subscriber, Request, http_handler}
use anycable_go.Adapters.Http.{Handled, http_handler_cases}

abbrev codec : PubSubCodec
codec = record {
  stream_of = λ t. some (record { stream = "chat"; content = t });
  command_of = λ t. none;
  disconnect_of = λ t. none;
}

abbrev node : Node
node = record {
  hub = record {
    sessions = [];
    identifiers = [];
    streams = [];
    sessions_streams = [];
    dropped = [];
  };
  register = [];
  subscribe = [];
  broadcast = [];
  disconnect = [];
  disconnector = record {
    rate = 10;
    timeout = 5000;
    disconnect = [];
    signalled = false;
    is_stopped = false;
  };
  counts = no_counts;
}

abbrev config : HttpConfig
config = record { port = 8090; path = "/_broadcast"; secret = "s3cret" }

abbrev request : Request
request = record { method = "POST"; authorization = "Bearer s3cret"; body = some "{}" }

http_handler_cases_example :
    Handled codec config request node (http_handler codec (new_http_subscriber config) request node)
http_handler_cases_example = http_handler_cases codec config request node
