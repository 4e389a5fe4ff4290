-- ===== src/Protocol.antt =====
-- protocol/protocol.go and the message types of protos/rpc.pb.go: what goes to the RPC server and
-- what is made of its answers.
pub mod Parse
pub mod Build
mod Tests
use anycable_go.Base.{ℕ, String, Bool, true, false, Option, none, some, List, [], ◌∷◌, ◌++◌}
use anycable_go.Base.{◌=s=◌, if◌then◌else◌, opt_map}
use Prim.Native.String.{◌++◌ as concat}
use anycable_go.Base.GoMap.{GoMap, lookup, insert}
use anycable_go.Common.{SessionEnv, ConnectResult, CommandResult, success, failure, error}

-- The enum `Status`; a number that it does not name is kept.
pub data PbStatus : Type 0 where
  pb_error pb_success pb_failure : PbStatus
  pb_unknown : ℕ → PbStatus

pub record Env : Type 0 where
  pub url : String
  pub headers : GoMap String
  pub cstate : GoMap String
  pub istate : GoMap String

-- A map that the answer does not hold is nil, `none`.
pub record EnvResponse : Type 0 where
  pub cstate : Option (GoMap String)
  pub istate : Option (GoMap String)

pub record ConnectionRequest : Type 0 where
  pub env : Env

pub record ConnectionResponse : Type 0 where
  pub status : PbStatus
  pub identifiers : String
  pub transmissions : List String
  pub error_msg : String
  pub env : Option EnvResponse

pub record CommandMessage : Type 0 where
  pub command : String
  pub identifier : String
  pub connection_identifiers : String
  pub content : String
  pub env : Env

pub record CommandResponse : Type 0 where
  pub status : PbStatus
  pub disconnect : Bool
  pub stop_streams : Bool
  pub streams : List String
  pub transmissions : List String
  pub error_msg : String
  pub env : Option EnvResponse
  pub stopped_streams : List String

pub record DisconnectRequest : Type 0 where
  pub identifiers : String
  pub subscriptions : List String
  pub env : Env

pub record DisconnectResponse : Type 0 where
  pub status : PbStatus
  pub error_msg : String

-- The two results of a Go call, each of which may be nil.
pub record Answer (R : Type 0) : Type 0 where
  pub result : Option R
  pub error : Option String

abbrev pub map_or_empty : Option (GoMap String) → GoMap String
map_or_empty none = []
map_or_empty (some m) = m

-- `none` is the panic at nil headers.
unfoldable pub build_env : SessionEnv → Option Env
build_env env = elim env.headers [
  | none ↦ none
  | some headers ↦ some (record {
    url = env.url;
    headers = headers;
    cstate = map_or_empty env.connection_state;
    istate = [];
  })
]

-- The loop over the channels' states, each marshalled as JSON.
unfoldable pub encode_states :
    (GoMap String → String) → GoMap (GoMap String) → GoMap String → GoMap String
encode_states marshal [] states = states
encode_states marshal ((id, state) ∷ rest) states =
    encode_states marshal rest (insert id (marshal state) states)

unfoldable pub with_states : (GoMap String → String) → Option (GoMap (GoMap String)) → Env → Env
unfolding encode_states
with_states marshal none env = env
with_states marshal (some channels) env = record env { istate = encode_states marshal channels [] }

unfoldable pub build_disconnect_env : (GoMap String → String) → SessionEnv → Option Env
unfolding build_env with_states
build_disconnect_env marshal env = opt_map (with_states marshal env.channel_states) (build_env env)

unfoldable pub with_channel : Option (GoMap String) → Env → Env
with_channel none env = env
with_channel (some state) env = record env { istate = state }

unfoldable pub build_channel_env : String → SessionEnv → Option Env
unfolding build_env with_channel
build_channel_env id env = elim env.channel_states [
  | none ↦ build_env env
  | some states ↦ opt_map (with_channel (lookup id states)) (build_env env)
]

unfoldable pub new_connect_message : SessionEnv → Option ConnectionRequest
unfolding build_env
new_connect_message env = opt_map (λ e. record { env = e }) (build_env env)

-- An absent text field and an empty one are the same in the message.
unfoldable pub new_command_message :
    SessionEnv → String → String → String → String → Option CommandMessage
unfolding build_channel_env
new_command_message env command channel identifiers text =
    opt_map
      (λ e. record {
        command = command;
        identifier = channel;
        connection_identifiers = identifiers;
        content = text;
        env = e;
      })
      (build_channel_env channel env)

unfoldable pub new_disconnect_request :
    (GoMap String → String) → SessionEnv → String → List String → Option DisconnectRequest
unfolding build_disconnect_env
new_disconnect_request marshal env identifiers subscriptions =
    opt_map (λ e. record { identifiers = identifiers; subscriptions = subscriptions; env = e })
      (build_disconnect_env marshal env)

abbrev env_cstate : Option EnvResponse → Option (GoMap String)
env_cstate none = none
env_cstate (some e) = e.cstate

abbrev env_istate : Option EnvResponse → Option (GoMap String)
env_istate none = none
env_istate (some e) = e.istate

abbrev application_error : String → String
application_error msg = concat "Application error: " msg

connect_reply : ConnectionResponse → ConnectResult
connect_reply response = record {
  identifier = "";
  transmissions = response.transmissions;
  broadcasts = [];
  cstate = env_cstate response.env;
  istate = none;
  status = success;
}

connect_status : PbStatus → ConnectionResponse → Answer ConnectResult
unfolding connect_reply
connect_status pb_success response = record {
  result =
      some
        (record (connect_reply response) { identifier = response.identifiers; status = success });
  error = none;
}
connect_status pb_failure response = record {
  result = some (record (connect_reply response) { status = failure });
  error = none;
}
connect_status _ response = record {
  result = some (record (connect_reply response) { status = error });
  error = some (application_error response.error_msg);
}

unfoldable pub parse_connect_response : ConnectionResponse → Answer ConnectResult
unfolding connect_status
parse_connect_response response = connect_status response.status response

command_result : CommandResponse → CommandResult
command_result response = record {
  stop_all_streams = response.stop_streams;
  disconnect = response.disconnect;
  streams = response.streams;
  stopped_streams = response.stopped_streams;
  transmissions = response.transmissions;
  broadcasts = [];
  cstate = env_cstate response.env;
  istate = env_istate response.env;
  status = success;
}

command_status : PbStatus → CommandResponse → Answer CommandResult
unfolding command_result
command_status pb_success response = record {
  result = some (record (command_result response) { status = success });
  error = none;
}
command_status pb_failure response = record {
  result = some (record (command_result response) { status = failure });
  error = none;
}
command_status _ response = record {
  result = some (record (command_result response) { status = error });
  error = some (application_error response.error_msg);
}

unfoldable pub parse_command_response : CommandResponse → Answer CommandResult
unfolding command_status
parse_command_response response = command_status response.status response

disconnect_status : PbStatus → String → Option String
disconnect_status pb_error msg = some (application_error msg)
disconnect_status _ msg = none

unfoldable pub parse_disconnect_response : DisconnectResponse → Option String
unfolding disconnect_status
parse_disconnect_response response = disconnect_status response.status response.error_msg
