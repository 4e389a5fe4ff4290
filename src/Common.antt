-- ===== src/Common.antt =====
-- common/common.go: the data that the components share, and the state of a session's connection
-- and channels that remote calls read and change.
pub mod Merge
pub mod PubSub
mod Tests
use anycable_go.Base.{
  ◌≡◌, refl, String, Bool, true, false, ◌&&◌, not, Option, none, some, List, [], ◌∷◌,
}
use anycable_go.Base.{◌=s=◌, if◌then◌else◌, is_some}
use anycable_go.Base.GoMap.{GoMap, lookup, insert, delete, adjust, has}

-- The statuses SUCCESS, FAILURE and ERROR.
pub data Status : Type 0 where
  success failure error : Status

-- What `encoding/json` decodes into an `interface{}`; a number is kept as its literal.
mutual
  pub data Json : Type 0 where
    null : Json
    boolean : Bool → Json
    number : String → Json
    text : String → Json
    array : Items → Json
    object : Fields → Json

  pub data Items : Type 0 where
    nil : Items
    cons : Json → Items → Items

  pub data Fields : Type 0 where
    end : Fields
    entry : String → Json → Fields → Fields

-- A pointer is an `Option`, `none` for nil.
pub record SessionEnv : Type 0 where
  pub url : String
  pub headers : Option (GoMap String)
  pub connection_state : Option (GoMap String)
  pub channel_states : Option (GoMap (GoMap String))

unfoldable pub new_session_env : String → Option (GoMap String) → SessionEnv
new_session_env url headers = record {
  url = url;
  headers = headers;
  connection_state = some [];
  channel_states = some [];
}

-- One round of the loops over `*other`: an empty value removes the key, any other is written.
unfoldable pub merge_entry : String → String → GoMap String → GoMap String
merge_entry k v state = if v =s= "" then delete k state else insert k v state

unfoldable pub merge_entries : GoMap String → GoMap String → GoMap String
merge_entries state [] = state
merge_entries state ((k, v) ∷ other) = merge_entries (merge_entry k v state) other

-- `none` is the panic of a write through a nil pointer, which an empty `other` does not meet.
unfoldable pub merge_connection_state : SessionEnv → GoMap String → Option SessionEnv
merge_connection_state st [] = some st
merge_connection_state st ((k, v) ∷ other) = elim st.connection_state [
  | none ↦ none
  | some state ↦ some (record st { connection_state = some (merge_entries state ((k, v) ∷ other)) })
]

unfoldable pub ensure_channel : String → GoMap (GoMap String) → GoMap (GoMap String)
ensure_channel id states = if has id states then states else insert id [] states

-- The nil pointer is met at once here, by the test of the identifier.
unfoldable pub merge_channel_state : SessionEnv → String → GoMap String → Option SessionEnv
unfolding ensure_channel
merge_channel_state st id other = elim st.channel_states [
  | none ↦ none
  | some states ↦ some (record st {
    channel_states =
        some (adjust id (λ state. merge_entries state other) (ensure_channel id states));
  })
]

abbrev pub text_or_empty : Option String → String
text_or_empty none = ""
text_or_empty (some v) = v

unfoldable pub get_connection_state_field : SessionEnv → String → String
get_connection_state_field st field = elim st.connection_state [
  | none ↦ ""
  | some state ↦ text_or_empty (lookup field state)
]

abbrev pub channel_field : Option (GoMap String) → String → String
channel_field none field = ""
channel_field (some state) field = text_or_empty (lookup field state)

-- `none` is the panic at a nil pointer.
unfoldable pub get_channel_state_field : SessionEnv → String → String → Option String
get_channel_state_field st id field = elim st.channel_states [
  | none ↦ none
  | some states ↦ some (channel_field (lookup id states) field)
]

unfoldable pub set_header : SessionEnv → String → String → SessionEnv
set_header st key val = elim st.headers [
  | none ↦ record st { headers = some ((key, val) ∷ []) }
  | some headers ↦ record st { headers = some (insert key val headers) }
]

pub record StreamMessage : Type 0 where
  pub stream : String
  pub content : String

-- A nil slice or map is `none`, where the code tells it from an empty one.
pub record CallResult : Type 0 where
  pub transmissions : List String
  pub broadcasts : List StreamMessage
  pub cstate : Option (GoMap String)
  pub istate : Option (GoMap String)

pub record ConnectResult : Type 0 where
  pub identifier : String
  pub transmissions : List String
  pub broadcasts : List StreamMessage
  pub cstate : Option (GoMap String)
  pub istate : Option (GoMap String)
  pub status : Status

unfoldable pub connect_to_call_result : ConnectResult → CallResult
connect_to_call_result c = record {
  transmissions = c.transmissions;
  broadcasts = c.broadcasts;
  cstate = c.cstate;
  istate = c.istate;
}

pub record CommandResult : Type 0 where
  pub stop_all_streams : Bool
  pub disconnect : Bool
  pub streams : List String
  pub stopped_streams : List String
  pub transmissions : List String
  pub broadcasts : List StreamMessage
  pub cstate : Option (GoMap String)
  pub istate : Option (GoMap String)
  pub status : Status

unfoldable pub command_to_call_result : CommandResult → CallResult
command_to_call_result c = record {
  transmissions = c.transmissions;
  broadcasts = c.broadcasts;
  cstate = c.cstate;
  istate = c.istate;
}

pub record Message : Type 0 where
  pub command : String
  pub identifier : String
  pub content : Json

pub record RemoteCommandMessage : Type 0 where
  pub command : String
  pub payload : String

pub record RemoteDisconnectMessage : Type 0 where
  pub identifier : String
  pub reconnect : Bool

pub record PingMessage : Type 0 where
  pub kind : String
  pub message : Json

pub record DisconnectMessage : Type 0 where
  pub kind : String
  pub reason : String
  pub reconnect : Bool

pub record Reply : Type 0 where
  pub kind : String
  pub identifier : String
  pub message : Json

pub data PubSubMessage : Type 0 where
  stream_message : StreamMessage → PubSubMessage
  remote_disconnect : RemoteDisconnectMessage → PubSubMessage

-- What `json.Unmarshal` makes of a text for each of the three target types; `none` is an error.
pub record PubSubCodec : Type 0 where
  pub stream_of : String → Option StreamMessage
  pub command_of : String → Option RemoteCommandMessage
  pub disconnect_of : String → Option RemoteDisconnectMessage

pub data PubSubError : Type 0 where
  malformed : PubSubError
  malformed_payload : PubSubError
  unknown_message : String → PubSubError

pub data PubSubResult : Type 0 where
  parsed : PubSubMessage → PubSubResult
  failed : PubSubError → PubSubResult

parse_payload : PubSubCodec → RemoteCommandMessage → PubSubResult
parse_payload codec msg = elim (codec.disconnect_of msg.payload) [
  | none ↦ failed malformed_payload
  | some d ↦ parsed (remote_disconnect d)
]

parse_command : PubSubCodec → String → PubSubResult
unfolding parse_payload
parse_command codec raw = elim (codec.command_of raw) [
  | none ↦ failed malformed
  | some msg ↦
      if msg.command =s= "disconnect" then parse_payload codec msg else failed (unknown_message raw)
]

unfoldable pub pub_sub_message_from_json : PubSubCodec → String → PubSubResult
unfolding parse_command
pub_sub_message_from_json codec raw = elim (codec.stream_of raw) [
  | none ↦ parse_command codec raw
  | some msg ↦
      if not (msg.stream =s= "") then parsed (stream_message msg) else parse_command codec raw
]
