-- ===== src/Protocol/Build.antt =====
-- What protocol/protocol.go sends of a session's state, after merges and at the end.
use anycable_go.Base.{
  ◌≡◌, refl, ◌∙◌, ap, String, Option, none, some, List, [], ◌∷◌, arith, inl, inr, =s=_iff,
  if◌then◌else◌, opt_map, Option-cases,
}
use anycable_go.Base.GoMap.{GoMap, lookup, insert, has, IsMap, lookup-insert, has-elem}
use anycable_go.Common.{SessionEnv, merge_channel_state}
use anycable_go.Common.Merge.{merged, channel_value, merge_channel_state_lem}
use anycable_go.Protocol.{
  Env, CommandMessage, DisconnectRequest, map_or_empty, new_command_message, new_disconnect_request,
  encode_states, with_channel,
}

istate_of :
    (states : GoMap (GoMap String)) (id field : String) (e : Env)
    → e.istate ≡ []
    → lookup field (with_channel (lookup id states) e).istate ≡ channel_value states id field
unfolding with_channel lookup
istate_of states id field e empty = elim (Option-cases (lookup id states)) [
  | inl gone ↦ rw (gone, empty) refl
  | inr (state, here) ↦ rw here refl
]

cstate-with_channel : (c : Option (GoMap String)) (e : Env) → (with_channel c e).cstate ≡ e.cstate
unfolding with_channel
cstate-with_channel none e = refl
cstate-with_channel (some state) e = refl

abbrev plain_env : SessionEnv → GoMap String → Env
plain_env env headers = record {
  url = env.url;
  headers = headers;
  cstate = map_or_empty env.connection_state;
  istate = [];
}

command_message :
    (env : SessionEnv) (headers : GoMap String) (states : GoMap (GoMap String))
    (id command identifiers text : String)
    → env.headers ≡ some headers
    → env.channel_states ≡ some states
    → new_command_message env command id identifiers text
      ≡ some (record {
        command = command;
        identifier = id;
        connection_identifiers = identifiers;
        content = text;
        env = with_channel (lookup id states) (plain_env env headers);
      })
unfolding new_command_message
command_message env headers states id command identifiers text h c = ground arith

-- The next command of a channel, whatever it is, carries the channel's state as the last answer
-- has merged it, and the connection's state, where the session has headers and states.
pub channel_state_travels :
    (env : SessionEnv) (headers : GoMap String) (states : GoMap (GoMap String)) (id : String)
    (other : GoMap String) (command identifiers text : String)
    → env.headers ≡ some headers
    → env.channel_states ≡ some states
    → IsMap other
    → (env' : SessionEnv) × (msg : CommandMessage) × (merge_channel_state env id other ≡ some env')
      × (new_command_message env' command id identifiers text ≡ some msg)
      × ((field : String)
          → lookup field msg.env.istate
            ≡ merged (lookup field other) (channel_value states id field))
      × (msg.env.cstate ≡ map_or_empty env.connection_state)
      × (msg.identifier ≡ id)
      × (msg.command ≡ command)
      × (msg.content ≡ text)
channel_state_travels env headers states id other command identifiers text h c m =
    let (env', states', e, c', fields, others, same, same_headers) =
      merge_channel_state_lem env states id other c m in
    (
      env',
      record {
        command = command;
        identifier = id;
        connection_identifiers = identifiers;
        content = text;
        env = with_channel (lookup id states') (plain_env env' headers);
      },
      e,
      command_message env' headers states' id command identifiers text (same_headers ∙ h) c',
      λ field. istate_of states' id field (plain_env env' headers) refl ∙ fields field,
      cstate-with_channel (lookup id states') (plain_env env' headers) ∙ ap map_or_empty same,
      refl,
      refl,
      refl,
    )

lookup-encode_states_from :
    (marshal : GoMap String → String) (id : String) (channels : GoMap (GoMap String))
    (states : GoMap String)
    → IsMap channels
    → lookup id (encode_states marshal channels states)
      ≡ (if has id channels then opt_map marshal (lookup id channels) else lookup id states)
unfolding encode_states lookup
lookup-encode_states_from marshal id [] states m = refl
lookup-encode_states_from marshal id ((j, state) ∷ channels) states m = ground (
  arith,
  =s=_iff j id,
  has-elem j channels,
  lookup-insert j id (marshal state) states,
  lookup-encode_states_from marshal id channels (insert j (marshal state) states) m.1,
)

-- The request at the end of a session carries the state of each of its channels, marshalled, and
-- nothing for any other channel.
pub disconnect_request_states :
    (marshal : GoMap String → String) (env : SessionEnv) (channels : GoMap (GoMap String))
    (identifiers id : String) (subscriptions : List String) (r : DisconnectRequest)
    → env.channel_states ≡ some channels
    → IsMap channels
    → new_disconnect_request marshal env identifiers subscriptions ≡ some r
    → (lookup id r.env.istate ≡ opt_map marshal (lookup id channels))
      × (r.identifiers ≡ identifiers)
      × (r.subscriptions ≡ subscriptions)
unfolding new_disconnect_request lookup
disconnect_request_states marshal env channels identifiers id subscriptions r c m e =
    ground (arith, lookup-encode_states_from marshal id channels [] m)
