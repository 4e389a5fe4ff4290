-- ===== src/Protocol/Tests.antt =====
-- The messages of protocol/protocol.go on small data.
use anycable_go.Base.{◌≡◌, refl, String, some, [], ◌∷◌}
use anycable_go.Base.GoMap.{GoMap, lookup, insert}
use anycable_go.Common.{SessionEnv, merge_channel_state}
use anycable_go.Common.Merge.{merged, channel_value}
use anycable_go.Protocol.{
  CommandMessage, DisconnectRequest, map_or_empty, new_command_message, new_disconnect_request,
}
use anycable_go.Protocol.Build.{channel_state_travels}

abbrev room : GoMap String
room = ("step", "1") ∷ []

abbrev env : SessionEnv
env = record {
  url = "/cable";
  headers = some [];
  connection_state = some [];
  channel_states = some (("room", room) ∷ []);
}

abbrev next_step : GoMap String
next_step = ("step", "2") ∷ []

channel_state_travels_example :
    (env' : SessionEnv) × (msg : CommandMessage) × (merge_channel_state env "room" next_step
      ≡ some env')
    × (new_command_message env' "message" "room" "alice" "go" ≡ some msg)
    × ((field : String)
        → lookup field msg.env.istate
          ≡ merged (lookup field next_step) (channel_value (("room", room) ∷ []) "room" field))
    × (msg.env.cstate ≡ map_or_empty env.connection_state)
    × (msg.identifier ≡ "room")
    × (msg.command ≡ "message")
    × (msg.content ≡ "go")
channel_state_travels_example =
    channel_state_travels env [] (("room", room) ∷ []) "room" next_step "message" "alice" "go" refl
      refl (refl, tt)

abbrev as_tag : GoMap String → String
as_tag [] = "{}"
as_tag _ = "{...}"

abbrev goodbye : DisconnectRequest
goodbye = record {
  identifiers = "alice";
  subscriptions = "room" ∷ [];
  env = record { url = "/cable"; headers = []; cstate = []; istate = ("room", "{...}") ∷ [] };
}

goodbye_built : new_disconnect_request as_tag env "alice" ("room" ∷ []) ≡ some goodbye
unfolding new_disconnect_request insert
goodbye_built = refl
