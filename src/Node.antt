-- ===== src/Node.antt =====
-- node/node.go and node/config.go, without what concerns one session: the node's parts, the messages
-- that it hands to the channels of the hub, the pub/sub messages, and the statistics.
pub mod Messages
pub mod Metering
mod Tests
use anycable_go.Base.{
  ℕ, ◌+◌, String, Bool, true, false, Option, none, some, List, [], ◌∷◌, ◌++◌, if◌then◌else◌, length,
}
use anycable_go.Common.{
  StreamMessage, RemoteDisconnectMessage, PubSubCodec, PubSubResult, parsed, failed, PubSubMessage,
  stream_message, remote_disconnect, pub_sub_message_from_json,
}
use anycable_go.Metrics.{inc, add_u64}
use anycable_go.Hub.State.{Hub, HubSession, hub_size, uniq_size, streams_size}
use anycable_go.Hub.{HubRegistration, HubSubscription}
use anycable_go.Disconnector.{DisconnectQueue, enqueue, size}

-- The counters that `registerMetrics` makes, each by its variable's name.
pub record NodeCounts : Type 0 where
  pub failed_auths : ℕ
  pub received_msg : ℕ
  pub failed_command_received : ℕ
  pub broadcast_msg : ℕ
  pub unknown_broadcast : ℕ
  pub sent_msg : ℕ
  pub failed_sent : ℕ
  pub data_sent : ℕ
  pub data_received : ℕ

abbrev pub no_counts : NodeCounts
no_counts = record {
  failed_auths = 0;
  received_msg = 0;
  failed_command_received = 0;
  broadcast_msg = 0;
  unknown_broadcast = 0;
  sent_msg = 0;
  failed_sent = 0;
  data_sent = 0;
  data_received = 0;
}

-- The hub stands with the contents of its four channels, in the order of the sends.
pub record Node : Type 0 where
  pub hub : Hub
  pub register : List HubRegistration
  pub subscribe : List HubSubscription
  pub broadcast : List StreamMessage
  pub disconnect : List RemoteDisconnectMessage
  pub disconnector : DisconnectQueue
  pub counts : NodeCounts

unfoldable pub hub_remove_session : Node → HubSession → Node
hub_remove_session n s = record n {
  register = n.register ++ record { event = "remove"; session = s } ∷ [];
}

unfoldable pub remove_subscription : Node → String → String → String → Node
remove_subscription n sid identifier stream = record n {
  subscribe =
      n.subscribe
      ++ record { event = "remove"; session = sid; stream = stream; identifier = identifier } ∷ [];
}

unfoldable pub remove_all_subscriptions : Node → String → String → Node
remove_all_subscriptions n sid identifier = record n {
  subscribe =
      n.subscribe
      ++ record { event = "removeAll"; session = sid; stream = ""; identifier = identifier } ∷ [];
}

unfoldable pub node_broadcast : Node → StreamMessage → Node
node_broadcast n msg = record n {
  broadcast = n.broadcast ++ msg ∷ [];
  counts = record n.counts { broadcast_msg = inc n.counts.broadcast_msg };
}

unfoldable pub node_remote_disconnect : Node → RemoteDisconnectMessage → Node
node_remote_disconnect n msg = record n {
  disconnect = n.disconnect ++ msg ∷ [];
  counts = record n.counts { broadcast_msg = inc n.counts.broadcast_msg };
}

unfoldable pub handle_parsed : Node → PubSubResult → Node
unfolding node_broadcast node_remote_disconnect
handle_parsed n (failed e) = record n {
  counts = record n.counts { unknown_broadcast = inc n.counts.unknown_broadcast };
}
handle_parsed n (parsed (stream_message msg)) = node_broadcast n msg
handle_parsed n (parsed (remote_disconnect msg)) = node_remote_disconnect n msg

unfoldable pub handle_pub_sub : PubSubCodec → Node → String → Node
unfolding handle_parsed
handle_pub_sub codec n raw = handle_parsed n (pub_sub_message_from_json codec raw)

-- `Disconnect`: the removal for the hub, and the session for the disconnector.
unfoldable pub node_disconnect : Node → HubSession → Node
unfolding hub_remove_session
node_disconnect n s =
    let n' = hub_remove_session n s in record n' { disconnector = enqueue n'.disconnector s }

-- The gauges that `collectStatsOnce` sets from the node's own state.
pub record NodeStats : Type 0 where
  pub clients_num : ℕ
  pub uniq_clients_num : ℕ
  pub streams_num : ℕ
  pub disconnect_queue_size : ℕ

unfoldable pub collect_stats_once : Node → NodeStats
collect_stats_once n = record {
  clients_num = hub_size n.hub;
  uniq_clients_num = uniq_size n.hub;
  streams_num = streams_size n.hub;
  disconnect_queue_size = size n.disconnector;
}
