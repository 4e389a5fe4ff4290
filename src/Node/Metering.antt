-- ===== src/Node/Metering.antt =====
-- The metrics of node/node.go in the registry of metrics/metrics.go, by their names: their registration,
-- what is added to the counters, and what `collectStatsOnce` sets.
pub mod Meters
pub mod Values
pub mod Registry
use anycable_go.Base.{ℕ, String, List, [], ◌∷◌}
use anycable_go.Base.Outcome.{Outcome, ok, ◌>>=◌}
use anycable_go.Metrics.{
  Metrics, add_u64, u64_mod, register_counter, register_gauge, add_to_counter, set_gauge, rotate,
}
use anycable_go.Node.{Node, NodeCounts, NodeStats, collect_stats_once}

pub data NodeCounter : Type 0 where
  failed_auths_total : NodeCounter
  client_msg_total : NodeCounter
  failed_client_msg_total : NodeCounter
  broadcast_msg_total : NodeCounter
  failed_broadcast_msg_total : NodeCounter
  server_msg_total : NodeCounter
  failed_server_msg_total : NodeCounter
  data_sent_total : NodeCounter
  data_rcvd_total : NodeCounter

abbrev pub counter_name : NodeCounter → String
counter_name failed_auths_total = "failed_auths_total"
counter_name client_msg_total = "client_msg_total"
counter_name failed_client_msg_total = "failed_client_msg_total"
counter_name broadcast_msg_total = "broadcast_msg_total"
counter_name failed_broadcast_msg_total = "failed_broadcast_msg_total"
counter_name server_msg_total = "server_msg_total"
counter_name failed_server_msg_total = "failed_server_msg_total"
counter_name data_sent_total = "data_sent_total"
counter_name data_rcvd_total = "data_rcvd_total"

pub data NodeGauge : Type 0 where
  goroutines_gauge : NodeGauge
  mem_sys_gauge : NodeGauge
  clients_gauge : NodeGauge
  uniq_clients_gauge : NodeGauge
  streams_gauge : NodeGauge
  queue_gauge : NodeGauge

abbrev pub gauge_name : NodeGauge → String
gauge_name goroutines_gauge = "goroutines_num"
gauge_name mem_sys_gauge = "mem_sys_bytes"
gauge_name clients_gauge = "clients_num"
gauge_name uniq_clients_gauge = "clients_uniq_num"
gauge_name streams_gauge = "broadcast_streams_num"
gauge_name queue_gauge = "disconnect_queue_size"

abbrev pub node_gauges : List (String × String)
node_gauges =
    ("goroutines_num", "The number of Go routines")
    ∷ ("mem_sys_bytes", "The total bytes of memory obtained from the OS")
    ∷ ("clients_num", "The number of active clients")
    ∷ ("clients_uniq_num", "The number of unique clients (with respect to connection identifiers)")
    ∷ ("broadcast_streams_num", "The number of active broadcasting streams")
    ∷ ("disconnect_queue_size", "The size of delayed disconnect")
    ∷ []

abbrev pub node_counters : List (String × String)
node_counters =
    ("failed_auths_total", "The total number of failed authentication attempts")
    ∷ ("client_msg_total", "The total number of received messages from clients")
    ∷ ("failed_client_msg_total", "The total number of unrecognized messages received from clients")
    ∷ (
      "broadcast_msg_total", "The total number of messages received through PubSub (for broadcast)",
    )
    ∷ (
      "failed_broadcast_msg_total",
      "The total number of unrecognized messages received through PubSub",
    )
    ∷ ("server_msg_total", "The total number of messages sent to clients")
    ∷ ("failed_server_msg_total", "The total number of messages failed to send to clients")
    ∷ ("data_sent_total", "The total amount of bytes sent to clients")
    ∷ ("data_rcvd_total", "The total amount of bytes received from clients")
    ∷ []

unfoldable pub register_gauges : List (String × String) → Metrics → Metrics
register_gauges [] m = m
register_gauges ((name, desc) ∷ rest) m = register_gauges rest (register_gauge m name desc)

unfoldable pub register_counters : List (String × String) → Metrics → Metrics
register_counters [] m = m
register_counters ((name, desc) ∷ rest) m = register_counters rest (register_counter m name desc)

unfoldable pub register_metrics : Metrics → Metrics
unfolding register_gauges register_counters
register_metrics m = register_counters node_counters (register_gauges node_gauges m)

-- `collectStatsOnce`, with what the runtime answers.
unfoldable pub collect_into : ℕ → ℕ → NodeStats → Metrics → Outcome Metrics
collect_into goroutines mem_sys s m =
    set_gauge m "goroutines_num" goroutines
    >>= (λ m. set_gauge m "mem_sys_bytes" mem_sys)
    >>= (λ m. set_gauge m "clients_num" s.clients_num)
    >>= (λ m. set_gauge m "clients_uniq_num" s.uniq_clients_num)
    >>= (λ m. set_gauge m "broadcast_streams_num" s.streams_num)
    >>= (λ m. set_gauge m "disconnect_queue_size" s.disconnect_queue_size)

-- What the node and its sessions do with the metrics, and the rotation.
pub data MeterEvent : Type 0 where
  adds : NodeCounter → ℕ → MeterEvent
  collects : ℕ → ℕ → Node → MeterEvent
  rotates : MeterEvent

unfoldable pub meter_event : MeterEvent → Metrics → Outcome Metrics
unfolding collect_into
meter_event (adds k n) m = add_to_counter m (counter_name k) n
meter_event (collects goroutines mem_sys n) m =
    collect_into goroutines mem_sys (collect_stats_once n) m
meter_event rotates m = ok (rotate m)

unfoldable pub meter_events : List MeterEvent → Metrics → Outcome Metrics
unfolding meter_event
meter_events [] m = ok m
meter_events (e ∷ es) m = meter_event e m >>= meter_events es
