-- ===== src/Node/Tests.antt =====
-- Node: the property at a few events.
use anycable_go.Base.{◌≡◌, refl, List, ◌∷◌, [], none, some, false, ◌=s=◌, if◌then◌else◌}
use anycable_go.Common.{PubSubCodec}
use anycable_go.Base.Outcome.{ok}
use anycable_go.Metrics.{Metrics}
use anycable_go.Node.{Node, NodeCounts, no_counts}
use anycable_go.Node.Metering.{
  MeterEvent, adds, collects, rotates, data_sent_total, register_metrics, meter_events,
}
use anycable_go.Node.Metering.Meters.{new_meters, all_metered}
use anycable_go.Node.Metering.Registry.{Represents, meter_events-Represents}

abbrev codec : PubSubCodec
codec = record {
  stream_of = λ raw. none;
  command_of = λ raw. some (record { command = "disconnect"; payload = raw });
  disconnect_of =
      λ raw. if raw =s= "bob" then some (record { identifier = raw; reconnect = false }) else none;
}

abbrev node : Node
node = record {
  hub = record {
    sessions = [];
    identifiers = [];
    streams = [];
    sessions_streams = [];
    dropped = [];
  };
  register = [];
  subscribe = [];
  broadcast = [];
  disconnect = [];
  disconnector = record {
    rate = 10;
    timeout = 5000;
    disconnect = [];
    signalled = false;
    is_stopped = false;
  };
  counts = no_counts;
}

abbrev registry : Metrics
registry = record {
  counters = [];
  gauges = ("clients_num", record { name = "clients_num"; desc = ""; value = 7 }) ∷ [];
}

abbrev events : List MeterEvent
events = adds data_sent_total 5 ∷ collects 12 4096 node ∷ rotates ∷ adds data_sent_total 3 ∷ []

meter_events-Represents_example :
    (m' : Metrics) × (meter_events events (register_metrics registry) ≡ ok m')
    × Represents (all_metered events new_meters) m'
meter_events-Represents_example = meter_events-Represents events registry

abbrev both : NodeCounts
both = record no_counts { data_sent = 8 }

counted_both : (all_metered events new_meters).counts ≡ both
counted_both = refl
