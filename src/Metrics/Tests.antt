-- ===== src/Metrics/Tests.antt =====
-- Metrics: the properties at concrete counters and writers.
use anycable_go.Base.{
  ℕ, String, Option, ◌≡◌, ◌⊎◌, ◌≢◌, refl, none, some, false, true, List, [], ◌∷◌,
}
use anycable_go.Metrics.{Counter, Metrics, CounterEvent, adds, rotates}
use anycable_go.Server.{HttpServer, ServerDefaults, Servers}
use anycable_go.Metrics.Running.{
  Rotation, writing, returned, metrics_run, ticks, writes, closes, rotation_events,
}
use anycable_go.Metrics.Running.Rotating.{rounds, snapshots, shutdown_missed}
use anycable_go.Base.GoMap.{lookup}
use anycable_go.Base.Outcome.{ok}
use anycable_go.Metrics.Making.{
  MetricsConfig, MetricsInstance, base_printer, shared, log_enabled, http_enabled, has_own_host,
  from_config, rotation_of,
}
use anycable_go.Metrics.Making.Runs.{from_config_runs}

abbrev events : List CounterEvent
events = adds 3 ∷ rotates ∷ adds 4 ∷ adds 1 ∷ rotates ∷ adds 9 ∷ []

abbrev calls : Counter
calls = record {
  name = "calls";
  desc = "";
  value = 8;
  last_interval_value = 3;
  last_interval_delta = 3;
}

abbrev registry : Metrics
registry = record {
  counters = ("calls", calls) ∷ [];
  gauges = ("pending", record { name = "pending"; desc = ""; value = 2 }) ∷ [];
}

abbrev own_server : HttpServer
own_server = record {
  addr = "0.0.0.0:9090";
  secured = false;
  shutdown = false;
  started = false;
  max_conn = 0;
}

abbrev with_printer : Rotation
with_printer = record {
  metrics = registry;
  server = some own_server;
  writers = none ∷ [];
  interval = 0;
  phase = returned none;
  is_open = true;
  written = [];
}

abbrev defaults : ServerDefaults
defaults = record {
  host = "localhost";
  ssl = none;
  max_conn = 0;
  load_error = λ ssl. none;
  join = λ host port. port;
}

abbrev to_text : ℕ → String
to_text n = "8080"

abbrev no_error : String → Option String
no_error path = none

abbrev config : MetricsConfig
config = record {
  log = true;
  log_interval = 0;
  rotate_interval = 15;
  log_formatter = "";
  http = "/metrics";
  host = "";
  port = 8080;
}

abbrev main_server : HttpServer
main_server = record own_server { started = true }

abbrev instance_made : MetricsInstance
instance_made = record {
  writers = base_printer ∷ [];
  rotate_interval = 15;
  server = shared "8080";
  http_path = "/metrics";
}

abbrev later : Servers
later = ("8080", main_server) ∷ []

made : from_config defaults to_text no_error config later ≡ (later, ok instance_made)
unfolding from_config lookup
made = refl

from_config_runs_example :
    let r = metrics_run (rotation_of later no_error registry instance_made) none in
    ((main_server.started ≡ true)
      × (instance_made.server ≡ shared (to_text config.port))
      × (has_own_host defaults config ≡ false)
      × ((rotation_events (rounds 3) r).written ≡ snapshots 3 registry))
    ⊎ ((main_server.started ≡ false)
        × ((rotation_events (ticks ∷ ticks ∷ closes ∷ ticks ∷ []) r).written ≡ []))
unfolding log_enabled http_enabled lookup
from_config_runs_example =
    from_config_runs defaults to_text no_error no_error config later later later instance_made
      main_server registry (ticks ∷ ticks ∷ closes ∷ ticks ∷ []) 3 refl refl refl made refl tt

abbrev at_work : Rotation
at_work = record with_printer { phase = writing }

shutdown_missed_example :
    (rotation_events (closes ∷ writes ∷ ticks ∷ writes ∷ closes ∷ []) at_work).phase ≢ returned none
shutdown_missed_example =
    shutdown_missed at_work (writes ∷ ticks ∷ writes ∷ closes ∷ []) none refl refl
