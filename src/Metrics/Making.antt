-- ===== src/Metrics/Making.antt =====
-- metrics/config.go and `FromConfig` of metrics/metrics.go: which writers the metrics get, and on which
-- server they are mounted.
pub mod Runs
use anycable_go.Base.{
  ℕ, String, Bool, true, false, not, ◌&&◌, ◌||◌, Option, none, some, List, [], ◌∷◌, ◌=s=◌,
  if◌then◌else◌,
}
use anycable_go.Base.GoMap.{GoMap, lookup}
use anycable_go.Base.Outcome.{Outcome, ok, err, panic, ◌>>=◌}
use anycable_go.Metrics.{Metrics}
use anycable_go.Metrics.Running.{Rotation, returned}
use anycable_go.Server.{ServerDefaults, HttpServer, Servers, new_server, for_port}

pub record MetricsConfig : Type 0 where
  pub log : Bool
  pub log_interval : ℕ
  pub rotate_interval : ℕ
  pub log_formatter : String
  pub http : String
  pub host : String
  pub port : ℕ

unfoldable pub log_formatter_enabled : MetricsConfig → Bool
log_formatter_enabled c = not (c.log_formatter =s= "")

unfoldable pub log_enabled : MetricsConfig → Bool
unfolding log_formatter_enabled
log_enabled c = c.log || log_formatter_enabled c

unfoldable pub http_enabled : MetricsConfig → Bool
http_enabled c = not (c.http =s= "")

pub data Printer : Type 0 where
  base_printer : Printer
  custom_printer : String → Printer

-- A shared server is a pointer into `allServers`, by its port.
pub data MetricsServer : Type 0 where
  no_server : MetricsServer
  own : HttpServer → MetricsServer
  shared : String → MetricsServer

-- The instance, without its counters and gauges.
pub record MetricsInstance : Type 0 where
  pub writers : List Printer
  pub rotate_interval : ℕ
  pub server : MetricsServer
  pub http_path : String

-- `NewMetrics`.
abbrev new_instance : List Printer → ℕ → MetricsInstance
new_instance writers interval = record {
  writers = writers;
  rotate_interval = interval;
  server = no_server;
  http_path = "";
}

custom_writers : String → Option String → Outcome (List Printer)
custom_writers path none = ok (custom_printer path ∷ [])
custom_writers path (some e) = err e

config_writers : (String → Option String) → MetricsConfig → Outcome (List Printer)
unfolding log_enabled log_formatter_enabled custom_writers
config_writers new_custom c =
    if log_enabled c
    then (if log_formatter_enabled c
        then custom_writers c.log_formatter (new_custom c.log_formatter)
        else ok (base_printer ∷ []))
    else ok []

unfoldable pub has_own_host : ServerDefaults → MetricsConfig → Bool
has_own_host d c = not (c.host =s= "") && not (c.host =s= d.host)

mount_shared :
    MetricsConfig
    → String
    → MetricsInstance
    → Servers × Option String
    → Servers × Outcome MetricsInstance
mount_shared c port m (servers, none) =
    (servers, ok (record m { server = shared port; http_path = c.http }))
mount_shared c port m (servers, some e) = (servers, err e)

mount_own : MetricsConfig → MetricsInstance → HttpServer → Outcome MetricsInstance
mount_own c m s = ok (record m { server = own s; http_path = c.http })

module _ (d : ServerDefaults) (itoa : ℕ → String) (c : MetricsConfig) (servers : Servers) where
  mount : MetricsInstance → Servers × Outcome MetricsInstance
  unfolding http_enabled has_own_host mount_shared mount_own new_server for_port
  mount m =
      if http_enabled c
      then (if has_own_host d c
          then (
            servers,
            new_server (record d { host = c.host; max_conn = 0 }) (itoa c.port) >>= mount_own c m,
          )
          else mount_shared c (itoa c.port) m (for_port d servers (itoa c.port)))
      else (servers, ok m)

  with_writers : Outcome (List Printer) → Servers × Outcome MetricsInstance
  unfolding mount
  with_writers (ok ws) = mount (new_instance ws c.rotate_interval)
  with_writers (err e) = (servers, err e)
  with_writers panic = (servers, panic)

-- `new_custom` is the error of `NewCustomPrinter`, `itoa` is `strconv.Itoa`.
unfoldable pub from_config :
    ServerDefaults
    → (ℕ → String)
    → (String → Option String)
    → MetricsConfig
    → Servers
    → Servers × Outcome MetricsInstance
unfolding with_writers config_writers
from_config d itoa new_custom c servers =
    with_writers d itoa c servers (config_writers new_custom c)

abbrev pub server_of : Servers → MetricsServer → Option HttpServer
server_of servers no_server = none
server_of servers (own s) = some s
server_of servers (shared port) = lookup port servers

-- What a writer's `Run` answers; that of the base printer only logs.
abbrev pub printer_run : (String → Option String) → Printer → Option String
printer_run run base_printer = none
printer_run run (custom_printer path) = run path

abbrev pub printer_runs : (String → Option String) → List Printer → List (Option String)
printer_runs run [] = []
printer_runs run (p ∷ ps) = printer_run run p ∷ printer_runs run ps

-- The instance before its `Run`, with the registry and the servers as they are by then.
abbrev pub rotation_of : Servers → (String → Option String) → Metrics → MetricsInstance → Rotation
rotation_of servers run registry m = record {
  metrics = registry;
  server = server_of servers m.server;
  writers = printer_runs run m.writers;
  interval = m.rotate_interval;
  phase = returned none;
  is_open = true;
  written = [];
}
