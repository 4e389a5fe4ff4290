-- ===== src/Metrics/Running.antt =====
-- `Run` and `Shutdown` of metrics/metrics.go: the server of the metrics, then the rotation for
-- the writers. A writer is what its `Run` answers, and gets each snapshot.
pub mod Rotating
use anycable_go.Base.{
  ℕ, ◌+◌, String, Bool, true, false, not, ◌&&◌, ◌||◌, Option, none, some, List, [], ◌∷◌, ◌++◌, ◌==◌,
  ◌=s=◌, if◌then◌else◌,
}
use anycable_go.Base.GoMap.{GoMap}
use anycable_go.Server.{HttpServer, Started, already, no_listener, served, start_and_announce}
use anycable_go.Metrics.{Metrics, rotate, interval_snapshot}

-- Where `Run` stands: in the server's `Serve`, at the `select` of its loop, between two rounds of the
-- loop, or returned. At the `select`, the value tells whether the channel that it reads is not nil.
pub data Phase : Type 0 where
  serving : Phase
  rotating : Bool → Phase
  writing : Phase
  returned : Option String → Phase

-- `is_open` tells whether `shutdownCh` is not nil; `written` is what every writer has been given.
pub record Rotation : Type 0 where
  pub metrics : Metrics
  pub server : Option HttpServer
  pub writers : List (Option String)
  pub interval : ℕ
  pub phase : Phase
  pub is_open : Bool
  pub written : List (GoMap ℕ)

unfoldable pub run_writers : Bool → List (Option String) → Phase
run_writers is_open [] = rotating is_open
run_writers is_open (none ∷ rest) = run_writers is_open rest
run_writers is_open (some e ∷ rest) = returned (some e)

abbrev pub default_rotate_interval : ℕ
default_rotate_interval = 15

-- `Run` behind the server.
after_server : Rotation → List (Option String) → Rotation
unfolding run_writers
after_server r [] = record r { phase = returned none }
after_server r (w ∷ ws) = record r {
  interval = if r.interval == 0 then default_rotate_interval else r.interval;
  phase = run_writers r.is_open (w ∷ ws);
}

-- The server's error ends `Run`, unless it was shut down.
server_ended : Rotation → HttpServer → Option String → Rotation
unfolding after_server
server_ended r s none = after_server r r.writers
server_ended r s (some e) =
    if s.shutdown then after_server r r.writers else record r { phase = returned (some e) }

announced : Rotation → HttpServer × Started → Rotation
unfolding server_ended
announced r (s, already) = after_server r r.writers
announced r (s, no_listener e) = server_ended (record r { server = some s }) s (some e)
announced r (s, served e) = record r { server = some s; phase = serving }

run_server : Rotation → Option String → Option HttpServer → Rotation
unfolding announced
run_server r listen none = after_server r r.writers
run_server r listen (some s) = announced r (start_and_announce s listen none)

-- The start of `Run`; `listen` is the listener's error.
unfoldable pub metrics_run : Rotation → Option String → Rotation
unfolding run_server
metrics_run r listen = run_server r listen r.server

-- What happens then: the server ends, the interval is over, the writers are done, or `Shutdown` is
-- called.
pub data RotationEvent : Type 0 where
  server_ends : Option String → RotationEvent
  ticks : RotationEvent
  writes : RotationEvent
  closes : RotationEvent

ends_in : Phase → Rotation → Option String → Option HttpServer → Rotation
unfolding server_ended
ends_in serving r e (some s) = server_ended r s e
ends_in serving r e none = r
ends_in (rotating b) r e s = r
ends_in writing r e s = r
ends_in (returned x) r e s = r

ticks_in : Phase → Rotation → Rotation
ticks_in (rotating b) r =
    let m = rotate r.metrics in
    record r { metrics = m; phase = writing; written = r.written ++ interval_snapshot m ∷ [] }
ticks_in serving r = r
ticks_in writing r = r
ticks_in (returned x) r = r

-- The next round reads `shutdownCh` again.
writes_in : Phase → Rotation → Rotation
writes_in writing r = record r { phase = rotating r.is_open }
writes_in serving r = r
writes_in (rotating b) r = r
writes_in (returned x) r = r

-- The loop is waked up by the channel that it reads.
closes_in : Phase → Phase
closes_in (rotating true) = returned none
closes_in (rotating false) = rotating false
closes_in writing = writing
closes_in serving = serving
closes_in (returned x) = returned x

abbrev pub shut_server : Option HttpServer → Option HttpServer
shut_server none = none
shut_server (some s) = some (record s { shutdown = true })

unfoldable pub rotation_event : Rotation → RotationEvent → Rotation
unfolding ends_in ticks_in writes_in closes_in
rotation_event r (server_ends e) = ends_in r.phase r e r.server
rotation_event r ticks = ticks_in r.phase r
rotation_event r writes = writes_in r.phase r
rotation_event r closes =
    if r.is_open
    then record r { is_open = false; server = shut_server r.server; phase = closes_in r.phase }
    else r

unfoldable pub rotation_events : List RotationEvent → Rotation → Rotation
unfolding rotation_event
rotation_events [] r = r
rotation_events (e ∷ es) r = rotation_events es (rotation_event r e)
