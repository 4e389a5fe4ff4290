-- ===== src/Runner.antt =====
-- cli/cli.go: how the program's parts are made, started and shut down. What the factories, the logger and
-- the servers answer is the setup; the signals are what tebata's documentation says: the reserved
-- functions are called one after the other.
pub mod Booting
pub mod Ending
mod Tests
use Prim.Native.String.{◌++◌ as concat}
use anycable_go.Base.{
  ℕ, zero, suc, String, Bool, true, false, ◌||◌, Option, none, some, List, [], ◌∷◌, ◌++◌, map,
  if◌then◌else◌,
}
use anycable_go.Base.Outcome.{Outcome, ok, err, panic}
use anycable_go.GoPool.{GoPool, new_go_pool}
use anycable_go.Disconnector.{DisconnectQueueConfig, DisconnectQueue, new_disconnect_queue}

-- What is shut down at the end.
pub data Part : Type 0 where
  metrics_part : Part
  subscriber_part : Part
  websocket_part : Part
  node_part : Part

-- The goroutines that are started.
pub data Routine : Type 0 where
  hub_run : Routine
  collect_stats : Routine
  disconnector_run : Routine
  subscriber_start : Routine
  controller_start : Routine
  websocket_start : Routine
  metrics_run : Routine

pub data ChosenDisconnector : Type 0 where
  noop_disconnector : ChosenDisconnector
  disconnect_queue : ChosenDisconnector
  own_disconnector : ChosenDisconnector

-- Errors are texts. A factory that was not given is none; one that was answers an error or none. Whether the
-- mux panics at a path, since it is empty or mounted already, is an answer of net/http.
pub record Setup : Type 0 where
  pub shows_version : Bool
  pub shows_help : Bool
  pub host : String
  pub port_text : String
  pub logger : Option String
  pub metrics : Option String
  pub controller_factory : Option (Option String)
  pub disconnector_factory : Option (Option String)
  pub disconnector_disabled : Bool
  pub disconnect_queue_config : DisconnectQueueConfig
  pub hub_gopool_size : ℕ
  pub subscriber_factory : Option (Option String)
  pub websocket_server : Option String
  pub websocket_handler : Option (Option String)
  pub mount_panics : Bool

pub record Runner : Type 0 where
  pub shutdownables : List Part
  pub routines : List Routine
  pub disconnector : Option ChosenDisconnector

-- `Run` returns before it waits, panics, waits for ever before it listens to errors and signals, or comes to
-- wait for an error or none.
pub data Booted : Type 0 where
  stops : Runner → Option String → Booted
  crashes : Runner → Booted
  hangs : Runner → Booted
  boots : Runner → Booted

abbrev pub new_runner : Runner
new_runner = record { shutdownables = []; routines = []; disconnector = none }

abbrev pub and_boot : Booted → (Runner → Booted) → Booted
and_boot (stops r e) f = stops r e
and_boot (crashes r) f = crashes r
and_boot (hangs r) f = hangs r
and_boot (boots r) f = f r

-- An error ends `Run`.
abbrev pub unless : (String → String) → Option String → Runner → Booted
unless message none r = boots r
unless message (some e) r = stops r (some (message e))

abbrev pub shutdownable : Part → Runner → Runner
shutdownable p r = record r { shutdownables = r.shutdownables ++ p ∷ [] }

abbrev pub go : Routine → Runner → Runner
go g r = record r { routines = r.routines ++ g ∷ [] }

unfoldable pub init_controller : Setup → Option String
init_controller s = elim s.controller_factory [
  | none ↦ some "Controller factory is not specified"
  | some answer ↦ answer
]

unfoldable pub init_subscriber : Setup → Option String
init_subscriber s = elim s.subscriber_factory [
  | none ↦ some "Subscriber factory is not specified"
  | some answer ↦ answer
]

unfoldable pub default_disconnector : Setup → ChosenDisconnector
default_disconnector s = if s.disconnector_disabled then noop_disconnector else disconnect_queue

unfoldable pub init_disconnector : Setup → ChosenDisconnector × Option String
unfolding default_disconnector
init_disconnector s = elim s.disconnector_factory [
  | none ↦ (default_disconnector s, none)
  | some answer ↦ (own_disconnector, answer)
]

unfoldable pub init_websocket_handler : Setup → Option String
init_websocket_handler s = elim s.websocket_handler [ none ↦ none | some answer ↦ answer ]

node_made : Runner → Option GoPool → Booted
node_made r none = hangs r
node_made r (some p) = boots r

-- `NewNode`, whose hub makes its pool.
unfoldable pub make_node : Setup → Runner → Booted
unfolding node_made
make_node s r = node_made r (new_go_pool "broadcast" s.hub_gopool_size)

queue_made : Runner → Outcome DisconnectQueue → Booted
queue_made r (ok q) = boots r
queue_made r (err e) = stops r (some e)
queue_made r panic = crashes r

-- `NewDisconnectQueue`, where it is chosen.
unfoldable pub make_disconnector : Setup → ChosenDisconnector → Runner → Booted
unfolding queue_made
make_disconnector s noop_disconnector r = boots r
make_disconnector s disconnect_queue r =
    queue_made r (new_disconnect_queue s.disconnect_queue_config)
make_disconnector s own_disconnector r = boots r

-- The two handlers on the server's mux.
unfoldable pub mount_handlers : Setup → Runner → Booted
mount_handlers s r = if s.mount_panics then crashes r else boots r

unfoldable pub start_node : Runner → Runner
start_node r = go collect_stats (go hub_run r)

unfoldable pub run_disconnector : ChosenDisconnector → Runner → Runner
run_disconnector d r = record (go disconnector_run r) { disconnector = some d }

-- The error, the host and the port, in the order of the call.
unfoldable pub server_failure : Setup → String → String
server_failure s e =
    concat "!!! Failed to initialize WebSocket server at "
      (concat e (concat ":" (concat s.host (concat " !!!\n" s.port_text))))

boot_servers : Setup → Runner → Booted
unfolding init_websocket_handler server_failure mount_handlers
boot_servers s r = and_boot (unless (server_failure s) s.websocket_server r) (λ r.
    and_boot
      (unless (concat "!!! Failed to initialize WebSocket handler !!!\n") (init_websocket_handler s)
        (shutdownable websocket_part r))
      (λ r.
        and_boot (mount_handlers s r)
          (λ r. boots (shutdownable node_part (go metrics_run (go websocket_start r))))))

boot_subscriber : Setup → Runner → Booted
unfolding init_subscriber boot_servers
boot_subscriber s r =
    and_boot (unless (concat "Couldn't configure pub/sub: ") (init_subscriber s) r) (λ r.
      boot_servers s (go controller_start (go subscriber_start (shutdownable subscriber_part r))))

boot_node : Setup → Runner → Booted
unfolding init_disconnector start_node run_disconnector boot_subscriber make_node make_disconnector
boot_node s r = and_boot (make_node s r) (λ r.
    and_boot
      (unless (concat "!!! Failed to initialize disconnector !!!\n") (init_disconnector s).1
        (start_node r))
      (λ r.
        and_boot (make_disconnector s (init_disconnector s).0 r)
          (λ r. boot_subscriber s (run_disconnector (init_disconnector s).0 r))))

boot : Setup → Booted
unfolding init_controller boot_node
boot s =
    and_boot (unless (concat "!!! Failed to initialize logger !!!\n") s.logger new_runner) (λ r.
      and_boot (unless (concat "!!! Failed to initialize metrics writer !!!\n") s.metrics r) (λ r.
        and_boot
          (unless (concat "!!! Failed to initialize controller !!!\n") (init_controller s)
            (shutdownable metrics_part r))
          (boot_node s)))

-- `Run` up to where it waits.
unfoldable pub run : Setup → Booted
unfolding boot
run s = if s.shows_version || s.shows_help then stops new_runner none else boot s

-- The functions reserved for a signal.
pub data Reserved : Type 0 where
  warns : Reserved
  shuts : Part → Reserved
  ends : Reserved

-- `pending` are the reserved functions still to be called after the first signal; the first of them warns
-- and makes a goroutine, which listens to another signal once it is `ready`; `result` is what `Run` has
-- returned.
pub record Life : Type 0 where
  pub runner : Runner
  pub signals : ℕ
  pub pending : List Reserved
  pub warned : Bool
  pub listens : Bool
  pub stopped : List Part
  pub result : Option (Option String)

abbrev pub started : Runner → Life
started r = record {
  runner = r;
  signals = 0;
  pending = [];
  warned = false;
  listens = false;
  stopped = [];
  result = none;
}

unfoldable pub setup_signal_handlers : Runner → List Reserved
setup_signal_handlers r = warns ∷ map shuts r.shutdownables ++ ends ∷ []

-- A goroutine sends its error, a signal comes, the goroutine that waits for another signal is ready, or the next
-- reserved function returns.
pub data LifeEvent : Type 0 where
  fails : String → LifeEvent
  signal : LifeEvent
  ready : LifeEvent
  called : LifeEvent

on_signal : Life → ℕ → Life
unfolding setup_signal_handlers
on_signal l zero = record l { signals = 1; pending = setup_signal_handlers l.runner }
on_signal l (suc n) =
    let l' = record l { signals = suc (suc n) } in
    if l.listens then record l' { result = some none } else l'

on_called : Life → List Reserved → Life
on_called l [] = l
on_called l (warns ∷ rest) = record l { pending = rest; warned = true }
on_called l (shuts p ∷ rest) = record l { pending = rest; stopped = l.stopped ++ p ∷ [] }
on_called l (ends ∷ rest) = record l { pending = rest; result = some none }

-- The first value that is sent to `errChan` ends the program.
live : Life → LifeEvent → Option (Option String) → Life
unfolding on_signal on_called
live l e (some x) = l
live l (fails msg) none = record l { result = some (some msg) }
live l signal none = on_signal l l.signals
live l ready none = record l { listens = l.warned }
live l called none = on_called l l.pending

unfoldable pub life_event : Life → LifeEvent → Life
unfolding live
life_event l e = live l e l.result

unfoldable pub life_events : List LifeEvent → Life → Life
unfolding life_event
life_events [] l = l
life_events (e ∷ es) l = life_events es (life_event l e)
