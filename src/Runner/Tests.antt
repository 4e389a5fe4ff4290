-- ===== src/Runner/Tests.antt =====
-- Runner: the properties at one setup and one life.
use anycable_go.Base.{◌≤◌, ◌≡◌, refl, ◌⊎◌, ◌||◌, none, some, List, [], ◌∷◌, ◌++◌, true, false}
use anycable_go.Runner.{
  Part, metrics_part, subscriber_part, Setup, stops, boots, new_runner, run, started, LifeEvent,
  fails, signal, ready, called, life_events,
}
use anycable_go.Disconnector.{new_disconnect_queue_config, new_disconnect_queue}
use anycable_go.GoPool.{new_go_pool}
use anycable_go.Runner.Booting.{Verdict, AllFine, whole, run_cases}
use anycable_go.Runner.Ending.{life_ends}

abbrev setup : Setup
setup = record {
  shows_version = false;
  shows_help = false;
  host = "localhost";
  port_text = "8080";
  logger = none;
  metrics = none;
  controller_factory = some none;
  disconnector_factory = none;
  disconnector_disabled = false;
  disconnect_queue_config = new_disconnect_queue_config;
  hub_gopool_size = 16;
  subscriber_factory = some none;
  websocket_server = none;
  websocket_handler = none;
  mount_panics = false;
}

booted : run setup ≡ boots (whole setup)
unfolding run new_go_pool new_disconnect_queue
booted = refl

run_cases_example :
    (((setup.shows_version || setup.shows_help) ≡ true) × (run setup ≡ stops new_runner none))
    ⊎ (((setup.shows_version || setup.shows_help) ≡ false)
        × Verdict setup (AllFine setup) (run setup) (whole setup))
run_cases_example = run_cases setup

-- A second signal cuts the shutdown short.
abbrev life : List LifeEvent
life = signal ∷ called ∷ ready ∷ called ∷ called ∷ signal ∷ called ∷ fails "late" ∷ []

cut_short :
    let l = life_events life (started (whole setup)) in
    (l.stopped ≡ metrics_part ∷ subscriber_part ∷ []) × (l.result ≡ some none)
unfolding life_events
cut_short = (refl, refl)

life_ends_example :
    let l = life_events life (started (whole setup)) in
    ((rest : List Part) × (l.stopped ++ rest ≡ (whole setup).shutdownables))
    × (l.result ≡ some none → (l.stopped ≡ (whole setup).shutdownables) ⊎ (2 ≤ l.signals))
life_ends_example = life_ends (whole setup) life
