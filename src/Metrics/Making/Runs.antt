-- ===== src/Metrics/Making/Runs.antt =====
-- What a configuration of the metrics comes to when they run.
use anycable_go.Base.{
  ℕ, String, true, false, ◌≡◌, refl, ◌∙◌, ap, subst, ◌⊎◌, inl, inr, Option, none, some, List, [],
  ◌∷◌, if_holds, Bool-cases, arith,
}
use anycable_go.Base.Outcome.{Outcome, ok, err, panic, Gives, Gives-bind}
use anycable_go.Metrics.{Metrics}
use anycable_go.Metrics.Running.{metrics_run, RotationEvent, rotation_events}
use anycable_go.Metrics.Running.Rotating.{
  NoEnd, own_server_blocks, rounds, snapshots, rounds_written, run_mounted,
}
use anycable_go.Server.{ServerDefaults, HttpServer, Servers, for_port}
use anycable_go.Server.Making.{IsFresh, new_server-IsFresh}
use anycable_go.Metrics.Making.{
  MetricsConfig, log_enabled, log_formatter_enabled, http_enabled, Printer, base_printer,
  custom_printer, MetricsServer, own, shared, MetricsInstance, new_instance, custom_writers,
  config_writers, has_own_host, mount_shared, mount_own, mount, with_writers, from_config,
  server_of, printer_run, printer_runs, rotation_of,
}

-- One writer, which runs.
abbrev OneRuns : (String → Option String) → List Printer → Type 0
OneRuns run ws = (w : Printer) × (ws ≡ w ∷ []) × (printer_run run w ≡ none)

abbrev IsMounted : ServerDefaults → (ℕ → String) → MetricsConfig → MetricsServer → Type 0
IsMounted d itoa c server =
    ((s : HttpServer) × (server ≡ own s) × IsFresh s)
    ⊎ ((server ≡ shared (itoa c.port)) × (has_own_host d c ≡ false))

abbrev IsReady :
    ServerDefaults
    → (ℕ → String)
    → (String → Option String)
    → MetricsConfig
    → MetricsInstance
    → Type 0
IsReady d itoa run c m = OneRuns run m.writers × IsMounted d itoa c m.server

module _ (d : ServerDefaults) (itoa : ℕ → String) (new_custom run : String → Option String)
    (c : MetricsConfig) (servers : Servers) where
  custom-OneRuns :
      (e : Option String)
      → run c.log_formatter ≡ none
      → Gives (OneRuns run) (custom_writers c.log_formatter e)
  unfolding custom_writers
  custom-OneRuns none runs = (custom_printer c.log_formatter, refl, runs)
  custom-OneRuns (some e) runs = tt

  config-OneRuns :
      log_enabled c ≡ true
      → run c.log_formatter ≡ none
      → Gives (OneRuns run) (config_writers new_custom c)
  unfolding config_writers
  config-OneRuns logs runs =
      if_holds (Gives (OneRuns run)) _ _ _
        (λ _.
          if_holds (Gives (OneRuns run)) (log_formatter_enabled c) _ (ok (base_printer ∷ []))
            (λ _. custom-OneRuns (new_custom c.log_formatter) runs)
            (λ _. (base_printer, refl, refl)))
        (λ (off : log_enabled c ≡ false). absurd (cc))

  shared-IsReady :
      (m : MetricsInstance) (r : Servers × Option String)
      → OneRuns run m.writers
      → has_own_host d c ≡ false
      → Gives (IsReady d itoa run c) (mount_shared c (itoa c.port) m r).1
  unfolding mount_shared
  shared-IsReady m (servers', none) one there = (one, inr (refl, there))
  shared-IsReady m (servers', some e) one there = tt

  mount-IsReady :
      (m : MetricsInstance)
      → http_enabled c ≡ true
      → OneRuns run m.writers
      → Gives (IsReady d itoa run c) (mount d itoa c servers m).1
  unfolding mount mount_own
  mount-IsReady m serves one =
      let here = record d { host = c.host; max_conn = 0 } in
      if_holds (λ (z : Servers × Outcome MetricsInstance). Gives (IsReady d itoa run c) z.1) _ _ _
        (λ _.
          if_holds (λ (z : Servers × Outcome MetricsInstance). Gives (IsReady d itoa run c) z.1) _ _
            _
            (λ _.
              Gives-bind (IsReady d itoa run c) (mount_own c m) _
                (λ s made. (one, inl (s, refl, new_server-IsFresh here (itoa c.port) s made))))
            (λ there. shared-IsReady m (for_port d servers (itoa c.port)) one there))
        (λ (off : http_enabled c ≡ false). absurd (cc))

  with_writers-IsReady :
      (ws : Outcome (List Printer))
      → http_enabled c ≡ true
      → Gives (OneRuns run) ws
      → Gives (IsReady d itoa run c) (with_writers d itoa c servers ws).1
  unfolding with_writers
  with_writers-IsReady (ok ws) serves one =
      mount-IsReady (new_instance ws c.rotate_interval) serves one
  with_writers-IsReady (err e) serves one = tt
  with_writers-IsReady panic serves one = tt

  from_config-IsReady :
      log_enabled c ≡ true
      → http_enabled c ≡ true
      → run c.log_formatter ≡ none
      → Gives (IsReady d itoa run c) (from_config d itoa new_custom c servers).1
  unfolding from_config
  from_config-IsReady logs serves runs =
      with_writers-IsReady (config_writers new_custom c) serves (config-OneRuns logs runs)

-- A configuration that logs, with a path for the metrics, a host of its own or not, and a formatter that
-- runs if it names one, makes metrics on a server. If that server has been started when the metrics run,
-- which only one that is shared by its port and the main host can be, the writer is given a snapshot in
-- each round of the loop. If not, and the listener opens, the writer is given nothing until that server ends.
pub from_config_runs :
    (d : ServerDefaults) (itoa : ℕ → String) (new_custom run : String → Option String)
    (c : MetricsConfig) (before after later : Servers) (m : MetricsInstance) (s : HttpServer)
    (registry : Metrics) (es : List RotationEvent) (n : ℕ)
    → log_enabled c ≡ true
    → http_enabled c ≡ true
    → run c.log_formatter ≡ none
    → from_config d itoa new_custom c before ≡ (after, ok m)
    → server_of later m.server ≡ some s
    → NoEnd es
    → let r = metrics_run (rotation_of later run registry m) none in
      ((s.started ≡ true)
        × (m.server ≡ shared (itoa c.port))
        × (has_own_host d c ≡ false)
        × ((rotation_events (rounds n) r).written ≡ snapshots n registry))
      ⊎ ((s.started ≡ false) × ((rotation_events es r).written ≡ []))
from_config_runs d itoa new_custom run c before after later m s registry es n logs serves runs made
      there calm =
    let ready : IsReady d itoa run c m =
      subst (λ (z : Servers × Outcome MetricsInstance). Gives (IsReady d itoa run c) z.1) made
        (from_config-IsReady d itoa new_custom run c before logs serves runs) in
    let start = rotation_of later run registry m in
    elim (Bool-cases s.started) [
      | inr fresh ↦ inr (fresh, (own_server_blocks start s es there fresh calm).1)
      | inl up ↦
          let (w, one, w_runs) = ready.0 in
          let one_writer : start.writers ≡ none ∷ [] =
            ap (printer_runs run) one ∙ ap (λ x. x ∷ []) w_runs in
          let mounted : (m.server ≡ shared (itoa c.port)) × (has_own_host d c ≡ false) =
            elim ready.1 [
              | inl (o, is_own, fresh) ↦
                  let used = fresh.0 in
                  absurd (
                    let same : server_of later m.server ≡ some o = ap (server_of later) is_own in
                    ground arith)
              | inr is_shared ↦ is_shared
            ] in
          inl (
            up,
            mounted.0,
            mounted.1,
            ap (λ z. (rotation_events (rounds n) z).written)
                  (run_mounted start s there up one_writer)
                ∙ rounds_written n _ true refl,
          )
    ]
