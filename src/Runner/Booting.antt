-- ===== src/Runner/Booting.antt =====
-- When `Run` of cli/cli.go comes to wait, and what it has started by then.
use Prim.Native.String.{◌++◌ as concat}
use anycable_go.Base.{
  ◌<◌, String, true, false, ◌||◌, Option, none, some, [], ◌∷◌, ◌≡◌, ◌≢◌, refl, ◌∙◌, sym, ap, subst,
  ◌⊎◌, inl, inr, ◌==◌, Bool-cases, if_holds, arith,
}
use anycable_go.GoPool.Fresh.{new_go_pool_cases}
use anycable_go.Disconnector.{new_disconnect_queue}
use anycable_go.Runner.{
  metrics_part, subscriber_part, websocket_part, node_part, hub_run, collect_stats,
  disconnector_run, subscriber_start, controller_start, websocket_start, metrics_run, Setup, Runner,
  ChosenDisconnector, noop_disconnector, disconnect_queue, own_disconnector, make_node, node_made,
  make_disconnector, queue_made, mount_handlers, Booted, stops, crashes, hangs, boots, new_runner,
  and_boot, unless, init_controller, init_subscriber, init_disconnector, init_websocket_handler,
  boot_servers, boot_subscriber, boot_node, boot, run, shutdownable, go, server_failure, start_node,
  run_disconnector,
}

-- How `Run` can fail to come to wait: with an error, by a panic, which comes of a rate of 0 for the queue
-- of disconnects or of the mux, or at the pool of the hub, which has no room.
abbrev pub Failed : Setup → Booted → Type 0
Failed s (boots r) = ⊥
Failed s (stops r none) = ⊥
Failed s (stops r (some e)) = Unit
Failed s (crashes r) =
    (((init_disconnector s).0 ≡ disconnect_queue) × (s.disconnect_queue_config.rate ≡ 0))
    ⊎ (s.mount_panics ≡ true)
Failed s (hangs r) = s.hub_gopool_size ≡ 0

-- Under the condition the runner is made, and otherwise `Run` fails.
abbrev pub Verdict : Setup → Type 0 → Booted → Runner → Type 0
Verdict s c b r = (c × (b ≡ boots r)) ⊎ (Failed s b × (c → ⊥))

and_boot-Failed :
    (s : Setup) (b : Booted) (f : Runner → Booted) → Failed s b → Failed s (and_boot b f)
and_boot-Failed s (boots r) f h = absurd h
and_boot-Failed s (stops r none) f h = h
and_boot-Failed s (stops r (some e)) f h = h
and_boot-Failed s (crashes r) f h = h
and_boot-Failed s (hangs r) f h = h

and_boot-Verdict :
    (s : Setup) {c d : Type 0} {b : Booted} {r w : Runner} (f : Runner → Booted)
    → Verdict s c b r
    → Verdict s d (f r) w
    → Verdict s (c × d) (and_boot b f) w
and_boot-Verdict s {c} {d} {b} {r} {w} f (inr (failed, refutes)) v =
    inr (and_boot-Failed s b f failed, λ h. refutes h.0)
and_boot-Verdict s {c} {d} {b} {r} {w} f (inl (h, e)) v =
    let step = ap (λ z. and_boot z f) e in
    elim v [
      | inl (g, e') ↦ inl ((h, g), step ∙ e')
      | inr (failed, refutes) ↦ inr (subst (Failed s) (sym step) failed, λ g. refutes g.1)
    ]

unless-Verdict :
    (s : Setup) (message : String → String) (o : Option String) (r : Runner)
    → Verdict s (o ≡ none) (unless message o r) r
unless-Verdict s message none r = inl (refl, refl)
unless-Verdict s message (some e) r = inr (tt, λ h. cc)

make_node-Verdict : (s : Setup) (r : Runner) → Verdict s (0 < s.hub_gopool_size) (make_node s r) r
unfolding make_node node_made
make_node-Verdict s r = elim (new_go_pool_cases "broadcast" s.hub_gopool_size) [
  | inl (zero_size, e) ↦ inr (rw e zero_size, λ h. omega arith)
  | inr (some_size, (p, e, _, _, _, _, _)) ↦ inl (some_size, rw e refl)
]

-- The queue of disconnects is not made with a rate of 0.
abbrev pub QueueFine : Setup → Type 0
QueueFine s = (init_disconnector s).0 ≡ disconnect_queue → s.disconnect_queue_config.rate ≢ 0

queue-Verdict :
    (s : Setup) (d : ChosenDisconnector) (r : Runner)
    → (init_disconnector s).0 ≡ d
    → Verdict s (QueueFine s) (make_disconnector s d r) r
unfolding make_disconnector queue_made new_disconnect_queue
queue-Verdict s noop_disconnector r e = inl (λ h. absurd (cc), refl)
queue-Verdict s own_disconnector r e = inl (λ h. absurd (cc), refl)
queue-Verdict s disconnect_queue r e = elim (Bool-cases (s.disconnect_queue_config.rate == 0)) [
  | inl stands ↦
      let no_rate : s.disconnect_queue_config.rate ≡ 0 = ground arith in
      inr (rw stands (inl (e, no_rate)), λ fine. fine e no_rate)
  | inr other ↦ inl (λ h. ground arith, rw other refl)
]

mount_handlers-Verdict :
    (s : Setup) (r : Runner) → Verdict s (s.mount_panics ≡ false) (mount_handlers s r) r
unfolding mount_handlers
mount_handlers-Verdict s r =
    if_holds (λ z. Verdict s (s.mount_panics ≡ false) z r) s.mount_panics (crashes r) (boots r)
      (λ bad. inr (inr bad, λ h. absurd (cc))) (λ fine. inl (fine, refl))

-- Nothing that `Run` asks for in turn fails.
abbrev pub ServersFine : Setup → Type 0
ServersFine s =
    (s.websocket_server ≡ none)
    × ((init_websocket_handler s ≡ none) × ((s.mount_panics ≡ false) × Unit))

abbrev pub NodeFine : Setup → Type 0
NodeFine s =
    (0 < s.hub_gopool_size)
    × (((init_disconnector s).1 ≡ none)
        × (QueueFine s × ((init_subscriber s ≡ none) × ServersFine s)))

abbrev pub AllFine : Setup → Type 0
AllFine s = (s.logger ≡ none) × ((s.metrics ≡ none) × ((init_controller s ≡ none) × NodeFine s))

abbrev pub whole : Setup → Runner
whole s = record {
  shutdownables = metrics_part ∷ subscriber_part ∷ websocket_part ∷ node_part ∷ [];
  routines =
      hub_run ∷ collect_stats ∷ disconnector_run ∷ subscriber_start ∷ controller_start
      ∷ websocket_start ∷ metrics_run ∷ [];
  disconnector = some (init_disconnector s).0;
}

boot_servers-Verdict :
    (s : Setup) (r : Runner)
    → Verdict s (ServersFine s) (boot_servers s r) (
        shutdownable node_part
          (go metrics_run (go websocket_start (shutdownable websocket_part r))))
unfolding boot_servers
boot_servers-Verdict s r =
    and_boot-Verdict s _ (unless-Verdict s (server_failure s) s.websocket_server r) (
      and_boot-Verdict s _
        (unless-Verdict s (concat "!!! Failed to initialize WebSocket handler !!!\n")
          (init_websocket_handler s) (shutdownable websocket_part r))
        (and_boot-Verdict s _ (mount_handlers-Verdict s (shutdownable websocket_part r))
          (inl (tt, refl))))

boot_subscriber-Verdict :
    (s : Setup) (r : Runner)
    → Verdict s ((init_subscriber s ≡ none) × ServersFine s) (boot_subscriber s r) (
        shutdownable node_part (
          go metrics_run (
            go websocket_start (
              shutdownable websocket_part
                (go controller_start (go subscriber_start (shutdownable subscriber_part r)))))))
unfolding boot_subscriber
boot_subscriber-Verdict s r =
    and_boot-Verdict s _
      (unless-Verdict s (concat "Couldn't configure pub/sub: ") (init_subscriber s) r)
      (boot_servers-Verdict s _)

boot_node-Verdict :
    (s : Setup)
    → Verdict s (NodeFine s) (boot_node s (shutdownable metrics_part new_runner)) (whole s)
unfolding boot_node start_node run_disconnector
boot_node-Verdict s =
    let r = shutdownable metrics_part new_runner in
    and_boot-Verdict s _ (make_node-Verdict s r) (
      and_boot-Verdict s _
        (unless-Verdict s (concat "!!! Failed to initialize disconnector !!!\n")
          (init_disconnector s).1 (start_node r))
        (and_boot-Verdict s _ (queue-Verdict s (init_disconnector s).0 (start_node r) refl)
          (boot_subscriber-Verdict s (run_disconnector (init_disconnector s).0 (start_node r)))))

boot-Verdict : (s : Setup) → Verdict s (AllFine s) (boot s) (whole s)
unfolding boot
boot-Verdict s =
    and_boot-Verdict s _
      (unless-Verdict s (concat "!!! Failed to initialize logger !!!\n") s.logger new_runner)
      (and_boot-Verdict s _
        (unless-Verdict s (concat "!!! Failed to initialize metrics writer !!!\n") s.metrics
          new_runner)
        (and_boot-Verdict s _
          (unless-Verdict s (concat "!!! Failed to initialize controller !!!\n") (init_controller s)
            (shutdownable metrics_part new_runner))
          (boot_node-Verdict s)))

-- Asked for the version or for help, `Run` starts nothing and returns no error. Otherwise, when nothing
-- fails of what it asks for, it has the four parts to shut down, in their order, and has started its
-- seven goroutines, whose own failures come later. When anything fails, it does not come to wait: it returns an
-- error; or it panics, which comes of a rate of 0 for its queue of disconnects or of a path that the
-- mux refuses; or, with a pool of size 0 for the hub, it waits for ever before it has any goroutine.
pub run_cases :
    (s : Setup)
    → (((s.shows_version || s.shows_help) ≡ true) × (run s ≡ stops new_runner none))
      ⊎ (((s.shows_version || s.shows_help) ≡ false) × Verdict s (AllFine s) (run s) (whole s))
unfolding run
run_cases s = elim (Bool-cases (s.shows_version || s.shows_help)) [
  | inl asked ↦ inl (asked, rw asked refl)
  | inr not_asked ↦ inr (not_asked, rw not_asked (boot-Verdict s))
]
