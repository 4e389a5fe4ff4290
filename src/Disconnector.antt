-- ===== src/Disconnector.antt =====
-- node/disconnect_queue.go and node/disconnector.go: the queue of sessions whose end is still to be
-- told to the RPC server. A locked section or a receive is one step; the channel's bound of 4096,
-- at which an enqueue waits, is left out.
pub mod Queue
pub mod Beside
mod Tests
use anycable_go.Base.{
  ℕ, zero, suc, ◌+◌, ◌-◌, ◌/◌, ◌*◌, String, Bool, true, false, Option, none, some, List, [], ◌∷◌,
  ◌++◌, length, ◌==◌, if◌then◌else◌,
}
use anycable_go.Base.Outcome.{Outcome, ok, err, panic}
use anycable_go.Hub.State.{HubSession}

pub record DisconnectQueueConfig : Type 0 where
  pub rate : ℕ
  pub shutdown_timeout : ℕ

abbrev pub new_disconnect_queue_config : DisconnectQueueConfig
new_disconnect_queue_config = record { rate = 100; shutdown_timeout = 5 }

-- Durations are in milliseconds; `signalled` tells whether the channel `shutdown` holds its value.
pub record DisconnectQueue : Type 0 where
  pub rate : ℕ
  pub timeout : ℕ
  pub disconnect : List HubSession
  pub signalled : Bool
  pub is_stopped : Bool

-- A division by a rate of 0 panics; a negative rate is left out.
unfoldable pub new_disconnect_queue : DisconnectQueueConfig → Outcome DisconnectQueue
new_disconnect_queue config =
    if config.rate == 0
    then panic
    else ok (record {
      rate = 1000 / config.rate;
      timeout = config.shutdown_timeout * 1000;
      disconnect = [];
      signalled = false;
      is_stopped = false;
    })

-- `time.NewTicker` at the start of `Run` panics at a duration of 0.
unfoldable pub start_run : DisconnectQueue → Outcome DisconnectQueue
start_run d = if d.rate == 0 then panic else ok d

unfoldable pub enqueue : DisconnectQueue → HubSession → DisconnectQueue
enqueue d s = if d.is_stopped then d else record d { disconnect = d.disconnect ++ s ∷ [] }

unfoldable pub size : DisconnectQueue → ℕ
size d = length d.disconnect

-- A receive from the channel; `none` where there is nothing to receive yet.
abbrev pub receive : List HubSession → Option (HubSession × List HubSession)
receive [] = none
receive (s ∷ rest) = some (s, rest)

-- A round of `Run` that receives a session, which `DisconnectNow` is called for after the tick.
unfoldable pub run_once : DisconnectQueue → Option HubSession × DisconnectQueue
run_once d = elim (receive d.disconnect) [
  | none ↦ (none, d)
  | some (s, rest) ↦ (some s, record d { disconnect = rest })
]

-- The locked part of `Shutdown`; the second result tells whether the rest is still to be done.
unfoldable pub stop : DisconnectQueue → DisconnectQueue × Bool
stop d =
    if d.is_stopped then (d, false) else (record d { is_stopped = true; signalled = true }, true)

-- How the loop of `Shutdown` ends: the sessions that it called `DisconnectNow` for, the rest of the
-- queue, and the error.
pub record Drained : Type 0 where
  pub called : List HubSession
  pub rest : List HubSession
  pub error : Option String

abbrev pub drain_called : HubSession → Drained → Drained
drain_called s d = record d { called = s ∷ d.called }

abbrev pub no_time : String
no_time = "Had no time to invoke Disconnect calls"

-- The loop of `Shutdown` once nobody else sends or receives; `disconnect_now` answers with the
-- call's error, and a wait for an empty channel ends by the timeout, whose timer each round makes
-- anew: it is more than 0, and not due while a session is there. The timeout's error leaves out the
-- number of the calls.
unfoldable pub drain : (HubSession → Option String) → ℕ → List HubSession → Drained
drain disconnect_now left [] = record { called = []; rest = []; error = some no_time }
drain disconnect_now left (s ∷ queue) =
    let more = drain disconnect_now (left - 1) queue in
    elim (disconnect_now s) [
      | some e ↦ record { called = s ∷ []; rest = queue; error = some e }
      | none ↦
          if left - 1 == 0
          then record { called = s ∷ []; rest = queue; error = none }
          else drain_called s more
    ]

-- `Shutdown` after its locked part: `left` was read before the loop, and meanwhile `Run` may have
-- received some of the sessions.
unfoldable pub drain_left : (HubSession → Option String) → ℕ → List HubSession → Drained
unfolding drain
drain_left disconnect_now left queue =
    if left == 0
    then record { called = []; rest = queue; error = none }
    else drain disconnect_now left queue

unfoldable pub queue_shutdown :
    (HubSession → Option String) → DisconnectQueue → DisconnectQueue × Drained
unfolding stop drain_left
queue_shutdown disconnect_now d =
    let (d', first) = stop d in
    let drained = drain_left disconnect_now (length d'.disconnect) d'.disconnect in
    if first
    then (record d' { disconnect = drained.rest }, drained)
    else (d', record { called = []; rest = d'.disconnect; error = none })

-- Who receives the next session while `Shutdown` drains the queue: its loop, or `Run`, which goes on until
-- its `select` takes the signal.
pub data Taker : Type 0 where
  shutdown_takes : Taker
  run_takes : Taker

-- The sessions that `DisconnectNow` is called for, each with its caller, what is left in the queue when
-- `Shutdown` returns, and its error.
pub record Shared : Type 0 where
  pub handled : List (Taker × HubSession)
  pub rest : List HubSession
  pub error : Option String

abbrev pub next_taker : List Taker → Taker
next_taker [] = shutdown_takes
next_taker (t ∷ ts) = t

abbrev pub later_takers : List Taker → List Taker
later_takers [] = []
later_takers (t ∷ ts) = ts

abbrev pub handled_by : Taker → HubSession → Shared → Shared
handled_by t s d = record d { handled = (t, s) ∷ d.handled }

-- A session that the loop of `Shutdown` receives; `more` is the rest of the loop.
abbrev pub drain_one : HubSession → List HubSession → ℕ → Shared → Option String → Shared
drain_one s queue left more (some e) = record {
  handled = (shutdown_takes, s) ∷ [];
  rest = queue;
  error = some e;
}
drain_one s queue left more none =
    if left == 0
    then record { handled = (shutdown_takes, s) ∷ []; rest = queue; error = none }
    else handled_by shutdown_takes s more

-- The loop of `Shutdown` beside `Run`; after the given takers nobody else receives. The timer is
-- that of `drain`.
unfoldable pub drain_beside :
    (HubSession → Option String) → List Taker → ℕ → List HubSession → Shared
drain_beside disconnect_now takers left [] = record {
  handled = [];
  rest = [];
  error = some no_time;
}
drain_beside disconnect_now takers left (s ∷ queue) =
    let beside = drain_beside disconnect_now (later_takers takers) left queue in
    let more = drain_beside disconnect_now (later_takers takers) (left - 1) queue in
    elim (next_taker takers) [
      | run_takes ↦ handled_by run_takes s beside
      | shutdown_takes ↦ drain_one s queue (left - 1) more (disconnect_now s)
    ]

drain_counted : (HubSession → Option String) → List Taker → List HubSession → Shared
unfolding drain_beside
drain_counted disconnect_now takers [] = record { handled = []; rest = []; error = none }
drain_counted disconnect_now takers (s ∷ queue) =
    drain_beside disconnect_now takers (length (s ∷ queue)) (s ∷ queue)

unfoldable pub queue_shutdown_beside :
    (HubSession → Option String) → List Taker → DisconnectQueue → DisconnectQueue × Shared
unfolding stop drain_counted
queue_shutdown_beside disconnect_now takers d =
    let (d', first) = stop d in
    let shared = drain_counted disconnect_now takers d'.disconnect in
    if first
    then (record d' { disconnect = shared.rest }, shared)
    else (d', record { handled = []; rest = d'.disconnect; error = none })

-- What happens to the queue: calls from sessions, rounds of `Run`, and the stop.
pub data QueueEvent : Type 0 where
  enqueues : HubSession → QueueEvent
  receives : QueueEvent
  stops : QueueEvent

abbrev pub taken_list : Option HubSession → List HubSession
taken_list none = []
taken_list (some s) = s ∷ []

-- One event, with the session that it takes from the queue.
unfoldable pub queue_event : DisconnectQueue → QueueEvent → DisconnectQueue × List HubSession
unfolding enqueue run_once stop
queue_event d (enqueues s) = (enqueue d s, [])
queue_event d receives = let (s, d') = run_once d in (d', taken_list s)
queue_event d stops = let (d', first) = stop d in (d', [])

unfoldable pub queue_events : DisconnectQueue → List QueueEvent → DisconnectQueue × List HubSession
unfolding queue_event
queue_events d [] = (d, [])
queue_events d (e ∷ es) =
    let (d', out) = queue_event d e in let (d'', more) = queue_events d' es in (d'', out ++ more)

-- The queue of a node that does not tell the RPC server.
unfoldable pub noop_enqueue : HubSession → Option String
noop_enqueue s = none

unfoldable pub noop_size : ℕ
noop_size = 0
