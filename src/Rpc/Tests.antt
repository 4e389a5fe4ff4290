-- ===== src/Rpc/Tests.antt =====
-- Rpc: the properties at concrete servers and controllers.
use anycable_go.Base.{
  [], ℕ, ◌+◌, ◌≤◌, ◌<◌, ◌≡◌, refl, String, false, Option, none, some, arith, if◌then◌else◌, ◌%◌,
  ◌==◌,
}
use anycable_go.Common.{SessionEnv, CommandResult}
use anycable_go.Protocol.{Answer, pb_success, pb_error}
use anycable_go.Rpc.{
  resource_exhausted, unavailable, status_error, RetryState, CallAnswer, replied, failed,
  RetryResult, done, gave_up, retry,
}
use anycable_go.Rpc.Retry.{retry_total, retry-EndsWith, EndsWith, Repeated}
use anycable_go.Rpc.Backoff.{retry_sleep_bounds}
use anycable_go.Rpc.Controller.{Controller, RpcServer, returns, call_command, busy, enqueue_call}
use anycable_go.Metrics.{u64_mod}
use anycable_go.Rpc.Tickets.{Load, Step, arrive, Reach, here, next, opened, tickets_bounded}
use anycable_go.Rpc.Calls.{Settled, call_command_settles}

abbrev up : ℕ → Option String
up n = none

-- A server that is exhausted twice, then unavailable once, then answers.
abbrev flaky : ℕ → CallAnswer String
flaky n =
    if n == 0
    then failed (status_error resource_exhausted "busy")
    else (if n == 1
        then failed (status_error resource_exhausted "busy")
        else (if n == 2 then failed (status_error unavailable "gone") else replied "hello"))

abbrev down : ℕ → CallAnswer String
down n = failed (status_error unavailable "gone")

-- The delays are 10, 20 and 100.
abbrev flaky_end : RetryResult String × RetryState
flaky_end =
    (done "hello", record { retry_age = 130; attempt = 1; was_exhausted = false; retries = 3 })

flaky_run : retry up flaky ≡ some flaky_end
unfolding retry
flaky_run = refl

-- Delays of 100, 200, ... and 1600, the last that starts by 3000 ms.
abbrev down_end : RetryResult String × RetryState
down_end = (
  gave_up (status_error unavailable "gone"),
  record { retry_age = 3100; attempt = 5; was_exhausted = false; retries = 5 },
)

down_run : retry up down ≡ some down_end
unfolding retry
down_run = refl

retry_total_example : (r : RetryResult String × RetryState) × (retry up down ≡ some r)
retry_total_example = retry_total up down

retry-EndsWith_example :
    EndsWith up flaky (done "hello") flaky_end.1 3 × ((i : ℕ) → i < 3 → Repeated up flaky i)
retry-EndsWith_example = retry-EndsWith up flaky flaky_end flaky_run

retry_sleep_bounds_example : (3100 ≤ 6100) × (50 ≤ 3100)
retry_sleep_bounds_example = retry_sleep_bounds up down down_end down_run

abbrev server : RpcServer
server = record {
  ready_error = up;
  connect = λ n req. replied (record {
    status = pb_success;
    identifiers = "alice";
    transmissions = [];
    error_msg = "";
    env = none;
  });
  command = λ n msg. failed (status_error unavailable "gone");
  disconnect = λ n req. replied (record { status = pb_error; error_msg = "late" });
  marshal = λ m. "{}";
}

abbrev controller : Controller
controller = record { concurrency = 2; sem = 1; pending = 0; calls = 7; retries = 0; failures = 0 }

abbrev env : SessionEnv
env = record {
  url = "/cable";
  headers = some [];
  connection_state = some [];
  channel_states = some [];
}

call_command_settles_example :
    (c' : Controller) × (a : Answer CommandResult) × (call_command server env "message" "room"
        "alice" "{}" controller
      ≡ returns c' a)
    × Settled CommandResult controller c' a
call_command_settles_example =
    call_command_settles server env [] "message" "room" "alice" "{}" controller refl (omega arith)
      (omega arith)

-- One call is active at first, and none any more in the second round.
abbrev ending : ℕ → ℕ
ending n = if n == 0 then 1 else 0

abbrev one_waits : Load
one_waits =
    let o = opened controller in
    record o { controller = enqueue_call o.controller; waiting = o.waiting + 1 }

one_arrived : Reach (opened controller) one_waits
one_arrived = next here (arrive refl)

tickets_bounded_example :
    (one_waits.active ≤ 2)
    × (busy one_waits.controller ≡ one_waits.active)
    × (one_waits.controller.pending ≡ one_waits.waiting % u64_mod)
    × (0 < one_waits.waiting
        → one_waits.active < 2
        → (l' : Load) × Step one_waits l' × (l'.active ≡ one_waits.active + 1))
tickets_bounded_example = tickets_bounded controller one_waits one_arrived
