-- ===== src/Rpc.antt =====
-- rpc/rpc.go and rpc/config.go: the controller that calls the RPC server, with its semaphore, its
-- metrics and the loop that repeats a call which the server could not take. The connection, the
-- server and the clock are outside: a call's answers are a function of the round, and a sleep
-- adds to the time slept.
pub mod Retry
pub mod Backoff
pub mod Controller
pub mod Outages
pub mod Tickets
pub mod Serving
pub mod Calls
mod Tests
use anycable_go.Base.{
  ℕ, zero, suc, ◌+◌, ◌-◌, ◌*◌, ◌^◌, ◌%◌, String, Bool, true, false, not, ◌&&◌, ◌||◌, Option, none,
  some, List, [], ◌∷◌,
}
use anycable_go.Base.{◌==◌, ltb, if◌then◌else◌}
use anycable_go.Base.GoMap.{GoMap}
use anycable_go.Common.{SessionEnv, ConnectResult, CommandResult}
use anycable_go.Protocol.{
  Answer, ConnectionRequest, ConnectionResponse, CommandMessage, CommandResponse, DisconnectRequest,
  DisconnectResponse, new_connect_message, new_command_message, new_disconnect_request,
  parse_connect_response, parse_command_response, parse_disconnect_response,
}

-- The codes of gRPC that the retry loop tells apart.
pub data Code : Type 0 where
  resource_exhausted unavailable other_code : Code

-- An error of a call: one that `status.FromError` understands, or another.
pub data RpcError : Type 0 where
  status_error : Code → String → RpcError
  plain_error : String → RpcError

-- The state of a gRPC connection, as `conn.GetState` tells it.
pub data Connectivity : Type 0 where
  idle connecting ready transient_failure shutdown : Connectivity

pub record ClientHelper : Type 0 where
  pub state : Connectivity
  pub recovering : Bool
  -- How often the backoff was reset, to reconnect at once.
  pub resets : ℕ

unfoldable pub try_recover : ClientHelper → ClientHelper × Option String
try_recover st =
    if st.recovering
    then (st, some "grpc connection is not ready")
    else (record st { recovering = true; resets = st.resets + 1 }, none)

unfoldable pub reset : ClientHelper → ClientHelper
reset st = if st.recovering then record st { recovering = false } else st

helper_ready_at : Connectivity → ClientHelper → ClientHelper × Option String
unfolding try_recover reset
helper_ready_at shutdown st = (st, some "grpc connection is closed")
helper_ready_at transient_failure st = try_recover st
helper_ready_at _ st = (if st.recovering then reset st else st, none)

unfoldable pub helper_ready : ClientHelper → ClientHelper × Option String
unfolding helper_ready_at
helper_ready st = helper_ready_at st.state st

abbrev pub invoke_timeout : ℕ
invoke_timeout = 3000

abbrev pub retry_exhausted_interval : ℕ
retry_exhausted_interval = 10

abbrev pub retry_unavailable_interval : ℕ
retry_unavailable_interval = 100

-- The variables of the loop in `retry`; times are in milliseconds. `math.Pow` and the conversions
-- are exact at the attempts that the loop reaches.
pub record RetryState : Type 0 where
  pub retry_age : ℕ
  pub attempt : ℕ
  pub was_exhausted : Bool
  pub retries : ℕ

abbrev pub retry_start : RetryState
retry_start = record { retry_age = 0; attempt = 0; was_exhausted = false; retries = 0 }

abbrev pub is_exhausted : Code → Bool
is_exhausted resource_exhausted = true
is_exhausted _ = false

abbrev pub is_transient : Code → Bool
is_transient other_code = false
is_transient _ = true

-- `attempt` once a change between the two codes has started it again.
unfoldable pub attempt_now : RetryState → Bool → ℕ
attempt_now st exhausted =
    if exhausted
    then (if st.was_exhausted then st.attempt else 0)
    else (if st.was_exhausted then 0 else st.attempt)

unfoldable pub interval_of : Bool → ℕ
interval_of exhausted = if exhausted then retry_exhausted_interval else retry_unavailable_interval

-- The end of a round that is to be repeated.
unfoldable pub wait_round : RetryState → Code → RetryState
unfolding attempt_now interval_of
wait_round st code =
    let exhausted = is_exhausted code in
    let attempt = attempt_now st exhausted in
    record {
      retry_age = st.retry_age + 2 ^ attempt * interval_of exhausted;
      attempt = attempt + 1;
      was_exhausted = exhausted;
      retries = st.retries + 1;
    }

pub data CallAnswer (R : Type 0) : Type 0 where
  replied : R → CallAnswer R
  failed : RpcError → CallAnswer R

pub data RetryResult (R : Type 0) : Type 0 where
  done : R → RetryResult R
  gave_up : RpcError → RetryResult R
  not_ready : String → RetryResult R

-- What follows the callback's error: `none` ends the loop with the error.
unfoldable pub next_round : RetryState → RpcError → Option RetryState
unfolding wait_round
next_round st (plain_error msg) = none
next_round st (status_error code msg) =
    if ltb invoke_timeout st.retry_age
    then none
    else (if is_transient code then some (wait_round st code) else none)

-- What a round comes to: the end of the loop, or the state of the next round.
pub data Round (R : Type 0) : Type 0 where
  ends : RetryResult R → Round R
  repeats : RetryState → Round R

unfoldable pub after_error : {R : Type 0} → RpcError → Option RetryState → Round R
after_error err none = ends (gave_up err)
after_error err (some st) = repeats st

unfoldable pub after_call : {R : Type 0} → RetryState → CallAnswer R → Round R
unfolding next_round after_error
after_call st (replied res) = ends (done res)
after_call st (failed err) = after_error err (next_round st err)

unfoldable pub round : {R : Type 0} → RetryState → Option String → CallAnswer R → Round R
unfolding after_call
round st (some err) answer = ends (not_ready err)
round st none answer = after_call st answer

-- `for { ... }` with fuel: round `n` asks whether the connection is ready and, if it is, calls the
-- callback. `none` is the fuel run out.
unfoldable pub retry_from :
    {R : Type 0}
    → (ℕ → Option String)
    → (ℕ → CallAnswer R)
    → ℕ
    → ℕ
    → RetryState
    → Option (RetryResult R × RetryState)
unfolding round
retry_from ready_error callback zero n st = none
retry_from ready_error callback (suc fuel) n st = elim (round st (ready_error n) (callback n)) [
  | ends res ↦ some (res, st)
  | repeats st' ↦ retry_from ready_error callback fuel (n + 1) st'
]

-- Each repeated round waits for 10 ms at least, so that 302 rounds pass the timeout.
abbrev pub retry_fuel : ℕ
retry_fuel = 302

unfoldable pub retry :
    {R : Type 0} → (ℕ → Option String) → (ℕ → CallAnswer R) → Option (RetryResult R × RetryState)
unfolding retry_from
retry ready_error callback = retry_from ready_error callback retry_fuel 0 retry_start
