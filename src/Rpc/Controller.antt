-- ===== src/Rpc/Controller.antt =====
-- The controller of rpc/rpc.go: its semaphore, its metrics, and its calls. The RPC server and the
-- connection are an interface.
use anycable_go.Base.{
  ℕ, zero, suc, ◌+◌, ◌-◌, ◌%◌, String, Bool, true, Option, none, some, List, ltb, if◌then◌else◌,
}
use anycable_go.Base.GoMap.{GoMap}
use anycable_go.Metrics.{inc, dec, u64_mod}
use anycable_go.Common.{SessionEnv, ConnectResult, CommandResult}
use anycable_go.Protocol.{
  Answer, ConnectionRequest, ConnectionResponse, CommandMessage, CommandResponse, DisconnectRequest,
  DisconnectResponse, new_connect_message, new_command_message, new_disconnect_request,
  parse_connect_response, parse_command_response, parse_disconnect_response,
}
use anycable_go.Rpc.{
  RpcError, status_error, plain_error, RetryState, CallAnswer, replied, failed, RetryResult, done,
  gave_up, not_ready, retry, retry_start,
}

-- `sem` is the number of tickets in the channel.
pub record Controller : Type 0 where
  pub concurrency : ℕ
  pub sem : ℕ
  pub pending : ℕ
  pub calls : ℕ
  pub retries : ℕ
  pub failures : ℕ

-- How the n-th round of a call finds the connection and the server.
pub record RpcServer : Type 0 where
  pub ready_error : ℕ → Option String
  pub connect : ℕ → ConnectionRequest → CallAnswer ConnectionResponse
  pub command : ℕ → CommandMessage → CallAnswer CommandResponse
  pub disconnect : ℕ → DisconnectRequest → CallAnswer DisconnectResponse
  pub marshal : GoMap String → String

-- A call may wait for a ticket that does not come, or panic at nil headers.
pub data Called (R : Type 0) : Type 0 where
  waits : Called R
  panics : Called R
  returns : Controller → R → Called R

unfoldable pub fill : ℕ → ℕ → ℕ
fill zero tickets = tickets
fill (suc k) tickets = fill k (tickets + 1)

unfoldable pub init_semaphore : Controller → ℕ → Controller
unfolding fill
init_semaphore c capacity = record c { sem = fill capacity 0 }

unfoldable pub busy : Controller → ℕ
busy c = c.concurrency - c.sem

unfoldable pub error_text : RpcError → String
error_text (status_error code msg) = msg
error_text (plain_error msg) = msg

unfoldable pub count_failure : Controller → Controller
count_failure c = record c { failures = inc c.failures }

-- `pending.Inc()`, before the wait for a ticket.
unfoldable pub enqueue_call : Controller → Controller
enqueue_call c = record c { pending = inc c.pending }

-- `<-c.sem; pending.Dec()`; `none` while no ticket is there.
unfoldable pub start_call : Controller → Option Controller
start_call c =
    if ltb 0 c.sem then some (record c { sem = c.sem - 1; pending = dec c.pending }) else none

unfoldable pub take_ticket : Controller → Option Controller
unfolding enqueue_call start_call
take_ticket c = start_call (enqueue_call c)

-- The deferred return of the ticket.
unfoldable pub put_ticket : Controller → Controller
put_ticket c = record c { sem = c.sem + 1 }

unfoldable pub add_retries : Controller → ℕ → Controller
add_retries c n = record c { retries = (c.retries + n) % u64_mod }

-- The result of `retry` as the callers use it; a loop without end does not return.
unfoldable pub with_retry :
    {R A : Type 0}
    → Controller
    → Option (RetryResult R × RetryState)
    → (Controller → R → Controller × A)
    → (Controller → String → Controller × A)
    → Called A
unfolding add_retries put_ticket error_text
with_retry c none ok_case err_case = waits
with_retry c (some (done res, st)) ok_case err_case =
    let (c', a) = ok_case (add_retries c st.retries) res in returns (put_ticket c') a
with_retry c (some (gave_up err, st)) ok_case err_case =
    let (c', a) = err_case (add_retries c st.retries) (error_text err) in returns (put_ticket c') a
with_retry c (some (not_ready err, st)) ok_case err_case =
    let (c', a) = err_case (add_retries c st.retries) err in returns (put_ticket c') a

abbrev pub refused : {R : Type 0} → String → Answer R
refused err = record { result = none; error = some err }

-- The rounds of a call: each asks for the connection and then builds the request, so that nil
-- headers, for which there is none, panic in the first round that finds the connection ready. The
-- request is the one of the first round.
abbrev pub requested :
    {Q R A : Type 0}
    → Option Q
    → (ℕ → Option String)
    → (ℕ → Q → CallAnswer R)
    → (Option (RetryResult R × RetryState) → Called A)
    → Called A
requested none ready_error call use_result = elim (ready_error 0) [
  | none ↦ panics
  | some err ↦ use_result (some (not_ready err, retry_start))
]
requested (some req) ready_error call use_result = use_result (retry ready_error (λ n. call n req))

unfoldable pub authenticate_ticket :
    RpcServer → SessionEnv → Controller → Called (Answer ConnectResult)
unfolding with_retry count_failure
authenticate_ticket server env c =
    requested (new_connect_message env) server.ready_error server.connect (λ r.
      with_retry (record c { calls = inc c.calls }) r (λ c' res. (c', parse_connect_response res))
        (λ c' err. (count_failure c', refused err)))

-- After `<-c.sem`, if a ticket comes.
abbrev pub on_ticket : {A : Type 0} → Option Controller → (Controller → Called A) → Called A
on_ticket none call = waits
on_ticket (some c) call = call c

unfoldable pub authenticate : RpcServer → SessionEnv → Controller → Called (Answer ConnectResult)
unfolding authenticate_ticket take_ticket
authenticate server env c = on_ticket (take_ticket c) (authenticate_ticket server env)

-- `parseCommandResponse` counts the call after it has ended.
unfoldable pub command_ticket :
    RpcServer
    → SessionEnv
    → String
    → String
    → String
    → String
    → Controller
    → Called (Answer CommandResult)
unfolding with_retry count_failure
command_ticket server env command id channel text c =
    requested (new_command_message env command channel id text) server.ready_error server.command
      (λ r.
        with_retry c r (λ c' res. (record c' { calls = inc c'.calls }, parse_command_response res))
          (λ c' err. (count_failure (record c' { calls = inc c'.calls }), refused err)))

-- `Subscribe`, `Unsubscribe` and `Perform` differ in the command and the data.
unfoldable pub call_command :
    RpcServer
    → SessionEnv
    → String
    → String
    → String
    → String
    → Controller
    → Called (Answer CommandResult)
unfolding command_ticket take_ticket
call_command server env command id channel text c =
    on_ticket (take_ticket c) (command_ticket server env command id channel text)

unfoldable pub rpc_subscribe :
    RpcServer → SessionEnv → String → String → Controller → Called (Answer CommandResult)
unfolding call_command
rpc_subscribe server env id channel = call_command server env "subscribe" id channel ""

unfoldable pub rpc_unsubscribe :
    RpcServer → SessionEnv → String → String → Controller → Called (Answer CommandResult)
unfolding call_command
rpc_unsubscribe server env id channel = call_command server env "unsubscribe" id channel ""

unfoldable pub rpc_perform :
    RpcServer → SessionEnv → String → String → String → Controller → Called (Answer CommandResult)
unfolding call_command
rpc_perform server env id channel text = call_command server env "message" id channel text

-- An application error counts as a failure here, unlike in the other calls.
disconnect_reply : Controller → DisconnectResponse → Controller × Option String
unfolding count_failure
disconnect_reply c res = elim (parse_disconnect_response res) [
  | none ↦ (c, none)
  | some err ↦ (count_failure c, some err)
]

disconnect_ticket :
    RpcServer → SessionEnv → String → List String → Controller → Called (Option String)
unfolding with_retry count_failure disconnect_reply
disconnect_ticket server env id subscriptions c =
    requested (new_disconnect_request server.marshal env id subscriptions) server.ready_error
      server.disconnect
      (λ r.
        with_retry (record c { calls = inc c.calls }) r disconnect_reply
          (λ c' err. (count_failure c', some err)))

unfoldable pub rpc_disconnect :
    RpcServer → SessionEnv → String → List String → Controller → Called (Option String)
unfolding disconnect_ticket take_ticket
rpc_disconnect server env id subscriptions c =
    on_ticket (take_ticket c) (disconnect_ticket server env id subscriptions)

-- The callback of `Shutdown`; `busy_at n` is the number of calls that are active in round n, which
-- the text of the error leaves out here.
unfoldable pub shutdown_check : (ℕ → ℕ) → ℕ → CallAnswer Bool
shutdown_check busy_at n =
    if ltb 0 (busy_at n)
    then failed (plain_error "There are active RPC connections left")
    else replied true

-- With no client state nothing was started, and nothing has to end.
unfoldable pub rpc_shutdown :
    Bool → (ℕ → Option String) → (ℕ → ℕ) → Option (RetryResult Bool × RetryState)
unfolding shutdown_check
rpc_shutdown started ready_error busy_at =
    if started then retry ready_error (shutdown_check busy_at) else some (done true, retry_start)
