-- ===== src/Rpc/Calls.antt =====
-- What a call of the controller of rpc/rpc.go gives back: its ticket, its answer, and its counts.
use anycable_go.Base.{
  ℕ, suc, ◌-◌, ◌<◌, ◌≡◌, refl, ◌≢◌, ◌⊎◌, inl, inr, String, true, Option, none, some, arith,
  Option-cases,
}
use anycable_go.Base.GoMap.{GoMap}
use anycable_go.Common.{SessionEnv, ConnectResult, CommandResult}
use anycable_go.Protocol.{
  Answer, CommandMessage, ConnectionRequest, CommandResponse, ConnectionResponse, build_env,
  build_channel_env, Env, new_command_message, new_connect_message, parse_command_response,
  parse_connect_response,
}
use anycable_go.Protocol.Parse.{parse_command_response_lem, parse_connect_response_lem}
use anycable_go.Rpc.{
  RpcError, plain_error, RetryState, RetryResult, done, gave_up, not_ready, retry, retry_start,
  retry_from, round, next_round, after_call, after_error,
}
use anycable_go.Rpc.Retry.{retry_total}
use anycable_go.Rpc.Controller.{
  Controller, RpcServer, returns, count_failure, take_ticket, with_retry, refused, authenticate,
  authenticate_ticket, on_ticket, command_ticket, call_command, rpc_shutdown, shutdown_check,
  error_text, put_ticket, add_retries,
}
use anycable_go.Metrics.{inc, dec, u64_mod}

-- What a call leaves behind: its ticket is back, the gauge is as before, one call more is counted,
-- and there is a result or an error. A failure is counted exactly if no reply was there to parse.
pub record Settled (R : Type 0) (c c' : Controller) (a : Answer R) : Type 0 where
  pub ticket : c'.sem ≡ c.sem
  pub gauge : c'.pending ≡ c.pending
  pub counted : c'.calls ≡ inc c.calls
  pub answered : a.result ≡ none → a.error ≢ none
  pub failures :
      ((c'.failures ≡ c.failures) × (a.result ≢ none))
      ⊎ ((c'.failures ≡ inc c.failures) × (a.result ≡ none))

gauge_back : (n : ℕ) → n < u64_mod → dec (inc n) ≡ n
gauge_back n h = omega arith

some_ne_none {ℓ} : {A : Type ℓ} (o : Option A) {a : A} → o ≡ some a → o ≢ none
some_ne_none o e n = cc

module _ (c : Controller) (available : 0 < c.sem) (valid : c.pending < u64_mod) where
  abbrev taken : Controller
  taken = record c { sem = c.sem - 1; pending = dec (inc c.pending) }

  take_ticket_lem : take_ticket c ≡ some taken
  unfolding take_ticket
  take_ticket_lem = ground arith

  -- What a call leaves when its server has replied, and when not.
  replied-Settled :
      {R : Type 0} (retries : ℕ) (a : Answer R) {res : R}
      → a.result ≡ some res
      → Settled R c (record (put_ticket taken) { retries = retries; calls = inc c.calls }) a
  unfolding put_ticket
  replied-Settled retries a e =
      let there = some_ne_none a.result e in
      record {
        ticket = omega arith;
        gauge = gauge_back c.pending valid;
        counted = refl;
        answered = λ n. absurd (there n);
        failures = inl (refl, there);
      }

  refused-Settled :
      {R : Type 0} (retries : ℕ) (err : String)
      → Settled R c
          (record (put_ticket taken) {
            retries = retries;
            calls = inc c.calls;
            failures = inc c.failures;
          })
          (refused err)
  unfolding put_ticket
  refused-Settled retries err = record {
    ticket = omega arith;
    gauge = gauge_back c.pending valid;
    counted = refl;
    answered = λ n. some_ne_none (some err) refl;
    failures = inr (refl, refl);
  }

  command_settles :
      (r : RetryResult CommandResponse × RetryState)
      → (c' : Controller) × (a : Answer CommandResult) × (with_retry taken
            (some r)
            (λ c' res. (record c' { calls = inc c'.calls }, parse_command_response res))
            (λ c' err. (count_failure (record c' { calls = inc c'.calls }), refused err))
          ≡ returns c' a)
        × Settled CommandResult c c' a
  unfolding with_retry count_failure add_retries put_ticket
  command_settles (done res, st) =
      (_, _, refl, replied-Settled _ _ (parse_command_response_lem res).1)
  command_settles (gave_up err, st) = (_, _, refl, refused-Settled _ (error_text err))
  command_settles (not_ready err, st) = (_, _, refl, refused-Settled _ err)

  connect_settles :
      (r : RetryResult ConnectionResponse × RetryState)
      → (c' : Controller) × (a : Answer ConnectResult) × (with_retry
            (record taken { calls = inc c.calls })
            (some r)
            (λ c' res. (c', parse_connect_response res))
            (λ c' err. (count_failure c', refused err))
          ≡ returns c' a)
        × Settled ConnectResult c c' a
  unfolding with_retry count_failure add_retries put_ticket
  connect_settles (done res, st) =
      (_, _, refl, replied-Settled _ _ (parse_connect_response_lem res).1)
  connect_settles (gave_up err, st) = (_, _, refl, refused-Settled _ (error_text err))
  connect_settles (not_ready err, st) = (_, _, refl, refused-Settled _ err)

module _ (env : SessionEnv) (headers : GoMap String) (there : env.headers ≡ some headers) where
  env_built : (e : Env) × (build_env env ≡ some e)
  unfolding build_env
  env_built = rw there (_, refl)

  connect_message_built : (req : ConnectionRequest) × (new_connect_message env ≡ some req)
  unfolding new_connect_message
  connect_message_built = rw (env_built.1) (_, refl)

  command_message_built :
      (command id channel text : String)
      → (msg : CommandMessage) × (new_command_message env command channel id text ≡ some msg)
  unfolding new_command_message
  command_message_built command id channel text = elim (Option-cases env.channel_states) [
    | inl no_states ↦ rw (no_states, build_channel_env, env_built.1) (_, refl)
    | inr (states, some_states) ↦ rw (some_states, build_channel_env, env_built.1) (_, refl)
  ]

-- A command of a session that has headers returns whenever a ticket is there, however the server
-- answers. It gives its ticket back and leaves the gauge of pending calls as it was, counts one
-- call, gives a result or an error, and counts a failure exactly if it has no result.
pub call_command_settles :
    (server : RpcServer) (env : SessionEnv) (headers : GoMap String)
    (command id channel text : String) (c : Controller)
    → env.headers ≡ some headers
    → 0 < c.sem
    → c.pending < u64_mod
    → (c' : Controller) × (a : Answer CommandResult) × (call_command server env command id channel
          text c
        ≡ returns c' a)
      × Settled CommandResult c c' a
unfolding call_command
call_command_settles server env headers command id channel text c there available valid =
    let (msg, built) = command_message_built env headers there command id channel text in
    let (r, ended) = retry_total server.ready_error (λ n. server.command n msg) in
    rw (take_ticket_lem c available valid, on_ticket, built, command_ticket, ended)
      (command_settles c available valid r)

-- An authentication of a session that has headers returns whenever a ticket is there, however the
-- server answers. It gives its ticket back and leaves the gauge of pending calls as it was, counts
-- one call, gives a result or an error, and counts a failure exactly if it has no result.
pub authenticate_settles :
    (server : RpcServer) (env : SessionEnv) (headers : GoMap String) (c : Controller)
    → env.headers ≡ some headers
    → 0 < c.sem
    → c.pending < u64_mod
    → (c' : Controller) × (a : Answer ConnectResult) × (authenticate server env c ≡ returns c' a)
      × Settled ConnectResult c c' a
unfolding authenticate
authenticate_settles server env headers c there available valid =
    let (req, built) = connect_message_built env headers there in
    let (r, ended) = retry_total server.ready_error (λ n. server.connect n req) in
    rw (take_ticket_lem c available valid, on_ticket, built, authenticate_ticket, ended)
      (connect_settles c available valid r)

first_round :
    (ready_error : ℕ → Option String) (busy_at : ℕ → ℕ) (fuel : ℕ)
    → ready_error 0 ≡ none
    → 0 < busy_at 0
    → retry_from ready_error (shutdown_check busy_at) (suc fuel) 0 retry_start
      ≡ some (gave_up (plain_error "There are active RPC connections left"), retry_start)
unfolding retry_from round after_call after_error next_round shutdown_check
first_round ready_error busy_at fuel up active = ground arith

-- While calls are active a shutdown does not wait for them: with a connection that is ready it
-- gives up in its first round, with no retry and no sleep, also if the calls would end soon.
pub rpc_shutdown_no_wait :
    (ready_error : ℕ → Option String) (busy_at : ℕ → ℕ)
    → ready_error 0 ≡ none
    → 0 < busy_at 0
    → (err : RpcError) × (rpc_shutdown true ready_error busy_at ≡ some (gave_up err, retry_start))
unfolding rpc_shutdown retry
rpc_shutdown_no_wait ready_error busy_at up active = (
  plain_error "There are active RPC connections left",
  first_round ready_error busy_at 301 up active,
)
