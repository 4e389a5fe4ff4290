-- ===== src/Rpc/Serving.antt =====
-- The controller of rpc/rpc.go behind the interface of node/controller.go, and the sessions that it serves.
use anycable_go.Base.{
  ◌<◌, ◌≡◌, ◌∙◌, sym, ap, ◌≢◌, String, Option, none, List, Option-cases, inl, inr,
}
use anycable_go.Base.GoMap.{GoMap}
use anycable_go.Common.{SessionEnv}
use anycable_go.Protocol.{Answer}
use anycable_go.Metrics.{u64_mod}
use anycable_go.Encoders.{Encoder}
use anycable_go.Node.{Node}
use anycable_go.Commands
use anycable_go.Commands.{and_run}
use anycable_go.Commands.Health.{Answers}
use anycable_go.Commands.Reading.{serve, Incoming}
use anycable_go.Commands.Life.{session_life, Ends, CalmEncoder}
use anycable_go.Rpc.Controller.{
  Controller, RpcServer, Called, waits, panics, returns, refused, authenticate, rpc_subscribe,
  rpc_unsubscribe, rpc_perform, rpc_disconnect, call_command,
}
use anycable_go.Session.{start_session}
use anycable_go.Rpc.Calls.{Settled, call_command_settles, authenticate_settles}

-- The call returns this answer, from some state of the controller with a ticket and some behaviour of the
-- server.
abbrev pub Returned :
    {R : Type 0} → (RpcServer → Controller → Called (Answer R)) → Answer R → Type 0
Returned call a =
    (server : RpcServer) × (c : Controller) × (c' : Controller) × (0 < c.sem)
    × (c.pending < u64_mod)
    × (call server c ≡ returns c' a)

-- The answers that a session with headers gets are those that the RPC calls return.
pub record Serves (k : Commands.Controller) : Type 0 where
  pub authenticates :
      (uid : String) (env : SessionEnv)
      → env.headers ≢ none
      → Returned (λ server c. authenticate server env c) (k.authenticate uid env)
  pub subscribes :
      (uid : String) (env : SessionEnv) (ids identifier : String)
      → env.headers ≢ none
      → Returned
          (λ server c. rpc_subscribe server env ids identifier c)
          (k.subscribe uid env ids identifier)
  pub unsubscribes :
      (uid : String) (env : SessionEnv) (ids identifier : String)
      → env.headers ≢ none
      → Returned
          (λ server c. rpc_unsubscribe server env ids identifier c)
          (k.unsubscribe uid env ids identifier)
  pub performs :
      (uid : String) (env : SessionEnv) (ids identifier text : String)
      → env.headers ≢ none
      → Returned
          (λ server c. rpc_perform server env ids identifier text c)
          (k.perform uid env ids identifier text)

-- A call that has not returned gives no answer; the value here is of no matter.
abbrev pub answer_of : {R : Type 0} → Called (Answer R) → Answer R
answer_of (returns c a) = a
answer_of waits = refused "waits"
answer_of panics = refused "panics"

abbrev pub error_of : Called (Option String) → Option String
error_of (returns c e) = e
error_of waits = none
error_of panics = none

-- The interface filled by the calls, each from the same state and with the same server.
unfoldable pub rpc_controller : RpcServer → Controller → Commands.Controller
rpc_controller server c = record {
  authenticate = λ uid env. answer_of (authenticate server env c);
  subscribe = λ uid env ids identifier. answer_of (rpc_subscribe server env ids identifier c);
  unsubscribe = λ uid env ids identifier. answer_of (rpc_unsubscribe server env ids identifier c);
  perform = λ uid env ids identifier text. answer_of (rpc_perform server env ids identifier text c);
  disconnect = λ uid env ids channels. error_of (rpc_disconnect server env ids channels c);
}

module _ (server : RpcServer) (c : Controller) (available : 0 < c.sem)
    (valid : c.pending < u64_mod) where
  returned :
      {R : Type 0} (call : RpcServer → Controller → Called (Answer R)) (c' : Controller)
      (a : Answer R)
      → call server c ≡ returns c' a
      → Returned call (answer_of (call server c))
  returned call c' a e =
      (server, c, c', available, valid, e ∙ ap (λ b. returns c' b) (sym (ap (λ z. answer_of z) e)))

  command_returned :
      (env : SessionEnv) (command ids identifier text : String)
      → env.headers ≢ none
      → Returned
          (λ server c. call_command server env command ids identifier text c)
          (answer_of (call_command server env command ids identifier text c))
  command_returned env command ids identifier text there = elim (Option-cases env.headers) [
    | inl gone ↦ absurd (there gone)
    | inr (headers, is) ↦
        let (d, b, f, settled) =
          call_command_settles server env headers command ids identifier text c is available
            valid in
        returned (λ server c. call_command server env command ids identifier text c) d b f
  ]

  pub rpc_controller-Serves : Serves (rpc_controller server c)
  unfolding rpc_controller rpc_subscribe rpc_unsubscribe rpc_perform
  rpc_controller-Serves = record {
    authenticates = λ uid env there. elim (Option-cases env.headers) [
      | inl gone ↦ absurd (there gone)
      | inr (headers, is) ↦
          let (d, b, f, settled) = authenticate_settles server env headers c is available valid in
          returned (λ server c. authenticate server env c) d b f
    ];
    subscribes =
        λ uid env ids identifier there. command_returned env "subscribe" ids identifier "" there;
    unsubscribes =
        λ uid env ids identifier there. command_returned env "unsubscribe" ids identifier "" there;
    performs = λ uid env ids identifier text there.
        command_returned env "message" ids identifier text there;
  }

same_answer : {R : Type 0} {c c' : Controller} {a b : Answer R} → returns c a ≡ returns c' b → a ≡ b
same_answer e = cc

answer_there :
    {R : Type 0} (c c' d : Controller) (a b : Answer R) (called : Called (Answer R))
    → called ≡ returns c' a
    → called ≡ returns d b
    → Settled R c d b
    → a.error ≡ none
    → a.result ≢ none
answer_there c c' d a b called e f s fine nil =
    let same : a ≡ b = same_answer (sym e ∙ f) in
    s.answered (sym (ap (λ z. z.result) same) ∙ nil) (sym (ap (λ z. z.error) same) ∙ fine)

pub Serves-Answers : (k : Commands.Controller) → Serves k → Answers k
unfolding rpc_unsubscribe
Serves-Answers k s = record {
  authenticated = λ uid env there fine nil.
      let (server, c, c', available, valid, e) = s.authenticates uid env there in
      elim (Option-cases env.headers) [
        | inl gone ↦ there gone
        | inr (headers, is) ↦
            let (d, b, f, settled) = authenticate_settles server env headers c is available valid in
            answer_there c c' d (k.authenticate uid env) b (authenticate server env c) e f settled
              fine nil
      ];
  unsubscribed = λ uid env ids identifier there fine nil.
      let (server, c, c', available, valid, e) = s.unsubscribes uid env ids identifier there in
      elim (Option-cases env.headers) [
        | inl gone ↦ there gone
        | inr (headers, is) ↦
            let (d, b, f, settled) =
              call_command_settles server env headers "unsubscribe" ids identifier "" c is available
                valid in
            answer_there c c' d (k.unsubscribe uid env ids identifier) b
              (call_command server env "unsubscribe" ids identifier "" c) e f settled fine nil
      ];
}

-- The life of a session with headers that the RPC controller serves: whatever the RPC server answers, in
-- whatever state the controller is at each call as long as a ticket comes, and whatever the client
-- sends, neither its authentication nor its reading panics, and the session's channel is left safe.
pub rpc_session_life :
    (k : Commands.Controller) (encoder : Encoder) (n : Node) (url : String)
    (headers : Option (GoMap String)) (uid : String) (reads : List Incoming)
    → Serves k
    → CalmEncoder encoder
    → headers ≢ none
    → Ends (
        and_run
          (Commands.authenticate k encoder (start_session n url headers uid)).run
          (λ w. (serve k encoder reads w).run))
rpc_session_life k encoder n url headers uid reads s calm there =
    session_life k (Serves-Answers k s) encoder calm n url headers uid reads there
