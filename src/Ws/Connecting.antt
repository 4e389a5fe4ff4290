-- ===== src/Ws/Connecting.antt =====
-- `WebsocketHandler` of ws/handler.go with the session handler of cli/cli.go: what becomes of a request, up
-- to the end of the session that it opens. The handshake is what gorilla's `Upgrade` answers.
pub mod Requests
use Prim.Native.String.{◌++◌ as concat}
use anycable_go.Base.{ℕ, String, Bool, true, false, Option, none, some, List, if◌then◌else◌}
use anycable_go.Base.Outcome.{Outcome, ok, err, panic}
use anycable_go.Encoders.{Encoder}
use anycable_go.Node.{Node}
use anycable_go.Session.{World, Ran, start_session, close_abnormal_closure}
use anycable_go.Commands.{Controller, and_run, Done, authenticate}
use anycable_go.Commands.Reading.{Incoming, serve}
use anycable_go.Ws.{Request, check_origin, RequestInfo, new_request_info}

-- A request with its URL, and the errors of the handshake before and after it looks at the origin.
pub record Upgrading : Type 0 where
  pub request : Request
  pub url : String
  pub is_absolute : Bool
  pub has_tls : Bool
  pub host : String
  pub early_error : Option String
  pub late_error : Option String

-- The settings, with `strings.ToLower` and the host that `url.Parse` finds.
pub record WsSettings : Type 0 where
  pub to_lower : String → String
  pub parse_host : String → Option String
  pub allowed_origins : String
  pub headers_to_fetch : List String

-- How the handler ends: without an upgrade, by a panic, by a close frame, or with the session's run.
pub data Connected : Type 0 where
  turned_away : Connected
  crashed : Connected
  closed_with : String → ℕ → Connected
  ended : Ran → Connected

-- The early error, the late error, and what the origin's check answers between them.
handshake : Option String → Option String → Outcome Bool → Outcome Bool
handshake (some e) late origin = err e
handshake none late panic = panic
handshake none late (err e) = err e
handshake none late (ok false) = err "request origin not allowed by Upgrader.CheckOrigin"
handshake none none (ok true) = ok true
handshake none (some e) (ok true) = err e

unfoldable pub upgrade : WsSettings → Upgrading → Outcome Bool
unfolding handshake
upgrade s r =
    handshake r.early_error r.late_error
      (check_origin s.to_lower s.parse_host s.allowed_origins r.request)

unfoldable pub request_url : Upgrading → String
request_url r =
    if r.is_absolute
    then r.url
    else concat (if r.has_tls then "https://" else "http://") (concat r.host r.url)

-- The handler of a connection: an error of the authentication ends it before it reads.
served : Controller → Encoder → List Incoming → Done → Ran
served c encoder reads d = elim d.error [
  | some e ↦ d.run
  | none ↦ and_run d.run (λ w. (serve c encoder reads w).run)
]

unfoldable pub serve_connection :
    Controller → Encoder → Node → List Incoming → String → RequestInfo → Ran
unfolding served
serve_connection c encoder n reads url info =
    served c encoder reads (authenticate c encoder (start_session n url info.headers info.uid))

informed : (RequestInfo → Ran) → Outcome RequestInfo → Connected
informed serves (ok info) = ended (serves info)
informed serves (err e) = closed_with e close_abnormal_closure
informed serves panic = crashed

accepted : (RequestInfo → Ran) → Outcome RequestInfo → Outcome Bool → Connected
unfolding informed
accepted serves info (ok b) = informed serves info
accepted serves info (err e) = turned_away
accepted serves info panic = crashed

-- `nanoid` is the answer of the generator, `reads` what the client sends.
unfoldable pub websocket_handler :
    WsSettings → Controller → Encoder → Node → Option String → List Incoming → Upgrading → Connected
unfolding accepted upgrade serve_connection
websocket_handler s c encoder n nanoid reads r =
    accepted (serve_connection c encoder n reads (request_url r))
      (new_request_info nanoid r.request s.headers_to_fetch) (upgrade s r)
