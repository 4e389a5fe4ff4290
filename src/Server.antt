-- ===== src/Server.antt =====
-- server/server.go and server/ssl_config.go: the HTTP servers by their ports, which the WebSocket handler,
-- the HTTP adapter and the metrics share. Listening, serving and the TLS files are what they answer.
pub mod Making
pub mod Starting
mod Tests
use Prim.Native.String.{◌++◌ as concat}
use anycable_go.Base.{
  ℕ, String, Bool, true, false, not, ◌&&◌, Option, none, some, List, [], ◌∷◌, ◌++◌, ◌=s=◌,
  if◌then◌else◌,
}
use anycable_go.Base.GoMap.{GoMap, lookup, insert, adjust}
use anycable_go.Base.Outcome.{Outcome, ok, err, panic}

pub record SslConfig : Type 0 where
  pub cert_path : String
  pub key_path : String

unfoldable pub available : SslConfig → Bool
available c = not (c.cert_path =s= "") && not (c.key_path =s= "")

pub record HttpServer : Type 0 where
  pub addr : String
  pub secured : Bool
  pub shutdown : Bool
  pub started : Bool
  pub max_conn : ℕ

-- The package's variables `Host`, `SSL` and `MaxConn`, with `tls.LoadX509KeyPair` and `net.JoinHostPort`.
pub record ServerDefaults : Type 0 where
  pub host : String
  pub ssl : Option SslConfig
  pub max_conn : ℕ
  pub load_error : SslConfig → Option String
  pub join : String → String → String

server_with : ServerDefaults → String → Bool → HttpServer
server_with d port secured = record {
  addr = d.join d.host port;
  secured = secured;
  shutdown = false;
  started = false;
  max_conn = d.max_conn;
}

secured_server : ServerDefaults → String → Option String → Outcome HttpServer
unfolding server_with
secured_server d port none = ok (server_with d port true)
secured_server d port (some e) = err (concat "Failed to load SSL certificate: " (concat e "."))

new_server_for : ServerDefaults → String → Option SslConfig → Outcome HttpServer
unfolding available secured_server server_with
new_server_for d port none = ok (server_with d port false)
new_server_for d port (some ssl) =
    if available ssl
    then secured_server d port (d.load_error ssl)
    else ok (server_with d port false)

unfoldable pub new_server : ServerDefaults → String → Outcome HttpServer
unfolding new_server_for
new_server d port = new_server_for d port d.ssl

-- `allServers`; a pointer to a server is its port.
abbrev pub Servers : Type 0
Servers = GoMap HttpServer

add_server : Servers → String → Outcome HttpServer → Servers × Option String
add_server servers port (ok s) = (insert port s servers, none)
add_server servers port (err e) = (servers, some e)
add_server servers port panic = (servers, none)

use_server : ServerDefaults → Servers → String → Option HttpServer → Servers × Option String
unfolding new_server add_server
use_server d servers port (some s) = (servers, none)
use_server d servers port none = add_server servers port (new_server d port)

unfoldable pub for_port : ServerDefaults → Servers → String → Servers × Option String
unfolding use_server
for_port d servers port = use_server d servers port (lookup port servers)

-- How `Start` ends: nothing to do, no listener, or the server's end; the second and third with an error.
pub data Started : Type 0 where
  already : Started
  no_listener : String → Started
  served : Option String → Started

-- `Start`, in which a goroutine stays until the server ends; `listen` and `serve` are the errors.
unfoldable pub start : HttpServer → Option String → Option String → HttpServer × Started
start s listen serve =
    let s' = record s { started = true } in
    if s.started
    then (s, already)
    else elim listen [ some e ↦ (s', no_listener e) | none ↦ (s', served serve) ]

-- `StartAndAnnounce` looks first and calls `Start` then; others may have started the server between.
unfoldable pub start_and_announce :
    HttpServer → Option String → Option String → HttpServer × Started
unfolding start
start_and_announce s listen serve = if s.started then (s, already) else start s listen serve

-- `Shutdown`, where the second result tells whether `http.Server.Shutdown` is called.
unfoldable pub shutdown_server : HttpServer → HttpServer × Bool
shutdown_server s = if s.shutdown then (s, false) else (record s { shutdown = true }, true)

unfoldable pub stopped : HttpServer → Bool
stopped s = s.shutdown

unfoldable pub address : HttpServer → String
address s = concat (if s.secured then "https://" else "http://") s.addr

-- What the parts of the program do with the servers.
pub data ServerEvent : Type 0 where
  asks : String → ServerEvent
  starts : String → Option String → Option String → ServerEvent
  shuts_down : String → ServerEvent

-- The ports at which `net.Listen` has been called, in order, and those whose `http.Server` was shut down.
pub record ServerLog : Type 0 where
  pub servers : Servers
  pub listened : List String
  pub closed : List String

abbrev pub is_listen : Started → Bool
is_listen already = false
is_listen (no_listener e) = true
is_listen (served e) = true

-- What is done to the server of a port is written back.
start_at : ServerLog → String → Option String → Option String → Option HttpServer → ServerLog
unfolding start_and_announce
start_at l port listen serve none = l
start_at l port listen serve (some s) =
    let (s', how) = start_and_announce s listen serve in
    record l {
      servers = insert port s' l.servers;
      listened = if is_listen how then l.listened ++ port ∷ [] else l.listened;
    }

shut_at : ServerLog → String → Option HttpServer → ServerLog
unfolding shutdown_server
shut_at l port none = l
shut_at l port (some s) =
    let (s', first) = shutdown_server s in
    record l {
      servers = insert port s' l.servers;
      closed = if first then l.closed ++ port ∷ [] else l.closed;
    }

unfoldable pub server_event : ServerDefaults → ServerLog → ServerEvent → ServerLog
unfolding for_port start_at shut_at
server_event d l (asks port) = record l { servers = (for_port d l.servers port).0 }
server_event d l (starts port listen serve) = start_at l port listen serve (lookup port l.servers)
server_event d l (shuts_down port) = shut_at l port (lookup port l.servers)

unfoldable pub server_events : ServerDefaults → List ServerEvent → ServerLog → ServerLog
unfolding server_event
server_events d [] l = l
server_events d (e ∷ es) l = server_events d es (server_event d l e)
