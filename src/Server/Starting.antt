-- ===== src/Server/Starting.antt =====
-- How often the servers of server/server.go are started and shut down.
use anycable_go.Base.{◌≡◌, refl, String, Bool, true, false, Option, none, some, [], arith}
use anycable_go.Base.GoMap.{lookup}
use anycable_go.Base.Values.{occurrences, one_if}
use anycable_go.Base.Outcome.{Outcome}
use anycable_go.Server.{HttpServer, already, no_listener, start, start_and_announce, ServerLog}

abbrev pub empty_log : ServerLog
empty_log = record { servers = []; listened = []; closed = [] }

abbrev pub is_started : Option HttpServer → Bool
is_started none = false
is_started (some s) = s.started

abbrev pub is_shut : Option HttpServer → Bool
is_shut none = false
is_shut (some s) = s.shutdown

-- What the log says of a port is what its server says.
abbrev pub Tells : ServerLog → String → Type 0
Tells l port =
    (occurrences port l.listened ≡ one_if (is_started (lookup port l.servers)))
    × (occurrences port l.closed ≡ one_if (is_shut (lookup port l.servers)))

started_failed :
    (s : HttpServer) (e : String) (serve : Option String)
    → s.started ≡ false
    → start_and_announce s (some e) serve ≡ (record s { started = true }, no_listener e)
unfolding start_and_announce start
started_failed s e serve idle = ground arith

started_already :
    (s : HttpServer) (listen serve : Option String)
    → s.started ≡ true
    → start_and_announce s listen serve ≡ (s, already)
unfolding start_and_announce
started_already s listen serve on = ground arith

-- A listener that fails leaves the server marked as started: every later start returns without an error
-- and without a listener.
pub failed_start_stays :
    (s : HttpServer) (e : String) (serve : Option String)
    → s.started ≡ false
    → let (s', how) = start_and_announce s (some e) serve in
      (how ≡ no_listener e)
      × ((listen serve' : Option String) → start_and_announce s' listen serve' ≡ (s', already))
failed_start_stays s e serve idle =
    rw (started_failed s e serve idle)
      (refl, λ listen serve'. started_already (record s { started = true }) listen serve' refl)
