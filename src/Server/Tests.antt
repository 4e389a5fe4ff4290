-- ===== src/Server/Tests.antt =====
-- Server: the properties at two ports.
use Prim.Native.String.{◌++◌ as concat}
use anycable_go.Base.{◌≡◌, refl, false, none, some, List, [], ◌∷◌}
use anycable_go.Base.GoMap.{lookup}
use anycable_go.Server.{HttpServer, ServerDefaults, for_port, ServerEvent, asks, starts, shuts_down}

abbrev defaults : ServerDefaults
defaults = record {
  host = "localhost";
  ssl = some (record { cert_path = "a.crt"; key_path = "" });
  max_conn = 0;
  load_error = λ c. none;
  join = λ host port. concat host (concat ":" port);
}

asked : (for_port defaults [] "8080").1 ≡ none
unfolding for_port lookup
asked = refl

abbrev shared : List ServerEvent
shared =
    asks "8080"
    ∷ asks "8090"
    ∷ starts "8090" none (some "closed")
    ∷ asks "8080"
    ∷ starts "8080" (some "in use") none
    ∷ starts "8080" none none
    ∷ shuts_down "8080"
    ∷ shuts_down "8080"
    ∷ []

abbrev idle : HttpServer
idle = record {
  addr = "localhost:8080";
  secured = false;
  shutdown = false;
  started = false;
  max_conn = 0;
}
