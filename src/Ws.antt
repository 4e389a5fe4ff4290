-- ===== src/Ws.antt =====
-- ws/handler.go: what a request must bring for its WebSocket to be taken, and what a session is told
-- of it. The handshake itself is a library's.
pub mod Origin
pub mod Headers
pub mod Connecting
mod Tests
use Prim.Native.Char.{Char, code}
use Prim.Native.String.{String, [] as empty_text, ◌∷◌ as char_then}
use anycable_go.Base.{
  ℕ, Bool, true, false, ◌&&◌, ◌||◌, Option, none, some, List, [], ◌∷◌, ◌==◌, ◌=s=◌, if◌then◌else◌,
}
use anycable_go.Base.GoMap.{GoMap, insert}
use anycable_go.Base.Outcome.{Outcome, ok, err, panic}

-- `strings.HasSuffix`.
unfoldable pub has_suffix : String → String → Bool
has_suffix empty_text suffix = suffix =s= ""
has_suffix (char_then c s) suffix = char_then c s =s= suffix || has_suffix s suffix

abbrev push_first : Char → List String → List String
push_first c [] = char_then c "" ∷ []
push_first c (host ∷ hosts) = char_then c host ∷ hosts

-- `strings.Split(s, ",")`, which gives one text at least.
unfoldable pub split_commas : String → List String
split_commas empty_text = "" ∷ []
split_commas (char_then c s) =
    let rest = split_commas s in if code c == 44 then "" ∷ rest else push_first c rest

-- One host of the setting; `host[0]` panics at an empty one.
unfoldable pub host_allows : String → String → Outcome Bool
unfolding has_suffix
host_allows host empty_text = panic
host_allows host (char_then c rest) =
    ok ((code c == 42 && has_suffix host rest) || (host =s= char_then c rest))

abbrev pub or_next : Outcome Bool → Outcome Bool → Outcome Bool
or_next (ok true) next = ok true
or_next (ok false) next = next
or_next (err e) next = err e
or_next panic next = panic

unfoldable pub check_hosts : String → List String → Outcome Bool
unfolding host_allows
check_hosts host [] = ok false
check_hosts host (allowed ∷ rest) = or_next (host_allows host allowed) (check_hosts host rest)

-- The parts of a request that are used, with `net.SplitHostPort` and `url.Parse` done.
pub record Request : Type 0 where
  -- `r.Header.Get`, which gives "" for a header that is not there.
  pub header : String → String
  pub remote_host : String

abbrev check_parsed : Option String → List String → Outcome Bool
check_parsed none hosts = ok false
check_parsed (some host) hosts = check_hosts host hosts

-- `to_lower` is `strings.ToLower`, and `parse_host` the host that `url.Parse` finds, if it parses.
unfoldable pub check_origin :
    (String → String) → (String → Option String) → String → Request → Outcome Bool
unfolding check_hosts split_commas
check_origin to_lower parse_host origins r =
    if origins =s= ""
    then ok true
    else check_parsed (parse_host (to_lower (r.header "Origin"))) (split_commas (to_lower origins))

-- The loop of `FetchHeaders`.
unfoldable pub fetch_each : Request → List String → GoMap String → GoMap String
fetch_each r [] res = res
fetch_each r (name ∷ rest) res = fetch_each r rest (insert name (r.header name) res)

unfoldable pub fetch_headers : Request → List String → GoMap String
unfolding fetch_each
fetch_headers r list = insert "REMOTE_ADDR" r.remote_host (fetch_each r list [])

-- `nanoid` is the answer of the generator.
unfoldable pub fetch_uid : Option String → Request → Option String
fetch_uid nanoid r =
    if r.header "X-Request-ID" =s= "" then nanoid else some (r.header "X-Request-ID")

pub record RequestInfo : Type 0 where
  pub uid : String
  pub url : String
  pub headers : Option (GoMap String)

unfoldable pub new_request_info : Option String → Request → List String → Outcome RequestInfo
unfolding fetch_uid fetch_headers
new_request_info nanoid r names = elim (fetch_uid nanoid r) [
  | none ↦ err "Failed to retrieve connection uid"
  | some uid ↦ ok (record { uid = uid; url = ""; headers = some (fetch_headers r names) })
]
