-- ===== src/Ws/Headers.antt =====
-- What a session is told of its request by ws/handler.go.
use anycable_go.Base.{
  ◌≡◌, refl, ◌≢◌, ◌⊎◌, inl, inr, String, Option, none, some, List, [], ◌∷◌, arith, ◌=s=◌, =s=_iff,
  =s=_false, if◌then◌else◌, elem, Bool-cases, Option-cases,
}
use anycable_go.Base.GoMap.{GoMap, lookup, insert, lookup-insert}
use anycable_go.Base.Outcome.{ok, err}
use anycable_go.Ws.{Request, fetch_each, fetch_headers, fetch_uid, RequestInfo, new_request_info}

lookup-fetch_each :
    (r : Request) (name : String) (list : List String) (res : GoMap String)
    → lookup name (fetch_each r list res)
      ≡ (if elem name list then some (r.header name) else lookup name res)
unfolding fetch_each
lookup-fetch_each r name [] res = refl
lookup-fetch_each r name (other ∷ rest) res = ground (
  arith,
  =s=_iff other name,
  lookup-insert other name (r.header other) res,
  lookup-fetch_each r name rest (insert other (r.header other) res),
)

-- The headers that a session gets: each of the configured ones with the request's value, the
-- remote address, which no configured header replaces, and nothing else.
abbrev pub Fetched : Request → List String → GoMap String → Type 0
Fetched r names headers =
    (name : String)
    → lookup name headers ≡ (
        if "REMOTE_ADDR" =s= name
        then some r.remote_host
        else (if elem name names then some (r.header name) else none))

fetch_headers-Fetched :
    (r : Request) (names : List String) → Fetched r names (fetch_headers r names)
unfolding fetch_headers lookup
fetch_headers-Fetched r names name = ground (
  arith,
  lookup-insert "REMOTE_ADDR" name r.remote_host (fetch_each r names []),
  lookup-fetch_each r name names [],
)

-- A request gives a session exactly if it names a request id or the generator gives one. The
-- session's UID is the request's id where there is one and the generated one otherwise, and its
-- headers are the configured ones and the remote address.
pub new_request_info_cases :
    (nanoid : Option String) (r : Request) (names : List String)
    → ((info : RequestInfo) × (headers : GoMap String) × (new_request_info nanoid r names ≡ ok info)
        × (info.headers ≡ some headers)
        × Fetched r names headers
        × (((r.header "X-Request-ID" ≢ "") × (info.uid ≡ r.header "X-Request-ID"))
            ⊎ ((r.header "X-Request-ID" ≡ "") × (nanoid ≡ some info.uid))))
      ⊎ ((r.header "X-Request-ID" ≡ "")
          × (nanoid ≡ none)
          × (new_request_info nanoid r names ≡ err "Failed to retrieve connection uid"))
unfolding new_request_info fetch_uid
new_request_info_cases nanoid r names = elim (Bool-cases (r.header "X-Request-ID" =s= "")) [
  | inr there ↦ inl (
    record { uid = r.header "X-Request-ID"; url = ""; headers = some (fetch_headers r names) },
    fetch_headers r names,
    ground arith,
    refl,
    fetch_headers-Fetched r names,
    inl (=s=_false (r.header "X-Request-ID") "" there, refl),
  )
  | inl missing ↦
      let absent : r.header "X-Request-ID" ≡ "" =
        (=s=_iff (r.header "X-Request-ID") "").0 missing in
      elim (Option-cases nanoid) [
        | inl failed ↦ inr (absent, failed, ground arith)
        | inr (uid, made) ↦ inl (
          record { uid = uid; url = ""; headers = some (fetch_headers r names) },
          fetch_headers r names,
          ground arith,
          refl,
          fetch_headers-Fetched r names,
          inr (absent, made),
        )
      ]
]
