-- ===== src/Ws/Connecting/Requests.antt =====
-- What becomes of every request in ws/handler.go.
use anycable_go.Base.{
  ◌≡◌, refl, ◌∙◌, ap, ◌≢◌, ◌⊎◌, inl, inr, String, Bool, true, false, Option, none, some, List,
  Option-cases,
}
use anycable_go.Base.Outcome.{Outcome, ok, err, panic}
use anycable_go.Encoders.{Encoder}
use anycable_go.Node.{Node}
use anycable_go.Session.{start_session}
use anycable_go.Commands.{Controller, authenticate}
use anycable_go.Commands.Reading.{Incoming}
use anycable_go.Commands.Life.{CalmEncoder, Ends, start_session-Healthy, Runs-Ends}
use anycable_go.Commands.Calls.{authenticate-Runs}
use anycable_go.Ws.Headers.{Fetched, new_request_info_cases}
use anycable_go.Base.GoMap.{GoMap}
use anycable_go.Rpc.Serving.{Serves, Serves-Answers, rpc_session_life}
use anycable_go.Ws.{check_origin, RequestInfo, new_request_info}
use anycable_go.Ws.Connecting.{
  Upgrading, WsSettings, turned_away, closed_with, ended, handshake, upgrade, request_url, served,
  serve_connection, informed, accepted, websocket_handler,
}

-- The handshake has no error, and the origin is allowed.
abbrev pub LetIn : WsSettings → Upgrading → Type 0
LetIn s r =
    (r.early_error ≡ none)
    × (check_origin s.to_lower s.parse_host s.allowed_origins r.request ≡ ok true)
    × (r.late_error ≡ none)

handshake_cases :
    (early late : Option String) (origin : Outcome Bool)
    → origin ≢ panic
    → (((early ≡ none) × (origin ≡ ok true) × (late ≡ none))
        × (handshake early late origin ≡ ok true))
      ⊎ ((e : String) × (handshake early late origin ≡ err e)
          × ((early ≡ none) × (origin ≡ ok true) × (late ≡ none) → ⊥))
unfolding handshake
handshake_cases (some e) late o calm = inr (e, refl, λ h. let x = h.0 in cc)
handshake_cases none late panic calm = absurd (calm refl)
handshake_cases none late (err e) calm = inr (e, refl, λ h. let x = h.1 in cc)
handshake_cases none late (ok false) calm = inr (_, refl, λ h. let x = h.1 in cc)
handshake_cases none none (ok true) calm = inl ((refl, refl, refl), refl)
handshake_cases none (some e) (ok true) calm = inr (e, refl, λ h. let x = h.2 in cc)

module _ (k : Controller) (serves : Serves k) (encoder : Encoder) (calm : CalmEncoder encoder)
    (n : Node) (reads : List Incoming) (url : String) where
  serve_connection-Ends :
      (info : RequestInfo)
      → info.headers ≢ none
      → Ends (serve_connection k encoder n reads url info)
  unfolding serve_connection served
  serve_connection-Ends info there =
      let w = start_session n url info.headers info.uid in
      let d = authenticate k encoder w in
      elim (Option-cases d.error) [
        | inr (e, failed) ↦ rw failed (
            Runs-Ends (
              authenticate-Runs encoder calm.transmissions k w (Serves-Answers k serves)
                (start_session-Healthy n url info.headers info.uid there)))
        | inl fine ↦
            rw fine (rpc_session_life k encoder n url info.headers info.uid reads serves calm there)
      ]

-- Not let in and turned away; let in without an id and closed; or let in and served until the end.
abbrev pub Handled :
    WsSettings → Controller → Encoder → Node → Option String → List Incoming → Upgrading → Type 0
Handled s k encoder n nanoid reads r =
    let result = websocket_handler s k encoder n nanoid reads r in
    let asked = new_request_info nanoid r.request s.headers_to_fetch in
    ((LetIn s r → ⊥) × (result ≡ turned_away))
    ⊎ (LetIn s r
        × (nanoid ≡ none)
        × (r.request.header "X-Request-ID" ≡ "")
        × (result ≡ closed_with "Failed to retrieve connection uid" 1006))
    ⊎ (LetIn s r
        × ((info : RequestInfo) × (headers : GoMap String) × (asked ≡ ok info)
            × (info.headers ≡ some headers)
            × Fetched r.request s.headers_to_fetch headers
            × (result ≡ ended (serve_connection k encoder n reads (request_url r) info))
            × Ends (serve_connection k encoder n reads (request_url r) info)))

-- A request whose origin can be checked, at a server with the RPC controller, ends in one of three ways,
-- whatever the RPC server answers and the client sends. If the handshake fails or the origin is not
-- allowed, nothing is upgraded. If it is let in and has no id, and none can be generated, its
-- connection is closed with 1006. Otherwise its session, with the request's id, headers and address,
-- lives without a panic, and leaves its channel safe.
pub websocket_handler_cases :
    (s : WsSettings) (k : Controller) (encoder : Encoder) (n : Node) (nanoid : Option String)
    (reads : List Incoming) (r : Upgrading)
    → Serves k
    → CalmEncoder encoder
    → check_origin s.to_lower s.parse_host s.allowed_origins r.request ≢ panic
    → Handled s k encoder n nanoid reads r
unfolding websocket_handler accepted upgrade informed
websocket_handler_cases s k encoder n nanoid reads r serves calm checked =
    let serving = serve_connection k encoder n reads (request_url r) in
    let asked = new_request_info nanoid r.request s.headers_to_fetch in
    elim (handshake_cases r.early_error r.late_error
      (check_origin s.to_lower s.parse_host s.allowed_origins r.request) checked) [
        | inr (e, failed, not_in) ↦ inl (not_in, ap (λ z. accepted serving asked z) failed)
        | inl (let_in, taken) ↦ elim (new_request_info_cases nanoid r.request s.headers_to_fetch) [
          | inl (info, headers, e, there, fetched, id) ↦ inr (
              inr (
                let_in,
                (
                  info,
                  headers,
                  e,
                  there,
                  fetched,
                  ap (λ z. accepted serving asked z) taken ∙ ap (λ z. informed serving z) e,
                  serve_connection-Ends k serves encoder calm n reads (request_url r) info
                      (λ gone. let x = there in cc),
                ),
              ))
          | inr (no_id, no_nanoid, e) ↦ inr (
              inl (
                let_in,
                no_nanoid,
                no_id,
                ap (λ z. accepted serving asked z) taken ∙ ap (λ z. informed serving z) e,
              ))
        ]
      ]
