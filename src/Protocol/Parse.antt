-- ===== src/Protocol/Parse.antt =====
-- What protocol/protocol.go makes of the answers of the RPC server, by their status.
use anycable_go.Base.{◌≡◌, refl, String, none, some, arith, ◌↔◌, ◌≢◌}
use anycable_go.Common.{Status, success, failure, error, ConnectResult, CommandResult}
use anycable_go.Protocol.{
  PbStatus, pb_success, pb_failure, ConnectionResponse, CommandResponse, parse_connect_response,
  parse_command_response, command_status, command_result, connect_status, connect_reply,
}

abbrev status_of : PbStatus → Status
status_of pb_success = success
status_of pb_failure = failure
status_of _ = error

command_status_lem :
    (s : PbStatus) (r : CommandResponse)
    → let a = command_status s r in
      (a.result ≡ some (record (command_result r) { status = status_of s }))
      × ((a.error ≢ none) ↔ (status_of s ≡ error))
      × ((status_of s ≡ error) ↔ ((s ≢ pb_success) × (s ≢ pb_failure)))
unfolding command_status
command_status_lem pb_success r = ground arith
command_status_lem _ r = ground arith

-- A parse of a command's answer always gives a result, which keeps the answer's streams,
-- transmissions and flags whatever the status. It gives an error exactly when the result's status
-- is ERROR, and that is exactly when the answer's status is neither SUCCESS nor FAILURE.
pub parse_command_response_lem :
    (r : CommandResponse)
    → (res : CommandResult) × ((parse_command_response r).result ≡ some res)
      × (res.streams ≡ r.streams)
      × (res.stopped_streams ≡ r.stopped_streams)
      × (res.transmissions ≡ r.transmissions)
      × (res.stop_all_streams ≡ r.stop_streams)
      × (res.disconnect ≡ r.disconnect)
      × (((parse_command_response r).error ≢ none) ↔ (res.status ≡ error))
      × ((res.status ≡ error) ↔ ((r.status ≢ pb_success) × (r.status ≢ pb_failure)))
unfolding parse_command_response
parse_command_response_lem r =
    let (e, a, b) = command_status_lem r.status r in
    (
      record (command_result r) { status = status_of r.status },
      e,
      refl,
      refl,
      refl,
      refl,
      refl,
      a,
      b,
    )

abbrev identifier_of : PbStatus → ConnectionResponse → String
identifier_of pb_success r = r.identifiers
identifier_of _ r = ""

abbrev connect_result_of : PbStatus → ConnectionResponse → ConnectResult
connect_result_of s r = record (connect_reply r) {
  identifier = identifier_of s r;
  status = status_of s;
}

connect_status_lem :
    (s : PbStatus) (r : ConnectionResponse)
    → let a = connect_status s r in
      let res = connect_result_of s r in
      (a.result ≡ some res)
      × ((res.status ≡ success) ↔ (s ≡ pb_success))
      × ((res.status ≡ failure) ↔ (s ≡ pb_failure))
      × (res.status ≡ success → res.identifier ≡ r.identifiers)
      × (res.status ≢ success → res.identifier ≡ "")
      × ((a.error ≢ none) ↔ (res.status ≡ error))
unfolding connect_status
connect_status_lem pb_success r = ground arith
connect_status_lem _ r = ground arith

-- The identifiers of a connection are taken over only from a success. A result is always given,
-- and an error exactly with the status ERROR.
pub parse_connect_response_lem :
    (r : ConnectionResponse)
    → (res : ConnectResult) × ((parse_connect_response r).result ≡ some res)
      × ((res.status ≡ success) ↔ (r.status ≡ pb_success))
      × ((res.status ≡ failure) ↔ (r.status ≡ pb_failure))
      × (res.status ≡ success → res.identifier ≡ r.identifiers)
      × (res.status ≢ success → res.identifier ≡ "")
      × (((parse_connect_response r).error ≢ none) ↔ (res.status ≡ error))
unfolding parse_connect_response
parse_connect_response_lem r =
    let (e, a, b, c, d, f) = connect_status_lem r.status r in
    (connect_result_of r.status r, e, a, b, c, d, f)
