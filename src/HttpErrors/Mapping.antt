-- ===== src/HttpErrors/Mapping.antt =====
-- `MapError` of internal/httputils/errmap.go.
use Prim.Native.String.{◌++◌}
use go_max_tech_stack.Failure.{
  Failure, is, bulkhead_rejected, conflict, find, forbidden, grpc_bridge_canceled,
  grpc_bridge_timeout, grpc_bridge_unavailable, hub_closed, job_not_found, json_bad_syntax,
  json_decode_failure, json_empty_body, json_trailing_data, json_type_mismatch, json_unknown_field,
  not_acceptable, or_else, profile_bad_response, profile_canceled, profile_network, profile_parse,
  profile_timeout, profile_upstream_4xx, profile_upstream_5xx, protobuf_unavailable, queue_full,
  queue_stopped, streaming_unsupported, unsupported_media_type, user_not_found,
}
use go_max_tech_stack.HttpErrors.{
  MappedProblem, Printing, answer, plain, problem, as_bad_request, as_forbidden, as_json_request,
  as_max_bytes, as_method_not_allowed, as_rate_limit, as_unauthorized, as_validation,
  method_problem, unauthorized_problem, validation_problem,
}
use go_max_tech_stack.Prelude.{
  ◌+◌, ◌/◌, Option, String, false, if◌then◌else◌, ltb, none, some, str_eq, true, u64, ℕ,
}
use go_max_tech_stack.Negotiation.Choice.{named}

-- 1) The typed errors of the handlers and of the security package.
unfoldable pub map_typed : Failure → Option MappedProblem
unfolding find
map_typed e = or_else (answer as_bad_request (λ detail. plain 400 detail) e) (
    or_else (answer as_method_not_allowed method_problem e) (
      or_else (answer as_unauthorized unauthorized_problem e) (
        or_else (answer as_forbidden (λ kind. plain 403 "forbidden") e)
          (answer as_validation validation_problem e))))

-- The bridge to gRPC.
unfoldable pub map_bridge : Failure → Option MappedProblem
unfolding is
map_bridge e =
    if is e grpc_bridge_unavailable
    then some (plain 503 "grpc bridge unavailable")
    else if is e grpc_bridge_timeout
    then some (plain 504 "grpc bridge timeout")
    else if is e grpc_bridge_canceled
    then some (plain 408 "request canceled")
    else none

-- 2) and 3) The body's size and type, and streaming.
unfoldable pub map_request : Failure → Option MappedProblem
unfolding find is
map_request e = or_else (answer as_max_bytes (λ u. plain 413 "request body too large") e) (
    if is e unsupported_media_type
    then some (plain 415 "Content-Type must be application/json")
    else if is e streaming_unsupported
    then some (plain 500 "streaming is not supported")
    else if is e hub_closed
    then some (plain 503 "stream hub is closed")
    else none)

-- The detail of a JSON error: with the field, where the error names one.
abbrev pub with_field : String → (String → String) → Option String → String
with_field bare named none = bare
with_field bare named (some field) = if str_eq field "" then bare else named field

-- 4) The decoding of JSON.
unfoldable pub map_json : Printing → Failure → Option MappedProblem
unfolding find is
map_json print e =
    if is e json_empty_body
    then some (plain 400 "request body must not be empty")
    else if is e json_bad_syntax
    then some (plain 400 "malformed JSON")
    else if is e json_unknown_field
    then some (
        plain 400 (
          with_field "unknown field" (λ f. "unknown field " ++ print.quoted f)
            (find as_json_request e)))
    else if is e json_type_mismatch
    then some (
        plain 400 (
          with_field "invalid JSON type" (λ f. "invalid JSON type for field " ++ print.quoted f)
            (find as_json_request e)))
    else if is e json_trailing_data
    then some (plain 400 "request body must contain a single JSON value")
    else if is e json_decode_failure
    then some (plain 400 "invalid request body")
    else none

-- 5) The domain; `apperr.ErrNotFound` is `entity.ErrUserNotFound`.
unfoldable pub map_domain : Failure → Option MappedProblem
unfolding is
map_domain e =
    if is e user_not_found
    then some (plain 404 "not found")
    else if is e conflict
    then some (plain 409 "conflict")
    else if is e forbidden
    then some (plain 403 "forbidden")
    else if is e queue_full
    then some (plain 503 "queue is full")
    else if is e queue_stopped
    then some (plain 503 "queue is stopped")
    else if is e job_not_found
    then some (plain 404 "not found")
    else none

-- The outbound profile service and content negotiation.
unfoldable pub map_profile : Failure → Option MappedProblem
unfolding is
map_profile e =
    if is e profile_timeout
    then some (plain 503 "profile service timeout")
    else if is e profile_canceled
    then some (plain 408 "request canceled")
    else if is e profile_upstream_5xx
    then some (plain 502 "profile service error")
    else if is e profile_upstream_4xx
    then some (plain 502 "profile service returned 4xx")
    else if is e profile_bad_response
    then some (plain 502 "profile service bad response")
    else if is e not_acceptable
    then some
        (plain 406 "unsupported Accept header; supported: application/json, application/protobuf")
    else if is e protobuf_unavailable
    then some (plain 500 "protobuf response is not available")
    else if is e profile_network
    then some (plain 503 "profile service unavailable")
    else if is e profile_parse
    then some (plain 502 "profile service parse error")
    else none

-- `time.Second` in nanoseconds, and the seconds that the code computes: it divides by
-- `time.Second` twice. A negative sum is not below 2^63 as a bit pattern, and gives less than 1.
abbrev pub second : ℕ
second = 1000000000

unfoldable pub retry_secs : ℕ → ℕ
retry_secs d =
    let sum = u64 (d + 999999999) in
    let secs = if ltb sum 9223372036854775808 then sum / second / second else 0 in
    if ltb secs 1 then 1 else secs

abbrev pub rate_limit_problem : Printing → ℕ → MappedProblem
rate_limit_problem print d = record {
  problem = problem 429 "too many requests";
  headers = some ("Retry-After", print.format_int (retry_secs d));
  log = false;
}

unfoldable pub map_limit : Printing → Failure → Option MappedProblem
unfolding find is retry_secs
map_limit print e =
    or_else (answer as_rate_limit (rate_limit_problem print) e)
      (if is e bulkhead_rejected then some (plain 503 "bulkhead rejected") else none)

-- 6) What nobody expects, which alone is logged.
abbrev pub unexpected : MappedProblem
unexpected = record { problem = problem 500 "internal server error"; headers = none; log = true }

abbrev pub or_unexpected : Option MappedProblem → MappedProblem
or_unexpected none = unexpected
or_unexpected (some m) = m

-- All after the typed errors.
abbrev pub map_untyped : Printing → Failure → Option MappedProblem
map_untyped print e = or_else (map_bridge e) (
    or_else (map_request e) (
      or_else (map_json print e)
        (or_else (map_domain e) (or_else (map_profile e) (map_limit print e)))))

unfoldable pub map_error : Printing → Option Failure → MappedProblem
unfolding map_typed map_bridge map_request map_json map_domain map_profile map_limit
map_error print none = unexpected
map_error print (some e) = or_unexpected (or_else (map_typed e) (map_untyped print e))
