-- ===== src/Grpc.antt =====
-- The look-up of a job over gRPC: internal/interceptors/auth.go, which authenticates a call,
-- internal/transport/grpcserver/grpc_job_service.go, which answers it, and the bridge from HTTP,
-- GetByIDViaGRPC of internal/routes/job_handler.go with internal/httputils/grpc_bridge_error.go.
-- The transport of google.golang.org/grpc is a parameter: what a client's call of GetJob returns. The
-- request id that the bridge passes on, and the id in the text of a status, are left out.
-- `Grpc.Bridge` compares the bridge with the handler that reads the job itself.
use go_max_tech_stack.Security.{Principal, can_read_job, authn_kind, unauthorized_from_verify_err}
use go_max_tech_stack.Security.Access.{parse_bearer_token}
use go_max_tech_stack.JobService.{JobRepository, get_by_id}
use go_max_tech_stack.Entity.Job.{Job, JobStatus, queued, running, succeeded, failed, other}
use go_max_tech_stack.Failure.{
  Failure, is, sentinel, opaque, unauthorized, missing, invalid, forbidden_for, denied, bad_request,
  job_not_found, context_canceled, context_deadline_exceeded, grpc_bridge_canceled,
  grpc_bridge_timeout, grpc_bridge_unavailable, AuthnErrorKind,
}
use go_max_tech_stack.Failure.Result.{Result, ok, err}
use go_max_tech_stack.Text.{Text, trim_space, text_eq}
use go_max_tech_stack.Prelude.{
  Bool, List, Option, String, [], false, if◌then◌else◌, int64, is_le_zero, none, not, some, true, ℕ,
  ◌∷◌,
}
use go_max_tech_stack.JobService
pub mod Bridge
pub mod Runtime
pub mod Server
pub mod Loaded
mod Local
mod Examples

pub data Code : Type 0 where
  code_canceled code_invalid_argument code_deadline_exceeded code_not_found : Code
  code_permission_denied code_internal code_unavailable code_unauthenticated : Code
  other_code : ℕ → Code

pub data PbJobStatus : Type 0 where
  pb_unspecified pb_queued pb_running pb_succeeded pb_failed : PbJobStatus

pub record PbJob : Type 0 where
  pub id : ℕ
  pub status : PbJobStatus

-- An error of a call is a status, or an error of the client that is none.
pub data Reply : Type 0 where
  replied : PbJob → Reply
  status_error : Code → String → Reply
  plain_error : Failure → Reply

unfoldable pub map_job_status : JobStatus → PbJobStatus
map_job_status queued = pb_queued
map_job_status running = pb_running
map_job_status succeeded = pb_succeeded
map_job_status failed = pb_failed
map_job_status (other s) = pb_unspecified

unfoldable pub map_pb_job_status : PbJobStatus → String
map_pb_job_status pb_queued = "queued"
map_pb_job_status pb_running = "running"
map_pb_job_status pb_succeeded = "succeeded"
map_pb_job_status pb_failed = "failed"
map_pb_job_status pb_unspecified = "unknown"

abbrev pub is_missing : Option AuthnErrorKind → Bool
is_missing (some missing) = true
is_missing kind = false

unfoldable pub grpc_unauthenticated : Failure → Reply
unfolding authn_kind
grpc_unauthenticated e =
    if is_missing (authn_kind e)
    then status_error code_unauthenticated "authentication required"
    else status_error code_unauthenticated "invalid bearer token"

-- `none` is a call without metadata; the list holds the values of "authorization".
unfoldable pub bearer_token_from_incoming_metadata : Option (List Text) → Result Text
bearer_token_from_incoming_metadata none = err (unauthorized missing)
bearer_token_from_incoming_metadata (some []) = err (unauthorized missing)
bearer_token_from_incoming_metadata (some (value ∷ [])) = parse_bearer_token value
bearer_token_from_incoming_metadata (some (v ∷ w ∷ rest)) = err (unauthorized invalid)

unfoldable pub unary_authenticate :
    (Text → Result Principal) → (Principal → Reply) → Option (List Text) → Reply
unfolding bearer_token_from_incoming_metadata grpc_unauthenticated unauthorized_from_verify_err
unary_authenticate check_token handler md = elim (bearer_token_from_incoming_metadata md) [
  | err e ↦ grpc_unauthenticated e
  | ok token ↦ elim (check_token token) [
    | err e ↦ grpc_unauthenticated (unauthorized_from_verify_err e)
    | ok p ↦ handler p
  ]
]

abbrev pub lookup_error : Failure → Reply
lookup_error e =
    if is e context_canceled
    then status_error code_canceled "request canceled"
    else if is e context_deadline_exceeded
    then status_error code_deadline_exceeded "deadline exceeded"
    else if is e job_not_found
    then status_error code_not_found "job not found"
    else status_error code_internal "internal error"

module _ {R : Type 0} (jobs : JobRepository R) where
  -- The request is not nil.
  unfoldable pub get_job_rpc : Option Principal → ℕ → R → Reply
  unfolding is
  get_job_rpc none id r = status_error code_unauthenticated "authentication required"
  get_job_rpc (some p) id r =
      if is_le_zero (int64 id)
      then status_error code_invalid_argument "job ID must be positive"
      else elim (JobService.get_by_id jobs id r) [
        | err e ↦ lookup_error e
        | ok job ↦
            if not (can_read_job p job.owner_user_id)
            then status_error code_permission_denied "permission denied"
            else replied (record { id = job.id; status = map_job_status job.status })
      ]

unfoldable pub map_status : Code → String → Failure
map_status code_invalid_argument message = bad_request message
map_status code_not_found message = sentinel job_not_found
map_status code_permission_denied message = forbidden_for denied
map_status code_unauthenticated message = unauthorized invalid
map_status code_canceled message = sentinel grpc_bridge_canceled
map_status code_deadline_exceeded message = sentinel grpc_bridge_timeout
map_status code_unavailable message = sentinel grpc_bridge_unavailable
map_status code_internal message = opaque message
map_status (other_code n) message = opaque message

unfoldable pub map_plain : Failure → Failure
unfolding is
map_plain e =
    if is e context_canceled
    then sentinel grpc_bridge_canceled
    else if is e context_deadline_exceeded
    then sentinel grpc_bridge_timeout
    else e

pub record JobBridgeDto : Type 0 where
  pub id : ℕ
  pub status : String
  pub source : String

abbrev pub outgoing : Text → List Text
outgoing header = if text_eq (trim_space header) [] then [] else trim_space header ∷ []

unfoldable pub get_by_id_via_grpc : Option (List Text → ℕ → Reply) → Text → ℕ → Result JobBridgeDto
unfolding map_status map_plain
get_by_id_via_grpc none header id = err (sentinel grpc_bridge_unavailable)
get_by_id_via_grpc (some client) header id = elim (client (outgoing header) id) [
  | plain_error e ↦ err (map_plain e)
  | status_error code message ↦ err (map_status code message)
  | replied job ↦
      ok (record { id = job.id; status = map_pb_job_status job.status; source = "grpc" })
]
