-- ===== src/Failure.antt =====
-- The errors of the service as one data type: the sentinel values that packages declare by
-- `errors.New`, and one constructor for each error type. `is` and `find` are `errors.Is` and
-- `errors.As`: a walk of the tree that `Unwrap` spans, in depth-first order.
use go_max_tech_stack.Prelude.{ℕ, String, Bool, false, ◌||◌, ◌==◌, Option, none, some, List}
use go_max_tech_stack.Entity.Job.{JobStatus, JobTransition}
pub mod Result

pub data Sentinel : Type 0 where
  user_not_found job_not_found user_already_exists : Sentinel
  conflict forbidden job_transition_conflict : Sentinel
  queue_full queue_stopped hub_closed pool_not_running pool_stopping : Sentinel
  context_canceled context_deadline_exceeded : Sentinel
  json_empty_body json_trailing_data json_unknown_field json_bad_syntax : Sentinel
  json_type_mismatch json_decode_failure unsupported_media_type streaming_unsupported : Sentinel
  grpc_bridge_unavailable grpc_bridge_timeout grpc_bridge_canceled : Sentinel
  not_acceptable protobuf_unavailable bulkhead_rejected : Sentinel
  profile_timeout profile_canceled profile_network profile_upstream_5xx : Sentinel
  profile_upstream_4xx profile_parse profile_bad_response : Sentinel
  token_signature_invalid token_expired token_not_valid_yet no_kid : Sentinel
  grpc_server_not_running grpc_server_already_started grpc_server_runtime_required : Sentinel
  -- grpc.ErrServerStopped and http.ErrServerClosed.
  grpc_server_stopped http_server_closed : Sentinel

-- The identity of a sentinel, by which `errors.Is` compares.
abbrev pub tag : Sentinel → ℕ
tag user_not_found = 0
tag job_not_found = 1
tag user_already_exists = 2
tag conflict = 3
tag forbidden = 4
tag job_transition_conflict = 5
tag queue_full = 6
tag queue_stopped = 7
tag hub_closed = 8
tag pool_not_running = 9
tag pool_stopping = 10
tag context_canceled = 11
tag context_deadline_exceeded = 12
tag json_empty_body = 13
tag json_trailing_data = 14
tag json_unknown_field = 15
tag json_bad_syntax = 16
tag json_type_mismatch = 17
tag json_decode_failure = 18
tag unsupported_media_type = 19
tag streaming_unsupported = 20
tag grpc_bridge_unavailable = 21
tag grpc_bridge_timeout = 22
tag grpc_bridge_canceled = 23
tag not_acceptable = 24
tag protobuf_unavailable = 25
tag bulkhead_rejected = 26
tag profile_timeout = 27
tag profile_canceled = 28
tag profile_network = 29
tag profile_upstream_5xx = 30
tag profile_upstream_4xx = 31
tag profile_parse = 32
tag profile_bad_response = 33
tag token_signature_invalid = 34
tag token_expired = 35
tag token_not_valid_yet = 36
tag no_kid = 37
tag grpc_server_not_running = 38
tag grpc_server_already_started = 39
tag grpc_server_runtime_required = 40
tag grpc_server_stopped = 41
tag http_server_closed = 42

pub data AuthnErrorKind : Type 0 where
  missing invalid expired not_yet_valid : AuthnErrorKind

pub data AuthzErrorKind : Type 0 where
  denied admin_required no_policy_rule unknown_access : AuthzErrorKind

pub record InvalidParam : Type 0 where
  pub name : String
  pub reason : String

pub data Failure : Type 0 where
  sentinel : Sentinel → Failure
  -- `errors.New` and `fmt.Errorf` with no `%w`, made where the error arises.
  opaque : String → Failure
  -- `fmt.Errorf("...: %w", err)` and `errors.Join`.
  wrapped : String → Failure → Failure
  joined : Failure → Failure → Failure
  -- JobTransitionConflictError, which unwraps to the two sentinels of a conflict.
  transition_conflict : ℕ → JobStatus → JobStatus → JobTransition → Failure
  bad_request : String → Failure
  method_not_allowed : String → Failure
  validation : List InvalidParam → Failure
  -- UnauthorizedError, ForbiddenError and AuthNError, without and with a cause.
  unauthorized : AuthnErrorKind → Failure
  unauthorized_by : AuthnErrorKind → Failure → Failure
  forbidden_for : AuthzErrorKind → Failure
  authn_by : AuthnErrorKind → Failure → Failure
  -- http.MaxBytesError.
  max_bytes : Failure
  -- JSONRequestError with its kind, field and cause.
  json_request : Sentinel → String → Failure
  json_request_by : Sentinel → String → Failure → Failure
  -- RateLimitError with the nanoseconds to wait.
  rate_limit : ℕ → Failure
  -- profile.Error with its kind, status and cause.
  profile_error : Sentinel → ℕ → Failure
  profile_error_by : Sentinel → ℕ → Failure → Failure

abbrev pub same : Sentinel → Sentinel → Bool
same s t = tag s == tag t

-- `errors.Is(err, t)`.
unfoldable pub is : Failure → Sentinel → Bool
is (sentinel s) t = same s t
is (wrapped m e) t = is e t
is (joined e f) t = is e t || is f t
is (transition_conflict j s u i) t = same job_transition_conflict t || same conflict t
is (unauthorized_by k e) t = is e t
is (authn_by k e) t = is e t
is (json_request k f) t = same k t
is (json_request_by k f e) t = same k t || is e t
is (profile_error k n) t = same k t
is (profile_error_by k n e) t = same k t || is e t
is (opaque m) t = false
is (bad_request d) t = false
is (method_not_allowed a) t = false
is (validation ps) t = false
is (unauthorized k) t = false
is (forbidden_for k) t = false
is max_bytes t = false
is (rate_limit d) t = false

abbrev pub or_else {ℓ} : {A : Type ℓ} → Option A → Option A → Option A
or_else (some a) o = some a
or_else none o = o

-- `errors.As`: the first node of the tree that `pick` accepts.
unfoldable pub find {ℓ} : {A : Type ℓ} → (Failure → Option A) → Failure → Option A
find pick (wrapped m e) = or_else (pick (wrapped m e)) (find pick e)
find pick (joined e f) = or_else (pick (joined e f)) (or_else (find pick e) (find pick f))
find pick (unauthorized_by k e) = or_else (pick (unauthorized_by k e)) (find pick e)
find pick (authn_by k e) = or_else (pick (authn_by k e)) (find pick e)
find pick (json_request_by k f e) = or_else (pick (json_request_by k f e)) (find pick e)
find pick (profile_error_by k n e) = or_else (pick (profile_error_by k n e)) (find pick e)
find pick e = pick e
