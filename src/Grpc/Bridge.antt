-- ===== src/Grpc/Bridge.antt =====
-- The bridge to gRPC answers as the handler that reads the job itself.
use go_max_tech_stack.Grpc.{
  Reply, get_job_rpc, unary_authenticate, bearer_token_from_incoming_metadata, get_by_id_via_grpc,
  JobBridgeDto, map_job_status, map_pb_job_status, outgoing, map_status,
}
use go_max_tech_stack.Handlers.Lookup.{find_readable_job}
use go_max_tech_stack.JobService.{JobRepository, memory_repository}
use go_max_tech_stack.JobRepo.{JobRepo}
use go_max_tech_stack.Entity.Job.{Job, JobStatus, failed, other, queued, running, succeeded}
use go_max_tech_stack.Security.{Principal, can_read_job}
use go_max_tech_stack.Security.Access.{parse_bearer_token}
use go_max_tech_stack.Prelude.Assoc.{lookup}
use go_max_tech_stack.Failure.{is}
use go_max_tech_stack.Failure.Result.{Result, ok, err}
use go_max_tech_stack.Text.{Text, trim_space, text_eq}
use go_max_tech_stack.Text.Laws.{text_eq_iff}
use go_max_tech_stack.Prelude.{
  ◌<◌, Bool-cases, List, Option-cases, [], arith, false, inl, inr, int64, is_le_zero, some, subst,
  ℕ, ◌≡◌, refl, String, ap,
}
use go_max_tech_stack.JobService
use go_max_tech_stack.JobRepo

-- The text of a job's status in the API, as internal/entity/job.go spells it; a status that is none
-- of the four has no text of its own.
abbrev pub status_text : JobStatus → String
status_text queued = "queued"
status_text running = "running"
status_text succeeded = "succeeded"
status_text failed = "failed"
status_text (other s) = "unknown"

-- Over the wire and back.
status_round_trip : (s : JobStatus) → map_pb_job_status (map_job_status s) ≡ status_text s
unfolding map_pb_job_status map_job_status
status_round_trip queued = refl
status_round_trip running = refl
status_round_trip succeeded = refl
status_round_trip failed = refl
status_round_trip (other s) = refl

-- The body for a job.
abbrev pub shown : ℕ → String → Result JobBridgeDto
shown id status = ok (record { id = id; status = status; source = "grpc" })

-- What a client is shown of a job that is read.
abbrev pub bridged : Result Job → Result JobBridgeDto
bridged (err e) = err e
bridged (ok job) = shown job.id (status_text job.status)

-- The server as a client sees it.
abbrev pub server : (Text → Result Principal) → JobRepo → List Text → ℕ → Reply
server check_token r values id =
    unary_authenticate check_token (λ p. get_job_rpc memory_repository (some p) id r) (some values)

parse-nil : (token : Text) → parse_bearer_token [] ≡ ok token → ⊥
unfolding parse_bearer_token text_eq trim_space
parse-nil token h = cc h

outgoing-token :
    (header token : Text)
    → parse_bearer_token (trim_space header) ≡ ok token
    → bearer_token_from_incoming_metadata (some (outgoing header)) ≡ ok token
unfolding bearer_token_from_incoming_metadata
outgoing-token header token h = elim (Bool-cases (text_eq (trim_space header) [])) [
  | inl b ↦ absurd (
      parse-nil token
        (subst (λ x. parse_bearer_token x ≡ ok token) ((text_eq_iff (trim_space header) []).0 b) h))
  | inr b ↦ rw b h
]

authenticated :
    (check_token : Text → Result Principal) (header token : Text) (p : Principal) (id : ℕ)
    (r : JobRepo)
    → parse_bearer_token (trim_space header) ≡ ok token
    → check_token token ≡ ok p
    → server check_token r (outgoing header) id ≡ get_job_rpc memory_repository (some p) id r
unfolding unary_authenticate
authenticated check_token header token p id r parsed checked =
    rw (outgoing-token header token parsed, unary_authenticate)
      (rw (checked, unary_authenticate) refl)

-- The reply to the owner, and to others.
get_job_rpc-bridged :
    (header : Text) (p : Principal) (id : ℕ) (r : JobRepo)
    → is_le_zero (int64 id) ≡ false
    → get_by_id_via_grpc (some (λ v i. get_job_rpc memory_repository (some p) id r)) header id
      ≡ bridged (find_readable_job memory_repository (some p) id r)
unfolding get_by_id_via_grpc get_job_rpc find_readable_job JobService.get_by_id JobRepo.get_by_id is
    map_status
get_job_rpc-bridged header p id r fine = elim (Option-cases (lookup id r.jobs)) [
  | inl n ↦ rw (fine, n) (rw (n, find_readable_job) refl)
  | inr (job, n) ↦ elim (Bool-cases (can_read_job p job.owner_user_id)) [
    | inl b ↦
        rw (fine, n)
          (rw (n, find_readable_job) (rw b (ap (shown job.id) (status_round_trip job.status))))
    | inr b ↦ rw (fine, n) (rw (n, find_readable_job) (rw b refl))
  ]
]

-- Over the memory repository, and a transport that delivers what the server replies, a caller with a
-- valid token gets from the bridge what the handler that reads the job itself finds: the job's id with
-- the text of its status, or the same error. The id is a positive int64, and the header carries the
-- bearer token that the server accepts.
pub bridge_agrees :
    (check_token : Text → Result Principal) (header token : Text) (p : Principal) (id : ℕ)
    (r : JobRepo)
    → parse_bearer_token (trim_space header) ≡ ok token
    → check_token token ≡ ok p
    → 0 < id
    → id < 9223372036854775808
    → get_by_id_via_grpc (some (server check_token r)) header id
      ≡ bridged (find_readable_job memory_repository (some p) id r)
unfolding get_by_id_via_grpc
bridge_agrees check_token header token p id r parsed checked positive small =
    rw (authenticated check_token header token p id r parsed checked, get_by_id_via_grpc)
      (get_job_rpc-bridged header p id r (ground (arith, positive, small)))
