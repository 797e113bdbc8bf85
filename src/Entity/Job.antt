-- ===== src/Entity/Job.antt =====
-- internal/entity/job.go: a job's status, its transitions and its record.
use go_max_tech_stack.Prelude.{
  ℕ, String, Bool, true, false, ◌||◌, Option, none, some, List, [], ◌∷◌, str_eq, if◌then◌else◌,
}

-- A Go string; `other` stands for every text but the four constants.
pub data JobStatus : Type 0 where
  queued running succeeded failed : JobStatus
  other : String → JobStatus

-- The comparison `==` of two statuses.
unfoldable pub status_eq : JobStatus → JobStatus → Bool
status_eq queued queued = true
status_eq running running = true
status_eq succeeded succeeded = true
status_eq failed failed = true
status_eq (other s) (other t) = str_eq s t
status_eq _ _ = false

pub data JobTransition : Type 0 where
  start succeed fail : JobTransition
  unknown : String → JobTransition

pub record JobTransitionSpec : Type 0 where
  pub intent : JobTransition
  pub from : List JobStatus
  pub to : JobStatus

unfoldable pub is_terminal : JobStatus → Bool
unfolding status_eq
is_terminal s = status_eq s succeeded || status_eq s failed

-- The map `jobTransitionSpecs` and the look-up in it; `none` is `ok == false`.
unfoldable pub job_transition_for : JobTransition → Option JobTransitionSpec
job_transition_for start = some (record { intent = start; from = queued ∷ []; to = running })
job_transition_for succeed = some (record { intent = succeed; from = running ∷ []; to = succeeded })
job_transition_for fail = some (record { intent = fail; from = queued ∷ running ∷ []; to = failed })
job_transition_for (unknown s) = none

-- The loop over `spec.From`.
unfoldable pub allowed_from : JobStatus → List JobStatus → Bool
unfolding status_eq
allowed_from from [] = false
allowed_from from (s ∷ rest) = if status_eq from s then true else allowed_from from rest

unfoldable pub can_transition_job : JobStatus → JobTransition → Bool
unfolding job_transition_for allowed_from
can_transition_job from intent = elim (job_transition_for intent) [
  | none ↦ false
  | some spec ↦ allowed_from from spec.from
]

pub record JobInvalidParam : Type 0 where
  pub name : String
  pub reason : String

pub record JobProblem : Type 0 where
  pub type : String
  pub title : String
  pub status : ℕ
  pub detail : String
  pub instance_uri : String
  pub request_id : String
  pub invalid_params : List JobInvalidParam

pub record JobResult : Type 0 where
  pub user_id : ℕ

-- Ids are `int64`, kept as their 64-bit patterns.
pub record Job : Type 0 where
  pub id : ℕ
  pub status : JobStatus
  pub result : Option JobResult
  pub error : Option JobProblem
  pub owner_user_id : ℕ
