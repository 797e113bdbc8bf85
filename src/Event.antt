-- ===== src/Event.antt =====
-- The events of internal/stream/stream.go as the handlers and the workers publish them, and the
-- counters of internal/metrics/jobobserver.go. An event's `At`, the time of the call, is left out.
use go_max_tech_stack.Prelude.{String, ℕ}
use go_max_tech_stack.Entity.Job.{
  JobProblem, JobResult, JobStatus, failed, other, queued, running, succeeded,
}

-- `string(status)`.
abbrev pub status_text : JobStatus → String
status_text queued = "queued"
status_text running = "running"
status_text succeeded = "succeeded"
status_text failed = "failed"
status_text (other s) = s

-- What `Data` holds.
pub data Data : Type 0 where
  nothing : Data
  result : JobResult → Data
  problem : JobProblem → Data

pub record Event : Type 0 where
  pub type : String
  pub job_id : ℕ
  pub payload : Data

abbrev pub event : JobStatus → ℕ → Data → Event
event status id payload = record { type = status_text status; job_id = id; payload = payload }

-- How often each counter of the observer has been called; `ObserveProcessing`, which takes a time, is
-- left out.
pub record JobsObserver : Type 0 where
  pub queued : ℕ
  pub running : ℕ
  pub succeeded : ℕ
  pub failed : ℕ
