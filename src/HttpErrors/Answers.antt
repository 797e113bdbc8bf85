-- ===== src/HttpErrors/Answers.antt =====
-- What internal/httputils/errmap.go answers to wrapped errors, to the errors of a job's transition,
-- and to the rate limiter.
use go_max_tech_stack.HttpErrors.{Printing, plain}
use go_max_tech_stack.HttpErrors.Mapping.{
  map_error, map_typed, map_bridge, map_request, map_json, map_domain, map_profile, map_limit,
  retry_secs,
}
use go_max_tech_stack.Failure.{
  Failure, wrapped, rate_limit, find, is, job_not_found, sentinel, transition_conflict,
}
use go_max_tech_stack.JobRepo.{JobRepo, transition}
use go_max_tech_stack.Prelude.{
  ◌+◌, ◌<◌, String, ap, false, refl, some, ℕ, ◌≡◌, ◌⊎◌, Bool-cases, Option-cases, arith, inl, inr,
}
use go_max_tech_stack.Entity.Job.{
  Job, JobTransition, JobStatus, can_transition_job, job_transition_for, other,
}
use go_max_tech_stack.Failure.Result.{err}
use go_max_tech_stack.Prelude.Assoc.{lookup}

-- Wrapping an error by `fmt.Errorf` and %w, however often a layer does it, does not change the
-- response.
map_error_wrapped :
    (print : Printing) (message : String) (e : Failure)
    → map_error print (some (wrapped message e)) ≡ map_error print (some e)
unfolding map_error map_typed map_bridge map_request map_json map_domain map_profile map_limit find
    is
map_error_wrapped print message e = refl

-- The errors of a transition.
refusal-cases :
    (id : ℕ) (i : JobTransition) (f : Job → Job) (r : JobRepo) (e : Failure)
    → (transition id i f r).1 ≡ err e
    → (e ≡ sentinel job_not_found)
      ⊎ ((from to : JobStatus) × (intent : JobTransition) × (e
            ≡ transition_conflict id from to intent))
unfolding transition
refusal-cases id i f r e h = elim (Option-cases (lookup id r.jobs)) [
  | inl n ↦ inl (ground (arith, n, h))
  | inr (job, n) ↦ elim (Option-cases (job_transition_for i)) [
    | inl k ↦ inr (job.status, other "", i, ground (arith, n, k, h))
    | inr (spec, k) ↦ elim (Bool-cases (can_transition_job job.status i)) [
      | inl c ↦ ground (arith, n, k, c, h)
      | inr c ↦ inr (job.status, spec.to, spec.intent, ground (arith, n, k, c, h))
    ]
  ]
]

conflict_answer :
    (print : Printing) (id : ℕ) (from to : JobStatus) (intent : JobTransition)
    → map_error print (some (transition_conflict id from to intent)) ≡ plain 409 "conflict"
unfolding map_error map_typed map_bridge map_request map_json map_domain map_profile map_limit find
    is
conflict_answer print id from to intent = refl

missing_answer :
    (print : Printing) → map_error print (some (sentinel job_not_found)) ≡ plain 404 "not found"
unfolding map_error map_typed map_bridge map_request map_json map_domain map_profile map_limit find
    is
missing_answer print = refl

-- Every refusal of a job's transition is answered by 404 or by 409, and never logged.
transition_answers :
    (print : Printing) (id : ℕ) (i : JobTransition) (f : Job → Job) (r : JobRepo) (e : Failure)
    → (transition id i f r).1 ≡ err e
    → let m = map_error print (some e) in
      ((m.problem.status ≡ 404) ⊎ (m.problem.status ≡ 409)) × (m.log ≡ false)
transition_answers print id i f r e h = elim (refusal-cases id i f r e h) [
  | inl k ↦ rw (k, missing_answer print) (inl refl, refl)
  | inr (from, to, intent, k) ↦ rw (k, conflict_answer print id from to intent) (inr refl, refl)
]

retry_secs-one : (d : ℕ) → d + 999999999 < 1000000000000000000 → retry_secs d ≡ 1
unfolding retry_secs
retry_secs-one d h = ground arith

-- A client that is limited is told to wait one second, however long the limiter asks it to wait,
-- below 999999999 seconds (some 31 years).
retry_after_one :
    (print : Printing) (d : ℕ)
    → d + 999999999 < 1000000000000000000
    → (map_error print (some (rate_limit d))).headers ≡ some ("Retry-After", print.format_int 1)
unfolding map_error map_typed map_bridge map_request map_json map_domain map_profile map_limit find
    is retry_secs
retry_after_one print d h = ap (λ n. some ("Retry-After", print.format_int n)) (retry_secs-one d h)
