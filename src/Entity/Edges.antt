-- ===== src/Entity/Edges.antt =====
-- The life cycle of internal/entity/job.go as a relation, independent of the table of transitions.
use go_max_tech_stack.Prelude.{◌≡◌, refl, true, false, some, arith}
use go_max_tech_stack.Entity.Job.{
  JobStatus, queued, running, succeeded, failed, other, JobTransition, start, succeed, fail,
  unknown, JobTransitionSpec, is_terminal, job_transition_for, can_transition_job,
}

-- `Edge i s t`: the intent `i` takes a job from `s` to `t`.
pub data Edge : JobTransition → JobStatus → JobStatus → Type 0 where
  begins : Edge start queued running
  finishes : Edge succeed running succeeded
  drops : Edge fail queued failed
  breaks : Edge fail running failed

-- Any number of transitions.
pub data Path* : JobStatus → JobStatus → Type 0 where
  here : {s : JobStatus} → Path* s s
  next : {i : JobTransition} {s t u : JobStatus} → Edge i s t → Path* t u → Path* s u

-- The table allows an intent at a status, with the target that it names, exactly on the edges.
pub can_transition_job-Edge :
    (i : JobTransition) (s : JobStatus)
    → can_transition_job s i ≡ true
    → (spec : JobTransitionSpec) × (job_transition_for i ≡ some spec) × Edge i s spec.to
unfolding can_transition_job
can_transition_job-Edge start queued h = (_, refl, begins)
can_transition_job-Edge start running h = cc
can_transition_job-Edge start succeeded h = cc
can_transition_job-Edge start failed h = cc
can_transition_job-Edge start (other x) h = cc
can_transition_job-Edge succeed running h = (_, refl, finishes)
can_transition_job-Edge succeed queued h = cc
can_transition_job-Edge succeed succeeded h = cc
can_transition_job-Edge succeed failed h = cc
can_transition_job-Edge succeed (other x) h = cc
can_transition_job-Edge fail queued h = (_, refl, drops)
can_transition_job-Edge fail running h = (_, refl, breaks)
can_transition_job-Edge fail succeeded h = cc
can_transition_job-Edge fail failed h = cc
can_transition_job-Edge fail (other x) h = cc
can_transition_job-Edge (unknown x) s h = cc

pub Edge-can_transition_job :
    {i : JobTransition} {s t : JobStatus} → Edge i s t → can_transition_job s i ≡ true
unfolding can_transition_job
Edge-can_transition_job begins = refl
Edge-can_transition_job finishes = refl
Edge-can_transition_job drops = refl
Edge-can_transition_job breaks = refl

-- No intent leaves a terminal status.
pub can_transition_job-IsTerminal :
    (i : JobTransition) (s : JobStatus) → is_terminal s ≡ true → can_transition_job s i ≡ false
unfolding can_transition_job is_terminal
can_transition_job-IsTerminal i queued h = cc
can_transition_job-IsTerminal i running h = cc
can_transition_job-IsTerminal i (other x) h = cc
can_transition_job-IsTerminal i succeeded h = ground arith
can_transition_job-IsTerminal i failed h = ground arith
