-- ===== src/JobRepo/Lifecycle.antt =====
-- What the calls of internal/store/jobrepo/memory_job_repo.go do to each job.
use go_max_tech_stack.Prelude.{
  ◌==◌, Bool-cases, inl, inr, some, true, ℕ, ◌∙◌, ◌≡◌, ◌≢◌, ◌<◌, ==_iff, Option-cases, ap, arith,
  refl, subst, All, List, [], ◌∷◌, false, ◌⊎◌,
}
use go_max_tech_stack.JobRepo.Step.{
  Call, Moved, deletes, fails, fails_active, moved, refused, saves, starts, succeeds, step,
  transition-Moved, run,
}
use go_max_tech_stack.Entity.Edges.{Edge, begins, breaks, drops, finishes, Path*, here, next}
use go_max_tech_stack.Entity.Job.{
  Job, JobTransition, can_transition_job, start, JobProblem, JobResult, JobStatus, fail, failed,
  other, queued, running, status_eq, succeed, succeeded, is_terminal,
}
use go_max_tech_stack.JobRepo.{
  JobRepo, delete, save, set_failed, set_running, set_succeeded, to_failed, to_running,
  to_succeeded, transition,
}
use go_max_tech_stack.Prelude.Assoc.{lookup, lookup-insert, Entries-lookup, lookup-remove_ne}
use go_max_tech_stack.JobRepo.Invariant.{Allowed, IsNew, IsValid, step-IsValid}
use go_max_tech_stack.JobRepo.Shutdown.{lookup-fail_active, map_option, repaired}
use go_max_tech_stack.Failure.Result.{Result, ok}

-- The call neither deletes the job `id` nor, being a save of a new job, writes it.
abbrev pub Leaves : ℕ → Call → Type 0
Leaves id (saves job) = Unit
Leaves id (deletes k) = k ≢ id
Leaves id (starts k) = Unit
Leaves id (succeeds k res) = Unit
Leaves id (fails k p) = Unit
Leaves id (fails_active p) = Unit

-- One job stays as it is, or moves along one edge and keeps its id and its owner.
pub data Advance (j : Job) : Job → Type 0 where
  stays : Advance j j
  moves :
      {j' : Job} (i : JobTransition)
      → Edge i j.status j'.status
      → j'.id ≡ j.id
      → j'.owner_user_id ≡ j.owner_user_id
      → Advance j j'

-- After a call the job `id` is still there, and has advanced.
pub record Kept (id : ℕ) (j : Job) (r : JobRepo) : Type 0 where
  pub job : Job
  pub found : lookup id r.jobs ≡ some job
  pub advance : Advance j job

-- The job that a transition writes moves along an edge of its intent.
abbrev Moves : JobTransition → (Job → Job) → Type 0
Moves i f = (job : Job) → can_transition_job job.status i ≡ true → Advance job (f job)

Moved-Kept :
    (id k : ℕ) (i : JobTransition) (f : Job → Job) (r : JobRepo) (out : JobRepo × Result (Unit {0}))
    (j : Job)
    → Moves i f
    → lookup id r.jobs ≡ some j
    → Moved k i f r out
    → Kept id j out.0
Moved-Kept id k i f r out j go e (refused x) = record { job = j; found = e; advance = stays }
Moved-Kept id k i f r out j go e (moved job found can) = elim (Bool-cases (k == id)) [
  | inl hit ↦
      let same_job : job ≡ j = cc ((==_iff k id).0 hit) in
      record {
        job = f job;
        found = lookup-insert k id (f job) r.jobs ∙ rw hit refl;
        advance = subst (λ x. Advance x (f job)) same_job (go job can);
      }
  | inr miss ↦ record {
    job = j;
    found = lookup-insert k id (f job) r.jobs ∙ rw miss e;
    advance = stays;
  }
]

-- An edge of the intent, from what the table allows to the status that the call writes.
start-Edge : (s : JobStatus) → can_transition_job s start ≡ true → Edge start s running
unfolding can_transition_job
start-Edge queued can = begins
start-Edge running can = cc
start-Edge succeeded can = cc
start-Edge failed can = cc
start-Edge (other x) can = cc

succeed-Edge : (s : JobStatus) → can_transition_job s succeed ≡ true → Edge succeed s succeeded
unfolding can_transition_job
succeed-Edge running can = finishes
succeed-Edge queued can = cc
succeed-Edge succeeded can = cc
succeed-Edge failed can = cc
succeed-Edge (other x) can = cc

fail-Edge : (s : JobStatus) → can_transition_job s fail ≡ true → Edge fail s failed
unfolding can_transition_job
fail-Edge queued can = drops
fail-Edge running can = breaks
fail-Edge succeeded can = cc
fail-Edge failed can = cc
fail-Edge (other x) can = cc

to_running-Moves : Moves start to_running
to_running-Moves job can = moves start (start-Edge job.status can) refl refl

to_succeeded-Moves : (res : JobResult) → Moves succeed (to_succeeded res)
to_succeeded-Moves res job can = moves succeed (succeed-Edge job.status can) refl refl

to_failed-Moves : (p : JobProblem) → Moves fail (to_failed p)
to_failed-Moves p job can = moves fail (fail-Edge job.status can) refl refl

transition-Kept :
    (id k : ℕ) (i : JobTransition) (f : Job → Job) (r : JobRepo) (j : Job)
    → Moves i f
    → lookup id r.jobs ≡ some j
    → Kept id j (transition k i f r).0
transition-Kept id k i f r j go e =
    Moved-Kept id k i f r (transition k i f r) j go e (transition-Moved k i f r)

repaired-Advance : (p : JobProblem) (j : Job) → Advance j (repaired p j)
unfolding status_eq
repaired-Advance p j = go j.status refl
  where
    go : (s : JobStatus) → j.status ≡ s → Advance j (repaired p j)
    go queued e = rw e (moves fail drops refl refl)
    go running e = rw e (moves fail breaks refl refl)
    go succeeded e = rw e stays
    go failed e = rw e stays
    go (other x) e = rw e stays

save-Kept :
    (id : ℕ) (job j : Job) (r : JobRepo)
    → IsNew r job
    → IsValid r
    → lookup id r.jobs ≡ some j
    → Kept id j (save job r).0
unfolding save
save-Kept id job j r n v e = rw n.no_id record {
  job = j;
  found =
      lookup-insert r.next_id id _ r.jobs
      ∙ ground (arith, Entries-lookup (λ k _. k < r.next_id) id j r.jobs v.fresh e, e);
  advance = stays;
}

delete-Kept :
    (id k : ℕ) (j : Job) (r : JobRepo)
    → k ≢ id
    → lookup id r.jobs ≡ some j
    → Kept id j (delete k r).0
unfolding delete
delete-Kept id k j r ne e = elim (Option-cases (lookup k r.jobs)) [
  | inl x ↦ rw (x, delete) record { job = j; found = e; advance = stays }
  | inr (w, x) ↦
      rw (x, delete)
        record { job = j; found = lookup-remove_ne k id r.jobs ne ∙ e; advance = stays }
]

-- A call keeps every job that it does not delete, and moves it along one edge of the life cycle
-- at most, its id and owner unchanged. The call must be one that the service makes, on a valid
-- repository.
pub step-Kept :
    (id : ℕ) (j : Job) (r : JobRepo) (c : Call)
    → IsValid r
    → Allowed r c
    → Leaves id c
    → lookup id r.jobs ≡ some j
    → Kept id j (step r c)
unfolding step set_running set_succeeded set_failed
step-Kept id j r (saves job) v n l e = save-Kept id job j r n v e
step-Kept id j r (deletes k) v n l e = delete-Kept id k j r l e
step-Kept id j r (starts k) v n l e = transition-Kept id k start to_running r j to_running-Moves e
step-Kept id j r (succeeds k res) v n l e =
    transition-Kept id k succeed (to_succeeded res) r j (to_succeeded-Moves res) e
step-Kept id j r (fails k p) v n l e =
    transition-Kept id k fail (to_failed p) r j (to_failed-Moves p) e
step-Kept id j r (fails_active p) v n l e = record {
  job = repaired p j;
  found = lookup-fail_active p id r ∙ ap (map_option (repaired p)) e;
  advance = repaired-Advance p j;
}

-- The calls of a history are all ones that the service makes, each at the state that it meets.
abbrev pub AllowedRun : JobRepo → List Call → Type 0
AllowedRun r [] = Unit
AllowedRun r (c ∷ cs) = Allowed r c × AllowedRun (step r c) cs

pub run-IsValid : (r : JobRepo) (cs : List Call) → AllowedRun r cs → IsValid r → IsValid (run r cs)
unfolding run
run-IsValid r [] a v = v
run-IsValid r (c ∷ cs) a v = run-IsValid (step r c) cs a.1 (step-IsValid r c a.0 v)

-- One job before and after a history: its status has followed the life cycle, and it has not
-- changed at all if it was terminal.
pub record Lived (id : ℕ) (j : Job) (r : JobRepo) : Type 0 where
  pub job : Job
  pub found : lookup id r.jobs ≡ some job
  pub path : Path* j.status job.status
  pub owned : job.owner_user_id ≡ j.owner_user_id
  pub final : (is_terminal j.status ≡ false) ⊎ (job ≡ j)

Edge-is_terminal : {i : JobTransition} {s t : JobStatus} → Edge i s t → is_terminal s ≡ false
unfolding is_terminal
Edge-is_terminal begins = refl
Edge-is_terminal finishes = refl
Edge-is_terminal drops = refl
Edge-is_terminal breaks = refl

Lived-Advance : (id : ℕ) (j k : Job) (r : JobRepo) → Advance j k → Lived id k r → Lived id j r
Lived-Advance id j k r stays l = l
Lived-Advance id j k r (moves i edge same_id same_owner) l = record {
  job = l.job;
  found = l.found;
  path = next edge l.path;
  owned = l.owned ∙ same_owner;
  final = inl (Edge-is_terminal edge);
}

-- Over any history of calls that does not delete it, a job's status follows a path of the life
-- cycle, its owner stays, and a job that has succeeded or failed never changes again. The history
-- must start at a valid repository and consist of calls that the service makes.
pub run-Lived :
    (id : ℕ) (j : Job) (r : JobRepo) (cs : List Call)
    → IsValid r
    → AllowedRun r cs
    → All (Leaves id) cs
    → lookup id r.jobs ≡ some j
    → Lived id j (run r cs)
unfolding run
run-Lived id j r [] v a l e = record {
  job = j;
  found = e;
  path = here;
  owned = refl;
  final = inr refl;
}
run-Lived id j r (c ∷ cs) v a l e =
    let kept = step-Kept id j r c v a.0 l.0 e in
    Lived-Advance id j kept.job _ kept.advance
      (run-Lived id kept.job (step r c) cs (step-IsValid r c a.0 v) a.1 l.1 kept.found)

-- A call has succeeded, or it has changed nothing.
abbrev pub Atomic : JobRepo → JobRepo × Result (Unit {0}) → Type 0
Atomic r out = (out.1 ≡ ok tt) ⊎ (out.0 ≡ r)

-- Each of the three transitions, and the deletion, succeeds or returns the repository that it was
-- given.
calls-Atomic :
    (r : JobRepo) (id : ℕ) (res : JobResult) (p : JobProblem)
    → Atomic r (set_running id r)
      × Atomic r (set_succeeded id res r)
      × Atomic r (set_failed id p r)
      × Atomic r (delete id r)
unfolding set_running set_succeeded set_failed delete
calls-Atomic r id res p = (ground arith, ground arith, ground arith, ground arith)
