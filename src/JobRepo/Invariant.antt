-- ===== src/JobRepo/Invariant.antt =====
-- Well-formedness of the memory repository of internal/store/jobrepo/memory_job_repo.go.
use go_max_tech_stack.Prelude.{
  ℕ, ◌+◌, ◌<◌, ◌≡◌, ◌≢◌, refl, true, List, [], ◌∷◌, Option, none, arith, Option-cases, inl, inr,
  word_size, u64,
}
use go_max_tech_stack.Prelude.Assoc.{
  lookup, insert, Distinct, insert-Distinct, remove-Distinct, Entries, Entries-insert,
  Entries-remove, Entries-lookup, KeysBelow, KeysBelow-mono,
}
use go_max_tech_stack.Entity.Job.{
  Job, JobProblem, JobResult, JobStatus, queued, running, succeeded, failed, other, JobTransition,
  start, succeed, fail, can_transition_job,
}
use go_max_tech_stack.JobRepo.{
  JobRepo, new_memory_job_repository, save, delete, transition, to_running, to_succeeded, to_failed,
  set_running, set_succeeded, set_failed, fail_entries, fail_active,
}
use go_max_tech_stack.JobRepo.Step.{
  Call, saves, deletes, starts, succeeds, fails, fails_active, step, Moved, refused, moved,
  transition-Moved,
}
use go_max_tech_stack.Failure.Result.{Result}

-- A job carries a result exactly if it succeeded, and a problem exactly if it failed.
abbrev pub Shape : JobStatus → Option JobResult → Option JobProblem → Type 0
Shape queued res p = (res ≡ none) × (p ≡ none)
Shape running res p = (res ≡ none) × (p ≡ none)
Shape succeeded res p = (res ≢ none) × (p ≡ none)
Shape failed res p = (res ≡ none) × (p ≢ none)
Shape (other s) res p = ⊥

-- An entry of the map: the job bears the key as its id, and its fields fit its status.
pub record IsEntry (k : ℕ) (job : Job) : Type 0 where
  pub stamped : job.id ≡ k
  pub nonzero : k ≢ 0
  pub shaped : Shape job.status job.result job.error

pub record IsValid (r : JobRepo) : Type 0 where
  pub distinct : Distinct r.jobs
  pub entries : Entries IsEntry r.jobs
  pub fresh : KeysBelow r.next_id r.jobs
  pub positive : 0 < r.next_id

pub new_memory_job_repository-IsValid : IsValid new_memory_job_repository
unfolding new_memory_job_repository
new_memory_job_repository-IsValid = record {
  distinct = tt;
  entries = tt;
  fresh = tt;
  positive = omega arith;
}

-- What `save` may be given: a queued job with no id, while ids are left.
pub record IsNew (r : JobRepo) (job : Job) : Type 0 where
  pub no_id : job.id ≡ 0
  pub queued_status : job.status ≡ queued
  pub no_result : job.result ≡ none
  pub no_error : job.error ≡ none
  pub room : r.next_id + 1 < word_size

save-IsEntry :
    (r : JobRepo) (job : Job)
    → IsNew r job
    → 0 < r.next_id
    → IsEntry r.next_id (record job { id = r.next_id })
save-IsEntry r job n p = record {
  stamped = refl;
  nonzero = omega arith;
  shaped = rw (n.queued_status, n.no_result, n.no_error) (refl, refl);
}

save-KeysBelow :
    (r : JobRepo) (job : Job)
    → r.next_id + 1 < word_size
    → KeysBelow r.next_id r.jobs
    → KeysBelow (u64 (r.next_id + 1)) (insert r.next_id job r.jobs)
save-KeysBelow r job room b =
    Entries-insert (λ k _. k < u64 (r.next_id + 1)) r.next_id job r.jobs (omega arith)
      (KeysBelow-mono r.jobs (omega arith) b)

pub save-IsValid : (r : JobRepo) (job : Job) → IsNew r job → IsValid r → IsValid (save job r).0
unfolding save
save-IsValid r job n v = rw n.no_id record {
  distinct = insert-Distinct r.next_id _ r.jobs v.distinct;
  entries = Entries-insert IsEntry r.next_id _ r.jobs (save-IsEntry r job n v.positive) v.entries;
  fresh = save-KeysBelow r _ n.room v.fresh;
  positive = omega (arith, n.room);
}

pub delete-IsValid : (id : ℕ) (r : JobRepo) → IsValid r → IsValid (delete id r).0
unfolding delete
delete-IsValid id r v = elim (Option-cases (lookup id r.jobs)) [
  | inl e ↦ rw (e, delete) v
  | inr (job, e) ↦
      rw (e, delete)
        record {
          distinct = remove-Distinct id r.jobs v.distinct;
          entries = Entries-remove IsEntry id r.jobs v.entries;
          fresh = Entries-remove (λ k _. k < r.next_id) id r.jobs v.fresh;
          positive = v.positive;
        }
]

-- A change of one job's fields keeps the repository valid if it keeps each entry that it may meet.
abbrev Keeps : JobTransition → (Job → Job) → Type 0
Keeps i f =
    (k : ℕ) (job : Job) → can_transition_job job.status i ≡ true → IsEntry k job → IsEntry k (f job)

Moved-IsValid :
    (id : ℕ) (i : JobTransition) (f : Job → Job) (r : JobRepo) (out : JobRepo × Result (Unit {0}))
    → Keeps i f
    → IsValid r
    → Moved id i f r out
    → IsValid out.0
Moved-IsValid id i f r out keep v (refused e) = v
Moved-IsValid id i f r out keep v (moved job found can) = record {
  distinct = insert-Distinct id _ r.jobs v.distinct;
  entries =
      Entries-insert IsEntry id _ r.jobs
        (keep id job can (Entries-lookup IsEntry id job r.jobs v.entries found)) v.entries;
  fresh =
      Entries-insert (λ k _. k < r.next_id) id _ r.jobs
        (Entries-lookup (λ k _. k < r.next_id) id job r.jobs v.fresh found) v.fresh;
  positive = v.positive;
}

transition-IsValid :
    (id : ℕ) (i : JobTransition) (f : Job → Job) (r : JobRepo)
    → Keeps i f
    → IsValid r
    → IsValid (transition id i f r).0
transition-IsValid id i f r keep v =
    Moved-IsValid id i f r (transition id i f r) keep v (transition-Moved id i f r)

to_running-Keeps : Keeps start to_running
to_running-Keeps k job can e = record {
  stamped = e.stamped;
  nonzero = e.nonzero;
  shaped = (refl, refl);
}

to_succeeded-Keeps : (res : JobResult) → Keeps succeed (to_succeeded res)
to_succeeded-Keeps res k job can e = record {
  stamped = e.stamped;
  nonzero = e.nonzero;
  shaped = (λ h. cc, refl);
}

to_failed-IsEntry :
    (p : JobProblem) (k : ℕ) (job : Job) → IsEntry k job → IsEntry k (to_failed p job)
to_failed-IsEntry p k job e = record {
  stamped = e.stamped;
  nonzero = e.nonzero;
  shaped = (refl, λ h. cc);
}

-- The bulk repair keeps the keys and, entry by entry, the invariant.
pub lookup-fail_entries-none :
    (p : JobProblem) (k : ℕ) (m : List (ℕ × Job))
    → lookup k m ≡ none
    → lookup k (fail_entries p m).0 ≡ none
unfolding fail_entries lookup
lookup-fail_entries-none p k [] h = refl
lookup-fail_entries-none p k ((j, job) ∷ m) h = ground (arith, lookup-fail_entries-none p k m)

fail_entries-Distinct :
    (p : JobProblem) (m : List (ℕ × Job)) → Distinct m → Distinct (fail_entries p m).0
unfolding fail_entries
fail_entries-Distinct p [] d = tt
fail_entries-Distinct p ((j, job) ∷ m) d =
    ground (arith, lookup-fail_entries-none p j m d.0, fail_entries-Distinct p m d.1)

fail_entries-Entries :
    (P : ℕ → Job → Type 0) (p : JobProblem) (m : List (ℕ × Job))
    → ((k : ℕ) (job : Job) → P k job → P k (to_failed p job))
    → Entries P m
    → Entries P (fail_entries p m).0
unfolding fail_entries
fail_entries-Entries P p [] keep h = tt
fail_entries-Entries P p ((j, job) ∷ m) keep h =
    ground (arith, keep j job h.0, fail_entries-Entries P p m keep h.1)

pub fail_active-IsValid : (p : JobProblem) (r : JobRepo) → IsValid r → IsValid (fail_active p r).0
unfolding fail_active
fail_active-IsValid p r v = record {
  distinct = fail_entries-Distinct p r.jobs v.distinct;
  entries = fail_entries-Entries IsEntry p r.jobs (to_failed-IsEntry p) v.entries;
  fresh = fail_entries-Entries (λ k _. k < r.next_id) p r.jobs (λ k job b. b) v.fresh;
  positive = v.positive;
}

-- A call that the service makes: a save is of a new job.
abbrev pub Allowed : JobRepo → Call → Type 0
Allowed r (saves job) = IsNew r job
Allowed r (deletes id) = Unit
Allowed r (starts id) = Unit
Allowed r (succeeds id res) = Unit
Allowed r (fails id p) = Unit
Allowed r (fails_active p) = Unit

-- Every call that the service makes keeps the repository valid: the keys of the map stay distinct
-- and below `next_id`, each job bears its key as its id, and it carries a result exactly if it has
-- succeeded and a problem exactly if it has failed. A saved job must be queued with no id, result
-- or problem, and fewer than 2^64 - 1 ids may have been given out.
pub step-IsValid : (r : JobRepo) (c : Call) → Allowed r c → IsValid r → IsValid (step r c)
unfolding step set_running set_succeeded set_failed
step-IsValid r (saves job) n v = save-IsValid r job n v
step-IsValid r (deletes id) n v = delete-IsValid id r v
step-IsValid r (starts id) n v = transition-IsValid id start to_running r to_running-Keeps v
step-IsValid r (succeeds id res) n v =
    transition-IsValid id succeed (to_succeeded res) r (to_succeeded-Keeps res) v
step-IsValid r (fails id p) n v =
    transition-IsValid id fail (to_failed p) r (λ k job can e. to_failed-IsEntry p k job e) v
step-IsValid r (fails_active p) n v = fail_active-IsValid p r v
