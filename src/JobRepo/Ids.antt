-- ===== src/JobRepo/Ids.antt =====
-- The ids that `Save` of internal/store/jobrepo/memory_job_repo.go gives out.
use go_max_tech_stack.Prelude.{◌==◌, arith, if◌then◌else◌, none, refl, some, ℕ, ◌≡◌, ◌≢◌}
use go_max_tech_stack.JobRepo.Invariant.{IsNew, IsValid}
use go_max_tech_stack.Entity.Job.{Job}
use go_max_tech_stack.JobRepo.{JobRepo, save}
use go_max_tech_stack.Prelude.Assoc.{lookup, lookup-insert, lookup_above, insert}
use go_max_tech_stack.Failure.Result.{ok}
use go_max_tech_stack.Failure.{same}

-- A saved new job is stored under an id that no job had before, the caller sees that id, and every
-- other job stays. The job must be new and the repository valid.
save_fresh :
    (r : JobRepo) (job : Job)
    → IsNew r job
    → IsValid r
    → let stored = record job { id = r.next_id } in
      ((save job r).1 ≡ ok stored)
      × (lookup r.next_id r.jobs ≡ none)
      × ((k : ℕ)
          → lookup k (save job r).0.jobs
            ≡ (if r.next_id == k then some stored else lookup k r.jobs))
unfolding save
save_fresh r job n v = rw n.no_id (
  refl,
  lookup_above r.next_id r.next_id r.jobs v.fresh (omega arith),
  λ k. lookup-insert r.next_id k _ r.jobs,
)

-- A save with an id of its own does not move `nextID` past it: a job saved under `nextID` is
-- overwritten by the next new job.
save_explicit_lost :
    (r : JobRepo) (a b : Job)
    → a.id ≡ r.next_id
    → a.id ≢ 0
    → b.id ≡ 0
    → lookup a.id (save b (save a r).0).0.jobs ≡ some (record b { id = a.id })
unfolding save
save_explicit_lost r a b same nz z =
    ground (arith, same, lookup-insert a.id a.id (record b { id = a.id }) (insert a.id a r.jobs))
