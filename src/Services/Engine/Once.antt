-- ===== src/Services/Engine/Once.antt =====
-- A job (`_execute` of `ScanExecutionService`, apps/api/kerislab/services.py) is run once.
use kerislab.Services.Engine.{
  execute_by_status, execute, close_job, execute_queued, is_queued, ◌+ℤ◌,
}
use kerislab.Prelude.{String, ◌≡◌, some, Bool-cases, inl, false, inr, refl}
use kerislab.Exec.{World, Result, ok, err}
use kerislab.Models.Running.{ScanJob}
use kerislab.Dict.{lookup, lookup-insert_self}
use kerislab.Models.Status.{ScanJobStatus}
use kerislab.Prelude.Int.{pos}

abbrev Finished : String → World → Type 0
Finished job_id w =
    (job : ScanJob) × (lookup job_id w.store.scan_jobs ≡ some job) × (is_queued job.status ≡ false)

close_job-Finished :
    (job_id : String) (job : ScanJob) (outcome : Result Unit) (w : World)
    → Finished job_id (close_job job_id job outcome w).1
unfolding close_job
close_job-Finished job_id job (ok _) w = (_, lookup-insert_self job_id _ w.store.scan_jobs, refl)
close_job-Finished job_id job (err e) w = (_, lookup-insert_self job_id _ w.store.scan_jobs, refl)

abbrev started : ScanJob → World → ScanJob
started job w = record job {
  status = ScanJobStatus.running;
  started_at = some (w.env.clock w.ticks);
  attempts = job.attempts +ℤ pos 1;
}

execute-Finished :
    (job_id : String) (job : ScanJob) (w : World)
    → lookup job_id w.store.scan_jobs ≡ some job
    → Finished job_id (execute job_id w).1
unfolding execute execute_by_status execute_queued
execute-Finished job_id job w found = elim (Bool-cases (is_queued job.status)) [
  | inl queued ↦ rw (found, queued) (close_job-Finished job_id (started job w) _ _)
  | inr other ↦ rw (found, other) (job, found, other)
]

execute-other : (job_id : String) (w : World) → Finished job_id w → execute job_id w ≡ (ok tt, w)
unfolding execute execute_by_status
execute-other job_id w (job, found, other) = rw (found, other) refl

-- After a stored job was executed, whether its scan's operation returned or raised, executing it again returns and
-- changes nothing.
pub execute-execute :
    (job_id : String) (job : ScanJob) (w : World)
    → lookup job_id w.store.scan_jobs ≡ some job
    → let v = (execute job_id w).1 in execute job_id v ≡ (ok tt, v)
execute-execute job_id job w found =
    execute-other job_id (execute job_id w).1 (execute-Finished job_id job w found)
