-- ===== src/Services/Engine.antt =====
-- `ScanExecutionService` of apps/api/kerislab/services.py: the queue of jobs and their execution.
-- The queue of the process is a list of job identifiers in the world. Redis is not configured
-- (`KERISLAB_REDIS_URL` empty), so `_enqueue_redis` does nothing and `drain_redis_jobs` is 0; the
-- background thread runs the body of `drain` for one job at a time.
pub mod Once
use kerislab.Models.Status.{ScanJobType, ScanJobStatus}
use kerislab.Services.Autonomous
use kerislab.Services.Scans
use kerislab.Models.Running.{ScanJob}
use kerislab.Prelude.{
  List, String, Option, Bool, true, false, select, some, none, ◌∷◌, if◌then◌else◌, ℕ, leb, map,
  length, [], sorted_by, ◌++◌,
}
use kerislab.Exec.{
  Exec, pure, Result, gets, World, ◌>>=◌, ◌>>◌, new_entity, now_utc, get, ok, put, next_id, add,
  err, sync, attempt, message, raise,
}
use kerislab.Models.Payload.{Value, Payload}
use kerislab.Prelude.Int.{pos, ◌+ℤ◌}
use kerislab.Dict.{values}
use kerislab.Store.Collections.{scan_jobs}
use kerislab.Dynamic.{text_of, payload_get}

abbrev pub is_queued : ScanJobStatus → Bool
is_queued ScanJobStatus.queued = true
is_queued _ = false

abbrev is_unfinished : ScanJobStatus → Bool
is_unfinished ScanJobStatus.queued = true
is_unfinished ScanJobStatus.running = true
is_unfinished _ = false

-- `ScanJob(...)` in the given world
abbrev job_at : String → ScanJobType → Payload → World → ScanJob
job_at scan_id job_type payload w = record {
  scan_id = scan_id;
  job_type = job_type;
  status = ScanJobStatus.queued;
  payload = payload;
  attempts = pos 0;
  id = next_id "job" w.env w.drawn;
  created_at = w.env.clock w.ticks;
  started_at = none;
  completed_at = none;
  error = "";
}

-- `self._queue.put(job_id)`
abbrev enqueue_local : String → Exec Unit
enqueue_local job_id w = (ok tt, record w { queue = w.queue ++ job_id ∷ [] })

-- `enqueue`, with a payload that is empty if there is none
unfoldable pub enqueue : String → ScanJobType → Payload → Exec ScanJob
enqueue scan_id job_type payload = do
  made ← new_entity (job_at scan_id job_type payload)
  job ← add scan_jobs made
  enqueue_local job.id
  sync
  pure job

-- `str(payload.get(name, default))`
unfoldable pub payload_text_of : Option Value → String → Exec String
payload_text_of none default = pure default
payload_text_of (some value) default = text_of value

-- the call of the service that the job's type names
unfoldable pub run_job : ScanJob → ScanJobType → Exec Unit
unfolding payload_text_of
run_job job ScanJobType.passive_scan = do Scans.run_passive_scan job.scan_id; pure tt
run_job job ScanJobType.autonomous_start = do Autonomous.start job.scan_id; pure tt
run_job job ScanJobType.approval_request = do
  Autonomous.request_gated_upload_verification job.scan_id
  pure tt
run_job job ScanJobType.complete_scan = do Scans.complete_scan job.scan_id; pure tt
run_job job ScanJobType.fail_scan = do
  reason ← payload_text_of (payload_get "reason" job.payload) "Scan failed"
  Scans.fail_scan job.scan_id reason
  pure tt

-- behind `try`: the job is closed by how the call ended, and an exception is raised again
unfoldable pub close_job : String → ScanJob → Result Unit → Exec Unit
close_job job_id job (ok _) = do
  now ← now_utc
  put scan_jobs job_id
      (record job { status = ScanJobStatus.completed; completed_at = some now; error = "" })
  sync
close_job job_id job (err e) = do
  now ← now_utc
  put scan_jobs job_id
      (record job { status = ScanJobStatus.failed; completed_at = some now; error = message e })
  sync
  raise e

-- `_execute` of a job that is queued
unfoldable pub execute_queued : String → ScanJob → Exec Unit
unfolding run_job close_job
execute_queued job_id job = do
  now ← now_utc
  let started : ScanJob = record job {
    status = ScanJobStatus.running;
    started_at = some now;
    attempts = job.attempts +ℤ pos 1;
  }
  put scan_jobs job_id started
  sync
  outcome ← attempt (run_job started started.job_type)
  close_job job_id started outcome

unfoldable pub execute_by_status : String → ScanJob → Bool → Exec Unit
unfolding execute_queued
execute_by_status job_id job true = execute_queued job_id job
execute_by_status job_id job false = pure tt

-- `_execute`
unfoldable pub execute : String → Exec Unit
unfolding execute_by_status
execute job_id = do
  job ← get scan_jobs job_id "scan job"
  execute_by_status job_id job (is_queued job.status)

-- behind an execution: the later ones, or its exception
abbrev pub after_job :
    (World → Result Unit × List String × World)
    → List String
    → Result Unit × World
    → Result Unit × List String × World
after_job later rest (ok _, w) = later w
after_job later rest (err e, w) = (err e, rest, w)

-- What `drain` and the loop of `drain_persisted_jobs` do with the jobs in hand: the first
-- exception ends the loop, with the later jobs still in hand.
unfoldable pub execute_all : List String → World → Result Unit × List String × World
execute_all [] w = (ok tt, [], w)
execute_all (job_id ∷ rest) w = after_job (λ v. execute_all rest v) rest (execute job_id w)

-- `drain`: no job puts another one into the queue, so the queue at the start is what the loop takes
-- from; at an exception the jobs behind the failed one are still in it.
unfoldable pub drain : Exec Unit
drain w =
    let (r, rest, w') = execute_all w.queue (record w { queue = [] }) in
    (r, record w' { queue = rest ++ w'.queue })

unfoldable pub pending_jobs : Exec (List ScanJob)
pending_jobs = gets (λ s. select (λ job. is_unfinished job.status) (values s.scan_jobs))

-- `sorted(queued_jobs, key=lambda item: item.created_at)`
abbrev pub sorted_jobs : List ScanJob → List ScanJob
sorted_jobs = sorted_by (λ job. job.created_at)

counted : Result Unit → ℕ → Result ℕ
counted (ok _) n = ok n
counted (err e) n = err e

-- `drain_persisted_jobs`: the identifiers that it executes, and what comes of them. The number
-- that it returns is theirs.
unfoldable pub drain_persisted_jobs : World → Result ℕ × World
unfolding counted
drain_persisted_jobs w =
    let queued = select (λ (job : ScanJob). is_queued job.status) (values w.store.scan_jobs) in
    let (r, _, w') = execute_all (map (λ job. job.id) (sorted_jobs queued)) w in
    (counted r (length queued), w')

-- `drain_available_jobs`: `drain_redis_jobs` is 0 without Redis.
unfoldable pub drain_available_jobs : World → Result ℕ × World
drain_available_jobs w = drain_persisted_jobs w
