-- ===== src/Services/Workers.antt =====
-- `WorkerStatusService` of apps/api/kerislab/services.py: heartbeats of workers, and the state of
-- the components that is read from them.
pub mod Alive
use kerislab.Prelude.{
  ◌∷◌, [], List, ℕ, String, Option, some, Bool, leb, true, false, ◌&&◌, ◌==◌, ◌-◌, ◌*◌, none,
  select, length,
}
use kerislab.Models.Status.{ScanJobStatus}
use kerislab.Models.Running.{WorkerHeartbeat, ScanJob}
use kerislab.Prelude.Int.{ℤ, pos}
use kerislab.Exec.{Exec, ◌>>=◌, ◌>>◌, pure, reload, gets, now_utc, put, sync}
use kerislab.Dict.{lookup, values}
use kerislab.Store.Collections.{worker_heartbeats}

-- `WorkerHeartbeat(id=..., name=..., queue_name=...)`: two readings of the clock
unfoldable pub or_new_worker :
    String → String → String → Option WorkerHeartbeat → Exec WorkerHeartbeat
or_new_worker worker_id name queue_name (some worker) = pure worker
or_new_worker worker_id name queue_name none = do
  started_at ← now_utc
  last_seen_at ← now_utc
  pure (record {
    name = name;
    queue_name = queue_name;
    status = "running";
    processed_jobs = pos 0;
    error = "";
    id = worker_id;
    started_at = started_at;
    last_seen_at = last_seen_at;
  })

unfoldable pub heartbeat : String → String → String → ℤ → String → String → Exec WorkerHeartbeat
unfolding or_new_worker
heartbeat worker_id name queue_name processed_jobs status error = do
  found ← gets (λ s. lookup worker_id s.worker_heartbeats)
  worker ← or_new_worker worker_id name queue_name found
  now ← now_utc
  let beat : WorkerHeartbeat = record worker {
    name = name;
    queue_name = queue_name;
    status = status;
    processed_jobs = processed_jobs;
    error = error;
    last_seen_at = now;
  }
  put worker_heartbeats worker_id beat
  sync
  pure beat

-- What `components` returns.
pub record Components : Type 0 where
  pub status : String
  pub worker_status : String
  pub active : ℕ
  pub total : ℕ
  pub workers : List WorkerHeartbeat
  pub queued_jobs : ℕ
  pub running_jobs : ℕ
  pub failed_jobs : ℕ

-- seen since the cutoff, and running
abbrev pub is_active : ℕ → WorkerHeartbeat → Bool
is_active cutoff worker = leb cutoff worker.last_seen_at && worker.status == "running"

abbrev has_status : ScanJobStatus → ScanJob → Bool
has_status ScanJobStatus.queued job = elim job.status [ ScanJobStatus.queued ↦ true | _ ↦ false ]
has_status ScanJobStatus.running job = elim job.status [ ScanJobStatus.running ↦ true | _ ↦ false ]
has_status ScanJobStatus.failed job = elim job.status [ ScanJobStatus.failed ↦ true | _ ↦ false ]
has_status ScanJobStatus.completed job = elim job.status [
  | ScanJobStatus.completed ↦ true
  | _ ↦ false
]

-- `text if active_workers else other`
abbrev if_any : List WorkerHeartbeat → String → String → String
if_any [] text other = other
if_any (_ ∷ _) text other = text

-- `components`, for a number of seconds that is not negative: a cutoff before the epoch is the
-- epoch.
unfoldable pub components : ℕ → Exec Components
components active_after_seconds = do
  reload
  now ← now_utc
  let cutoff : ℕ = now - active_after_seconds * 1000000
  workers ← gets (λ s. values s.worker_heartbeats)
  jobs ← gets (λ s. values s.scan_jobs)
  let active_workers : List WorkerHeartbeat = select (is_active cutoff) workers
  pure (record {
    status = if_any active_workers "ok" "degraded";
    worker_status = if_any active_workers "ok" "missing";
    active = length active_workers;
    total = length workers;
    workers = workers;
    queued_jobs = length (select (has_status ScanJobStatus.queued) jobs);
    running_jobs = length (select (has_status ScanJobStatus.running) jobs);
    failed_jobs = length (select (has_status ScanJobStatus.failed) jobs);
  })
