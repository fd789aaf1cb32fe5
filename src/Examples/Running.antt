-- ===== src/Examples/Running.antt =====
-- Runs of the worker.
use kerislab.Models.Running.{ScanJob, WorkerHeartbeat}
use kerislab.Exec.{World, ok}
use kerislab.Worker.{Settings, run_worker, stored_by, run_worker-stops}
use kerislab.Examples.Sample.{in_world, sample_store}
use kerislab.Models.Status.{ScanJobType, ScanJobStatus}
use kerislab.Models.Payload.{Payload}
use kerislab.Prelude.{◌∷◌, [], ◌≡◌, none, some}
use kerislab.Prelude.Int.{pos}
use kerislab.Dict.{lookup}

abbrev sample_settings : Settings
sample_settings = record {
  worker_id = "wrk";
  worker_name = "worker";
  redis_queue = "kerislab:scan-jobs";
}

-- a job whose scan is missing, which raises
abbrev failing_job : ScanJob
failing_job = record {
  scan_id = "missing";
  job_type = ScanJobType.passive_scan;
  status = ScanJobStatus.queued;
  payload = Payload.end;
  attempts = pos 0;
  id = "job";
  created_at = 0;
  started_at = none;
  completed_at = none;
  error = "";
}

abbrev failing_world : World
failing_world = in_world (record sample_store { scan_jobs = ("job", failing_job) ∷ [] })

run_worker-stops_example :
    (b : WorkerHeartbeat) × ((run_worker 2 sample_settings failing_world).0 ≡ ok b)
    × (b.status ≡ "stopping")
    × (lookup "wrk" (stored_by (run_worker 2 sample_settings failing_world)) ≡ some b)
run_worker-stops_example = run_worker-stops 2 sample_settings failing_world
