-- ===== src/Services/Bystanders/Engine.antt =====
-- The books behind jobs and their queue (`ScanExecutionService` of apps/api/kerislab/services.py).
use kerislab.Dynamic.{text_of, payload_get}
use kerislab.Services.Engine.{
  drain, enqueue, execute_all, run_job, close_job, payload_text_of, execute, execute_by_status,
  execute_queued, is_queued, after_job,
}
use kerislab.Exec.{World, Result, ok, err, get, Error}
use kerislab.Prelude.{
  Option, String, List, Bool, ◌∷◌, [], some, true, none, false, inl, ◌≡◌, inr, ◌⊎◌, refl,
}
use kerislab.Models.Payload.{Value, Payload}
use kerislab.Prelude.Int.{pos, ◌+ℤ◌}
use kerislab.Models.Running.{ScanJob}
use kerislab.Services.Bystanders.{Kept, then-Kept, get-Kept}
use kerislab.Models.Status.{ScanJobType, ScanJobStatus}
use kerislab.Services.Scans.{run_passive_scan, complete_scan, fail_scan}
use kerislab.Services.Scans.Creation.{run_passive_scan-Books}
use kerislab.Store.Collections.{scan_jobs}
use kerislab.Services.Autonomous.{start, request_gated_upload_verification}
use kerislab.Services.Autonomous.Keeps.{start-Books, request_gated_upload_verification-Books}
use kerislab.Services.Scans.Keeps.{complete_scan-Books, fail_scan-Books}

pub enqueue-Kept :
    (scan_id : String) (job_type : ScanJobType) (payload : Payload) (w : World)
    → Kept w
    → Kept (enqueue scan_id job_type payload w).1
unfolding enqueue
enqueue-Kept scan_id job_type payload w b = b

pub text_of-Kept : (value : Value) (w : World) → Kept w → Kept (text_of value w).1
unfolding text_of
text_of-Kept (Value.str text) w b = b
text_of-Kept _ w b = b

payload_text_of-Kept :
    (o : Option Value) (default : String) (w : World)
    → Kept w
    → Kept (payload_text_of o default w).1
unfolding payload_text_of
payload_text_of-Kept none default w b = b
payload_text_of-Kept (some value) default w b = text_of-Kept value w b

run_job-Kept :
    (job : ScanJob) (job_type : ScanJobType) (w : World) → Kept w → Kept (run_job job job_type w).1
unfolding run_job
run_job-Kept job ScanJobType.passive_scan w b =
    then-Kept (run_passive_scan job.scan_id w) _ (run_passive_scan-Books job.scan_id w b)
      (λ _ v h. h)
run_job-Kept job ScanJobType.autonomous_start w b =
    then-Kept (start job.scan_id w) _ (start-Books job.scan_id w b) (λ _ v h. h)
run_job-Kept job ScanJobType.approval_request w b =
    then-Kept (request_gated_upload_verification job.scan_id w) _
      (request_gated_upload_verification-Books job.scan_id w b) (λ _ v h. h)
run_job-Kept job ScanJobType.complete_scan w b =
    then-Kept (complete_scan job.scan_id w) _ (complete_scan-Books job.scan_id w b) (λ _ v h. h)
run_job-Kept job ScanJobType.fail_scan w b =
    then-Kept (payload_text_of (payload_get "reason" job.payload) "Scan failed" w) _
      (payload_text_of-Kept (payload_get "reason" job.payload) "Scan failed" w b)
      λ reason v h.
        then-Kept (fail_scan job.scan_id reason v) _ (fail_scan-Books job.scan_id v h reason)
          (λ _ u k. k)

close_job-Kept :
    (job_id : String) (job : ScanJob) (outcome : Result Unit) (w : World)
    → Kept w
    → Kept (close_job job_id job outcome w).1
unfolding close_job
close_job-Kept job_id job (ok _) w b = b
close_job-Kept job_id job (err e) w b = b

abbrev started : ScanJob → World → ScanJob
started job w = record job {
  status = ScanJobStatus.running;
  started_at = some (w.env.clock w.ticks);
  attempts = job.attempts +ℤ pos 1;
}

execute_by-Kept :
    (job_id : String) (job : ScanJob) (queued : Bool) (w : World)
    → Kept w
    → Kept (execute_by_status job_id job queued w).1
unfolding execute_by_status execute_queued
execute_by-Kept job_id job true w b =
    close_job-Kept job_id (started job w) _ _ (run_job-Kept (started job w) job.job_type _ b)
execute_by-Kept job_id job false w b = b

pub execute-Kept : (job_id : String) (w : World) → Kept w → Kept (execute job_id w).1
unfolding execute
execute-Kept job_id w b =
    then-Kept (get scan_jobs job_id _ w) _ (get-Kept scan_jobs job_id _ w b)
      (λ job v h. execute_by-Kept job_id job (is_queued job.status) v h)

Result-cases : {A : Type 0} (r : Result A) → ((a : A) × (r ≡ ok a)) ⊎ ((e : Error) × (r ≡ err e))
Result-cases (ok a) = inl (a, refl)
Result-cases (err e) = inr (e, refl)

then_all-Kept :
    (p : Result Unit × World) (later : World → Result Unit × List String × World)
    (rest : List String)
    → Kept p.1
    → ((w : World) → Kept w → Kept (later w).2)
    → Kept (after_job later rest p).2
then_all-Kept (ok _, w) later rest b keeps = keeps w b
then_all-Kept (err e, w) later rest b keeps = b

pub execute_all-Kept : (job_ids : List String) (w : World) → Kept w → Kept (execute_all job_ids w).2
unfolding execute_all
execute_all-Kept [] w b = b
execute_all-Kept (job_id ∷ rest) w b =
    then_all-Kept (execute job_id w) _ rest (execute-Kept job_id w b) (execute_all-Kept rest)

pub drain-Kept : (w : World) → Kept w → Kept (drain w).1
unfolding drain
drain-Kept w b = execute_all-Kept w.queue (record w { queue = [] }) b
