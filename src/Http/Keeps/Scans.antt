-- ===== src/Http/Keeps/Scans.antt =====
-- The books behind the handlers of scans and approvals in apps/api/kerislab/main.py.
use kerislab.Services.Bystanders.{Kept, then-Kept, log-Kept, at-Kept}
use kerislab.Http.Approvals.{
  reject_request, approve_request, log_resolved, request_upload_verification, request_logged,
}
use kerislab.Prelude.{String}
use kerislab.Http.Scans.{
  create_scan_endpoint, order_scan, ScanCreate, enqueue_by_type, resume_scan_endpoint, run_passive,
  pause_scan_endpoint, start_autonomous, cancel_scan_endpoint, execute_browser_plan,
  browser_plan_endpoint, fail_scan_endpoint, complete_scan_endpoint, update_scan_instructions,
}
use kerislab.Models.Status.{ScanType, ScanJobType}
use kerislab.Models.Scanning.{Scan, BrowserPlan}
use kerislab.Exec.{World, Exec, proceed, at, Result}
use kerislab.Services.Scans.Creation.{
  FreshScan, Order, create_by, run_passive_scan-Books, create_scan-Books,
}
use kerislab.Services.Autonomous.{approve, reject, start, request_gated_upload_verification}
use kerislab.Services.Scans.{
  fail_scan, resume_scan, cancel_scan, update_instructions, run_passive_scan, complete_scan,
  pause_scan,
}
use kerislab.Services.Engine.{enqueue}
use kerislab.Http.Keeps.{behind-Kept, scan_access-Kept, require_workspace_access-world}
use kerislab.Services.Evidence.{StorageSettings, StorageBackend}
use kerislab.Services.Authorization.{require_scan_access}
use kerislab.Http.{handled, require_workspace_access}
use kerislab.Services.Scans.Keeps.{
  complete_scan-Books, resume_scan-Books, update_instructions-Books, fail_scan-Books,
  pause_scan-Books, cancel_scan-Books,
}
use kerislab.Services.Autonomous.Keeps.{
  approve-Books, reject-Books, start-Books, request_gated_upload_verification-Books,
}
use kerislab.Services.Audit.{log}
use kerislab.Models.Payload.{Payload}
use kerislab.Store.Collections.{scans, credit_accounts}
use kerislab.Services.Bystanders.Engine.{enqueue-Kept}
use kerislab.Services.Browser.{execute_plan}
use kerislab.Services.Bystanders.Browser.{execute_plan-Kept, browser_plan-Kept}

-- Behind `require_scan_access`.
reading :
    {A : Type 0} (scan_id user_id : String) (f : Scan → Exec A) (w : World)
    → Kept w
    → ((scan : Scan) (v : World) → Kept v → Kept (f scan v).1)
    → Kept (proceed (require_scan_access user_id scan_id w) f).1
reading scan_id user_id f w b k =
    then-Kept (require_scan_access user_id scan_id w) f (scan_access-Kept user_id scan_id w b) k

module _ (scan_id user_id : String) (w : World) (b : Kept w) where
  pub run_passive-Kept : Kept (run_passive scan_id user_id w).1
  unfolding run_passive
  run_passive-Kept = reading scan_id user_id _ w b λ _ v h.
      then-Kept (run_passive_scan scan_id v) _ (run_passive_scan-Books scan_id v h)
        λ scan u k. then-Kept (log _ _ u) _ (log-Kept _ _ u k) (λ _ t l. l)

  pub pause_scan_endpoint-Kept : Kept (pause_scan_endpoint scan_id user_id w).1
  unfolding pause_scan_endpoint
  pause_scan_endpoint-Kept = reading scan_id user_id _ w b λ _ v h.
      then-Kept (pause_scan scan_id v) _ (pause_scan-Books scan_id v h)
        λ scan u k. then-Kept (log _ _ u) _ (log-Kept _ _ u k) (λ _ t l. l)

  pub resume_scan_endpoint-Kept : Kept (resume_scan_endpoint scan_id user_id w).1
  unfolding resume_scan_endpoint
  resume_scan_endpoint-Kept = reading scan_id user_id _ w b λ _ v h.
      then-Kept (resume_scan scan_id v) _ (resume_scan-Books scan_id v h)
        λ scan u k. then-Kept (log _ _ u) _ (log-Kept _ _ u k) (λ _ t l. l)

  pub update_scan_instructions-Kept :
      (instructions : String) → Kept (update_scan_instructions scan_id instructions user_id w).1
  unfolding update_scan_instructions
  update_scan_instructions-Kept instructions = reading scan_id user_id _ w b λ _ v h.
      then-Kept (update_instructions scan_id instructions v) _
        (update_instructions-Books scan_id v h instructions)
        λ scan u k. then-Kept (log _ _ u) _ (log-Kept _ _ u k) (λ _ t l. l)

  pub complete_scan_endpoint-Kept : Kept (complete_scan_endpoint scan_id user_id w).1
  unfolding complete_scan_endpoint
  complete_scan_endpoint-Kept = reading scan_id user_id _ w b λ _ v h.
      then-Kept (handled (complete_scan scan_id) v) _ (complete_scan-Books scan_id v h) λ scan u k.
        then-Kept (at credit_accounts scan.workspace_id u) _ (at-Kept credit_accounts _ u k)
          (λ _ t l. l)

  pub fail_scan_endpoint-Kept : Kept (fail_scan_endpoint scan_id user_id w).1
  unfolding fail_scan_endpoint
  fail_scan_endpoint-Kept = reading scan_id user_id _ w b λ _ v h.
      then-Kept (handled (fail_scan scan_id "Scan failed") v) _
        (fail_scan-Books scan_id v h "Scan failed")
        λ scan u k.
          then-Kept (at credit_accounts scan.workspace_id u) _ (at-Kept credit_accounts _ u k)
            (λ _ t l. l)

  pub cancel_scan_endpoint-Kept : Kept (cancel_scan_endpoint scan_id user_id w).1
  unfolding cancel_scan_endpoint
  cancel_scan_endpoint-Kept = reading scan_id user_id _ w b λ _ v h.
      then-Kept (handled (cancel_scan scan_id) v) _ (cancel_scan-Books scan_id v h) λ scan u k.
        then-Kept (at credit_accounts scan.workspace_id u) _ (at-Kept credit_accounts _ u k)
          (λ _ t l. l)

  pub start_autonomous-Kept : Kept (start_autonomous scan_id user_id w).1
  unfolding start_autonomous
  start_autonomous-Kept = reading scan_id user_id _ w b λ _ v h.
      then-Kept (handled (start scan_id) v) _ (start-Books scan_id v h)
        λ plan u k. then-Kept (at scans scan_id u) _ (at-Kept scans scan_id u k) (λ _ t l. l)

  pub browser_plan_endpoint-Kept : Kept (browser_plan_endpoint scan_id user_id w).1
  unfolding browser_plan_endpoint
  browser_plan_endpoint-Kept = reading scan_id user_id _ w b λ _ v h. browser_plan-Kept scan_id v h

  pub execute_browser_plan-Kept :
      (settings : StorageSettings) (backend : StorageBackend)
      (runner : BrowserPlan → Result Payload)
      → Kept (execute_browser_plan settings backend runner scan_id user_id w).1
  unfolding execute_browser_plan
  execute_browser_plan-Kept settings backend runner = reading scan_id user_id _ w b λ scan v h.
      then-Kept (execute_plan settings backend runner scan_id v) _
        (execute_plan-Kept settings backend runner scan_id v h)
        λ result u k. then-Kept (log _ _ u) _ (log-Kept _ _ u k) (λ _ t l. l)

  pub request_upload_verification-Kept : Kept (request_upload_verification scan_id user_id w).1
  unfolding request_upload_verification request_logged
  request_upload_verification-Kept = reading scan_id user_id _ w b λ scan v h.
      then-Kept (handled (request_logged scan_id scan user_id) v) _
        (then-Kept (request_gated_upload_verification scan_id v) _
          (request_gated_upload_verification-Books scan_id v h)
          λ request u k. then-Kept (log _ _ u) _ (log-Kept _ _ u k) (λ _ t l. l))
        λ request u k. then-Kept (at scans scan_id u) _ (at-Kept scans scan_id u k) (λ _ t l. l)

pub approve_request-Kept :
    (approval_id note user_id : String) (w : World)
    → Kept w
    → Kept (approve_request approval_id note user_id w).1
unfolding approve_request log_resolved
approve_request-Kept approval_id note user_id w b =
    then-Kept (approve approval_id user_id note w) _ (approve-Books approval_id user_id note w b)
      λ request v h. then-Kept (log _ _ v) _ (log-Kept _ _ v h) (λ _ u k. k)

pub reject_request-Kept :
    (approval_id note user_id : String) (w : World)
    → Kept w
    → Kept (reject_request approval_id note user_id w).1
unfolding reject_request log_resolved
reject_request-Kept approval_id note user_id w b =
    then-Kept (reject approval_id user_id note w) _ (reject-Books approval_id user_id note w b)
      λ request v h. then-Kept (log _ _ v) _ (log-Kept _ _ v h) (λ _ u k. k)

enqueue_by_type-Kept :
    (scan_type : ScanType) (scan_id : String) (w : World)
    → Kept w
    → Kept (enqueue_by_type scan_type scan_id w).1
enqueue_by_type-Kept ScanType.passive_blackbox scan_id w b =
    then-Kept (enqueue scan_id ScanJobType.passive_scan Payload.end w) _
      (enqueue-Kept scan_id ScanJobType.passive_scan Payload.end w b) (λ _ v h. h)
enqueue_by_type-Kept _ scan_id w b = b

order_scan-Kept :
    (payload : ScanCreate) (user_id : String) (w : World)
    → FreshScan w
    → Kept w
    → Kept (order_scan payload user_id w).1
unfolding order_scan
order_scan-Kept payload user_id w fresh b =
    let order : Order = record {
      workspace_id = payload.workspace_id;
      project_id = payload.project_id;
      target_id = payload.target_id;
      scan_type = payload.scan_type;
      model_profile_id = payload.model_profile_id;
      instructions = payload.instructions;
    } in
    then-Kept (create_by order w) _ (create_scan-Books order w fresh b) λ scan v h.
      then-Kept (log _ _ v) _ (log-Kept _ _ v h) λ _ u k.
        then-Kept (enqueue_by_type payload.scan_type scan.id u) _
          (enqueue_by_type-Kept payload.scan_type scan.id u k) (λ _ t l. l)

pub create_scan_endpoint-Kept :
    (payload : ScanCreate) (user_id : String) (w : World)
    → FreshScan w
    → Kept w
    → Kept (create_scan_endpoint payload user_id w).1
unfolding create_scan_endpoint
create_scan_endpoint-Kept payload user_id w fresh b =
    behind-Kept (require_workspace_access user_id payload.workspace_id w) _ w
      (require_workspace_access-world user_id payload.workspace_id w) b
      λ _.
        then-Kept (handled (order_scan payload user_id) w) _
          (order_scan-Kept payload user_id w fresh b)
          λ scan v h.
            then-Kept (at credit_accounts payload.workspace_id v) _
              (at-Kept credit_accounts payload.workspace_id v h) (λ _ u k. k)
