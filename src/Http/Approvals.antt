-- ===== src/Http/Approvals.antt =====
-- The handlers of approval requests in apps/api/kerislab/main.py.
use kerislab.Prelude.{String, List, select, some, ◌==◌}
use kerislab.Exec.{Exec, ◌>>=◌, ◌>>◌, pure, gets, at}
use kerislab.Models.Scanning.{ApprovalRequest, Scan}
use kerislab.Models.Running.{AuditLog}
use kerislab.Http.{handled}
use kerislab.Services.Audit.{log, by_actor}
use kerislab.Services.Autonomous.{reject, approve, request_gated_upload_verification}
use kerislab.Services.Authorization.{require_scan_access}
use kerislab.Models.Status.{AuditAction}
use kerislab.Services.Scans.{text_field}
use kerislab.Store.Collections.{scans}
use kerislab.Models.Values.{approval_status_value}
use kerislab.Dict.{values}

-- the `try` of `request_upload_verification`
unfoldable pub request_logged : String → Scan → String → Exec ApprovalRequest
request_logged scan_id scan user_id = do
  request ← request_gated_upload_verification scan_id
  log AuditAction.approval_requested (record (by_actor (some user_id)) {
    workspace_id = some scan.workspace_id;
    scan_id = some scan_id;
    approval_id = some request.id;
  })
  pure request

unfoldable pub request_upload_verification : String → String → Exec (ApprovalRequest × Scan)
request_upload_verification scan_id user_id = do
  scan ← require_scan_access user_id scan_id
  request ← handled (request_logged scan_id scan user_id)
  awaiting ← at scans scan_id
  pure (request, awaiting)

unfoldable pub scan_approvals : String → String → Exec (List ApprovalRequest)
scan_approvals scan_id user_id = do
  require_scan_access user_id scan_id
  gets (λ s. select (λ request. request.scan_id == scan_id) (values s.approval_requests))

-- The audit entry of a resolved request.
unfoldable pub log_resolved : String → ApprovalRequest → Exec AuditLog
log_resolved user_id request = log AuditAction.approval_resolved (record (by_actor (some user_id)) {
  workspace_id = some request.workspace_id;
  scan_id = some request.scan_id;
  approval_id = some request.id;
  details = text_field "status" (approval_status_value request.status);
})

unfoldable pub approve_request : String → String → String → Exec ApprovalRequest
unfolding log_resolved
approve_request approval_id note user_id =
    handled
      (do request ← approve approval_id user_id note; log_resolved user_id request; pure request)

unfoldable pub reject_request : String → String → String → Exec ApprovalRequest
unfolding log_resolved
reject_request approval_id note user_id =
    handled
      (do request ← reject approval_id user_id note; log_resolved user_id request; pure request)
