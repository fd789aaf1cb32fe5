-- ===== src/Http/Deciders.antt =====
-- Who may approve a request by `approve_request` of apps/api/kerislab/main.py.
use kerislab.Http.Approvals.{approve_request, log_resolved}
use kerislab.Services.Autonomous.{approve, resolve}
use kerislab.Services.Scans.{emit}
use kerislab.Services.Audit.{log}
use kerislab.Prelude.{String, ◌≡◌, some, refl, ◌++◌, ◌∷◌, []}
use kerislab.Models.Scanning.{ApprovalRequest, Scan}
use kerislab.Exec.{World, ok}
use kerislab.Dict.{lookup, lookup-insert_self}
use kerislab.Models.Status.{ApprovalStatus, ScanStatus, AuditAction}
use kerislab.Models.Running.{AuditLog}

-- A pending request of a stored scan is approved for any user identifier, whatever memberships there are: the answer
-- is the approved request, resolved by that user with the note, it is what is stored from then on,
-- the scan goes on running, and one audit entry names the user, the request's workspace and the
-- request.
pub approve_request-anyone :
    (approval_id note user_id : String) (request : ApprovalRequest) (scan : Scan) (w : World)
    → lookup approval_id w.store.approval_requests ≡ some request
    → request.status ≡ ApprovalStatus.pending
    → lookup request.scan_id w.store.scans ≡ some scan
    → let v = (approve_request approval_id note user_id w).1 in
      ((approved : ApprovalRequest) × ((approve_request approval_id note user_id w).0 ≡ ok approved)
        × (lookup approval_id v.store.approval_requests ≡ some approved)
        × (approved.status ≡ ApprovalStatus.approved)
        × (approved.resolved_by ≡ some user_id)
        × (approved.operator_note ≡ note)
        × (approved.id ≡ request.id))
      × ((resumed : Scan) × (lookup request.scan_id v.store.scans ≡ some resumed)
          × (resumed.status ≡ ScanStatus.running))
      × ((entry : AuditLog) × (v.store.audit_logs ≡ w.store.audit_logs ++ entry ∷ [])
          × (entry.action ≡ AuditAction.approval_resolved)
          × (entry.actor_user_id ≡ some user_id)
          × (entry.workspace_id ≡ some request.workspace_id)
          × (entry.approval_id ≡ some request.id))
unfolding approve_request approve resolve emit log_resolved log
approve_request-anyone approval_id note user_id request scan w found pending at =
    rw (found, pending, at)
      (
        (
          _,
          refl,
          lookup-insert_self approval_id _ w.store.approval_requests,
          refl,
          refl,
          refl,
          refl,
        ),
        (_, lookup-insert_self request.scan_id _ w.store.scans, refl),
        (_, refl, refl, refl, refl, refl),
      )
