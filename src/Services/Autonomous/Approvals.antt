-- ===== src/Services/Autonomous/Approvals.antt =====
-- Approval requests (`approve` and `reject` of apps/api/kerislab/services.py) are resolved once.
use kerislab.Services.Autonomous.{resolve, approve, reject, is_pending}
use kerislab.Prelude.{String, ◌≡◌, false, some, Bool-cases, inr, refl, inl, Option-cases}
use kerislab.Models.Status.{ApprovalStatus}
use kerislab.Exec.{Exec, World, err, approval_error}
use kerislab.Models.Scanning.{ApprovalRequest}
use kerislab.Services.Scans.{emit}
use kerislab.Dict.{lookup, lookup-insert_self}
use kerislab.Services.Books.{proceed-keeps}

pub data Decision : Type 0 where
  to_approve to_reject : Decision

unfoldable pub decide : Decision → String → String → String → Exec ApprovalRequest
decide to_approve approval_id user_id note = approve approval_id user_id note
decide to_reject approval_id user_id note = reject approval_id user_id note

abbrev resolved_as : Decision → ApprovalStatus
resolved_as to_approve = ApprovalStatus.approved
resolved_as to_reject = ApprovalStatus.rejected

-- The request under the key is not pending.
abbrev Resolved : String → World → Type 0
Resolved approval_id w =
    (request : ApprovalRequest) × (lookup approval_id w.store.approval_requests ≡ some request)
    × (is_pending request.status ≡ false)

decide-refused :
    (d : Decision) (approval_id user_id note : String) (w : World)
    → Resolved approval_id w
    → decide d approval_id user_id note w
      ≡ (err (approval_error "approval request has already been resolved"), w)
unfolding decide approve reject resolve
decide-refused to_approve approval_id user_id note w (request, found, settled) =
    rw (found, settled) refl
decide-refused to_reject approval_id user_id note w (request, found, settled) =
    rw (found, settled) refl

resolve-Resolved :
    (status : ApprovalStatus) (approval_id user_id note : String) (w : World)
    (request : ApprovalRequest)
    → is_pending status ≡ false
    → lookup approval_id w.store.approval_requests ≡ some request
    → Resolved approval_id (resolve status approval_id user_id note w).1
unfolding resolve
resolve-Resolved status approval_id user_id note w request h found =
    elim (Bool-cases (is_pending request.status)) [
      | inr settled ↦ rw (found, settled) (request, found, settled)
      | inl pending ↦ elim (Option-cases (lookup request.scan_id w.store.scans)) [
        | inl e ↦
            rw (found, pending, e)
              (_, lookup-insert_self approval_id _ w.store.approval_requests, h)
        | inr (scan, e) ↦
            rw (found, pending, e)
              (_, lookup-insert_self approval_id _ w.store.approval_requests, h)
      ]
    ]

decide-Resolved :
    (d : Decision) (approval_id user_id note : String) (w : World) (request : ApprovalRequest)
    → lookup approval_id w.store.approval_requests ≡ some request
    → Resolved approval_id (decide d approval_id user_id note w).1
unfolding decide approve reject emit
decide-Resolved to_approve approval_id user_id note w request found =
    proceed-keeps (Resolved approval_id)
      (resolve ApprovalStatus.approved approval_id user_id note w) _
      (resolve-Resolved ApprovalStatus.approved approval_id user_id note w request refl found)
      (λ _ v h. h)
decide-Resolved to_reject approval_id user_id note w request found =
    proceed-keeps (Resolved approval_id)
      (resolve ApprovalStatus.rejected approval_id user_id note w) _
      (resolve-Resolved ApprovalStatus.rejected approval_id user_id note w request refl found)
      (λ _ v h. h)

-- After a stored approval request was approved or rejected, whatever came of that, every further approval or
-- rejection of it, by anyone, is refused and changes nothing.
pub decide-decide :
    (d d' : Decision) (approval_id user_id user_id' note note' : String) (request : ApprovalRequest)
    (w : World)
    → lookup approval_id w.store.approval_requests ≡ some request
    → let v = (decide d approval_id user_id note w).1 in
      decide d' approval_id user_id' note' v
      ≡ (err (approval_error "approval request has already been resolved"), v)
decide-decide d d' approval_id user_id user_id' note note' request w found =
    decide-refused d' approval_id user_id' note' (decide d approval_id user_id note w).1
      (decide-Resolved d approval_id user_id note w request found)
