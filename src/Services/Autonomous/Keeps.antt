-- ===== src/Services/Autonomous/Keeps.antt =====
-- Every operation of `AutonomousPentestService` (apps/api/kerislab/services.py) keeps the books,
-- whether it returns or raises, and the plan of the browser leaves scans and money alone.
use kerislab.Services.Autonomous.{
  resolve, create_browser_plan, reject, approve, plan_actions, start,
  request_gated_upload_verification, new_agent_plan, is_autonomous, is_pending,
}
use kerislab.Prelude.{String, Option-cases, inl, inr, Bool-cases, ◌≡◌, some, true, refl}
use kerislab.Exec.{World}
use kerislab.Models.Status.{ApprovalStatus, ScanStatus}
use kerislab.Services.Scans.{emit}
use kerislab.Services.Books.{Books, proceed-keeps, update-Books}
use kerislab.Dict.{lookup}
use kerislab.Models.Scanning.{Scan, Target}
use kerislab.Scope.Decision.{
  in_scope, validate_target_scope-in_scope, validate_target_scope-refused,
}

-- What `start` does behind its checks ends in the creation of the browser plan, which writes
-- plans only.
pub create_browser_plan-Books :
    (scan_id : String) (w : World) → Books w.store → Books (create_browser_plan scan_id w).1.store
unfolding create_browser_plan plan_actions
create_browser_plan-Books scan_id w b = elim (Option-cases (lookup scan_id w.store.scans)) [
  | inl e ↦ rw e b
  | inr (scan, e) ↦ elim (Option-cases (lookup scan.target_id w.store.targets)) [
    | inl f ↦ rw (e, f) b
    | inr (target, f) ↦ elim (Bool-cases (in_scope w.env target)) [
      | inl pass ↦ rw (e, f, validate_target_scope-in_scope target w pass) b
      | inr refused ↦ let (x, h) = validate_target_scope-refused target w refused in rw (e, f, h) b
    ]
  ]
]

module _ (scan_id : String) (w : World) (b : Books w.store) where
  start_at :
      (scan : Scan) (target : Target)
      → lookup scan_id w.store.scans ≡ some scan
      → lookup scan.target_id w.store.targets ≡ some target
      → is_autonomous scan.scan_type ≡ true
      → in_scope w.env target ≡ true
      → Books (start scan_id w).1.store
  unfolding start new_agent_plan emit
  start_at scan target e f auto pass =
      rw (e, auto, f, validate_target_scope-in_scope target w pass)
        (proceed-keeps (λ v. Books v.store) (create_browser_plan scan.id _) _
          (create_browser_plan-Books scan.id _ (
            update-Books w.store scan_id scan (record scan { status = ScanStatus.running }) e refl
              refl b))
          (λ _ v h. h))

  pub start-Books : Books (start scan_id w).1.store
  unfolding start
  start-Books = elim (Option-cases (lookup scan_id w.store.scans)) [
    | inl e ↦ rw e b
    | inr (scan, e) ↦ elim (Bool-cases (is_autonomous scan.scan_type)) [
      | inr other ↦ rw (e, other) b
      | inl auto ↦ elim (Option-cases (lookup scan.target_id w.store.targets)) [
        | inl f ↦ rw (e, auto, f) b
        | inr (target, f) ↦ elim (Bool-cases (in_scope w.env target)) [
          | inl pass ↦ start_at scan target e f auto pass
          | inr refused ↦
              let (x, h) = validate_target_scope-refused target w refused in rw (e, auto, f, h) b
        ]
      ]
    ]
  ]

  pub request_gated_upload_verification-Books :
      Books (request_gated_upload_verification scan_id w).1.store
  unfolding request_gated_upload_verification emit
  request_gated_upload_verification-Books = elim (Option-cases (lookup scan_id w.store.scans)) [
    | inl e ↦ rw e b
    | inr (scan, e) ↦ elim (Option-cases (lookup scan.target_id w.store.targets)) [
      | inl f ↦ rw (e, f) b
      | inr (target, f) ↦
          rw (e, f)
            (update-Books w.store scan_id scan
              (record scan { status = ScanStatus.awaiting_approval }) e refl refl b)
    ]
  ]

resolve-Books :
    (status : ApprovalStatus) (approval_id user_id note : String) (w : World)
    → Books w.store
    → Books (resolve status approval_id user_id note w).1.store
unfolding resolve
resolve-Books status approval_id user_id note w b =
    elim (Option-cases (lookup approval_id w.store.approval_requests)) [
      | inl e ↦ rw e b
      | inr (request, e) ↦ elim (Bool-cases (is_pending request.status)) [
        | inr settled ↦ rw (e, settled) b
        | inl pending ↦ elim (Option-cases (lookup request.scan_id w.store.scans)) [
          | inl f ↦ rw (e, pending, f) b
          | inr (scan, f) ↦
              rw (e, pending, f)
                (update-Books w.store request.scan_id scan
                  (record scan { status = ScanStatus.running }) f refl refl b)
        ]
      ]
    ]

pub approve-Books :
    (approval_id user_id note : String) (w : World)
    → Books w.store
    → Books (approve approval_id user_id note w).1.store
unfolding approve emit
approve-Books approval_id user_id note w b =
    proceed-keeps (λ v. Books v.store) (resolve ApprovalStatus.approved approval_id user_id note w)
      _ (resolve-Books ApprovalStatus.approved approval_id user_id note w b) (λ _ v h. h)

pub reject-Books :
    (approval_id user_id note : String) (w : World)
    → Books w.store
    → Books (reject approval_id user_id note w).1.store
unfolding reject emit
reject-Books approval_id user_id note w b =
    proceed-keeps (λ v. Books v.store) (resolve ApprovalStatus.rejected approval_id user_id note w)
      _ (resolve-Books ApprovalStatus.rejected approval_id user_id note w b) (λ _ v h. h)
