-- ===== src/Models/Status.antt =====
-- The enumerations of apps/api/kerislab/models.py.

pub data Role : Type 0 where
  owner admin security_lead pentester developer auditor : Role

pub data AuthProvider : Type 0 where
  google sso development : AuthProvider

pub data ScanType : Type 0 where
  passive_blackbox active_blackbox autonomous_blackbox whitebox hybrid : ScanType

pub data ScanStatus : Type 0 where
  queued running paused awaiting_approval completed failed cancelled blocked : ScanStatus

pub data ScanJobType : Type 0 where
  passive_scan autonomous_start approval_request complete_scan fail_scan : ScanJobType

pub data ScanJobStatus : Type 0 where
  queued running completed failed : ScanJobStatus

pub data BrowserExecutionStatus : Type 0 where
  running completed failed : BrowserExecutionStatus

pub data BillingProvider : Type 0 where
  manual stripe : BillingProvider

pub data CheckoutSessionStatus : Type 0 where
  created paid cancelled : CheckoutSessionStatus

pub data InvoiceStatus : Type 0 where
  opened paid void : InvoiceStatus

pub data PaymentStatus : Type 0 where
  succeeded failed : PaymentStatus

pub data AuditAction : Type 0 where
  login oauth_state_created oauth_state_consumed workspace_created workspace_sso_updated
        workspace_member_auto_joined project_created target_created model_profile_created
        model_profile_tested scan_created scan_executed scan_paused scan_resumed
        scan_instructions_updated approval_requested approval_resolved report_generated
        credits_granted billing_checkout_created billing_checkout_confirmed settings_updated :
      AuditAction

pub data CreditReservationStatus : Type 0 where
  reserved deducted released : CreditReservationStatus

pub data LedgerEntryType : Type 0 where
  grant reserve deduct release adjustment refund : LedgerEntryType

pub data FindingStatus : Type 0 where
  new triaged verified false_positive accepted_risk fixed retest_required : FindingStatus

pub data VerificationStatus : Type 0 where
  unverified suspected verified : VerificationStatus

pub data ApprovalStatus : Type 0 where
  pending approved rejected expired auto_denied : ApprovalStatus
