-- ===== src/Models/Values.antt =====
-- The `.value` of the enumerations that the services write into texts and payloads, the parse of
-- a value by `BillingProvider(...)`, and the comparisons of two members that are not constants.
use kerislab.Prelude.{String, Bool, true, false, Option, none, some, ◌==◌, if◌then◌else◌}
use kerislab.Models.Status.{
  Role, AuthProvider, ScanType, ScanStatus, BillingProvider, AuditAction, ApprovalStatus,
  VerificationStatus,
}

unfoldable pub role_value : Role → String
role_value Role.owner = "owner"
role_value Role.admin = "admin"
role_value Role.security_lead = "security_lead"
role_value Role.pentester = "pentester"
role_value Role.developer = "developer"
role_value Role.auditor = "auditor"

unfoldable pub auth_provider_value : AuthProvider → String
auth_provider_value AuthProvider.google = "google"
auth_provider_value AuthProvider.sso = "sso"
auth_provider_value AuthProvider.development = "development"

unfoldable pub scan_type_value : ScanType → String
scan_type_value ScanType.passive_blackbox = "passive_blackbox"
scan_type_value ScanType.active_blackbox = "active_blackbox"
scan_type_value ScanType.autonomous_blackbox = "autonomous_blackbox"
scan_type_value ScanType.whitebox = "whitebox"
scan_type_value ScanType.hybrid = "hybrid"

unfoldable pub scan_status_value : ScanStatus → String
scan_status_value ScanStatus.queued = "queued"
scan_status_value ScanStatus.running = "running"
scan_status_value ScanStatus.paused = "paused"
scan_status_value ScanStatus.awaiting_approval = "awaiting_approval"
scan_status_value ScanStatus.completed = "completed"
scan_status_value ScanStatus.failed = "failed"
scan_status_value ScanStatus.cancelled = "cancelled"
scan_status_value ScanStatus.blocked = "blocked"

unfoldable pub billing_provider_value : BillingProvider → String
billing_provider_value BillingProvider.manual = "manual"
billing_provider_value BillingProvider.stripe = "stripe"

unfoldable pub audit_action_value : AuditAction → String
audit_action_value AuditAction.login = "login"
audit_action_value AuditAction.oauth_state_created = "oauth_state_created"
audit_action_value AuditAction.oauth_state_consumed = "oauth_state_consumed"
audit_action_value AuditAction.workspace_created = "workspace_created"
audit_action_value AuditAction.workspace_sso_updated = "workspace_sso_updated"
audit_action_value AuditAction.workspace_member_auto_joined = "workspace_member_auto_joined"
audit_action_value AuditAction.project_created = "project_created"
audit_action_value AuditAction.target_created = "target_created"
audit_action_value AuditAction.model_profile_created = "model_profile_created"
audit_action_value AuditAction.model_profile_tested = "model_profile_tested"
audit_action_value AuditAction.scan_created = "scan_created"
audit_action_value AuditAction.scan_executed = "scan_executed"
audit_action_value AuditAction.scan_paused = "scan_paused"
audit_action_value AuditAction.scan_resumed = "scan_resumed"
audit_action_value AuditAction.scan_instructions_updated = "scan_instructions_updated"
audit_action_value AuditAction.approval_requested = "approval_requested"
audit_action_value AuditAction.approval_resolved = "approval_resolved"
audit_action_value AuditAction.report_generated = "report_generated"
audit_action_value AuditAction.credits_granted = "credits_granted"
audit_action_value AuditAction.billing_checkout_created = "billing_checkout_created"
audit_action_value AuditAction.billing_checkout_confirmed = "billing_checkout_confirmed"
audit_action_value AuditAction.settings_updated = "settings_updated"

unfoldable pub approval_status_value : ApprovalStatus → String
approval_status_value ApprovalStatus.pending = "pending"
approval_status_value ApprovalStatus.approved = "approved"
approval_status_value ApprovalStatus.rejected = "rejected"
approval_status_value ApprovalStatus.expired = "expired"
approval_status_value ApprovalStatus.auto_denied = "auto_denied"

unfoldable pub verification_status_value : VerificationStatus → String
verification_status_value VerificationStatus.unverified = "unverified"
verification_status_value VerificationStatus.suspected = "suspected"
verification_status_value VerificationStatus.verified = "verified"

-- `BillingProvider(text)`, with `none` where Python raises ValueError
unfoldable pub billing_provider_of : String → Option BillingProvider
billing_provider_of text =
    if text == "manual"
    then some BillingProvider.manual
    else if text == "stripe"
    then some BillingProvider.stripe
    else none

-- `AuthProvider(text)`, likewise
unfoldable pub auth_provider_of : String → Option AuthProvider
auth_provider_of text =
    if text == "google"
    then some AuthProvider.google
    else if text == "sso"
    then some AuthProvider.sso
    else if text == "development"
    then some AuthProvider.development
    else none

unfoldable pub same_billing_provider : BillingProvider → BillingProvider → Bool
same_billing_provider BillingProvider.manual BillingProvider.manual = true
same_billing_provider BillingProvider.stripe BillingProvider.stripe = true
same_billing_provider _ _ = false

unfoldable pub same_auth_provider : AuthProvider → AuthProvider → Bool
same_auth_provider AuthProvider.google AuthProvider.google = true
same_auth_provider AuthProvider.sso AuthProvider.sso = true
same_auth_provider AuthProvider.development AuthProvider.development = true
same_auth_provider _ _ = false
