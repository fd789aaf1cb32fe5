-- ===== src/Store/State.antt =====
-- apps/api/kerislab/store.py: the state of `InMemoryStore`. The lock is not modelled: one call of
-- the store is one step.
use kerislab.Prelude.{List, []}
use kerislab.Dict.{Dict}
use kerislab.Models.Identity.{
  User, UserSettings, UserSession, OAuthState, Workspace, WorkspaceMembership,
}
use kerislab.Models.Money.{
  CreditAccount, CreditLedgerEntry, CreditReservation, BillingCustomer, BillingCheckoutSession,
  BillingInvoice, BillingPayment, BillingWebhookEvent,
}
use kerislab.Models.Scanning.{
  ModelProfile, Project, Target, Scan, ScanEvent, AgentPlan, BrowserPlan, BrowserExecution,
  EvidenceArtifact, ApprovalRequest, Finding, Report,
}
use kerislab.Models.Running.{ScanJob, AuditLog, WorkerHeartbeat}

pub record Store : Type 0 where
  pub users : Dict User
  pub user_settings : Dict UserSettings
  pub user_sessions : Dict UserSession
  pub oauth_states : Dict OAuthState
  pub workspaces : Dict Workspace
  pub memberships : Dict WorkspaceMembership
  pub credit_accounts : Dict CreditAccount
  pub credit_ledger : List CreditLedgerEntry
  pub credit_reservations : Dict CreditReservation
  pub billing_customers : Dict BillingCustomer
  pub billing_checkout_sessions : Dict BillingCheckoutSession
  pub billing_invoices : Dict BillingInvoice
  pub billing_payments : Dict BillingPayment
  pub billing_webhook_events : Dict BillingWebhookEvent
  pub projects : Dict Project
  pub model_profiles : Dict ModelProfile
  pub targets : Dict Target
  pub scans : Dict Scan
  pub events : List ScanEvent
  pub agent_plans : Dict AgentPlan
  pub browser_plans : Dict BrowserPlan
  pub browser_executions : Dict BrowserExecution
  pub evidence_artifacts : Dict EvidenceArtifact
  pub approval_requests : Dict ApprovalRequest
  pub findings : Dict Finding
  pub reports : Dict Report
  pub scan_jobs : Dict ScanJob
  pub audit_logs : List AuditLog
  pub worker_heartbeats : Dict WorkerHeartbeat

-- `InMemoryStore()`
abbrev pub empty : Store
empty = record {
  users = [];
  user_settings = [];
  user_sessions = [];
  oauth_states = [];
  workspaces = [];
  memberships = [];
  credit_accounts = [];
  credit_ledger = [];
  credit_reservations = [];
  billing_customers = [];
  billing_checkout_sessions = [];
  billing_invoices = [];
  billing_payments = [];
  billing_webhook_events = [];
  projects = [];
  model_profiles = [];
  targets = [];
  scans = [];
  events = [];
  agent_plans = [];
  browser_plans = [];
  browser_executions = [];
  evidence_artifacts = [];
  approval_requests = [];
  findings = [];
  reports = [];
  scan_jobs = [];
  audit_logs = [];
  worker_heartbeats = [];
}
