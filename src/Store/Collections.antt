-- ===== src/Store/Collections.antt =====
-- The dictionaries of the store as values, so that `store.get(store.scans, ...)` and `store.add` are
-- one function each, and the state of the store can be written through them.
use kerislab.Prelude.{String}
use kerislab.Dict.{Dict}
use kerislab.Store.State.{Store}
use kerislab.Models.Identity.{
  User, UserSettings, UserSession, OAuthState, Workspace, WorkspaceMembership,
}
use kerislab.Models.Money.{
  CreditAccount, CreditReservation, BillingCustomer, BillingCheckoutSession, BillingInvoice,
  BillingPayment, BillingWebhookEvent,
}
use kerislab.Models.Scanning.{
  ModelProfile, Project, Target, Scan, AgentPlan, BrowserPlan, BrowserExecution, EvidenceArtifact,
  ApprovalRequest, Finding, Report,
}
use kerislab.Models.Running.{ScanJob, WorkerHeartbeat}

-- How to read a dictionary of the store, how to write it back, and the `id` of its entities.
pub record Collection (V : Type 0) : Type 0 where
  pub read : Store → Dict V
  pub write : Dict V → Store → Store
  pub key : V → String

abbrev pub users : Collection User
users = record { read = λ s. s.users; write = λ d s. record s { users = d }; key = λ e. e.id }

abbrev pub user_settings : Collection UserSettings
user_settings = record {
  read = λ s. s.user_settings;
  write = λ d s. record s { user_settings = d };
  key = λ e. e.user_id;
}

abbrev pub user_sessions : Collection UserSession
user_sessions = record {
  read = λ s. s.user_sessions;
  write = λ d s. record s { user_sessions = d };
  key = λ e. e.id;
}

abbrev pub oauth_states : Collection OAuthState
oauth_states = record {
  read = λ s. s.oauth_states;
  write = λ d s. record s { oauth_states = d };
  key = λ e. e.id;
}

abbrev pub workspaces : Collection Workspace
workspaces = record {
  read = λ s. s.workspaces;
  write = λ d s. record s { workspaces = d };
  key = λ e. e.id;
}

abbrev pub memberships : Collection WorkspaceMembership
memberships = record {
  read = λ s. s.memberships;
  write = λ d s. record s { memberships = d };
  key = λ e. e.id;
}

abbrev pub credit_accounts : Collection CreditAccount
credit_accounts = record {
  read = λ s. s.credit_accounts;
  write = λ d s. record s { credit_accounts = d };
  key = λ e. e.workspace_id;
}

abbrev pub credit_reservations : Collection CreditReservation
credit_reservations = record {
  read = λ s. s.credit_reservations;
  write = λ d s. record s { credit_reservations = d };
  key = λ e. e.id;
}

abbrev pub billing_customers : Collection BillingCustomer
billing_customers = record {
  read = λ s. s.billing_customers;
  write = λ d s. record s { billing_customers = d };
  key = λ e. e.id;
}

abbrev pub billing_checkout_sessions : Collection BillingCheckoutSession
billing_checkout_sessions = record {
  read = λ s. s.billing_checkout_sessions;
  write = λ d s. record s { billing_checkout_sessions = d };
  key = λ e. e.id;
}

abbrev pub billing_invoices : Collection BillingInvoice
billing_invoices = record {
  read = λ s. s.billing_invoices;
  write = λ d s. record s { billing_invoices = d };
  key = λ e. e.id;
}

abbrev pub billing_payments : Collection BillingPayment
billing_payments = record {
  read = λ s. s.billing_payments;
  write = λ d s. record s { billing_payments = d };
  key = λ e. e.id;
}

abbrev pub billing_webhook_events : Collection BillingWebhookEvent
billing_webhook_events = record {
  read = λ s. s.billing_webhook_events;
  write = λ d s. record s { billing_webhook_events = d };
  key = λ e. e.id;
}

abbrev pub projects : Collection Project
projects = record {
  read = λ s. s.projects;
  write = λ d s. record s { projects = d };
  key = λ e. e.id;
}

abbrev pub model_profiles : Collection ModelProfile
model_profiles = record {
  read = λ s. s.model_profiles;
  write = λ d s. record s { model_profiles = d };
  key = λ e. e.id;
}

abbrev pub targets : Collection Target
targets = record { read = λ s. s.targets; write = λ d s. record s { targets = d }; key = λ e. e.id }

abbrev pub scans : Collection Scan
scans = record { read = λ s. s.scans; write = λ d s. record s { scans = d }; key = λ e. e.id }

abbrev pub agent_plans : Collection AgentPlan
agent_plans = record {
  read = λ s. s.agent_plans;
  write = λ d s. record s { agent_plans = d };
  key = λ e. e.id;
}

abbrev pub browser_plans : Collection BrowserPlan
browser_plans = record {
  read = λ s. s.browser_plans;
  write = λ d s. record s { browser_plans = d };
  key = λ e. e.id;
}

abbrev pub browser_executions : Collection BrowserExecution
browser_executions = record {
  read = λ s. s.browser_executions;
  write = λ d s. record s { browser_executions = d };
  key = λ e. e.id;
}

abbrev pub evidence_artifacts : Collection EvidenceArtifact
evidence_artifacts = record {
  read = λ s. s.evidence_artifacts;
  write = λ d s. record s { evidence_artifacts = d };
  key = λ e. e.id;
}

abbrev pub approval_requests : Collection ApprovalRequest
approval_requests = record {
  read = λ s. s.approval_requests;
  write = λ d s. record s { approval_requests = d };
  key = λ e. e.id;
}

abbrev pub findings : Collection Finding
findings = record {
  read = λ s. s.findings;
  write = λ d s. record s { findings = d };
  key = λ e. e.id;
}

abbrev pub reports : Collection Report
reports = record { read = λ s. s.reports; write = λ d s. record s { reports = d }; key = λ e. e.id }

abbrev pub scan_jobs : Collection ScanJob
scan_jobs = record {
  read = λ s. s.scan_jobs;
  write = λ d s. record s { scan_jobs = d };
  key = λ e. e.id;
}

abbrev pub worker_heartbeats : Collection WorkerHeartbeat
worker_heartbeats = record {
  read = λ s. s.worker_heartbeats;
  write = λ d s. record s { worker_heartbeats = d };
  key = λ e. e.id;
}
