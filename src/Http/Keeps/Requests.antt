-- ===== src/Http/Keeps/Requests.antt =====
-- The requests to apps/api/kerislab/main.py that write, one after the other.
use kerislab.Services.Bystanders.{Kept}
use kerislab.Prelude.{String, Option, List}
use kerislab.Exec.{World, Result}
use kerislab.Services.Evidence.{StorageSettings, StorageBackend}
use kerislab.Http.Scans.{
  run_passive, ScanCreate, pause_scan_endpoint, resume_scan_endpoint, complete_scan_endpoint,
  fail_scan_endpoint, cancel_scan_endpoint, start_autonomous, browser_plan_endpoint,
  execute_browser_plan, update_scan_instructions, create_scan_endpoint,
}
use kerislab.Http.Keeps.Scans.{
  run_passive-Kept, pause_scan_endpoint-Kept, resume_scan_endpoint-Kept,
  complete_scan_endpoint-Kept, fail_scan_endpoint-Kept, cancel_scan_endpoint-Kept,
  start_autonomous-Kept, browser_plan_endpoint-Kept, request_upload_verification-Kept,
  execute_browser_plan-Kept, update_scan_instructions-Kept, create_scan_endpoint-Kept,
  approve_request-Kept, reject_request-Kept,
}
use kerislab.Services.Scans.Creation.{FreshScan}
use kerislab.Services.Books.{Books}
use kerislab.Models.Scanning.{BrowserPlan}
use kerislab.Prelude.Int.{ℤ}
use kerislab.Services.Bystanders.Workspaces.{FreshWorkspace}
use kerislab.Http.Billing.{
  BillingCheckoutCreate, BillingWebhookPayload, get_credits, grant_credits, create_billing_checkout,
  confirm_billing_checkout, billing_webhook,
}
use kerislab.Models.Payload.{Payload}
use kerislab.Oidc.{OidcPorts}
use kerislab.Http.Projects.{
  TargetCreate, ModelProfileCreate, create_project_endpoint, create_target_endpoint,
  create_model_profile, test_model_profile,
}
use kerislab.Dict.{Dict}
use kerislab.Http.Approvals.{request_upload_verification, approve_request, reject_request}
use kerislab.Http.Identity.{
  LoginRequest, google_login, sso_login, oidc_callback_get, oidc_callback, dev_login, logout,
}
use kerislab.Http.Keeps.Rest.{
  get_credits-Kept, get_workspace-Kept, grant_credits-Kept, create_billing_checkout-Kept,
  confirm_billing_checkout-Kept, billing_webhook-Kept, update_workspace_sso-Kept,
  create_project_endpoint-Kept,
}
use kerislab.Http.Workspaces.{
  get_workspace, update_workspace_sso, create_workspace_endpoint, update_me,
}
use kerislab.Http.Keeps.Entities.{
  create_target_endpoint-Kept, create_model_profile-Kept, test_model_profile-Kept,
  create_workspace_endpoint-Kept, update_me-Kept, drain_execution_jobs-Kept, create_report-Kept,
}
use kerislab.Http.Execution.{drain_execution_jobs}
use kerislab.Http.Reports.{create_report}
use kerislab.Http.Keeps.Logins.{
  google_login-Kept, sso_login-Kept, oidc_callback_get-Kept, oidc_callback-Kept, dev_login-Kept,
  logout-Kept,
}

-- What the handlers take from outside: the storage of evidence, the browser, the secret of the billing provider
-- with its signatures, and the identity providers.
pub record Outside : Type 0 where
  pub settings : StorageSettings
  pub backend : StorageBackend
  pub runner : BrowserPlan → Result Payload
  pub secret : Option String
  pub hmac_of : String → BillingWebhookPayload → String
  pub ports : OidcPorts

-- A request, with its path and its body.
pub data Request : Type 0 where
  runs_passive pauses_scan resumes_scan completes_scan fails_scan cancels_scan starts_autonomous
        plans_browser asks_upload executes_plan :
      String → Request
  instructs_scan : String → String → Request
  creates_scan : ScanCreate → Request
  approves_request rejects_request : String → String → Request
  reads_credits reads_workspace : String → Request
  grants_credits : String → ℤ → String → Request
  opens_checkout : String → BillingCheckoutCreate → Request
  confirms_checkout : String → Option String → Request
  delivers_event : BillingWebhookPayload → Option String → Request
  sets_domains : String → List String → Request
  creates_project : String → String → Request
  creates_target : TargetCreate → Request
  creates_profile : ModelProfileCreate → Request
  tests_profile : String → Request
  creates_workspace : String → ℤ → Request
  updates_me : Payload → Request
  drains_jobs : Request
  reports_scan : Option String → Request
  begins_google begins_sso : Request
  calls_back : String → String → Option String → Request
  posts_back : Dict String → Request
  logs_in : LoginRequest → Request
  logs_out : Option String → Request

-- What is left behind the handler of a request, called for a user, with its answer dropped.
unfoldable pub serve : Outside → Request → String → World → World
serve o (runs_passive a) user_id w = (run_passive a user_id w).1
serve o (pauses_scan a) user_id w = (pause_scan_endpoint a user_id w).1
serve o (resumes_scan a) user_id w = (resume_scan_endpoint a user_id w).1
serve o (completes_scan a) user_id w = (complete_scan_endpoint a user_id w).1
serve o (fails_scan a) user_id w = (fail_scan_endpoint a user_id w).1
serve o (cancels_scan a) user_id w = (cancel_scan_endpoint a user_id w).1
serve o (starts_autonomous a) user_id w = (start_autonomous a user_id w).1
serve o (plans_browser a) user_id w = (browser_plan_endpoint a user_id w).1
serve o (asks_upload a) user_id w = (request_upload_verification a user_id w).1
serve o (executes_plan a) user_id w =
    (execute_browser_plan o.settings o.backend o.runner a user_id w).1
serve o (instructs_scan a c) user_id w = (update_scan_instructions a c user_id w).1
serve o (creates_scan a) user_id w = (create_scan_endpoint a user_id w).1
serve o (approves_request a c) user_id w = (approve_request a c user_id w).1
serve o (rejects_request a c) user_id w = (reject_request a c user_id w).1
serve o (reads_credits a) user_id w = (get_credits a user_id w).1
serve o (reads_workspace a) user_id w = (get_workspace a user_id w).1
serve o (grants_credits a c d) user_id w = (grant_credits a c d user_id w).1
serve o (opens_checkout a c) user_id w = (create_billing_checkout a c user_id w).1
serve o (confirms_checkout a c) user_id w = (confirm_billing_checkout a c user_id w).1
serve o (delivers_event a c) user_id w = (billing_webhook o.secret o.hmac_of a c w).1
serve o (sets_domains a c) user_id w = (update_workspace_sso a c user_id w).1
serve o (creates_project a c) user_id w = (create_project_endpoint a c user_id w).1
serve o (creates_target a) user_id w = (create_target_endpoint a user_id w).1
serve o (creates_profile a) user_id w = (create_model_profile a user_id w).1
serve o (tests_profile a) user_id w = (test_model_profile a user_id w).1
serve o (creates_workspace a c) user_id w = (create_workspace_endpoint a c user_id w).1
serve o (updates_me a) user_id w = (update_me a user_id w).1
serve o drains_jobs user_id w = (drain_execution_jobs user_id w).1
serve o (reports_scan a) user_id w = (create_report a user_id w).1
serve o begins_google user_id w = (google_login o.ports w).1
serve o begins_sso user_id w = (sso_login o.ports w).1
serve o (calls_back a c d) user_id w = (oidc_callback_get o.ports a c d w).1
serve o (posts_back a) user_id w = (oidc_callback o.ports a w).1
serve o (logs_in a) user_id w = (dev_login a w).1
serve o (logs_out a) user_id w = (logout a w).1

-- The identifiers that the next scan and the next workspace would get are new.
unfoldable pub DrawsNew : Request → World → Type 0
DrawsNew (creates_scan a) w = FreshScan w
DrawsNew (creates_workspace a c) w = FreshWorkspace w
DrawsNew _ w = Unit

pub data Serves (o : Outside) (w : World) : World → Type 0 where
  untouched : Serves o w w
  after :
      (r : Request) (user_id : String) (v : World)
      → Serves o w v
      → DrawsNew r v
      → Serves o w (serve o r user_id v)

serve-Kept :
    (o : Outside) (r : Request) (user_id : String) (w : World)
    → DrawsNew r w
    → Kept w
    → Kept (serve o r user_id w)
unfolding serve DrawsNew
serve-Kept o (runs_passive a) user_id w f b = run_passive-Kept a user_id w b
serve-Kept o (pauses_scan a) user_id w f b = pause_scan_endpoint-Kept a user_id w b
serve-Kept o (resumes_scan a) user_id w f b = resume_scan_endpoint-Kept a user_id w b
serve-Kept o (completes_scan a) user_id w f b = complete_scan_endpoint-Kept a user_id w b
serve-Kept o (fails_scan a) user_id w f b = fail_scan_endpoint-Kept a user_id w b
serve-Kept o (cancels_scan a) user_id w f b = cancel_scan_endpoint-Kept a user_id w b
serve-Kept o (starts_autonomous a) user_id w f b = start_autonomous-Kept a user_id w b
serve-Kept o (plans_browser a) user_id w f b = browser_plan_endpoint-Kept a user_id w b
serve-Kept o (asks_upload a) user_id w f b = request_upload_verification-Kept a user_id w b
serve-Kept o (executes_plan a) user_id w f b =
    execute_browser_plan-Kept a user_id w b o.settings o.backend o.runner
serve-Kept o (instructs_scan a c) user_id w f b = update_scan_instructions-Kept a user_id w b c
serve-Kept o (creates_scan a) user_id w f b = create_scan_endpoint-Kept a user_id w f b
serve-Kept o (approves_request a c) user_id w f b = approve_request-Kept a c user_id w b
serve-Kept o (rejects_request a c) user_id w f b = reject_request-Kept a c user_id w b
serve-Kept o (reads_credits a) user_id w f b = get_credits-Kept a user_id w b
serve-Kept o (reads_workspace a) user_id w f b = get_workspace-Kept a user_id w b
serve-Kept o (grants_credits a c d) user_id w f b = grant_credits-Kept a user_id w b c d
serve-Kept o (opens_checkout a c) user_id w f b = create_billing_checkout-Kept a user_id w b c
serve-Kept o (confirms_checkout a c) user_id w f b = confirm_billing_checkout-Kept a c user_id w b
serve-Kept o (delivers_event a c) user_id w f b = billing_webhook-Kept o.secret o.hmac_of a c w b
serve-Kept o (sets_domains a c) user_id w f b = update_workspace_sso-Kept a user_id w b c
serve-Kept o (creates_project a c) user_id w f b = create_project_endpoint-Kept a user_id w b c
serve-Kept o (creates_target a) user_id w f b = create_target_endpoint-Kept a user_id w b
serve-Kept o (creates_profile a) user_id w f b = create_model_profile-Kept a user_id w b
serve-Kept o (tests_profile a) user_id w f b = test_model_profile-Kept a user_id w b
serve-Kept o (creates_workspace a c) user_id w f b =
    create_workspace_endpoint-Kept a c user_id w f b
serve-Kept o (updates_me a) user_id w f b = update_me-Kept a user_id w b
serve-Kept o drains_jobs user_id w f b = drain_execution_jobs-Kept user_id w b
serve-Kept o (reports_scan a) user_id w f b = create_report-Kept a user_id w b
serve-Kept o begins_google user_id w f b = google_login-Kept o.ports w b
serve-Kept o begins_sso user_id w f b = sso_login-Kept o.ports w b
serve-Kept o (calls_back a c d) user_id w f b = oidc_callback_get-Kept o.ports a c d w b
serve-Kept o (posts_back a) user_id w f b = oidc_callback-Kept o.ports a w b
serve-Kept o (logs_in a) user_id w f b = dev_login-Kept a w b
serve-Kept o (logs_out a) user_id w f b = logout-Kept a w b

-- Whatever requests arrive, in any order, for any users, answered or refused, they leave books that fit: each
-- account is what its ledger entries add up to, it holds a credit for each open reservation and has spent
-- one for each deducted one, and each reservation belongs to the workspace of its scan.
pub Serves-Books : {o : Outside} {w v : World} → Serves o w v → Books w.store → Books v.store
Serves-Books untouched b = b
Serves-Books (after r user_id v before new) b = serve-Kept _ r user_id v new (Serves-Books before b)
