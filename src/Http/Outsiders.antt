-- ===== src/Http/Outsiders.antt =====
-- Requests to apps/api/kerislab/main.py for a user outside the workspace that they are about.
use kerislab.Http.Keeps.Requests.{
  Request, serve, Outside, runs_passive, pauses_scan, resumes_scan, completes_scan, fails_scan,
  cancels_scan, starts_autonomous, plans_browser, asks_upload, executes_plan, instructs_scan,
  reports_scan, tests_profile, confirms_checkout, creates_scan, reads_credits, reads_workspace,
  grants_credits, opens_checkout, sets_domains, creates_project, creates_target, creates_profile,
  approves_request, rejects_request, delivers_event, creates_workspace, updates_me, calls_back,
  posts_back, logs_in, logs_out, drains_jobs, begins_google, begins_sso,
}
use kerislab.Prelude.{
  String, Option, some, ◌≡◌, none, List, Option-cases, inl, refl, inr, Bool, false, true,
}
use kerislab.Http.Scans.{
  run_passive, pause_scan_endpoint, resume_scan_endpoint, complete_scan_endpoint,
  fail_scan_endpoint, cancel_scan_endpoint, start_autonomous, browser_plan_endpoint,
  execute_browser_plan, update_scan_instructions, create_scan_endpoint,
}
use kerislab.Store.State.{Store}
use kerislab.Models.Scanning.{ModelProfile, Scan, ApprovalRequest}
use kerislab.Models.Money.{BillingCheckoutSession}
use kerislab.Exec.{World, Exec, proceed}
use kerislab.Http.Projects.{
  test_model_profile, create_project_endpoint, create_target_endpoint, create_model_profile,
}
use kerislab.Http.{
  require_role, require_workspace_access, workspace_security_roles, workspace_admin_roles,
}
use kerislab.Dict.{lookup}
use kerislab.Http.Billing.{
  confirm_billing_checkout, get_credits, grant_credits, create_billing_checkout,
}
use kerislab.Services.Authorization.{
  require_scan_access, require_workspace_member, require_workspace_role, workspace_membership,
}
use kerislab.Models.Status.{Role}
use kerislab.Http.Approvals.{request_upload_verification}
use kerislab.Http.Reports.{create_report, report_for, report_logged}
use kerislab.Http.Workspaces.{get_workspace, update_workspace_sso}

abbrev workspace_of_scan : Option Scan → Option String
workspace_of_scan none = none
workspace_of_scan (some scan) = some scan.workspace_id

abbrev workspace_of_profile : Option ModelProfile → Option String
workspace_of_profile none = none
workspace_of_profile (some profile) = some profile.workspace_id

abbrev workspace_of_session : Option BillingCheckoutSession → Option String
workspace_of_session none = none
workspace_of_session (some session) = some session.workspace_id

abbrev workspace_of_approval : Option ApprovalRequest → Option String
workspace_of_approval none = none
workspace_of_approval (some request) = some request.workspace_id

-- The workspace that a request is about, if it names one, or names a stored scan, model profile, checkout
-- session or approval request of one. The other requests are about the caller, or about all
-- workspaces.
unfoldable pub about : Request → Store → Option String
about (runs_passive scan_id) s = workspace_of_scan (lookup scan_id s.scans)
about (pauses_scan scan_id) s = workspace_of_scan (lookup scan_id s.scans)
about (resumes_scan scan_id) s = workspace_of_scan (lookup scan_id s.scans)
about (completes_scan scan_id) s = workspace_of_scan (lookup scan_id s.scans)
about (fails_scan scan_id) s = workspace_of_scan (lookup scan_id s.scans)
about (cancels_scan scan_id) s = workspace_of_scan (lookup scan_id s.scans)
about (starts_autonomous scan_id) s = workspace_of_scan (lookup scan_id s.scans)
about (plans_browser scan_id) s = workspace_of_scan (lookup scan_id s.scans)
about (asks_upload scan_id) s = workspace_of_scan (lookup scan_id s.scans)
about (executes_plan scan_id) s = workspace_of_scan (lookup scan_id s.scans)
about (instructs_scan scan_id instructions) s = workspace_of_scan (lookup scan_id s.scans)
about (reports_scan (some scan_id)) s = workspace_of_scan (lookup scan_id s.scans)
about (tests_profile profile_id) s = workspace_of_profile (lookup profile_id s.model_profiles)
about (confirms_checkout id payment_id) s =
    workspace_of_session (lookup id s.billing_checkout_sessions)
about (approves_request approval_id note) s =
    workspace_of_approval (lookup approval_id s.approval_requests)
about (rejects_request approval_id note) s =
    workspace_of_approval (lookup approval_id s.approval_requests)
about (creates_scan payload) s = some payload.workspace_id
about (reads_credits workspace_id) s = some workspace_id
about (reads_workspace workspace_id) s = some workspace_id
about (grants_credits workspace_id amount note) s = some workspace_id
about (opens_checkout workspace_id payload) s = some workspace_id
about (sets_domains workspace_id domains) s = some workspace_id
about (creates_project workspace_id name) s = some workspace_id
about (creates_target payload) s = some payload.workspace_id
about (creates_profile payload) s = some payload.workspace_id
about _ s = none

module _ (user_id : String) (w : World) where
  access_stopped :
      {A : Type 0} (workspace_id id : String) (f : Unit → Exec A)
      → some workspace_id ≡ some id
      → workspace_membership user_id id w.store ≡ none
      → (proceed (require_workspace_access user_id workspace_id w) f).1 ≡ w
  unfolding require_workspace_access require_workspace_member
  access_stopped workspace_id id f at out = let same : workspace_id ≡ id = cc in rw (same, out) refl

  role_stopped :
      {A : Type 0} (workspace_id id : String) (roles : List Role) (f : Unit → Exec A)
      → some workspace_id ≡ some id
      → workspace_membership user_id id w.store ≡ none
      → (proceed (require_role user_id workspace_id roles w) f).1 ≡ w
  unfolding require_role require_workspace_role require_workspace_member
  role_stopped workspace_id id roles f at out =
      let same : workspace_id ≡ id = cc in rw (same, out) refl

  scan_stopped :
      {A : Type 0} (scan_id id : String) (f : Scan → Exec A)
      → workspace_of_scan (lookup scan_id w.store.scans) ≡ some id
      → workspace_membership user_id id w.store ≡ none
      → (proceed (require_scan_access user_id scan_id w) f).1 ≡ w
  unfolding require_scan_access require_workspace_member
  scan_stopped scan_id id f at out = elim (Option-cases (lookup scan_id w.store.scans)) [
    | inl e ↦ rw e refl
    | inr (scan, e) ↦
        let h : some scan.workspace_id ≡ some id = rw e at at in
        let same : scan.workspace_id ≡ id = cc in rw (e, same, out) refl
  ]

  profile_stopped :
      (profile_id id : String)
      → workspace_of_profile (lookup profile_id w.store.model_profiles) ≡ some id
      → workspace_membership user_id id w.store ≡ none
      → (test_model_profile profile_id user_id w).1 ≡ w
  unfolding test_model_profile
  profile_stopped profile_id id at out =
      elim (Option-cases (lookup profile_id w.store.model_profiles)) [
        | inl e ↦ rw e refl
        | inr (profile, e) ↦
            rw e (role_stopped profile.workspace_id id workspace_security_roles _ (rw e at at) out)
      ]

  session_stopped :
      (checkout_id id : String) (payment_id : Option String)
      → workspace_of_session (lookup checkout_id w.store.billing_checkout_sessions) ≡ some id
      → workspace_membership user_id id w.store ≡ none
      → (confirm_billing_checkout checkout_id payment_id user_id w).1 ≡ w
  unfolding confirm_billing_checkout
  session_stopped checkout_id id payment_id at out =
      elim (Option-cases (lookup checkout_id w.store.billing_checkout_sessions)) [
        | inl e ↦ rw e refl
        | inr (session, e) ↦
            rw e (role_stopped session.workspace_id id workspace_admin_roles _ (rw e at at) out)
      ]

-- Whether a request decides an approval request, for which the handlers ask for no membership.
abbrev pub decides_approval : Request → Bool
decides_approval (approves_request approval_id note) = true
decides_approval (rejects_request approval_id note) = true
decides_approval _ = false

-- A request about a workspace, or about a stored scan, model profile or checkout session of one, other than the
-- approval or rejection of an approval request, changes nothing for a user who has no membership in
-- that workspace.
pub serve-outsider :
    (o : Outside) (r : Request) (user_id id : String) (w : World)
    → about r w.store ≡ some id
    → decides_approval r ≡ false
    → workspace_membership user_id id w.store ≡ none
    → serve o r user_id w ≡ w
unfolding serve about run_passive pause_scan_endpoint resume_scan_endpoint complete_scan_endpoint
    fail_scan_endpoint cancel_scan_endpoint start_autonomous browser_plan_endpoint
    request_upload_verification execute_browser_plan update_scan_instructions create_report
    report_for report_logged create_scan_endpoint get_credits get_workspace grant_credits
    create_billing_checkout update_workspace_sso create_project_endpoint create_target_endpoint
    create_model_profile
serve-outsider o (runs_passive a) user_id id w at other out = scan_stopped user_id w a id _ at out
serve-outsider o (pauses_scan a) user_id id w at other out = scan_stopped user_id w a id _ at out
serve-outsider o (resumes_scan a) user_id id w at other out = scan_stopped user_id w a id _ at out
serve-outsider o (completes_scan a) user_id id w at other out = scan_stopped user_id w a id _ at out
serve-outsider o (fails_scan a) user_id id w at other out = scan_stopped user_id w a id _ at out
serve-outsider o (cancels_scan a) user_id id w at other out = scan_stopped user_id w a id _ at out
serve-outsider o (starts_autonomous a) user_id id w at other out =
    scan_stopped user_id w a id _ at out
serve-outsider o (plans_browser a) user_id id w at other out = scan_stopped user_id w a id _ at out
serve-outsider o (asks_upload a) user_id id w at other out = scan_stopped user_id w a id _ at out
serve-outsider o (executes_plan a) user_id id w at other out = scan_stopped user_id w a id _ at out
serve-outsider o (instructs_scan a c) user_id id w at other out =
    scan_stopped user_id w a id _ at out
serve-outsider o (reports_scan (some a)) user_id id w at other out =
    scan_stopped user_id w a id _ at out
serve-outsider o (reports_scan none) user_id id w at other out = cc
serve-outsider o (tests_profile a) user_id id w at other out = profile_stopped user_id w a id at out
serve-outsider o (confirms_checkout a c) user_id id w at other out =
    session_stopped user_id w a id c at out
serve-outsider o (creates_scan a) user_id id w at other out =
    access_stopped user_id w a.workspace_id id _ at out
serve-outsider o (reads_credits a) user_id id w at other out =
    access_stopped user_id w a id _ at out
serve-outsider o (reads_workspace a) user_id id w at other out =
    access_stopped user_id w a id _ at out
serve-outsider o (creates_project a c) user_id id w at other out =
    access_stopped user_id w a id _ at out
serve-outsider o (creates_target a) user_id id w at other out =
    access_stopped user_id w a.workspace_id id _ at out
serve-outsider o (grants_credits a c d) user_id id w at other out =
    role_stopped user_id w a id workspace_admin_roles _ at out
serve-outsider o (opens_checkout a c) user_id id w at other out =
    role_stopped user_id w a id workspace_admin_roles _ at out
serve-outsider o (sets_domains a c) user_id id w at other out =
    role_stopped user_id w a id workspace_admin_roles _ at out
serve-outsider o (creates_profile a) user_id id w at other out =
    role_stopped user_id w a.workspace_id id workspace_security_roles _ at out
serve-outsider o (approves_request a c) user_id id w at other out = cc
serve-outsider o (rejects_request a c) user_id id w at other out = cc
serve-outsider o (delivers_event a c) user_id id w at other out = cc
serve-outsider o (creates_workspace a c) user_id id w at other out = cc
serve-outsider o (updates_me a) user_id id w at other out = cc
serve-outsider o drains_jobs user_id id w at other out = cc
serve-outsider o begins_google user_id id w at other out = cc
serve-outsider o begins_sso user_id id w at other out = cc
serve-outsider o (calls_back a c d) user_id id w at other out = cc
serve-outsider o (posts_back a) user_id id w at other out = cc
serve-outsider o (logs_in a) user_id id w at other out = cc
serve-outsider o (logs_out a) user_id id w at other out = cc
