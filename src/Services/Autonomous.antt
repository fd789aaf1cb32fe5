-- ===== src/Services/Autonomous.antt =====
-- `AutonomousPentestService` of apps/api/kerislab/services.py: plans, the browser plan, and the
-- approval of gated actions.
pub mod Keeps
pub mod Approvals
use kerislab.Models.Status.{ScanStatus, ScanType, ApprovalStatus}
use kerislab.Models.Scanning.{Scan, Target, ApprovalRequest, BrowserAction, BrowserPlan, AgentPlan}
use kerislab.Prelude.{Bool, List, String, Option, true, ◌∷◌, [], false, none, some, concat, not}
use kerislab.Models.Payload.{Payload, Value}
use kerislab.Exec.{
  Exec, World, ◌>>=◌, new_id, gets, next_id, get, ◌>>◌, pure, now_utc, sync, raise_if, put,
  value_error, new_entity, approval_error,
}
use kerislab.Services.Scans.{text_field, emit}
use kerislab.Models.Values.{approval_status_value}
use kerislab.Dict.{lookup}
use kerislab.Store.Collections.{scans, approval_requests, targets, browser_plans, agent_plans}
use kerislab.Scope.{validate_target_scope}

abbrev pub phases : List String
phases =
    "scope_validation" ∷ "recon" ∷ "crawl" ∷ "attack_surface_mapping" ∷ "safe_testing"
    ∷ "gated_verification" ∷ "report" ∷ []

-- `BrowserAction(...)`, which draws an identifier and reads no clock
new_action : String → String → String → Option String → Bool → Exec BrowserAction
new_action action_type selector description value requires_approval = do
  id ← new_id "act"
  pure (record {
    action_type = action_type;
    selector = selector;
    description = description;
    value = value;
    requires_approval = requires_approval;
    id = id;
  })

-- the `actions` of the browser plan, made in their order
unfoldable pub plan_actions : Target → Exec (List BrowserAction)
unfolding new_action
plan_actions target = do
  navigate ←
      new_action "navigate" "document" "Open the scoped target in an isolated browser context"
        (some target.url) false
  crawl ←
      new_action "crawl" "a[href], button, input, form"
        "Discover reachable UI routes and form entry points without submitting destructive actions"
        none false
  assert ←
      new_action "assert" "form, [data-auth], input[type=password]"
        "Identify authentication, upload, and state-changing UI surfaces" none false
  capture ←
      new_action "capture_evidence" "main, body"
        "Capture screenshot and DOM snapshot evidence for replayable findings" none false
  submit ←
      new_action "submit_controlled_payload" "input[type=file], form[enctype]"
        "Verify upload handling only after human approval" (some "kerislab-controlled-upload.txt")
        true
  pure (navigate ∷ crawl ∷ assert ∷ capture ∷ submit ∷ [])

abbrev browser_plan_at : Scan → Target → List BrowserAction → World → BrowserPlan
browser_plan_at scan target actions w = record {
  scan_id = scan.id;
  target_url = target.url;
  engine = "playwright";
  actions = actions;
  id = next_id "brw" w.env w.drawn;
  created_at = w.env.clock w.ticks;
}

unfoldable pub create_browser_plan : String → Exec BrowserPlan
unfolding plan_actions
create_browser_plan scan_id = do
  scan ← get scans scan_id "scan"
  target ← get targets scan.target_id "target"
  validate_target_scope target
  actions ← plan_actions target
  plan ← new_entity (browser_plan_at scan target actions)
  put browser_plans scan.id plan
  sync
  pure plan

unfoldable pub or_create_plan : String → Option BrowserPlan → Exec BrowserPlan
or_create_plan scan_id none = create_browser_plan scan_id
or_create_plan scan_id (some plan) = pure plan

unfoldable pub browser_plan : String → Exec BrowserPlan
unfolding or_create_plan
browser_plan scan_id = do
  found ← gets (λ s. lookup scan_id s.browser_plans)
  or_create_plan scan_id found

abbrev pub is_autonomous : ScanType → Bool
is_autonomous ScanType.autonomous_blackbox = true
is_autonomous _ = false

-- `AgentPlan(...)`: its two times are two readings of the clock
unfoldable pub new_agent_plan : Scan → Target → Exec AgentPlan
new_agent_plan scan target = do
  id ← new_id "pln"
  created_at ← now_utc
  updated_at ← now_utc
  pure (record {
    scan_id = scan.id;
    phases = phases;
    current_phase = "recon";
    objective = concat ("Run guarded autonomous blackbox assessment for " ∷ target.url ∷ []);
    id = id;
    created_at = created_at;
    updated_at = updated_at;
  })

unfoldable pub start : String → Exec AgentPlan
unfolding new_agent_plan
start scan_id = do
  scan ← get scans scan_id "scan"
  raise_if (not (is_autonomous scan.scan_type))
      (value_error "autonomous start requires autonomous_blackbox scan type")
  target ← get targets scan.target_id "target"
  validate_target_scope target
  put scans scan_id (record scan { status = ScanStatus.running })
  plan ← new_agent_plan scan target
  put agent_plans scan.id plan
  emit scan.id "agent.plan.updated" "Autonomous plan created" (text_field "plan_id" plan.id)
  emit scan.id "scan.phase.started" "Recon phase started" (text_field "phase" "recon")
  browser_plan ← create_browser_plan scan.id
  emit scan.id "browser.plan.created" "Web/UI-driven scan plan created" (
      Payload.field "browser_plan_id" (Value.str browser_plan.id)
        (text_field "engine" browser_plan.engine))
  emit scan.id "tool.completed" "Safe HTTP baseline completed" (text_field "target" target.url)
  sync
  pure plan

-- `ApprovalRequest(...)` in the given world
abbrev request_at : Scan → Target → World → ApprovalRequest
request_at scan target w = record {
  workspace_id = scan.workspace_id;
  scan_id = scan.id;
  requested_by_agent = "dast-agent";
  risk_category = "file_upload_verification";
  target = target.url;
  proposed_tool = "http.request.replay";
  proposed_action = "Submit a controlled upload payload to verify file handling behavior";
  reason = "The crawler discovered an upload endpoint that requires gated verification.";
  expected_evidence = "HTTP transcript and response diff for the upload endpoint.";
  policy_reason = "File upload verification is approval-required under guarded autonomy.";
  status = ApprovalStatus.pending;
  resolved_by = none;
  operator_note = "";
  id = next_id "apr" w.env w.drawn;
  requested_at = w.env.clock w.ticks;
  resolved_at = none;
}

unfoldable pub request_gated_upload_verification : String → Exec ApprovalRequest
request_gated_upload_verification scan_id = do
  scan ← get scans scan_id "scan"
  target ← get targets scan.target_id "target"
  put scans scan_id (record scan { status = ScanStatus.awaiting_approval })
  request ← new_entity (request_at scan target)
  put approval_requests request.id request
  emit scan.id "approval.requested" "Approval required for upload verification" (
      Payload.field "approval_id" (Value.str request.id)
        (text_field "risk_category" request.risk_category))
  sync
  pure request

abbrev pub is_pending : ApprovalStatus → Bool
is_pending ApprovalStatus.pending = true
is_pending _ = false

-- What `approve` and `reject` have in common: the request is resolved and its scan runs on.
unfoldable pub resolve : ApprovalStatus → String → String → String → Exec (ApprovalRequest × Scan)
resolve status approval_id user_id note = do
  request ← get approval_requests approval_id "approval request"
  raise_if (not (is_pending request.status))
      (approval_error "approval request has already been resolved")
  now ← now_utc
  let resolved : ApprovalRequest = record request {
    status = status;
    resolved_by = some user_id;
    operator_note = note;
    resolved_at = some now;
  }
  put approval_requests approval_id resolved
  scan ← get scans request.scan_id "scan"
  put scans request.scan_id (record scan { status = ScanStatus.running })
  pure (resolved, scan)

abbrev resolution_payload : ApprovalRequest → Payload
resolution_payload request =
    Payload.field "approval_id" (Value.str request.id)
      (text_field "status" (approval_status_value request.status))

unfoldable pub approve : String → String → String → Exec ApprovalRequest
unfolding resolve
approve approval_id user_id note = do
  (request, scan) ← resolve ApprovalStatus.approved approval_id user_id note
  emit scan.id "approval.resolved" "Approval request approved" (resolution_payload request)
  emit scan.id "tool.completed" "Gated upload verification completed"
      (text_field "approval_id" request.id)
  sync
  pure request

unfoldable pub reject : String → String → String → Exec ApprovalRequest
unfolding resolve
reject approval_id user_id note = do
  (request, scan) ← resolve ApprovalStatus.rejected approval_id user_id note
  emit scan.id "approval.resolved" "Approval request rejected; agent will replan"
      (resolution_payload request)
  emit scan.id "agent.plan.updated" "Agent replanned without rejected gated action" Payload.end
  sync
  pure request
