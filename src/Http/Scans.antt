-- ===== src/Http/Scans.antt =====
-- The handlers of scans in apps/api/kerislab/main.py.
use kerislab.Prelude.{Option, String, List, some, none, select, ◌==◌}
use kerislab.Models.Status.{ScanType, ScanJobType, AuditAction}
use kerislab.Services.Evidence.{StorageSettings, StorageBackend}
use kerislab.Models.Scanning.{Scan, BrowserPlan, AgentPlan, ScanEvent, EvidenceArtifact}
use kerislab.Exec.{Exec, ◌>>=◌, ◌>>◌, Result, gets, at, pure}
use kerislab.Models.Payload.{Value, Payload}
use kerislab.Models.Money.{CreditAccount}
use kerislab.Services.Audit.{Subject, by_actor, log}
use kerislab.Services.Authorization.{require_scan_access}
use kerislab.Services.Engine.{enqueue}
use kerislab.Http.{require_workspace_access, handled}
use kerislab.Services.Scans.{
  create_scan, run_passive_scan, cancel_scan, complete_scan, pause_scan, resume_scan,
  update_instructions, fail_scan, text_field,
}
use kerislab.Services.Autonomous.{browser_plan, start}
use kerislab.Store.Collections.{credit_accounts, scans}
use kerislab.Services.Browser.{execute_plan}
use kerislab.Dynamic.{payload_get}
use kerislab.Models.Values.{scan_type_value}
use kerislab.Dict.{values}

-- the body of `create_scan`
pub record ScanCreate : Type 0 where
  pub workspace_id : String
  pub project_id : String
  pub target_id : String
  pub scan_type : ScanType
  pub model_profile_id : String
  pub instructions : String

-- The subject of an audit entry about a scan.
abbrev pub of_scan : String → Scan → Subject
of_scan user_id scan = record (by_actor (some user_id)) {
  workspace_id = some scan.workspace_id;
  scan_id = some scan.id;
}

-- `if job_type is not None: get_execution_engine().enqueue(scan.id, job_type)`
abbrev pub enqueue_by_type : ScanType → String → Exec Unit
enqueue_by_type ScanType.passive_blackbox scan_id = do
  enqueue scan_id ScanJobType.passive_scan Payload.end
  pure tt
enqueue_by_type _ scan_id = pure tt

-- the `try` of `create_scan`
unfoldable pub order_scan : ScanCreate → String → Exec Scan
order_scan payload user_id = do
  scan ←
      create_scan payload.workspace_id payload.project_id payload.target_id payload.scan_type
        payload.model_profile_id payload.instructions
  log AuditAction.scan_created (record (by_actor (some user_id)) {
    workspace_id = some payload.workspace_id;
    project_id = some payload.project_id;
    target_id = some payload.target_id;
    scan_id = some scan.id;
    details = text_field "scan_type" (scan_type_value payload.scan_type);
  })
  enqueue_by_type payload.scan_type scan.id
  pure scan

unfoldable pub create_scan_endpoint : ScanCreate → String → Exec (Scan × CreditAccount)
create_scan_endpoint payload user_id = do
  require_workspace_access user_id payload.workspace_id
  scan ← handled (order_scan payload user_id)
  credits ← at credit_accounts payload.workspace_id
  pure (scan, credits)

unfoldable pub get_scan : String → String → Exec Scan
get_scan scan_id user_id = require_scan_access user_id scan_id

unfoldable pub run_passive : String → String → Exec Scan
run_passive scan_id user_id = do
  require_scan_access user_id scan_id
  handled (do
    scan ← run_passive_scan scan_id
    log AuditAction.scan_executed (of_scan user_id scan)
    pure scan)

unfoldable pub pause_scan_endpoint : String → String → Exec Scan
pause_scan_endpoint scan_id user_id = do
  require_scan_access user_id scan_id
  handled
      (do scan ← pause_scan scan_id; log AuditAction.scan_paused (of_scan user_id scan); pure scan)

unfoldable pub resume_scan_endpoint : String → String → Exec Scan
resume_scan_endpoint scan_id user_id = do
  require_scan_access user_id scan_id
  handled (do
    scan ← resume_scan scan_id
    log AuditAction.scan_resumed (of_scan user_id scan)
    pure scan)

-- `payload.get("instructions", "")` is the argument.
unfoldable pub update_scan_instructions : String → String → String → Exec Scan
update_scan_instructions scan_id instructions user_id = do
  require_scan_access user_id scan_id
  handled (do
    scan ← update_instructions scan_id instructions
    log AuditAction.scan_instructions_updated (of_scan user_id scan)
    pure scan)

unfoldable pub complete_scan_endpoint : String → String → Exec (Scan × CreditAccount)
complete_scan_endpoint scan_id user_id = do
  require_scan_access user_id scan_id
  scan ← handled (complete_scan scan_id)
  credits ← at credit_accounts scan.workspace_id
  pure (scan, credits)

unfoldable pub fail_scan_endpoint : String → String → Exec (Scan × CreditAccount)
fail_scan_endpoint scan_id user_id = do
  require_scan_access user_id scan_id
  scan ← handled (fail_scan scan_id "Scan failed")
  credits ← at credit_accounts scan.workspace_id
  pure (scan, credits)

unfoldable pub cancel_scan_endpoint : String → String → Exec (Scan × CreditAccount)
cancel_scan_endpoint scan_id user_id = do
  require_scan_access user_id scan_id
  scan ← handled (cancel_scan scan_id)
  credits ← at credit_accounts scan.workspace_id
  pure (scan, credits)

unfoldable pub start_autonomous : String → String → Exec (AgentPlan × Scan)
start_autonomous scan_id user_id = do
  require_scan_access user_id scan_id
  plan ← handled (start scan_id)
  scan ← at scans scan_id
  pure (plan, scan)

unfoldable pub browser_plan_endpoint : String → String → Exec BrowserPlan
browser_plan_endpoint scan_id user_id = do
  require_scan_access user_id scan_id
  handled (browser_plan scan_id)

-- `result.get("engine")`, with `None` as a value
abbrev value_or_null : Option Value → Value
value_or_null none = Value.null
value_or_null (some value) = value

module _ (settings : StorageSettings) (backend : StorageBackend)
    (runner : BrowserPlan → Result Payload) where
  unfoldable pub execute_browser_plan : String → String → Exec Payload
  execute_browser_plan scan_id user_id = do
    scan ← require_scan_access user_id scan_id
    handled (do
      result ← execute_plan settings backend runner scan_id
      log AuditAction.scan_executed (record (of_scan user_id scan) {
        details =
            Payload.field "engine" (value_or_null (payload_get "engine" result))
              (text_field "mode" "browser");
      })
      pure result)

unfoldable pub scan_evidence : String → String → Exec (List EvidenceArtifact)
scan_evidence scan_id user_id = do
  require_scan_access user_id scan_id
  gets (λ s. select (λ artifact. artifact.scan_id == scan_id) (values s.evidence_artifacts))

unfoldable pub scan_events : String → String → Exec (List ScanEvent)
scan_events scan_id user_id = do
  require_scan_access user_id scan_id
  gets (λ s. select (λ event. event.scan_id == scan_id) s.events)
