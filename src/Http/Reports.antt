-- ===== src/Http/Reports.antt =====
-- The handlers of findings and reports in apps/api/kerislab/main.py.
use kerislab.Prelude.{
  Option, String, Bool, List, any, some, select, none, if◌then◌else◌, ◌==◌, ◌&&◌,
}
use kerislab.Exec.{Error, Exec, key_error, http_exception, raise, gets, ◌>>=◌, ◌>>◌, pure}
use kerislab.Store.State.{Store}
use kerislab.Models.Scanning.{Report, Finding}
use kerislab.Models.Payload.{Payload}
use kerislab.Http.{handle_error, except_raise, in_workspaces}
use kerislab.Services.Reports.{get_finding, get_report, generate_json_report}
use kerislab.Services.Authorization.{require_scan_access}
use kerislab.Dict.{values}
use kerislab.Services.Audit.{log, by_actor}
use kerislab.Models.Status.{AuditAction}

findings_of_scan : String → String → Exec (List Finding)
findings_of_scan scan_id user_id = do
  require_scan_access user_id scan_id
  gets (λ s. select (λ finding. finding.scan_id == scan_id) (values s.findings))

-- `finding.scan_id in {s.id for s in store.scans.values() if s.workspace_id in workspace_ids}`
abbrev is_own_scan : String → Store → String → Bool
is_own_scan user_id s scan_id =
    any (λ scan. in_workspaces user_id s scan.workspace_id && scan.id == scan_id) (values s.scans)

own_findings : String → Exec (List Finding)
own_findings user_id =
    gets (λ s. select (λ finding. is_own_scan user_id s finding.scan_id) (values s.findings))

unfoldable pub findings_endpoint : Option String → String → Exec (List Finding)
unfolding findings_of_scan own_findings
findings_endpoint none user_id = own_findings user_id
findings_endpoint (some scan_id) user_id =
    if scan_id == "" then own_findings user_id else findings_of_scan scan_id user_id

unfoldable pub finding_detail : String → String → Exec Finding
finding_detail finding_id user_id = do
  finding ← get_finding finding_id
  require_scan_access user_id finding.scan_id
  pure finding

-- the `try` of `create_report`, for a body that names a scan
unfoldable pub report_logged : String → String → Exec Report
report_logged scan_id user_id = do
  scan ← require_scan_access user_id scan_id
  report ← generate_json_report scan_id
  log AuditAction.report_generated (record (by_actor (some user_id)) {
    workspace_id = some scan.workspace_id;
    project_id = some scan.project_id;
    scan_id = some scan.id;
    report_id = some report.id;
  })
  pure report

-- `except KeyError`, and then `except Exception`
abbrev pub key_or_handled : Error → Error
key_or_handled (key_error key) = http_exception 400 "scan_id is required"
key_or_handled e = handle_error e

-- `payload["scan_id"]`
unfoldable pub report_for : Option String → String → Exec Report
report_for none user_id = raise (key_error "scan_id")
report_for (some scan_id) user_id = report_logged scan_id user_id

unfoldable pub create_report : Option String → String → Exec Report
unfolding report_for
create_report scan_id user_id = except_raise key_or_handled (report_for scan_id user_id)

unfoldable pub download_report : String → String → Exec Payload
download_report report_id user_id = do
  report ← get_report report_id
  require_scan_access user_id report.scan_id
  pure report.content
