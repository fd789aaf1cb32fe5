-- ===== src/Services/Reports.antt =====
-- `ReportService` of apps/api/kerislab/services.py: the JSON report of a scan.
use kerislab.Prelude.{List, String, Option, ◌∷◌, concat, some, [], length, none, select, ◌==◌}
use kerislab.Models.Scanning.{Finding, Scan, ScanEvent, Report}
use kerislab.Exec.{
  Env, Exec, World, get, ◌>>=◌, next_id, gets, asks, new_entity, add, ◌>>◌, sync, pure,
}
use kerislab.Models.Payload.{Payload, Items, Value, Time}
use kerislab.Models.Values.{verification_status_value, scan_status_value, scan_type_value}
use kerislab.Store.Collections.{reports, findings, scans}
use kerislab.Prelude.Int.{pos}
use kerislab.Dict.{values}
use kerislab.Dynamic.{text_items}

-- the entry of a finding
finding_content : Finding → Payload
unfolding text_items
finding_content finding = Payload.field "id" (Value.str finding.id) (
    Payload.field "title" (Value.str finding.title) (
      Payload.field "severity" (Value.str finding.severity) (
        Payload.field "affected_asset" (Value.str finding.affected_asset) (
          Payload.field "verification_status"
            (Value.str (verification_status_value finding.verification_status))
            (Payload.field "evidence_refs" (Value.arr (text_items finding.evidence_refs))
              Payload.end)))))

finding_items : List Finding → Items
unfolding finding_content
finding_items [] = Items.nil
finding_items (finding ∷ findings) =
    Items.cons (Value.obj (finding_content finding)) (finding_items findings)

time_value : Env → Option Time → Value
time_value env none = Value.null
time_value env (some time) = Value.str (env.isoformat time)

scan_content : Env → Scan → Payload
unfolding time_value
scan_content env scan = Payload.field "id" (Value.str scan.id) (
    Payload.field "status" (Value.str (scan_status_value scan.status)) (
      Payload.field "scan_type" (Value.str (scan_type_value scan.scan_type))
        (Payload.field "completed_at" (time_value env scan.completed_at) Payload.end)))

-- `content`
unfoldable pub report_content : Env → Scan → List Finding → List ScanEvent → Payload
unfolding scan_content finding_items
report_content env scan findings events = Payload.field "scan" (Value.obj (scan_content env scan)) (
    Payload.field "findings" (Value.arr (finding_items findings))
      (Payload.field "event_count" (Value.num (pos (length events))) Payload.end))

-- `Report(...)` in the given world
abbrev report_at : Scan → Payload → World → Report
report_at scan content w = record {
  workspace_id = scan.workspace_id;
  project_id = scan.project_id;
  scan_id = scan.id;
  title = concat ("KerisLab report for " ∷ scan.id ∷ []);
  format = "json";
  content = content;
  id = next_id "rpt" w.env w.drawn;
  created_at = w.env.clock w.ticks;
}

unfoldable pub generate_json_report : String → Exec Report
generate_json_report scan_id = do
  scan ← get scans scan_id "scan"
  found ← gets (λ s. select (λ finding. finding.scan_id == scan_id) (values s.findings))
  events ← gets (λ s. select (λ event. event.scan_id == scan_id) s.events)
  content ← asks (λ env. report_content env scan found events)
  made ← new_entity (report_at scan content)
  report ← add reports made
  sync
  pure report

unfoldable pub get_finding : String → Exec Finding
get_finding finding_id = get findings finding_id "finding"

unfoldable pub get_report : String → Exec Report
get_report report_id = get reports report_id "report"
