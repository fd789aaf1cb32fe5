-- ===== src/Services/Scans.antt =====
-- `ScanService` of apps/api/kerislab/services.py: the life of a scan and the credit that it holds.
-- A scan that a method has fetched is the object in the store, so what is assigned to it is written
-- back under the identifier by which it was fetched.
pub mod Keeps
pub mod Refusals
pub mod Pausing
pub mod Charging
pub mod Creation
use kerislab.Models.Status.{ScanStatus, ScanType, VerificationStatus, FindingStatus}
use kerislab.Models.Scanning.{Scan, Target, Finding, ScanEvent}
use kerislab.Prelude.{Bool, String, true, false, none, concat, ◌∷◌, [], ◌++◌, some, not}
use kerislab.Exec.{
  World, Exec, next_id, ◌>>=◌, new_entity, get, ◌>>◌, modify, pure, put, now_utc, raise_if, add,
  sync, value_error,
}
use kerislab.Models.Payload.{Payload, Value}
use kerislab.Store.Collections.{scans, targets, findings}
use kerislab.Scope.{validate_target_scope}
use kerislab.Services.Credits.{release_scan, reserve_for_scan, deduct_completed_scan}

abbrev pub text_field : String → String → Payload
text_field name text = Payload.field name (Value.str text) Payload.end

-- `ScanEvent(...)` in the given world
abbrev pub event_at : String → String → String → Payload → World → ScanEvent
event_at scan_id type summary payload w = record {
  scan_id = scan_id;
  type = type;
  summary = summary;
  payload = payload;
  id = next_id "evt" w.env w.drawn;
  created_at = w.env.clock w.ticks;
}

unfoldable pub emit : String → String → String → Payload → Exec ScanEvent
emit scan_id type summary payload = do
  event ← new_entity (event_at scan_id type summary payload)
  modify (λ s. record s { events = s.events ++ event ∷ [] })
  pure event

-- `Scan(...)` in the given world
abbrev pub scan_at : String → String → String → ScanType → String → String → World → Scan
scan_at workspace_id project_id target_id scan_type model_profile_id instructions w = record {
  workspace_id = workspace_id;
  project_id = project_id;
  target_id = target_id;
  scan_type = scan_type;
  model_profile_id = model_profile_id;
  status = ScanStatus.queued;
  autonomy_level = "guarded";
  instructions = instructions;
  id = next_id "scn" w.env w.drawn;
  created_at = w.env.clock w.ticks;
  completed_at = none;
}

unfoldable pub create_scan : String → String → String → ScanType → String → String → Exec Scan
create_scan workspace_id project_id target_id scan_type model_profile_id instructions = do
  target ← get targets target_id "target"
  validate_target_scope target
  made ←
      new_entity (scan_at workspace_id project_id target_id scan_type model_profile_id instructions)
  scan ← add scans made
  reserve_for_scan workspace_id scan.id
  emit scan.id "scan.queued" "Scan queued and credit reserved" Payload.end
  sync
  pure scan

abbrev pub can_pause : ScanStatus → Bool
can_pause ScanStatus.running = true
can_pause ScanStatus.awaiting_approval = true
can_pause _ = false

unfoldable pub pause_scan : String → Exec Scan
pause_scan scan_id = do
  scan ← get scans scan_id "scan"
  raise_if (not (can_pause scan.status))
      (value_error "only running or awaiting approval scans can be paused")
  let paused : Scan = record scan { status = ScanStatus.paused }
  put scans scan_id paused
  emit scan.id "scan.paused" "Scan paused by operator" Payload.end
  sync
  pure paused

abbrev pub is_paused : ScanStatus → Bool
is_paused ScanStatus.paused = true
is_paused _ = false

unfoldable pub resume_scan : String → Exec Scan
resume_scan scan_id = do
  scan ← get scans scan_id "scan"
  raise_if (not (is_paused scan.status)) (value_error "only paused scans can be resumed")
  let resumed : Scan = record scan { status = ScanStatus.running }
  put scans scan_id resumed
  emit scan.id "scan.resumed" "Scan resumed by operator" Payload.end
  sync
  pure resumed

unfoldable pub update_instructions : String → String → Exec Scan
update_instructions scan_id instructions = do
  scan ← get scans scan_id "scan"
  let updated : Scan = record scan { instructions = instructions }
  put scans scan_id updated
  emit scan.id "scan.instructions.updated" "Operator instructions updated" Payload.end
  sync
  pure updated

unfoldable pub complete_scan : String → Exec Scan
complete_scan scan_id = do
  scan ← get scans scan_id "scan"
  now ← now_utc
  let completed : Scan = record scan { status = ScanStatus.completed; completed_at = some now }
  put scans scan_id completed
  deduct_completed_scan completed
  emit scan.id "scan.completed" "Scan completed and one credit deducted" Payload.end
  sync
  pure completed

unfoldable pub fail_scan : String → String → Exec Scan
fail_scan scan_id reason = do
  scan ← get scans scan_id "scan"
  let failed : Scan = record scan { status = ScanStatus.failed }
  put scans scan_id failed
  release_scan failed
  emit scan.id "scan.failed" reason Payload.end
  sync
  pure failed

unfoldable pub cancel_scan : String → Exec Scan
cancel_scan scan_id = do
  scan ← get scans scan_id "scan"
  let cancelled : Scan = record scan { status = ScanStatus.cancelled }
  put scans scan_id cancelled
  release_scan cancelled
  emit scan.id "scan.cancelled" "Scan cancelled and reserved credit released" Payload.end
  sync
  pure cancelled

-- `Finding(...)` in the given world
abbrev pub finding_at : Scan → Target → World → Finding
finding_at scan target w = record {
  scan_id = scan.id;
  title = "Security header review completed";
  severity = "info";
  affected_asset = target.url;
  evidence_refs = concat ("evidence://" ∷ scan.id ∷ "/security-headers" ∷ []) ∷ [];
  status = FindingStatus.new;
  verification_status = VerificationStatus.verified;
  id = next_id "fnd" w.env w.drawn;
  created_at = w.env.clock w.ticks;
}

-- The object that is returned is the one in the store, which `complete_scan` has changed.
unfoldable pub run_passive_scan : String → Exec Scan
run_passive_scan scan_id = do
  scan ← get scans scan_id "scan"
  target ← get targets scan.target_id "target"
  put scans scan_id (record scan { status = ScanStatus.running })
  emit scan.id "scan.phase.started" "Passive blackbox scan started" Payload.end
  emit scan.id "tool.completed" "Security header check completed" (text_field "target" target.url)
  made ← new_entity (finding_at scan target)
  finding ← add findings made
  emit scan.id "finding.verified" "Informational finding stored"
      (text_field "finding_id" finding.id)
  complete_scan scan.id
  sync
  finished ← get scans scan_id "scan"
  pure finished
