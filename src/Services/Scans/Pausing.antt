-- ===== src/Services/Scans/Pausing.antt =====
-- Pause and resume (`ScanService` of apps/api/kerislab/services.py), and what becomes of a scan
-- whose credit is refused or was given back.
use kerislab.Prelude.{String, ◌≡◌, some, false, true, if◌then◌else◌, ◌==◌, refl, arith}
use kerislab.Models.Scanning.{Scan}
use kerislab.Exec.{World, err, ok, value_error}
use kerislab.Dict.{lookup, lookup-insert_self, lookup-insert}
use kerislab.Services.Scans.{pause_scan, resume_scan, can_pause, emit}
use kerislab.Models.Status.{ScanStatus}
use kerislab.Models.Payload.{Payload}
use kerislab.Services.Scans.Keeps.{with_scan}

module _ (scan_id : String) (scan : Scan) (w : World)
    (found : lookup scan_id w.store.scans ≡ some scan) where
  pause_scan_lem :
      can_pause scan.status ≡ true
      → pause_scan scan_id w ≡ (
        ok (record scan { status = ScanStatus.paused }),
        (emit scan.id "scan.paused" "Scan paused by operator" Payload.end
            (with_scan scan_id (record scan { status = ScanStatus.paused }) w)).1,
      )
  unfolding pause_scan emit
  pause_scan_lem may = rw (found, may) refl

  pub pause_scan-refused :
      can_pause scan.status ≡ false
      → pause_scan scan_id w
        ≡ (err (value_error "only running or awaiting approval scans can be paused"), w)
  unfolding pause_scan
  pause_scan-refused may_not = rw (found, may_not) refl

  -- A stored scan that is running or awaits an approval and is paused and resumed is running again, and no other
  -- scan has changed.
  pub resume_scan-pause_scan :
      can_pause scan.status ≡ true
      → (scan_key : String)
      → lookup scan_key (resume_scan scan_id (pause_scan scan_id w).1).1.store.scans ≡ (
          if scan_id == scan_key
          then some (record scan { status = ScanStatus.running })
          else lookup scan_key w.store.scans)
  unfolding resume_scan emit
  resume_scan-pause_scan may j =
      rw (pause_scan_lem may, lookup-insert_self) (grind (arith, lookup-insert))
