-- ===== src/Services/Scans/Refusals.antt =====
-- What `create_scan` and `complete_scan` (apps/api/kerislab/services.py) leave behind when the
-- credit service raises.
use kerislab.Prelude.{Option, String, some, ◌≡◌, none, true, ◌+◌, refl}
use kerislab.Services.Scans.{complete_scan}
use kerislab.Services.Scans.Creation.{
  place_scan, Order, FreshScan, create_by, ordered, create_by-in_scope, unreserved,
}
use kerislab.Exec.{World, err, credit_error}
use kerislab.Models.Scanning.{Scan, Target}
use kerislab.Models.Money.{CreditReservation}
use kerislab.Models.Status.{ScanStatus, CreditReservationStatus}
use kerislab.Dict.{lookup, lookup-insert_self}
use kerislab.Services.Books.{Books}
use kerislab.Scope.Decision.{in_scope}
use kerislab.Prelude.Int.{ltb_ℤ, pos}
use kerislab.Services.Credits.Effects.{account_in, deduct_released, reserve_refused}
use kerislab.Services.Scans.Keeps.{with_scan}

abbrev pub status_of : Option Scan → Option ScanStatus
status_of none = none
status_of (some scan) = some scan.status

abbrev pub status_at : String → World → Option ScanStatus
status_at scan_id w = status_of (lookup scan_id w.store.scans)

-- When a scan of a target in scope is ordered for a workspace without a free credit, the call raises, and yet the
-- new scan is stored, queued, and has no reservation under its identifier.
pub create_scan-without_credit :
    (o : Order) (target : Target) (w : World)
    → lookup o.target_id w.store.targets ≡ some target
    → in_scope w.env target ≡ true
    → FreshScan w
    → Books w.store
    → ltb_ℤ (account_in o.workspace_id w.store).available (pos 1) ≡ true
    → let (r, v) = create_by o w in
      (r ≡ err (credit_error "workspace has no available scan credits"))
      × (lookup (ordered o w).id v.store.scans ≡ some (ordered o w))
      × (lookup (ordered o w).id v.store.credit_reservations ≡ none)
unfolding place_scan
create_scan-without_credit o target w found pass fresh b short =
    let id = (ordered o w).id in
    let made : World = record w { ticks = w.ticks + 1; drawn = w.drawn + 1 } in
    rw
      (
        create_by-in_scope o target w found pass,
        reserve_refused o.workspace_id id (with_scan id (ordered o w) made) short,
      )
      (refl, lookup-insert_self id (ordered o w) w.store.scans, unreserved w.store id fresh b)

-- When a stored scan whose reservation was released is completed, the call raises, and yet the scan is stored as
-- completed, with accounts and ledger as they were.
pub complete_scan-released :
    (scan_id : String) (scan : Scan) (r : CreditReservation) (w : World)
    → Books w.store
    → lookup scan_id w.store.scans ≡ some scan
    → lookup scan_id w.store.credit_reservations ≡ some r
    → r.status ≡ CreditReservationStatus.released
    → let (result, v) = complete_scan scan_id w in
      (result ≡ err (credit_error "cannot deduct a released credit reservation"))
      × (status_at scan_id v ≡ some ScanStatus.completed)
      × (v.store.credit_accounts ≡ w.store.credit_accounts)
      × (v.store.credit_ledger ≡ w.store.credit_ledger)
unfolding complete_scan
complete_scan-released scan_id scan r w b found reserved released =
    let completed : Scan = record scan {
      status = ScanStatus.completed;
      completed_at = some (w.env.clock w.ticks);
    } in
    let later : World = record w { ticks = w.ticks + 1 } in
    rw
      (
        found,
        deduct_released completed (with_scan scan_id completed later) r
            (rw (b.named scan_id scan found) reserved) released,
      )
      (refl, rw lookup-insert_self refl, refl, refl)
