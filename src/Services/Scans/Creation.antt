-- ===== src/Services/Scans/Creation.antt =====
-- `create_scan` and `run_passive_scan` of `ScanService` (apps/api/kerislab/services.py) keep the
-- books, whether they return or raise.
use kerislab.Exec.{Exec, World, ◌>>=◌, next_id, add, ◌>>◌, sync, pure, proceed, get}
use kerislab.Services.Scans.{create_scan, emit, scan_at, run_passive_scan, complete_scan}
use kerislab.Prelude.{
  String, Option-cases, ◌≡◌, some, none, inl, inr, true, arith, false, Bool-cases, ◌+◌, eq_iff,
  refl,
}
use kerislab.Models.Scanning.{Scan, Target}
use kerislab.Store.State.{Store}
use kerislab.Services.Books.{Books, proceed-keeps, reserve-Books, update-Books}
use kerislab.Dict.{lookup, insert, lookup-insert, lookup-insert_self}
use kerislab.Models.Status.{ScanType, ScanStatus}
use kerislab.Store.Collections.{scans}
use kerislab.Scope.Decision.{
  in_scope, validate_target_scope-in_scope, validate_target_scope-refused,
}
use kerislab.Services.Credits.{reserve_for_scan}
use kerislab.Models.Payload.{Payload}
use kerislab.Services.Scans.Keeps.{complete_scan-Books}

-- The identifier that the next new scan gets is not one of a stored scan.
abbrev pub FreshScan : World → Type 0
FreshScan w = lookup (next_id "scn" w.env w.drawn) w.store.scans ≡ none

-- A scan that is added under a new identifier has no reservation.
pub unreserved :
    (s : Store) (scan_id : String)
    → lookup scan_id s.scans ≡ none
    → Books s
    → lookup scan_id s.credit_reservations ≡ none
unreserved s scan_id fresh b = elim (Option-cases (lookup scan_id s.credit_reservations)) [
  | inl e ↦ e
  | inr (r, e) ↦ let (scan, at, own) = b.covered scan_id r e in cc
]

add-Books :
    (s : Store) (scan : Scan)
    → lookup scan.id s.scans ≡ none
    → Books s
    → Books (record s { scans = insert scan.id scan s.scans })
add-Books s scan fresh b = record {
  agrees = b.agrees;
  counted = b.counted;
  covered = λ j r h.
      let (old, at, own) = b.covered j r h in
      (old, ground (arith, lookup-insert scan.id j scan s.scans, eq_iff scan.id j), own);
  named = λ j old h.
      ground (arith, lookup-insert scan.id j scan s.scans, eq_iff scan.id j, b.named j old);
}

-- What `create_scan` does behind its checks.
unfoldable pub place_scan : Scan → Exec Scan
place_scan made = do
  scan ← add scans made
  reserve_for_scan made.workspace_id scan.id
  emit scan.id "scan.queued" "Scan queued and credit reserved" Payload.end
  sync
  pure scan

pub place_scan-Books :
    (scan : Scan) (w : World)
    → lookup scan.id w.store.scans ≡ none
    → Books w.store
    → Books (place_scan scan w).1.store
unfolding place_scan emit
place_scan-Books scan w fresh b =
    let placed : World = record w {
      store = record w.store { scans = insert scan.id scan w.store.scans };
    } in
    proceed-keeps (λ v. Books v.store) (reserve_for_scan scan.workspace_id scan.id placed) _
      (reserve-Books scan.workspace_id scan.id scan placed
        (lookup-insert_self scan.id scan w.store.scans) refl (unreserved w.store scan.id fresh b)
        (add-Books w.store scan fresh b))
      (λ _ v h. h)

-- The arguments of `create_scan`.
pub record Order : Type 0 where
  pub workspace_id : String
  pub project_id : String
  pub target_id : String
  pub scan_type : ScanType
  pub model_profile_id : String
  pub instructions : String

abbrev pub create_by : Order → Exec Scan
create_by o =
    create_scan o.workspace_id o.project_id o.target_id o.scan_type o.model_profile_id
      o.instructions

-- `Scan(...)` for an order
abbrev pub ordered : Order → World → Scan
ordered o =
    scan_at o.workspace_id o.project_id o.target_id o.scan_type o.model_profile_id o.instructions

-- A target in scope: the scan is made and placed.
pub create_by-in_scope :
    (o : Order) (target : Target) (w : World)
    → lookup o.target_id w.store.targets ≡ some target
    → in_scope w.env target ≡ true
    → create_by o w
      ≡ place_scan (ordered o w) (record w { ticks = w.ticks + 1; drawn = w.drawn + 1 })
unfolding create_scan place_scan
create_by-in_scope o target w found pass =
    rw (found, validate_target_scope-in_scope target w pass) refl

-- A refused target: nothing is changed.
pub create_by-refused :
    (o : Order) (target : Target) (w : World)
    → lookup o.target_id w.store.targets ≡ some target
    → in_scope w.env target ≡ false
    → (create_by o w).1 ≡ w
unfolding create_scan
create_by-refused o target w found pass =
    let (e, h) = validate_target_scope-refused target w pass in rw (found, h) refl

pub create_scan-Books :
    (o : Order) (w : World) → FreshScan w → Books w.store → Books (create_by o w).1.store
unfolding create_scan
create_scan-Books o w fresh b = elim (Option-cases (lookup o.target_id w.store.targets)) [
  | inl e ↦ rw e b
  | inr (target, e) ↦ elim (Bool-cases (in_scope w.env target)) [
    | inl pass ↦ rw (create_by-in_scope o target w e pass) (
        place_scan-Books (ordered o w) (record w { ticks = w.ticks + 1; drawn = w.drawn + 1 }) fresh
          b)
    | inr refused ↦ rw (create_by-refused o target w e refused) b
  ]
]

fetch-Books :
    (scan_id : String) (w : World)
    → Books w.store
    → Books (proceed (get scans scan_id "scan" w) pure).1.store
fetch-Books scan_id w b = elim (Option-cases (lookup scan_id w.store.scans)) [
  | inl e ↦ rw e b
  | inr (scan, e) ↦ rw e b
]

pub run_passive_scan-Books :
    (scan_id : String) (w : World) → Books w.store → Books (run_passive_scan scan_id w).1.store
unfolding run_passive_scan emit
run_passive_scan-Books scan_id w b = elim (Option-cases (lookup scan_id w.store.scans)) [
  | inl e ↦ rw e b
  | inr (scan, e) ↦ elim (Option-cases (lookup scan.target_id w.store.targets)) [
    | inl f ↦ rw (e, f) b
    | inr (target, f) ↦
        rw (e, f)
          (proceed-keeps (λ v. Books v.store) (complete_scan scan.id _) _
            (complete_scan-Books scan.id _ (
              update-Books w.store scan_id scan (record scan { status = ScanStatus.running }) e refl
                refl b))
            (λ _ v h. fetch-Books scan_id v h))
  ]
]
