-- ===== src/Services/Credits.antt =====
-- `CreditService` of apps/api/kerislab/services.py: credit accounts, the ledger of what was done to
-- them, and the reservation of one credit for each scan. An account that an operation has fetched
-- is the object in the store, so what is assigned to it is written back under its workspace.
pub mod Effects
pub mod Ledger
pub mod Postings
pub mod Settling
pub mod Reservations
pub mod Conservation
use kerislab.Prelude.{
  String, Option, none, some, Bool, true, false, [], ◌∷◌, ◌++◌, concat, if◌then◌else◌,
}
use kerislab.Prelude.Int.{ℤ, pos, negsuc, ◌+ℤ◌, ◌-ℤ◌, ltb_ℤ, leb_ℤ}
use kerislab.Dict.{lookup}
use kerislab.Models.Status.{CreditReservationStatus, LedgerEntryType, ScanStatus}
use kerislab.Models.Values.{scan_status_value}
use kerislab.Models.Money.{CreditAccount, CreditLedgerEntry, CreditReservation}
use kerislab.Models.Scanning.{Scan}
use kerislab.Store.Collections.{credit_accounts, credit_reservations}
use kerislab.Exec.{
  Exec, World, credit_error, pure, gets, raise, raise_if, modify, put, new_entity, next_id, sync,
  ◌>>=◌, ◌>>◌,
}

-- `CreditAccount(workspace_id=...)`
abbrev pub new_account : String → CreditAccount
new_account workspace_id = record {
  workspace_id = workspace_id;
  available = pos 0;
  reserved = pos 0;
  consumed = pos 0;
}

-- `CreditLedgerEntry(...)` in the given world.
abbrev pub entry_at :
    String → LedgerEntryType → ℤ → ℤ → Option String → String → World → CreditLedgerEntry
entry_at workspace_id entry_type amount balance_after scan_id note w = record {
  workspace_id = workspace_id;
  entry_type = entry_type;
  amount = amount;
  balance_after = balance_after;
  scan_id = scan_id;
  note = note;
  id = next_id "led" w.env w.drawn;
  created_at = w.env.clock w.ticks;
}

-- `self.store.credit_ledger.append(CreditLedgerEntry(...))`
unfoldable pub append_entry :
    String → LedgerEntryType → ℤ → ℤ → Option String → String → Exec CreditLedgerEntry
append_entry workspace_id entry_type amount balance_after scan_id note = do
  entry ← new_entity (entry_at workspace_id entry_type amount balance_after scan_id note)
  modify (λ s. record s { credit_ledger = s.credit_ledger ++ entry ∷ [] })
  pure entry

unfoldable pub or_new_account : String → Option CreditAccount → Exec CreditAccount
or_new_account workspace_id none = do
  put credit_accounts workspace_id (new_account workspace_id)
  pure (new_account workspace_id)
or_new_account workspace_id (some account) = pure account

-- `account`: the workspace's account, opened empty if there is none.
unfoldable pub account : String → Exec CreditAccount
unfolding or_new_account
account workspace_id = do
  found ← gets (λ s. lookup workspace_id s.credit_accounts)
  or_new_account workspace_id found

unfoldable pub grant : String → ℤ → String → Exec CreditLedgerEntry
grant workspace_id amount note = do
  raise_if (leb_ℤ amount (pos 0)) (credit_error "credit grant amount must be positive")
  acct ← account workspace_id
  let available : ℤ = acct.available +ℤ amount
  put credit_accounts workspace_id (record acct { available = available })
  entry ← append_entry workspace_id LedgerEntryType.grant amount available none note
  sync
  pure entry

-- `CreditReservation(...)` in the given world.
abbrev pub reservation_at : String → String → World → CreditReservation
reservation_at workspace_id scan_id w = record {
  workspace_id = workspace_id;
  scan_id = scan_id;
  status = CreditReservationStatus.reserved;
  id = next_id "crr" w.env w.drawn;
  created_at = w.env.clock w.ticks;
}

unfoldable pub reserve_for_scan : String → String → Exec CreditReservation
reserve_for_scan workspace_id scan_id = do
  acct ← account workspace_id
  raise_if (ltb_ℤ acct.available (pos 1)) (credit_error "workspace has no available scan credits")
  let available : ℤ = acct.available -ℤ pos 1
  put credit_accounts workspace_id
      (record acct { available = available; reserved = acct.reserved +ℤ pos 1 })
  reservation ← new_entity (reservation_at workspace_id scan_id)
  put credit_reservations scan_id reservation
  append_entry workspace_id LedgerEntryType.reserve (negsuc 0) available (some scan_id)
      "Reserved one credit for scan"
  sync
  pure reservation

-- The part of `deduct_completed_scan` behind its early return and its guard.
deduct_reserved : Scan → CreditReservation → Exec Unit
deduct_reserved scan reservation = do
  acct ← account scan.workspace_id
  put credit_accounts scan.workspace_id
      (record acct { reserved = acct.reserved -ℤ pos 1; consumed = acct.consumed +ℤ pos 1 })
  put credit_reservations scan.id (record reservation { status = CreditReservationStatus.deducted })
  append_entry scan.workspace_id LedgerEntryType.deduct (negsuc 0) acct.available (some scan.id)
      "Deducted one credit for completed scan"
  sync

deduct_by_status : Scan → CreditReservation → CreditReservationStatus → Exec Unit
unfolding deduct_reserved
deduct_by_status scan reservation CreditReservationStatus.deducted = pure tt
deduct_by_status scan reservation CreditReservationStatus.released =
    raise (credit_error "cannot deduct a released credit reservation")
deduct_by_status scan reservation CreditReservationStatus.reserved =
    deduct_reserved scan reservation

deduct_found : Scan → Option CreditReservation → Exec Unit
unfolding deduct_by_status
deduct_found scan none = pure tt
deduct_found scan (some reservation) = deduct_by_status scan reservation reservation.status

unfoldable pub deduct_completed_scan : Scan → Exec Unit
unfolding deduct_found
deduct_completed_scan scan = do
  found ← gets (λ s. lookup scan.id s.credit_reservations)
  deduct_found scan found

release_reserved : Scan → CreditReservation → Exec Unit
release_reserved scan reservation = do
  acct ← account scan.workspace_id
  let available : ℤ = acct.available +ℤ pos 1
  put credit_accounts scan.workspace_id
      (record acct { reserved = acct.reserved -ℤ pos 1; available = available })
  put credit_reservations scan.id (record reservation { status = CreditReservationStatus.released })
  append_entry scan.workspace_id LedgerEntryType.release (pos 1) available (some scan.id)
      (concat ("Released credit after scan ended with " ∷ scan_status_value scan.status ∷ []))
  sync

release_by_status : Scan → CreditReservation → CreditReservationStatus → Exec Unit
unfolding release_reserved
release_by_status scan reservation CreditReservationStatus.reserved =
    release_reserved scan reservation
release_by_status scan reservation _ = pure tt

release_found : Scan → Option CreditReservation → Exec Unit
unfolding release_by_status
release_found scan none = pure tt
release_found scan (some reservation) = release_by_status scan reservation reservation.status

unfoldable pub release_scan : Scan → Exec Unit
unfolding release_found
release_scan scan = do
  found ← gets (λ s. lookup scan.id s.credit_reservations)
  release_found scan found
