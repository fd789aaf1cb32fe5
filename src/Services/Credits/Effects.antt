-- ===== src/Services/Credits/Effects.antt =====
-- What each operation of `CreditService` does to the world, branch by branch, in closed form. The
-- other modules reason with these equations and leave the operations shut.
use kerislab.Prelude.{
  ◌+◌, String, ◌≡◌, Option, none, some, true, false, eq_iff, ◌≢◌, arith, inl, inr, Option-cases,
  concat, [], ◌∷◌, ◌++◌, ◌==◌, if◌then◌else◌,
}
use kerislab.Prelude.Int.{ℤ, pos, negsuc, ◌+ℤ◌, ◌-ℤ◌, ltb_ℤ, leb_ℤ}
use kerislab.Dict.{Dict, lookup, insert, lookup-insert}
use kerislab.Models.Status.{LedgerEntryType, CreditReservationStatus}
use kerislab.Models.Values.{scan_status_value}
use kerislab.Models.Money.{CreditAccount, CreditLedgerEntry, CreditReservation}
use kerislab.Models.Scanning.{Scan}
use kerislab.Exec.{World, ok, err, credit_error}
use kerislab.Store.State.{Store}
use kerislab.Services.Credits.{
  new_account, or_new_account, account, append_entry, reservation_at, grant, reserve_for_scan,
  deduct_completed_scan, release_scan, entry_at,
}

-- The account that `account` returns, and the accounts that it leaves behind.
abbrev pub or_new : String → Option CreditAccount → CreditAccount
or_new workspace_id none = new_account workspace_id
or_new workspace_id (some a) = a

abbrev pub account_in : String → Store → CreditAccount
account_in workspace_id s = or_new workspace_id (lookup workspace_id s.credit_accounts)

abbrev opened_by : String → Dict CreditAccount → Option CreditAccount → Dict CreditAccount
opened_by workspace_id d none = insert workspace_id (new_account workspace_id) d
opened_by workspace_id d (some a) = d

pub opening : String → Dict CreditAccount → Dict CreditAccount
opening workspace_id d = opened_by workspace_id d (lookup workspace_id d)

abbrev pub with_account_open : String → World → World
with_account_open workspace_id w = record w {
  store = record w.store { credit_accounts = opening workspace_id w.store.credit_accounts };
}

pub account_lem :
    (workspace_id : String) (w : World)
    → account workspace_id w
      ≡ (ok (account_in workspace_id w.store), with_account_open workspace_id w)
unfolding account opening
account_lem workspace_id w = elim (Option-cases (lookup workspace_id w.store.credit_accounts)) [
  | inl e ↦ rw (e, or_new_account)
  | inr (a, e) ↦ rw (e, or_new_account)
]

-- A write to an account, whether it was open or not.
pub lookup-insert-opened :
    (workspace_id j : String) (a : CreditAccount) (d : Dict CreditAccount)
    → lookup j (insert workspace_id a (opening workspace_id d))
      ≡ (if workspace_id == j then some a else lookup j d)
unfolding opening
lookup-insert-opened workspace_id j a d = elim (Option-cases (lookup workspace_id d)) [
  | inl e ↦ rw e (grind (arith, lookup-insert))
  | inr (b, e) ↦ rw e (lookup-insert workspace_id j a d)
]

pub lookup-opened :
    (workspace_id j : String) (d : Dict CreditAccount)
    → lookup j (opening workspace_id d) ≡ (
        if workspace_id == j
        then some (or_new workspace_id (lookup workspace_id d))
        else lookup j d)
unfolding opening
lookup-opened workspace_id j d = elim (Option-cases (lookup workspace_id d)) [
  | inl e ↦ rw e (lookup-insert workspace_id j _ d)
  | inr (b, e) ↦ rw e (ground (arith, eq_iff workspace_id j))
]

-- The world after the account was written and the entry appended.
abbrev pub after_posting : String → CreditAccount → CreditLedgerEntry → World → World
after_posting workspace_id acct entry w = record w {
  store = record w.store {
    credit_accounts = insert workspace_id acct (opening workspace_id w.store.credit_accounts);
    credit_ledger = w.store.credit_ledger ++ entry ∷ [];
  };
  ticks = w.ticks + 1;
  drawn = w.drawn + 1;
}

pub grant_refused :
    (workspace_id : String) (amount : ℤ) (note : String) (w : World)
    → leb_ℤ amount (pos 0) ≡ true
    → grant workspace_id amount note w
      ≡ (err (credit_error "credit grant amount must be positive"), w)
unfolding grant
grant_refused workspace_id amount note w h = rw h

module _ (workspace_id : String) (amount : ℤ) (note : String) (w : World) where
  abbrev pub granted_account : CreditAccount
  granted_account =
      let acct = account_in workspace_id w.store in
      record acct { available = acct.available +ℤ amount }

  abbrev pub grant_entry : CreditLedgerEntry
  grant_entry =
      entry_at workspace_id LedgerEntryType.grant amount granted_account.available none note w

  pub grant_ok :
      leb_ℤ amount (pos 0) ≡ false
      → grant workspace_id amount note w
        ≡ (ok grant_entry, after_posting workspace_id granted_account grant_entry w)
  unfolding grant append_entry
  grant_ok h = rw (h, account_lem)

module _ (workspace_id scan_id : String) (w : World) where
  abbrev pub held_account : CreditAccount
  held_account =
      let acct = account_in workspace_id w.store in
      record acct { available = acct.available -ℤ pos 1; reserved = acct.reserved +ℤ pos 1 }

  -- the ledger entry is drawn after the reservation
  abbrev pub after_reservation : World
  after_reservation = record w {
    store = record w.store {
      credit_reservations =
          insert scan_id (reservation_at workspace_id scan_id w) w.store.credit_reservations;
    };
    ticks = w.ticks + 1;
    drawn = w.drawn + 1;
  }

  abbrev pub reserve_entry : CreditLedgerEntry
  reserve_entry =
      entry_at workspace_id LedgerEntryType.reserve (negsuc 0) held_account.available (some scan_id)
        "Reserved one credit for scan" after_reservation

  pub reserve_ok :
      ltb_ℤ (account_in workspace_id w.store).available (pos 1) ≡ false
      → reserve_for_scan workspace_id scan_id w ≡ (
        ok (reservation_at workspace_id scan_id w),
        after_posting workspace_id held_account reserve_entry after_reservation,
      )
  unfolding reserve_for_scan append_entry
  reserve_ok h = rw (account_lem, h)

  pub reserve_refused :
      ltb_ℤ (account_in workspace_id w.store).available (pos 1) ≡ true
      → reserve_for_scan workspace_id scan_id w ≡ (
        err (credit_error "workspace has no available scan credits"),
        with_account_open workspace_id w,
      )
  unfolding reserve_for_scan
  reserve_refused h = rw (account_lem, h)

module _ (scan : Scan) (w : World) where
  abbrev found : Option CreditReservation
  found = lookup scan.id w.store.credit_reservations

  pub deduct_none : found ≡ none → deduct_completed_scan scan w ≡ (ok tt, w)
  unfolding deduct_completed_scan
  deduct_none e = rw e

  pub release_none : found ≡ none → release_scan scan w ≡ (ok tt, w)
  unfolding release_scan
  release_none e = rw e

  abbrev pub with_reservation : CreditReservation → World
  with_reservation r = record w {
    store = record w.store { credit_reservations = insert scan.id r w.store.credit_reservations };
  }

  abbrev pub deducted_account : CreditAccount
  deducted_account =
      let acct = account_in scan.workspace_id w.store in
      record acct { reserved = acct.reserved -ℤ pos 1; consumed = acct.consumed +ℤ pos 1 }

  abbrev pub deduct_entry : CreditLedgerEntry
  deduct_entry =
      entry_at scan.workspace_id LedgerEntryType.deduct (negsuc 0) deducted_account.available
        (some scan.id) "Deducted one credit for completed scan" w

  abbrev pub returned_account : CreditAccount
  returned_account =
      let acct = account_in scan.workspace_id w.store in
      record acct { available = acct.available +ℤ pos 1; reserved = acct.reserved -ℤ pos 1 }

  abbrev pub release_entry : CreditLedgerEntry
  release_entry =
      entry_at scan.workspace_id LedgerEntryType.release (pos 1) returned_account.available
        (some scan.id)
        (concat ("Released credit after scan ended with " ∷ scan_status_value scan.status ∷ [])) w

  module _ (r : CreditReservation) (e : found ≡ some r) where
    pub deduct_again :
        r.status ≡ CreditReservationStatus.deducted → deduct_completed_scan scan w ≡ (ok tt, w)
    unfolding deduct_completed_scan
    deduct_again h = rw (e, h)

    pub deduct_released :
        r.status ≡ CreditReservationStatus.released
        → deduct_completed_scan scan w
          ≡ (err (credit_error "cannot deduct a released credit reservation"), w)
    unfolding deduct_completed_scan
    deduct_released h = rw (e, h)

    pub deduct_ok :
        r.status ≡ CreditReservationStatus.reserved
        → deduct_completed_scan scan w ≡ (
          ok tt,
          after_posting scan.workspace_id deducted_account deduct_entry
              (with_reservation (record r { status = CreditReservationStatus.deducted })),
        )
    unfolding deduct_completed_scan append_entry
    deduct_ok h = rw (e, h, account_lem)

    pub release_settled :
        r.status ≢ CreditReservationStatus.reserved → release_scan scan w ≡ (ok tt, w)
    unfolding release_scan
    release_settled h = ground arith

    pub release_ok :
        r.status ≡ CreditReservationStatus.reserved
        → release_scan scan w ≡ (
          ok tt,
          after_posting scan.workspace_id returned_account release_entry
              (with_reservation (record r { status = CreditReservationStatus.released })),
        )
    unfolding release_scan append_entry
    release_ok h = rw (e, h, account_lem)
