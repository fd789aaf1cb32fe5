-- ===== src/Services/Credits/Postings.antt =====
-- Each operation of `CreditService` (apps/api/kerislab/services.py) is one posting to the ledger,
-- or leaves every balance alone.
use kerislab.Prelude.{
  String, ◌≡◌, Option, none, some, eq_iff, eq_refl, arith, inl, inr, ◌⊎◌, refl, Bool-cases,
  Option-cases,
}
use kerislab.Prelude.Int.{ℤ, pos, negsuc, ◌+ℤ◌, ◌-ℤ◌, leb_ℤ, int_laws, ltb_ℤ}
use kerislab.Models.Money.{CreditAccount, CreditLedgerEntry, CreditReservation}
use kerislab.Exec.{World}
use kerislab.Store.State.{Store}
use kerislab.Services.Credits.{grant, reserve_for_scan, deduct_completed_scan, release_scan}
use kerislab.Services.Credits.Ledger.{Posts, balance, balance_of, moved, Agrees, Posts-Agrees}
use kerislab.Services.Credits.Effects.{
  or_new, with_account_open, lookup-insert-opened, lookup-opened, after_posting, grant_refused,
  grant_entry, grant_ok, account_in, reserve_refused, release_none, deduct_none, deduct_ok,
  reserve_ok, release_ok, reserve_entry, release_entry, deduct_entry, with_reservation,
  after_reservation, release_settled, deduct_again, deduct_released, granted_account,
  returned_account, held_account, deducted_account,
}
use kerislab.Models.Scanning.{Scan}
use kerislab.Models.Status.{CreditReservationStatus}
use kerislab.Dict.{lookup}

-- The ledger and every balance are as they were.
pub record Unposted (s s' : Store) : Type 0 where
  pub ledger : s'.credit_ledger ≡ s.credit_ledger
  pub balances : (workspace_id : String) → balance_of workspace_id s' ≡ balance_of workspace_id s

Unposted-Agrees : {s s' : Store} → Unposted s s' → Agrees s → Agrees s'
Unposted-Agrees u h workspace_id = rw (u.balances workspace_id, u.ledger) (h workspace_id)

-- One posting, which some entry describes, or none.
abbrev pub Accounted : Store → Store → Type 0
Accounted s s' = ((entry : CreditLedgerEntry) × Posts entry s s') ⊎ Unposted s s'

pub Accounted-Agrees : {s s' : Store} → Accounted s s' → Agrees s → Agrees s'
Accounted-Agrees (inl (entry, p)) h = Posts-Agrees p h
Accounted-Agrees (inr u) h = Unposted-Agrees u h

unchanged : (s : Store) → Accounted s s
unchanged s = inr (record { ledger = refl; balances = λ j. refl })

pub balance-or_new :
    (workspace_id : String) (o : Option CreditAccount)
    → balance (some (or_new workspace_id o)) ≡ balance o
balance-or_new workspace_id none = refl
balance-or_new workspace_id (some a) = refl

module _ (s : Store) (w : World) (same_ledger : w.store.credit_ledger ≡ s.credit_ledger)
    (same_accounts : w.store.credit_accounts ≡ s.credit_accounts) where
  -- a posting in a world that has the accounts and the ledger of `s`
  after_posting-Posts :
      (workspace_id : String) (acct : CreditAccount) (entry : CreditLedgerEntry)
      → entry.workspace_id ≡ workspace_id
      → entry.balance_after ≡ acct.available
      → balance (some acct) ≡ moved entry.entry_type entry.amount (balance_of workspace_id s)
      → Posts entry s (after_posting workspace_id acct entry w).store
  after_posting-Posts workspace_id acct entry own recorded moves = record {
    appended = rw same_ledger;
    balances = λ j.
        rw (lookup-insert-opened, own, same_accounts)
          (ground (arith, moves, eq_iff workspace_id j));
    recorded = rw (own, lookup-insert-opened, eq_refl) recorded;
  }

pub with_account_open-Accounted :
    (workspace_id : String) (w : World) → Accounted w.store (with_account_open workspace_id w).store
with_account_open-Accounted workspace_id w = inr (record {
  ledger = refl;
  balances = λ j. rw lookup-opened (grind (arith, eq_iff, balance-or_new));
})

minus_one : (a : ℤ) → a -ℤ pos 1 ≡ a +ℤ negsuc 0
minus_one a = omega int_laws

plus_one : (a : ℤ) → a +ℤ pos 1 ≡ a -ℤ negsuc 0
plus_one a = omega int_laws

pub grant-Accounted :
    (workspace_id : String) (amount : ℤ) (note : String) (w : World)
    → Accounted w.store (grant workspace_id amount note w).1.store
grant-Accounted workspace_id amount note w = elim (Bool-cases (leb_ℤ amount (pos 0))) [
  | inl refused ↦ rw (grant_refused workspace_id amount note w refused) (unchanged w.store)
  | inr positive ↦ rw (grant_ok workspace_id amount note w positive) (
      inl (
        grant_entry workspace_id amount note w,
        after_posting-Posts w.store w refl refl workspace_id
            (granted_account workspace_id amount note w) (grant_entry workspace_id amount note w)
            refl refl (grind (arith, balance-or_new)),
      ))
]

pub reserve_for_scan-Accounted :
    (workspace_id scan_id : String) (w : World)
    → Accounted w.store (reserve_for_scan workspace_id scan_id w).1.store
reserve_for_scan-Accounted workspace_id scan_id w =
    elim (Bool-cases (ltb_ℤ (account_in workspace_id w.store).available (pos 1))) [
      | inl short ↦
          rw (reserve_refused workspace_id scan_id w short)
            (with_account_open-Accounted workspace_id w)
      | inr free ↦ rw (reserve_ok workspace_id scan_id w free) (
          inl (
            reserve_entry workspace_id scan_id w,
            after_posting-Posts w.store (after_reservation workspace_id scan_id w) refl refl
                workspace_id (held_account workspace_id scan_id w)
                (reserve_entry workspace_id scan_id w) refl refl
                (grind (arith, balance-or_new, minus_one, plus_one)),
          ))
    ]

module _ (scan : Scan) (w : World) where
  deduct_by-Accounted :
      (r : CreditReservation) (status : CreditReservationStatus)
      → lookup scan.id w.store.credit_reservations ≡ some r
      → r.status ≡ status
      → Accounted w.store (deduct_completed_scan scan w).1.store
  deduct_by-Accounted r CreditReservationStatus.reserved e h = rw (deduct_ok scan w r e h) (
      inl (
        deduct_entry scan w,
        after_posting-Posts w.store
            (with_reservation scan w (record r { status = CreditReservationStatus.deducted })) refl
            refl scan.workspace_id (deducted_account scan w) (deduct_entry scan w) refl refl
            (grind (arith, balance-or_new, minus_one, plus_one)),
      ))
  deduct_by-Accounted r CreditReservationStatus.deducted e h =
      rw (deduct_again scan w r e h) (unchanged w.store)
  deduct_by-Accounted r CreditReservationStatus.released e h =
      rw (deduct_released scan w r e h) (unchanged w.store)

  pub deduct_completed_scan-Accounted : Accounted w.store (deduct_completed_scan scan w).1.store
  deduct_completed_scan-Accounted =
      elim (Option-cases (lookup scan.id w.store.credit_reservations)) [
        | inl e ↦ rw (deduct_none scan w e) (unchanged w.store)
        | inr (r, e) ↦ deduct_by-Accounted r r.status e refl
      ]

  release_by-Accounted :
      (r : CreditReservation) (status : CreditReservationStatus)
      → lookup scan.id w.store.credit_reservations ≡ some r
      → r.status ≡ status
      → Accounted w.store (release_scan scan w).1.store
  release_by-Accounted r CreditReservationStatus.reserved e h = rw (release_ok scan w r e h) (
      inl (
        release_entry scan w,
        after_posting-Posts w.store
            (with_reservation scan w (record r { status = CreditReservationStatus.released })) refl
            refl scan.workspace_id (returned_account scan w) (release_entry scan w) refl refl
            (grind (arith, balance-or_new, minus_one, plus_one)),
      ))
  release_by-Accounted r _ e h = rw (release_settled scan w r e (ground arith)) (unchanged w.store)

  pub release_scan-Accounted : Accounted w.store (release_scan scan w).1.store
  release_scan-Accounted = elim (Option-cases (lookup scan.id w.store.credit_reservations)) [
    | inl e ↦ rw (release_none scan w e) (unchanged w.store)
    | inr (r, e) ↦ release_by-Accounted r r.status e refl
  ]
