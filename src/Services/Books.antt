-- ===== src/Services/Books.antt =====
-- The books of the platform (apps/api/kerislab/services.py): accounts, ledger, reservations and scans
-- fit together, and what the credit service does to them keeps them so.
use kerislab.Models.Status.{CreditReservationStatus}
use kerislab.Store.State.{Store}
use kerislab.Dict.{Dict, lookup, insert, lookup-insert}
use kerislab.Exec.{World, Result, Exec, proceed, ok, err}
use kerislab.Prelude.{
  String, List, ◌≡◌, some, Bool-cases, ◌==◌, inl, inr, arith, eq_iff, Option-cases, none, refl,
}
use kerislab.Models.Money.{CreditAccount, CreditLedgerEntry, CreditReservation}
use kerislab.Models.Scanning.{Scan}
use kerislab.Services.Credits.Ledger.{balance, replay}
use kerislab.Services.Credits.Reservations.{
  Counted, deduct-Counted, release-Counted, opened-Counted, reserve-Counted, available-Counted,
}
use kerislab.Services.Credits.{
  deduct_completed_scan, release_scan, reserve_for_scan, reservation_at, grant,
}
use kerislab.Services.Credits.Postings.{
  Accounted-Agrees, deduct_completed_scan-Accounted, balance-or_new, release_scan-Accounted,
  reserve_for_scan-Accounted, grant-Accounted,
}
use kerislab.Services.Credits.Effects.{
  deduct_none, deduct_ok, deducted_account, deduct_again, deduct_released, release_none, release_ok,
  returned_account, account_in, release_settled, reserve_refused, reserve_ok, held_account,
  grant_refused, grant_ok, granted_account,
}
use kerislab.Prelude.Int.{ℤ, ltb_ℤ, pos, leb_ℤ}

pub record BooksAt (accounts : Dict CreditAccount) (ledger : List CreditLedgerEntry)
    (reservations : Dict CreditReservation) (scans : Dict Scan) : Type 0 where
  -- each account is what the ledger adds up to
  pub agrees : (j : String) → balance (lookup j accounts) ≡ replay j ledger
  -- and holds and has spent one credit for each open and each deducted reservation
  pub counted : Counted accounts reservations
  -- a reservation belongs to the workspace of the scan under its key
  pub covered :
      (scan_id : String) (r : CreditReservation)
      → lookup scan_id reservations ≡ some r
      → (scan : Scan) × (lookup scan_id scans ≡ some scan) × (scan.workspace_id ≡ r.workspace_id)
  -- a scan is stored under its identifier
  pub named :
      (scan_id : String) (scan : Scan) → lookup scan_id scans ≡ some scan → scan.id ≡ scan_id

abbrev pub Books : Store → Type 0
Books s = BooksAt s.credit_accounts s.credit_ledger s.credit_reservations s.scans

-- A step that keeps what holds of the world, whether it returns or raises, in front of such steps.
pub proceed-keeps :
    {A B : Type 0} (P : World → Type 0) (p : Result A × World) (f : A → Exec B)
    → P p.1
    → ((a : A) (w : World) → P w → P (f a w).1)
    → P (proceed p f).1
proceed-keeps P (ok a, w) f h k = k a w h
proceed-keeps P (err e, w) f h k = h

-- A scan is changed, but for its identifier and its workspace.
pub update-Books :
    (s : Store) (scan_id : String) (old new : Scan)
    → lookup scan_id s.scans ≡ some old
    → new.id ≡ old.id
    → new.workspace_id ≡ old.workspace_id
    → Books s
    → Books (record s { scans = insert scan_id new s.scans })
update-Books s scan_id old new found same_id same_workspace b = record {
  agrees = b.agrees;
  counted = b.counted;
  covered = λ j r h. elim (Bool-cases (scan_id == j)) [
    | inl e ↦ (new, rw (lookup-insert, e), ground (arith, b.covered j r h, eq_iff scan_id j))
    | inr n ↦ let (scan, at, own) = b.covered j r h in (scan, rw (lookup-insert, n) at, own)
  ];
  named = λ j scan h.
      ground (
        arith,
        lookup-insert scan_id j new s.scans,
        eq_iff scan_id j,
        b.named j old,
        b.named j scan,
      );
}

module _ (s : Store) (scan_id : String) (r r' : CreditReservation)
    (found : lookup scan_id s.credit_reservations ≡ some r)
    (same : r'.workspace_id ≡ r.workspace_id) where
  -- A reservation is settled in place.
  settle-covered :
      Books s
      → (j : String) (x : CreditReservation)
      → lookup j (insert scan_id r' s.credit_reservations) ≡ some x
      → (scan : Scan) × (lookup j s.scans ≡ some scan) × (scan.workspace_id ≡ x.workspace_id)
  settle-covered b j x h = elim (Bool-cases (scan_id == j)) [
    | inl e ↦
        let (scan, at, own) = b.covered scan_id r found in
        (
          scan,
          ground (arith, at, eq_iff scan_id j),
          ground (arith, own, same, lookup-insert scan_id j r' s.credit_reservations),
        )
    | inr n ↦ b.covered j x (ground (arith, lookup-insert scan_id j r' s.credit_reservations))
  ]

module _ (scan stored : Scan) (w : World) (at : lookup scan.id w.store.scans ≡ some stored)
    (own : stored.workspace_id ≡ scan.workspace_id) (b : Books w.store) where
  owner_of :
      (r : CreditReservation)
      → lookup scan.id w.store.credit_reservations ≡ some r
      → r.workspace_id ≡ scan.workspace_id
  owner_of r found = ground (arith, b.covered scan.id r found)

  deduct_by :
      (r : CreditReservation) (status : CreditReservationStatus)
      → lookup scan.id w.store.credit_reservations ≡ some r
      → r.status ≡ status
      → Books (deduct_completed_scan scan w).1.store
  deduct_by r CreditReservationStatus.reserved found h =
      let agrees = Accounted-Agrees (deduct_completed_scan-Accounted scan w) b.agrees in
      rw (deduct_ok scan w r found h) (record {
        agrees = rw (deduct_ok scan w r found h) at agrees;
        counted =
            deduct-Counted scan.workspace_id scan.id (deducted_account scan w) b.counted r found
              (owner_of r found) h (grind (arith, balance-or_new)) (grind (arith, balance-or_new));
        covered =
            settle-covered w.store scan.id r
              (record r { status = CreditReservationStatus.deducted }) found refl b;
        named = b.named;
      })
  deduct_by r CreditReservationStatus.deducted found h = rw (deduct_again scan w r found h) b
  deduct_by r CreditReservationStatus.released found h = rw (deduct_released scan w r found h) b

  pub deduct-Books : Books (deduct_completed_scan scan w).1.store
  deduct-Books = elim (Option-cases (lookup scan.id w.store.credit_reservations)) [
    | inl e ↦ rw (deduct_none scan w e) b
    | inr (r, e) ↦ deduct_by r r.status e refl
  ]

  release_by :
      (r : CreditReservation) (status : CreditReservationStatus)
      → lookup scan.id w.store.credit_reservations ≡ some r
      → r.status ≡ status
      → Books (release_scan scan w).1.store
  release_by r CreditReservationStatus.reserved found h =
      let agrees = Accounted-Agrees (release_scan-Accounted scan w) b.agrees in
      rw (release_ok scan w r found h) (record {
        agrees = rw (release_ok scan w r found h) at agrees;
        counted =
            release-Counted scan.workspace_id scan.id (returned_account scan w) b.counted r found
              (owner_of r found) h (grind (arith, balance-or_new)) (grind (arith, balance-or_new));
        covered =
            settle-covered w.store scan.id r
              (record r { status = CreditReservationStatus.released }) found refl b;
        named = b.named;
      })
  release_by r _ found h = rw (release_settled scan w r found (ground arith)) b

  pub release-Books : Books (release_scan scan w).1.store
  release-Books = elim (Option-cases (lookup scan.id w.store.credit_reservations)) [
    | inl e ↦ rw (release_none scan w e) b
    | inr (r, e) ↦ release_by r r.status e refl
  ]

-- A scan that has no reservation yet takes one.
pub reserve-Books :
    (workspace_id scan_id : String) (scan : Scan) (w : World)
    → lookup scan_id w.store.scans ≡ some scan
    → scan.workspace_id ≡ workspace_id
    → lookup scan_id w.store.credit_reservations ≡ none
    → Books w.store
    → Books (reserve_for_scan workspace_id scan_id w).1.store
reserve-Books workspace_id scan_id scan w at own fresh b =
    let agrees = Accounted-Agrees (reserve_for_scan-Accounted workspace_id scan_id w) b.agrees in
    elim (Bool-cases (ltb_ℤ (account_in workspace_id w.store).available (pos 1))) [
      | inl short ↦ rw (reserve_refused workspace_id scan_id w short) (record {
        agrees = rw (reserve_refused workspace_id scan_id w short) at agrees;
        counted = opened-Counted workspace_id b.counted;
        covered = b.covered;
        named = b.named;
      })
      | inr free ↦ rw (reserve_ok workspace_id scan_id w free) (record {
        agrees = rw (reserve_ok workspace_id scan_id w free) at agrees;
        counted =
            reserve-Counted workspace_id scan_id (held_account workspace_id scan_id w) b.counted
              (reservation_at workspace_id scan_id w) fresh refl refl
              (grind (arith, balance-or_new)) (grind (arith, balance-or_new));
        covered = λ j r h. elim (Bool-cases (scan_id == j)) [
          | inl e ↦ (
            scan,
            ground (arith, at, eq_iff scan_id j),
            ground (
              arith,
              own,
              lookup-insert scan_id j (reservation_at workspace_id scan_id w)
                  w.store.credit_reservations,
            ),
          )
          | inr n ↦ b.covered j r (
              ground (
                arith,
                lookup-insert scan_id j (reservation_at workspace_id scan_id w)
                    w.store.credit_reservations,
              ))
        ];
        named = b.named;
      })
    ]

-- A grant changes accounts and ledger only.
pub grant-Books :
    (workspace_id : String) (amount : ℤ) (note : String) (w : World)
    → Books w.store
    → Books (grant workspace_id amount note w).1.store
grant-Books workspace_id amount note w b =
    let agrees = Accounted-Agrees (grant-Accounted workspace_id amount note w) b.agrees in
    elim (Bool-cases (leb_ℤ amount (pos 0))) [
      | inl refused ↦ rw (grant_refused workspace_id amount note w refused) b
      | inr positive ↦ rw (grant_ok workspace_id amount note w positive) (record {
        agrees = rw (grant_ok workspace_id amount note w positive) at agrees;
        counted =
            available-Counted workspace_id (granted_account workspace_id amount note w)
              (grind (arith, balance-or_new)) (grind (arith, balance-or_new)) b.counted;
        covered = b.covered;
        named = b.named;
      })
    ]
