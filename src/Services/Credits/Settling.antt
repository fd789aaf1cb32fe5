-- ===== src/Services/Credits/Settling.antt =====
-- `deduct_completed_scan` and `release_scan` (apps/api/kerislab/services.py) settle a reservation
-- once: a held credit goes, with one entry of the ledger, and nothing is posted after that.
use kerislab.Prelude.{
  String, Option, ℕ, Bool, length, if◌then◌else◌, ◌+◌, false, ◌≡◌, Option-cases, some, inl, none,
  inr, length-append, arith, refl,
}
use kerislab.Store.State.{Store}
use kerislab.Models.Scanning.{Scan}
use kerislab.Models.Money.{CreditReservation}
use kerislab.Exec.{World}
use kerislab.Services.Credits.{deduct_completed_scan, release_scan}
use kerislab.Models.Status.{CreditReservationStatus}
use kerislab.Dict.{lookup, lookup-insert_self}
use kerislab.Services.Credits.Effects.{
  deduct_ok, release_ok, release_none, deduct_none, release_settled, deduct_again, deduct_released,
}
use kerislab.Services.Credits.Reservations.{is_open}

abbrev pub is_open_in : Option CreditReservation → Bool
is_open_in none = false
is_open_in (some r) = is_open r.status

-- How many credits the reservation under a key holds: one or none.
abbrev pub hold : String → Store → ℕ
hold scan_id s = if is_open_in (lookup scan_id s.credit_reservations) then 1 else 0

abbrev pub entries : Store → ℕ
entries s = length s.credit_ledger

-- The ledger and the hold together: to settle a reservation moves one from the hold to the ledger.
abbrev pub charge : String → Store → ℕ
charge scan_id s = entries s + hold scan_id s

module _ (scan : Scan) (w : World) where
  deduct_by-charge :
      (r : CreditReservation) (status : CreditReservationStatus)
      → lookup scan.id w.store.credit_reservations ≡ some r
      → r.status ≡ status
      → charge scan.id (deduct_completed_scan scan w).1.store ≡ charge scan.id w.store
  deduct_by-charge r CreditReservationStatus.reserved e h =
      rw (deduct_ok scan w r e h, lookup-insert_self, length-append, e, h) (omega arith)
  deduct_by-charge r CreditReservationStatus.deducted e h = rw (deduct_again scan w r e h) refl
  deduct_by-charge r CreditReservationStatus.released e h = rw (deduct_released scan w r e h) refl

  pub deduct-charge : charge scan.id (deduct_completed_scan scan w).1.store ≡ charge scan.id w.store
  deduct-charge = elim (Option-cases (lookup scan.id w.store.credit_reservations)) [
    | inl e ↦ rw (deduct_none scan w e) refl
    | inr (r, e) ↦ deduct_by-charge r r.status e refl
  ]

  release_by-charge :
      (r : CreditReservation) (status : CreditReservationStatus)
      → lookup scan.id w.store.credit_reservations ≡ some r
      → r.status ≡ status
      → charge scan.id (release_scan scan w).1.store ≡ charge scan.id w.store
  release_by-charge r CreditReservationStatus.reserved e h =
      rw (release_ok scan w r e h, lookup-insert_self, length-append, e, h) (omega arith)
  release_by-charge r _ e h = rw (release_settled scan w r e (ground arith)) refl

  pub release-charge : charge scan.id (release_scan scan w).1.store ≡ charge scan.id w.store
  release-charge = elim (Option-cases (lookup scan.id w.store.credit_reservations)) [
    | inl e ↦ rw (release_none scan w e) refl
    | inr (r, e) ↦ release_by-charge r r.status e refl
  ]

module _ (scan : Scan) (w : World) where
  deduct_by-settles :
      (r : CreditReservation) (status : CreditReservationStatus)
      → lookup scan.id w.store.credit_reservations ≡ some r
      → r.status ≡ status
      → hold scan.id (deduct_completed_scan scan w).1.store ≡ 0
  deduct_by-settles r CreditReservationStatus.reserved e h =
      rw (deduct_ok scan w r e h, lookup-insert_self) refl
  deduct_by-settles r CreditReservationStatus.deducted e h =
      rw (deduct_again scan w r e h, e, h) refl
  deduct_by-settles r CreditReservationStatus.released e h =
      rw (deduct_released scan w r e h, e, h) refl

  pub deduct-settles : hold scan.id (deduct_completed_scan scan w).1.store ≡ 0
  deduct-settles = elim (Option-cases (lookup scan.id w.store.credit_reservations)) [
    | inl e ↦ rw (deduct_none scan w e, e) refl
    | inr (r, e) ↦ deduct_by-settles r r.status e refl
  ]

  release_by-settles :
      (r : CreditReservation) (status : CreditReservationStatus)
      → lookup scan.id w.store.credit_reservations ≡ some r
      → r.status ≡ status
      → hold scan.id (release_scan scan w).1.store ≡ 0
  release_by-settles r CreditReservationStatus.reserved e h =
      rw (release_ok scan w r e h, lookup-insert_self) refl
  release_by-settles r _ e h = rw (release_settled scan w r e (ground arith), e, h) refl

  pub release-settles : hold scan.id (release_scan scan w).1.store ≡ 0
  release-settles = elim (Option-cases (lookup scan.id w.store.credit_reservations)) [
    | inl e ↦ rw (release_none scan w e, e) refl
    | inr (r, e) ↦ release_by-settles r r.status e refl
  ]
