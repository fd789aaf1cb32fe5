-- ===== src/Services/Credits/Reservations.antt =====
-- Reservations (apps/api/kerislab/services.py, `CreditService`) against accounts: an account holds one
-- credit for each of its reservations that is open, and has spent one for each that was deducted.
use kerislab.Models.Status.{CreditReservationStatus}
use kerislab.Dict.{Dict, lookup, insert, values, count-insert_new, count-insert}
use kerislab.Prelude.{
  Bool, String, true, false, ◌==◌, ◌≡◌, ◌&&◌, count, arith, eq_iff, none, Bool-cases, ℕ, inl, ◌+◌,
  ◌∙◌, inr, some,
}
use kerislab.Models.Money.{CreditAccount, CreditReservation}
use kerislab.Services.Credits.Ledger.{balance, Balance}
use kerislab.Prelude.Int.{pos, ◌-ℤ◌, ◌+ℤ◌, ℤ}
use kerislab.Services.Credits.Effects.{opening, lookup-opened, lookup-insert-opened}
use kerislab.Services.Credits.Postings.{balance-or_new}

abbrev pub is_open : CreditReservationStatus → Bool
is_open CreditReservationStatus.reserved = true
is_open _ = false

abbrev pub is_deducted : CreditReservationStatus → Bool
is_deducted CreditReservationStatus.deducted = true
is_deducted _ = false

module _ (workspace_id : String) where
  abbrev pub is_held : CreditReservation → Bool
  is_held r = r.workspace_id == workspace_id && is_open r.status

  abbrev pub is_spent : CreditReservation → Bool
  is_spent r = r.workspace_id == workspace_id && is_deducted r.status

-- The accounts count the reservations.
pub record Counted (accounts : Dict CreditAccount) (reservations : Dict CreditReservation)
    : Type 0 where
  pub held :
      (j : String)
      → (balance (lookup j accounts)).reserved ≡ pos (count (is_held j) (values reservations))
  pub spent :
      (j : String)
      → (balance (lookup j accounts)).consumed ≡ pos (count (is_spent j) (values reservations))

-- An account that is opened is empty, as a missing one is taken to be.
balance-opened :
    (workspace_id j : String) (accounts : Dict CreditAccount)
    → balance (lookup j (opening workspace_id accounts)) ≡ balance (lookup j accounts)
balance-opened workspace_id j accounts = rw lookup-opened (grind (arith, eq_iff, balance-or_new))

module _ {accounts : Dict CreditAccount} {reservations : Dict CreditReservation}
    (workspace_id : String) where
  pub opened-Counted :
      Counted accounts reservations → Counted (opening workspace_id accounts) reservations
  opened-Counted c = record {
    held = λ j. rw balance-opened (c.held j);
    spent = λ j. rw balance-opened (c.spent j);
  }

  -- a change of the free credits alone
  pub available-Counted :
      (a : CreditAccount)
      → a.reserved ≡ (balance (lookup workspace_id accounts)).reserved
      → a.consumed ≡ (balance (lookup workspace_id accounts)).consumed
      → Counted accounts reservations
      → Counted (insert workspace_id a (opening workspace_id accounts)) reservations
  available-Counted a hr hc c = record {
    held = λ j. rw lookup-insert-opened (ground (arith, c.held j, eq_iff workspace_id j));
    spent = λ j. rw lookup-insert-opened (ground (arith, c.spent j, eq_iff workspace_id j));
  }

less_one : (z : ℤ) (n m : ℕ) → z ≡ pos n → m + 1 ≡ n → z -ℤ pos 1 ≡ pos m
unfolding ◌-ℤ◌
less_one z n m e h = rw e (ground arith)

more_one : (z : ℤ) (n m : ℕ) → z ≡ pos n → m ≡ n + 1 → z +ℤ pos 1 ≡ pos m
unfolding ◌+ℤ◌
more_one z n m e h = rw e (ground arith)

module _ {accounts : Dict CreditAccount} {reservations : Dict CreditReservation}
    (workspace_id scan_id : String) (a : CreditAccount) (c : Counted accounts reservations) where
  abbrev old : Balance
  old = balance (lookup workspace_id accounts)

  abbrev After : CreditReservation → Type 0
  After r =
      Counted (insert workspace_id a (opening workspace_id accounts))
        (insert scan_id r reservations)

  -- A new reservation, which takes one credit into the hold.
  pub reserve-Counted :
      (r : CreditReservation)
      → lookup scan_id reservations ≡ none
      → r.workspace_id ≡ workspace_id
      → r.status ≡ CreditReservationStatus.reserved
      → a.reserved ≡ old.reserved +ℤ pos 1
      → a.consumed ≡ old.consumed
      → After r
  reserve-Counted r fresh own status hr hc = record {
    held = λ j. rw lookup-insert-opened (elim (Bool-cases (workspace_id == j)) [
      | inl e ↦ rw e (
          hr
          ∙ more_one old.reserved _ _ (c.held workspace_id) (
              ground (
                arith,
                count-insert_new (is_held j) scan_id r reservations fresh,
                eq_iff workspace_id j,
                eq_iff r.workspace_id j,
              )))
      | inr n ↦
          rw n (ground (arith, count-insert_new (is_held j) scan_id r reservations fresh, c.held j))
    ]);
    spent = λ j. rw lookup-insert-opened (
        ground (
          arith,
          count-insert_new (is_spent j) scan_id r reservations fresh,
          c.spent j,
          eq_iff workspace_id j,
        ));
  }

  -- An open reservation is deducted: its credit goes from the hold to the spent ones.
  pub deduct-Counted :
      (r : CreditReservation)
      → lookup scan_id reservations ≡ some r
      → r.workspace_id ≡ workspace_id
      → r.status ≡ CreditReservationStatus.reserved
      → a.reserved ≡ old.reserved -ℤ pos 1
      → a.consumed ≡ old.consumed +ℤ pos 1
      → After (record r { status = CreditReservationStatus.deducted })
  deduct-Counted r found own status hr hc =
      let r' : CreditReservation = record r { status = CreditReservationStatus.deducted } in
      record {
        held = λ j. rw lookup-insert-opened (elim (Bool-cases (workspace_id == j)) [
          | inl e ↦ rw e (
              hr
              ∙ less_one old.reserved _ _ (c.held workspace_id) (
                  ground (
                    arith,
                    count-insert (is_held j) scan_id r' r reservations found,
                    eq_iff workspace_id j,
                    eq_iff r.workspace_id j,
                  )))
          | inr n ↦
              rw n
                (ground (arith, count-insert (is_held j) scan_id r' r reservations found, c.held j))
        ]);
        spent = λ j. rw lookup-insert-opened (elim (Bool-cases (workspace_id == j)) [
          | inl e ↦ rw e (
              hc
              ∙ more_one old.consumed _ _ (c.spent workspace_id) (
                  ground (
                    arith,
                    count-insert (is_spent j) scan_id r' r reservations found,
                    eq_iff workspace_id j,
                    eq_iff r.workspace_id j,
                  )))
          | inr n ↦
              rw n (
                ground
                  (arith, count-insert (is_spent j) scan_id r' r reservations found, c.spent j))
        ]);
      }

  -- An open reservation is released: its credit leaves the hold.
  pub release-Counted :
      (r : CreditReservation)
      → lookup scan_id reservations ≡ some r
      → r.workspace_id ≡ workspace_id
      → r.status ≡ CreditReservationStatus.reserved
      → a.reserved ≡ old.reserved -ℤ pos 1
      → a.consumed ≡ old.consumed
      → After (record r { status = CreditReservationStatus.released })
  release-Counted r found own status hr hc =
      let r' : CreditReservation = record r { status = CreditReservationStatus.released } in
      record {
        held = λ j. rw lookup-insert-opened (elim (Bool-cases (workspace_id == j)) [
          | inl e ↦ rw e (
              hr
              ∙ less_one old.reserved _ _ (c.held workspace_id) (
                  ground (
                    arith,
                    count-insert (is_held j) scan_id r' r reservations found,
                    eq_iff workspace_id j,
                    eq_iff r.workspace_id j,
                  )))
          | inr n ↦
              rw n
                (ground (arith, count-insert (is_held j) scan_id r' r reservations found, c.held j))
        ]);
        spent = λ j. rw lookup-insert-opened (
            ground (
              arith,
              count-insert (is_spent j) scan_id r' r reservations found,
              c.spent j,
              eq_iff workspace_id j,
            ));
      }
