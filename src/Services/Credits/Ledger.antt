-- ===== src/Services/Credits/Ledger.antt =====
-- The abstract account: what the credit ledger says, entry by entry, against what
-- `CreditService` of apps/api/kerislab/services.py keeps in the account.

use kerislab.Prelude.{
  String, ◌≡◌, refl, Option, none, some, List, [], ◌∷◌, ◌++◌, ◌==◌, if◌then◌else◌,
}
use kerislab.Prelude.Int.{ℤ, pos, ◌+ℤ◌, ◌-ℤ◌}
use kerislab.Dict.{lookup}
use kerislab.Models.Status.{LedgerEntryType}
use kerislab.Models.Money.{CreditAccount, CreditLedgerEntry}
use kerislab.Store.State.{Store}

-- What a workspace has: free credits, credits held for scans, credits spent.
pub record Balance : Type 0 where
  pub available : ℤ
  pub reserved : ℤ
  pub consumed : ℤ

abbrev pub nothing : Balance
nothing = record { available = pos 0; reserved = pos 0; consumed = pos 0 }

-- What an entry of each type means. `amount` is -1 for a reservation and a deduction, and the
-- program writes no adjustment and no refund.
abbrev pub moved : LedgerEntryType → ℤ → Balance → Balance
moved LedgerEntryType.grant amount b = record b { available = b.available +ℤ amount }
moved LedgerEntryType.reserve amount b = record b {
  available = b.available +ℤ amount;
  reserved = b.reserved -ℤ amount;
}
moved LedgerEntryType.deduct amount b = record b {
  reserved = b.reserved +ℤ amount;
  consumed = b.consumed -ℤ amount;
}
moved LedgerEntryType.release amount b = record b {
  available = b.available +ℤ amount;
  reserved = b.reserved -ℤ amount;
}
moved LedgerEntryType.adjustment amount b = record b { available = b.available +ℤ amount }
moved LedgerEntryType.refund amount b = record b { available = b.available +ℤ amount }

-- One entry, as the workspace sees it.
abbrev pub posted : String → Balance → CreditLedgerEntry → Balance
posted workspace_id b entry =
    if entry.workspace_id == workspace_id then moved entry.entry_type entry.amount b else b

-- The entries one after the other, as the workspace sees them.
unfoldable pub replay_from : String → Balance → List CreditLedgerEntry → Balance
replay_from workspace_id b [] = b
replay_from workspace_id b (e ∷ es) = replay_from workspace_id (posted workspace_id b e) es

-- The whole ledger.
abbrev pub replay : String → List CreditLedgerEntry → Balance
replay workspace_id = replay_from workspace_id nothing

replay_from-append :
    (workspace_id : String) (b : Balance) (entries : List CreditLedgerEntry)
    (entry : CreditLedgerEntry)
    → replay_from workspace_id b (entries ++ entry ∷ [])
      ≡ posted workspace_id (replay_from workspace_id b entries) entry
unfolding replay_from
replay_from-append workspace_id b [] entry = refl
replay_from-append workspace_id b (e ∷ es) entry =
    replay_from-append workspace_id (posted workspace_id b e) es entry

abbrev pub balance : Option CreditAccount → Balance
balance none = nothing
balance (some a) = record { available = a.available; reserved = a.reserved; consumed = a.consumed }

-- What the store's account of the workspace says; a workspace without one has nothing.
abbrev pub balance_of : String → Store → Balance
balance_of workspace_id s = balance (lookup workspace_id s.credit_accounts)

-- Every account is what its ledger entries add up to.
abbrev pub Agrees : Store → Type 0
Agrees s = (workspace_id : String) → balance_of workspace_id s ≡ replay workspace_id s.credit_ledger

-- From `s` to `s'` the entry was appended to the ledger and nothing else happened to a balance.
pub record Posts (entry : CreditLedgerEntry) (s s' : Store) : Type 0 where
  pub appended : s'.credit_ledger ≡ s.credit_ledger ++ entry ∷ []
  pub balances :
      (workspace_id : String)
      → balance_of workspace_id s' ≡ posted workspace_id (balance_of workspace_id s) entry
  -- the running balance that the entry records
  pub recorded : entry.balance_after ≡ (balance_of entry.workspace_id s').available

pub Posts-Agrees :
    {entry : CreditLedgerEntry} {s s' : Store} → Posts entry s s' → Agrees s → Agrees s'
Posts-Agrees {entry} {s} {s'} p h workspace_id =
    rw (p.appended, replay_from-append, ← h workspace_id) (p.balances workspace_id)
