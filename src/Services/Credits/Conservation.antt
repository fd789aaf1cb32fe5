-- ===== src/Services/Credits/Conservation.antt =====
-- Sequences of calls of `CreditService` (apps/api/kerislab/services.py): the accounts stay what the
-- ledger adds up to, and no credit is made or lost but by a grant.
use kerislab.Prelude.{
  String, ◌≡◌, List, [], ◌∷◌, ◌==◌, if◌then◌else◌, Bool-cases, inl, inr, ◌∙◌, ap,
}
use kerislab.Prelude.Int.{ℤ, pos, ◌+ℤ◌, int_laws}
use kerislab.Models.Status.{LedgerEntryType}
use kerislab.Models.Money.{CreditLedgerEntry}
use kerislab.Models.Scanning.{Scan}
use kerislab.Exec.{World}
use kerislab.Services.Credits.{grant, reserve_for_scan, deduct_completed_scan, release_scan}
use kerislab.Services.Credits.Ledger.{
  Balance, moved, Agrees, balance_of, posted, nothing, replay_from,
}
use kerislab.Services.Credits.Postings.{
  Accounted-Agrees, grant-Accounted, reserve_for_scan-Accounted, deduct_completed_scan-Accounted,
  release_scan-Accounted,
}
use kerislab.Store.State.{Store}

pub data Call : Type 0 where
  grant_call : String → ℤ → String → Call
  reserves : String → String → Call
  deducts releases : Scan → Call

-- One call, with its result or exception dropped.
pub perform : Call → World → World
perform (grant_call workspace_id amount note) w = (grant workspace_id amount note w).1
perform (reserves workspace_id scan_id) w = (reserve_for_scan workspace_id scan_id w).1
perform (deducts scan) w = (deduct_completed_scan scan w).1
perform (releases scan) w = (release_scan scan w).1

pub perform_all : List Call → World → World
unfolding perform
perform_all [] w = w
perform_all (c ∷ cs) w = perform_all cs (perform c w)

perform-Agrees : (c : Call) (w : World) → Agrees w.store → Agrees (perform c w).store
unfolding perform
perform-Agrees (grant_call i a n) w h = Accounted-Agrees (grant-Accounted i a n w) h
perform-Agrees (reserves i s) w h = Accounted-Agrees (reserve_for_scan-Accounted i s w) h
perform-Agrees (deducts scan) w h = Accounted-Agrees (deduct_completed_scan-Accounted scan w) h
perform-Agrees (releases scan) w h = Accounted-Agrees (release_scan-Accounted scan w) h

-- From a store whose accounts agree with the ledger, any calls of the credit service, refused ones included,
-- lead to a store whose accounts agree with the ledger: each is the replay of its workspace's entries.
pub perform_all-Agrees :
    (cs : List Call) (w : World) → Agrees w.store → Agrees (perform_all cs w).store
unfolding perform_all
perform_all-Agrees [] w h = h
perform_all-Agrees (c ∷ cs) w h = perform_all-Agrees cs (perform c w) (perform-Agrees c w h)

abbrev pub total : Balance → ℤ
total b = b.available +ℤ b.reserved +ℤ b.consumed

-- What an entry adds from outside: a grant, or one of the two types that the program never writes.
abbrev pub added : LedgerEntryType → ℤ → ℤ
added LedgerEntryType.grant amount = amount
added LedgerEntryType.adjustment amount = amount
added LedgerEntryType.refund amount = amount
added _ amount = pos 0

-- What the workspace was granted, by its entries from the last to the first.
pub granted_in : String → List CreditLedgerEntry → ℤ
granted_in workspace_id [] = pos 0
granted_in workspace_id (e ∷ es) =
    (if e.workspace_id == workspace_id then added e.entry_type e.amount else pos 0)
    +ℤ granted_in workspace_id es

total-moved :
    (t : LedgerEntryType) (amount : ℤ) (b : Balance)
    → total (moved t amount b) ≡ total b +ℤ added t amount
total-moved LedgerEntryType.grant amount b = omega int_laws
total-moved _ amount b = omega int_laws

-- What an entry adds to the given workspace.
abbrev share : String → CreditLedgerEntry → ℤ
share workspace_id e = if e.workspace_id == workspace_id then added e.entry_type e.amount else pos 0

total-posted :
    (workspace_id : String) (e : CreditLedgerEntry) (b : Balance)
    → total (posted workspace_id b e) ≡ total b +ℤ share workspace_id e
total-posted workspace_id e b = elim (Bool-cases (e.workspace_id == workspace_id)) [
  | inl own ↦ rw own (total-moved e.entry_type e.amount b)
  | inr other ↦ rw other (omega int_laws)
]

+ℤ_assoc : (a b c : ℤ) → a +ℤ b +ℤ c ≡ a +ℤ (b +ℤ c)
+ℤ_assoc a b c = omega int_laws

regroup : {a b : ℤ} (c d f : ℤ) → a ≡ b +ℤ c → b ≡ d +ℤ f → a ≡ d +ℤ (f +ℤ c)
regroup c d f h k = h ∙ ap (λ x. x +ℤ c) k ∙ +ℤ_assoc d f c

total-replay_from :
    (workspace_id : String) (b : Balance) (es : List CreditLedgerEntry)
    → total (replay_from workspace_id b es) ≡ total b +ℤ granted_in workspace_id es
unfolding granted_in replay_from
total-replay_from workspace_id b [] = omega int_laws
total-replay_from workspace_id b (e ∷ es) =
    regroup (granted_in workspace_id es) (total b) (share workspace_id e)
      (total-replay_from workspace_id (posted workspace_id b e) es) (total-posted workspace_id e b)

pub total_of_Agrees :
    (workspace_id : String) (s : Store)
    → Agrees s
    → total (balance_of workspace_id s) ≡ granted_in workspace_id s.credit_ledger
total_of_Agrees workspace_id s h =
    rw (h workspace_id)
      (rw (total-replay_from workspace_id nothing s.credit_ledger) (omega int_laws))

-- From a store whose accounts agree with the ledger, after any calls of the credit service the free, the held and
-- the spent credits of a workspace add up to what its ledger entries grant it.
pub credits_conserved :
    (cs : List Call) (w : World) (workspace_id : String)
    → Agrees w.store
    → let s = (perform_all cs w).store in
      total (balance_of workspace_id s) ≡ granted_in workspace_id s.credit_ledger
credits_conserved cs w workspace_id h =
    total_of_Agrees workspace_id (perform_all cs w).store (perform_all-Agrees cs w h)
