-- ===== src/Http/Keeps/Explained.antt =====
-- The credits of a workspace behind any requests to apps/api/kerislab/main.py.
use kerislab.Http.Keeps.Requests.{Serves, Serves-Books, Outside}
use kerislab.Exec.{World}
use kerislab.Prelude.{String, ◌≡◌}
use kerislab.Services.Books.{Books}
use kerislab.Services.Lifecycle.{explained}
use kerislab.Services.Credits.Conservation.{granted_in, total_of_Agrees}

-- Whatever requests arrive at books that fit, in any order, for any users, the free credits of a workspace, its open
-- reservations and its deducted reservations add up to what its ledger entries grant it.
pub requests_explained :
    {o : Outside} {w v : World} (workspace_id : String)
    → Serves o w v
    → Books w.store
    → explained workspace_id v.store ≡ granted_in workspace_id v.store.credit_ledger
requests_explained {o} {w} {v} workspace_id served b =
    let books = Serves-Books served b in
    rw (← books.counted.held workspace_id, ← books.counted.spent workspace_id)
      (total_of_Agrees workspace_id v.store books.agrees)
