-- ===== src/Services/Bystanders/Workspaces.antt =====
-- The books behind the creation of a workspace (`WorkspaceService` of apps/api/kerislab/services.py).
use kerislab.Services.Bystanders.{Kept, then-Kept, account-Kept, at-Kept}
use kerislab.Exec.{World, next_id, at, put, ◌>>◌, sync, pure}
use kerislab.Services.Workspaces.{grant_initial, create_workspace, log_created, workspace_at}
use kerislab.Services.Credits.{account, or_new_account, grant, new_account}
use kerislab.Dict.{lookup, insert}
use kerislab.Prelude.{String, ◌≡◌, none, suc, zero, some}
use kerislab.Services.Auth.{new_membership}
use kerislab.Prelude.Int.{ℤ, pos, negsuc}
use kerislab.Models.Identity.{User, Workspace}
use kerislab.Services.Books.{BooksAt, grant-Books}
use kerislab.Store.Collections.{user_settings}
use kerislab.Services.Audit.{log}

-- The identifier that the next new workspace gets has no account.
abbrev pub FreshWorkspace : World → Type 0
FreshWorkspace w = lookup (next_id "wks" w.env w.drawn) w.store.credit_accounts ≡ none

opened-Books :
    (workspace_id : String) (w : World)
    → lookup workspace_id w.store.credit_accounts ≡ none
    → Kept w
    → BooksAt
        (insert workspace_id (new_account workspace_id) w.store.credit_accounts)
        w.store.credit_ledger
        w.store.credit_reservations
        w.store.scans
unfolding account or_new_account
opened-Books workspace_id w fresh b =
    let h : Kept (account workspace_id w).1 = account-Kept workspace_id w b in rw fresh at h

grant_initial-Kept :
    (workspace_id : String) (amount : ℤ) (w : World)
    → Kept w
    → Kept (grant_initial workspace_id amount w).1
unfolding grant_initial
grant_initial-Kept workspace_id (pos zero) w b = b
grant_initial-Kept workspace_id (pos (suc n)) w b =
    then-Kept (grant workspace_id (pos (suc n)) "Initial workspace grant" w) _
      (grant-Books workspace_id (pos (suc n)) _ w b) (λ _ v h. h)
grant_initial-Kept workspace_id (negsuc n) w b =
    then-Kept (grant workspace_id (negsuc n) "Initial workspace grant" w) _
      (grant-Books workspace_id (negsuc n) _ w b) (λ _ v h. h)

pub create_workspace-Kept :
    (name : String) (owner : User) (initial_credits : ℤ) (w : World)
    → FreshWorkspace w
    → Kept w
    → Kept (create_workspace name owner initial_credits w).1
unfolding create_workspace new_membership log_created log
create_workspace-Kept name owner initial_credits w fresh b =
    let id = next_id "wks" w.env w.drawn in
    then-Kept (at user_settings owner.id _) _
      (at-Kept user_settings owner.id _ (opened-Books id w fresh b))
      λ settings v h.
        let chosen : World =
          (put user_settings owner.id (record settings { default_workspace_id = some id }) v).1 in
        let workspace : Workspace = workspace_at name w in
        then-Kept (grant_initial id initial_credits chosen)
          (λ _. log_created owner workspace initial_credits >> sync >> pure workspace)
          (grant_initial-Kept id initial_credits chosen h) (λ _ u k. k)
