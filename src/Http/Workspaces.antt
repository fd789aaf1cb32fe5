-- ===== src/Http/Workspaces.antt =====
-- The handlers of workspaces and of the user's own settings in apps/api/kerislab/main.py.
use kerislab.Prelude.{Option, String, List, some, select, none, ◌==◌}
use kerislab.Models.Identity.{Workspace, User, UserSettings, WorkspaceMembership}
use kerislab.Models.Payload.{Payload, Value}
use kerislab.Prelude.Int.{ℤ}
use kerislab.Exec.{Exec, pure, gets, ◌>>=◌, ◌>>◌, at, get, put, sync}
use kerislab.Models.Money.{CreditAccount}
use kerislab.Http.{
  require_role, require_workspace_access, in_workspaces, workspace_admin_roles, handled,
}
use kerislab.Dynamic.{text_of, is_truthy, payload_get, text_items}
use kerislab.Store.Collections.{users, user_settings, workspaces, credit_accounts}
use kerislab.Dict.{values}
use kerislab.Services.Workspaces.{create_workspace, update_sso_domains}
use kerislab.Services.Credits.{account}
use kerislab.Services.Audit.{log, by_actor}
use kerislab.Models.Status.{AuditAction}

-- what `auth_me` answers
pub record Me : Type 0 where
  pub user : User
  pub settings : UserSettings
  pub memberships : List WorkspaceMembership

unfoldable pub auth_me : String → Exec Me
auth_me user_id = do
  user ← at users user_id
  settings ← at user_settings user_id
  own ← gets (λ s. select (λ m. m.user_id == user_id) (values s.memberships))
  pure (record { user = user; settings = settings; memberships = own })

-- `if "theme" in payload: settings.theme = str(payload["theme"])`, and the like for the timezone
unfoldable pub set_theme : Option Value → UserSettings → Exec UserSettings
set_theme none settings = pure settings
set_theme (some value) settings = do text ← text_of value; pure (record settings { theme = text })

unfoldable pub set_timezone : Option Value → UserSettings → Exec UserSettings
set_timezone none settings = pure settings
set_timezone (some value) settings = do
  text ← text_of value
  pure (record settings { timezone = text })

unfoldable pub set_notifications : Option Value → UserSettings → UserSettings
set_notifications none settings = settings
set_notifications (some value) settings = record settings {
  notifications_enabled = is_truthy value;
}

unfoldable pub update_me : Payload → String → Exec UserSettings
unfolding set_theme set_timezone set_notifications
update_me payload user_id = do
  settings ← at user_settings user_id
  themed ← set_theme (payload_get "theme" payload) settings
  zoned ← set_timezone (payload_get "timezone" payload) themed
  let updated : UserSettings = set_notifications (payload_get "notifications_enabled" payload) zoned
  put user_settings user_id updated
  log AuditAction.settings_updated
      (record (by_actor (some user_id)) { workspace_id = updated.default_workspace_id })
  sync
  pure updated

unfoldable pub create_workspace_endpoint : String → ℤ → String → Exec (Workspace × CreditAccount)
create_workspace_endpoint name initial_credits user_id = do
  owner ← at users user_id
  workspace ← create_workspace name owner initial_credits
  credits ← at credit_accounts workspace.id
  pure (workspace, credits)

unfoldable pub list_workspaces : String → Exec (List Workspace)
list_workspaces user_id =
    gets (λ s. select (λ workspace. in_workspaces user_id s workspace.id) (values s.workspaces))

-- what `get_workspace` answers
pub record WorkspaceView : Type 0 where
  pub workspace : Workspace
  pub memberships : List WorkspaceMembership
  pub credits : CreditAccount

unfoldable pub get_workspace : String → String → Exec WorkspaceView
get_workspace workspace_id user_id = do
  require_workspace_access user_id workspace_id
  workspace ← get workspaces workspace_id "workspace"
  members ← gets (λ s. select (λ m. m.workspace_id == workspace_id) (values s.memberships))
  credits ← account workspace_id
  pure (record { workspace = workspace; memberships = members; credits = credits })

unfoldable pub update_workspace_sso : String → List String → String → Exec Workspace
update_workspace_sso workspace_id allowed_domains user_id = do
  require_role user_id workspace_id workspace_admin_roles
  handled (do
    workspace ← update_sso_domains workspace_id allowed_domains
    log AuditAction.workspace_sso_updated (record (by_actor (some user_id)) {
      workspace_id = some workspace_id;
      details =
          Payload.field "allowed_domains" (Value.arr (text_items workspace.allowed_domains))
            Payload.end;
    })
    pure workspace)
