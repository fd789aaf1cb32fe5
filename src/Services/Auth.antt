-- ===== src/Services/Auth.antt =====
-- `AuthService` of apps/api/kerislab/services.py: identities, sessions, and the workspaces that a
-- user joins by the domain of the email address.
use kerislab.Models.Status.{AuthProvider, Role, AuditAction}
use kerislab.Prelude.{
  String, Option, List, Bool, some, none, any, true, partition_tail, ◌∷◌, first, ◌==◌, ◌&&◌,
  if◌then◌else◌, [], not,
}
use kerislab.Models.Identity.{User, Workspace, UserSettings, WorkspaceMembership}
use kerislab.Exec.{
  Env, Exec, put, World, ◌>>=◌, next_id, pure, asks, new_id, gets, add, ◌>>◌, new_entity, or_raise,
  key_error, sync,
}
use kerislab.Store.State.{Store}
use kerislab.Models.Running.{AuditLog}
use kerislab.Store.Collections.{user_settings, memberships, users}
use kerislab.Services.Audit.{log, by_actor}
use kerislab.Dict.{lookup, values}
use kerislab.Models.Payload.{Payload, Value}
use kerislab.Models.Values.{auth_provider_value, role_value}
use kerislab.Services.Scans.{text_field}

-- `WorkspaceMembership(...)`, which draws an identifier and reads no clock
unfoldable pub new_membership : String → String → Role → Exec WorkspaceMembership
new_membership workspace_id user_id role = do
  id ← new_id "mem"
  pure (record { workspace_id = workspace_id; user_id = user_id; role = role; id = id })

-- `UserSettings(user_id=...)`
abbrev pub new_settings : String → UserSettings
new_settings user_id = record {
  user_id = user_id;
  default_workspace_id = none;
  theme = "light";
  timezone = "UTC";
  notifications_enabled = true;
}

-- `self.store.user_settings[user_id]`
abbrev pub settings_of : String → Exec UserSettings
settings_of user_id = do
  found ← gets (λ s. lookup user_id s.user_settings)
  or_raise found (key_error user_id)

abbrev pub set_default : String → String → UserSettings → Option String → Exec Unit
set_default user_id workspace_id settings none =
    put user_settings user_id (record settings { default_workspace_id = some workspace_id })
set_default user_id workspace_id settings (some _) = pure tt

-- The user joins one workspace as a developer.
unfoldable pub join_workspace : User → String → Workspace → Exec WorkspaceMembership
join_workspace user domain workspace = do
  made ← new_membership workspace.id user.id Role.developer
  membership ← add memberships made
  settings ← settings_of user.id
  set_default user.id workspace.id settings settings.default_workspace_id
  log AuditAction.workspace_member_auto_joined (record (by_actor (some user.id)) {
    workspace_id = some workspace.id;
    details =
        Payload.field "email_domain" (Value.str domain)
          (text_field "role" (role_value membership.role));
  })
  pure membership

-- `domain in {item.lower().strip() for item in workspace.allowed_domains}`
abbrev pub allows : Env → String → Workspace → Bool
allows env domain workspace =
    any (λ item. env.strip (env.lower item) == domain) workspace.allowed_domains

abbrev pub is_member : String → String → Store → Bool
is_member user_id workspace_id s =
    any (λ m. m.user_id == user_id && m.workspace_id == workspace_id) (values s.memberships)

-- the loop over the workspaces, with the memberships made by the later rounds
unfoldable pub join_all : User → String → List Workspace → Exec (List WorkspaceMembership)
unfolding join_workspace
join_all user domain [] = pure []
join_all user domain (workspace ∷ rest) = do
  allowed ← asks (λ env. allows env domain workspace)
  member ← gets (is_member user.id workspace.id)
  let later : Exec (List WorkspaceMembership) = join_all user domain rest
  if allowed && not member
      then (do
        membership ← join_workspace user domain workspace
        created ← later
        pure (membership ∷ created))
      else later

unfoldable pub reconcile_domain_memberships : User → Exec (List WorkspaceMembership)
unfolding join_all
reconcile_domain_memberships user = do
  domain ← asks (λ env. partition_tail "@" (env.lower user.email))
  workspaces ← gets (λ s. values s.workspaces)
  let joined : Exec (List WorkspaceMembership) = join_all user domain workspaces
  if domain == "" then pure [] else (do created ← joined; sync; pure created)

-- `User(...)` in the given world
abbrev user_at : String → String → AuthProvider → Option String → World → User
user_at email display_name provider avatar_url w = record {
  email = email;
  display_name = display_name;
  provider = provider;
  avatar_url = avatar_url;
  id = next_id "usr" w.env w.drawn;
  created_at = w.env.clock w.ticks;
}

-- the audit entry of a login
unfoldable pub log_login : User → AuthProvider → String → Exec AuditLog
log_login user provider email = log AuditAction.login (record (by_actor (some user.id)) {
  details =
      Payload.field "provider" (Value.str (auth_provider_value provider))
        (text_field "email" email);
})

unfoldable pub login_found :
    String → String → AuthProvider → Option String → Option User → Exec User
unfolding log_login
login_found email display_name provider avatar_url (some existing) = do
  log_login existing provider email
  reconcile_domain_memberships existing
  pure existing
login_found email display_name provider avatar_url none = do
  made ← new_entity (user_at email display_name provider avatar_url)
  user ← add users made
  put user_settings user.id (new_settings user.id)
  log_login user provider email
  reconcile_domain_memberships user
  sync
  pure user

unfoldable pub login_identity : String → String → AuthProvider → Option String → Exec User
unfolding login_found
login_identity email display_name provider avatar_url = do
  existing ← gets (λ s. first (λ u. u.email == email) (values s.users))
  login_found email display_name provider avatar_url existing
