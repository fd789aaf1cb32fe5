-- ===== src/Http/Projects.antt =====
-- The handlers of projects, targets and model profiles in apps/api/kerislab/main.py.
use kerislab.Prelude.{Option, String, List, Bool, some, select, if◌then◌else◌, ◌==◌, none}
use kerislab.Exec.{Exec, gets, ◌>>=◌, ◌>>◌, get, pure}
use kerislab.Models.Scanning.{Target, Project, ModelProfile}
use kerislab.Models.Payload.{Payload, Value}
use kerislab.Http.{
  handled, require_role, require_workspace_access, in_workspaces, workspace_security_roles,
}
use kerislab.Store.Collections.{projects, model_profiles}
use kerislab.Services.Workspaces.{create_target, create_project, create_profile, test_profile}
use kerislab.Services.Audit.{log, by_actor}
use kerislab.Dict.{values}
use kerislab.Models.Status.{AuditAction}
use kerislab.Services.Scans.{text_field}

-- `workspace_id` is the query parameter, or None.
list_own : String → Exec (List Project)
list_own user_id =
    gets (λ s. select (λ project. in_workspaces user_id s project.workspace_id) (values s.projects))

list_of_workspace : String → String → Exec (List Project)
list_of_workspace workspace_id user_id = do
  require_workspace_access user_id workspace_id
  gets (λ s. select (λ project. project.workspace_id == workspace_id) (values s.projects))

unfoldable pub list_projects : Option String → String → Exec (List Project)
unfolding list_own list_of_workspace
list_projects none user_id = list_own user_id
list_projects (some workspace_id) user_id =
    if workspace_id == "" then list_own user_id else list_of_workspace workspace_id user_id

unfoldable pub list_project_targets : String → String → Exec (List Target)
list_project_targets project_id user_id = do
  project ← get projects project_id "project"
  require_workspace_access user_id project.workspace_id
  gets (λ s. select (λ target. target.project_id == project_id) (values s.targets))

-- the body of `create_model_profile`
pub record ModelProfileCreate : Type 0 where
  pub workspace_id : String
  pub name : String
  pub model : String
  pub api_base : String

unfoldable pub create_model_profile : ModelProfileCreate → String → Exec ModelProfile
create_model_profile payload user_id = do
  require_role user_id payload.workspace_id workspace_security_roles
  handled (do
    profile ← create_profile payload.workspace_id payload.name payload.model payload.api_base
    log AuditAction.model_profile_created (record (by_actor (some user_id)) {
      workspace_id = some payload.workspace_id;
      details =
          Payload.field "profile_id" (Value.str profile.id) (text_field "model" profile.model);
    })
    pure profile)

unfoldable pub test_model_profile : String → String → Exec Payload
test_model_profile profile_id user_id = handled (do
  profile ← get model_profiles profile_id "model profile"
  require_role user_id profile.workspace_id workspace_security_roles
  result ← test_profile profile_id
  log AuditAction.model_profile_tested (record (by_actor (some user_id)) {
    workspace_id = some profile.workspace_id;
    details = text_field "profile_id" profile_id;
  })
  pure result)

unfoldable pub create_project_endpoint : String → String → String → Exec Project
create_project_endpoint workspace_id name user_id = do
  require_workspace_access user_id workspace_id
  project ← create_project workspace_id name
  log AuditAction.project_created (record (by_actor (some user_id)) {
    workspace_id = some workspace_id;
    project_id = some project.id;
    details = text_field "name" project.name;
  })
  pure project

-- the body of `create_target`
pub record TargetCreate : Type 0 where
  pub workspace_id : String
  pub project_id : String
  pub name : String
  pub url : String
  pub excludes : List String
  pub allow_private_networks : Bool

unfoldable pub create_target_endpoint : TargetCreate → String → Exec Target
create_target_endpoint payload user_id = do
  require_workspace_access user_id payload.workspace_id
  handled (do
    target ←
        create_target payload.workspace_id payload.project_id payload.name payload.url
          payload.excludes payload.allow_private_networks
    log AuditAction.target_created (record (by_actor (some user_id)) {
      workspace_id = some payload.workspace_id;
      project_id = some payload.project_id;
      target_id = some target.id;
      details = Payload.field "name" (Value.str target.name) (text_field "url" target.url);
    })
    pure target)
