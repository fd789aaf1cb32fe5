-- ===== src/Services/Workspaces.antt =====
-- `WorkspaceService`, `ProjectService` and `ModelProfileService` of apps/api/kerislab/services.py.
use kerislab.Models.Status.{Role, AuditAction}
use kerislab.Services.Credits
use kerislab.Prelude.{
  String, Bool, List, sorted_set, not, [], occurs_in, map, select, ◌||◌, ◌==◌, zero, any,
  starts_with, some, true,
}
use kerislab.Exec.{
  Env, World, Exec, next_id, pure, ◌>>=◌, asks, new_entity, get, ◌>>◌, add, raise_if, value_error,
  sync, put,
}
use kerislab.Prelude.Int.{ℤ, pos}
use kerislab.Models.Identity.{User, Workspace}
use kerislab.Models.Scanning.{ModelProfile, Project, Target}
use kerislab.Store.Collections.{
  workspaces, targets, projects, memberships, credit_accounts, model_profiles, user_settings,
}
use kerislab.Scope.{validate_target_scope}
use kerislab.Services.Auth.{new_membership, settings_of}
use kerislab.Services.Credits.{new_account}
use kerislab.Services.Audit.{log, by_actor}
use kerislab.Models.Payload.{Payload, Value}
use kerislab.Services.Scans.{text_field}
use kerislab.Models.Running.{AuditLog}

abbrev pub workspace_at : String → World → Workspace
workspace_at name w = record {
  name = name;
  allowed_domains = [];
  id = next_id "wks" w.env w.drawn;
  created_at = w.env.clock w.ticks;
}

-- `if initial_credits: CreditService(...).grant(...)`
unfoldable pub grant_initial : String → ℤ → Exec Unit
grant_initial workspace_id (pos zero) = pure tt
grant_initial workspace_id initial_credits = do
  Credits.grant workspace_id initial_credits "Initial workspace grant"
  pure tt

unfoldable pub log_created : User → Workspace → ℤ → Exec AuditLog
log_created owner workspace initial_credits =
    log AuditAction.workspace_created (record (by_actor (some owner.id)) {
      workspace_id = some workspace.id;
      details =
          Payload.field "name" (Value.str workspace.name)
            (Payload.field "initial_credits" (Value.num initial_credits) Payload.end);
    })

unfoldable pub create_workspace : String → User → ℤ → Exec Workspace
unfolding grant_initial log_created
create_workspace name owner initial_credits = do
  made ← new_entity (workspace_at name)
  workspace ← add workspaces made
  membership ← new_membership workspace.id owner.id Role.owner
  add memberships membership
  put credit_accounts workspace.id (new_account workspace.id)
  settings ← settings_of owner.id
  put user_settings owner.id (record settings { default_workspace_id = some workspace.id })
  grant_initial workspace.id initial_credits
  log_created owner workspace initial_credits
  sync
  pure workspace

abbrev is_bare : String → Bool
is_bare domain = not (occurs_in "@" domain || occurs_in "/" domain)

-- `sorted({domain.lower().strip() for domain in allowed_domains if domain.strip()})`
abbrev normalized_domains : Env → List String → List String
normalized_domains env domains = sorted_set (
    map (λ domain. env.strip (env.lower domain))
      (select (λ domain. not (env.strip domain == "")) domains))

unfoldable pub update_sso_domains : String → List String → Exec Workspace
update_sso_domains workspace_id allowed_domains = do
  workspace ← get workspaces workspace_id "workspace"
  normalized ← asks (λ env. normalized_domains env allowed_domains)
  raise_if (any (λ domain. not (is_bare domain)) normalized)
      (value_error "allowed domains must be bare email domains")
  let updated : Workspace = record workspace { allowed_domains = normalized }
  put workspaces workspace_id updated
  sync
  pure updated

abbrev project_at : String → String → World → Project
project_at workspace_id name w = record {
  workspace_id = workspace_id;
  name = name;
  id = next_id "prj" w.env w.drawn;
  created_at = w.env.clock w.ticks;
}

unfoldable pub create_project : String → String → Exec Project
create_project workspace_id name = do
  made ← new_entity (project_at workspace_id name)
  project ← add projects made
  sync
  pure project

abbrev target_at : String → String → String → String → List String → Bool → World → Target
target_at workspace_id project_id name url excludes allow_private_networks w = record {
  workspace_id = workspace_id;
  project_id = project_id;
  name = name;
  url = url;
  includes = [];
  excludes = excludes;
  allow_private_networks = allow_private_networks;
  id = next_id "tgt" w.env w.drawn;
  created_at = w.env.clock w.ticks;
}

unfoldable pub create_target : String → String → String → String → List String → Bool → Exec Target
create_target workspace_id project_id name url excludes allow_private_networks = do
  made ← new_entity (target_at workspace_id project_id name url excludes allow_private_networks)
  validate_target_scope made
  target ← add targets made
  sync
  pure target

abbrev profile_at : String → String → String → String → World → ModelProfile
profile_at workspace_id name model api_base w = record {
  workspace_id = workspace_id;
  name = name;
  model = model;
  api_base = api_base;
  timeout_seconds = pos 60;
  id = next_id "llm" w.env w.drawn;
  created_at = w.env.clock w.ticks;
}

unfoldable pub create_profile : String → String → String → String → Exec ModelProfile
create_profile workspace_id name model api_base = do
  blank ← asks (λ env. env.strip model == "")
  raise_if blank (value_error "model is required")
  raise_if (not (starts_with api_base "http://" || starts_with api_base "https://"))
      (value_error "api_base must be an HTTP URL")
  made ← new_entity (profile_at workspace_id name model api_base)
  profile ← add model_profiles made
  sync
  pure profile

unfoldable pub test_profile : String → Exec Payload
test_profile profile_id = do
  profile ← get model_profiles profile_id "model profile"
  pure (
      Payload.field "ok" (Value.bool true) (
        Payload.field "profile_id" (Value.str profile.id) (
          Payload.field "route" (Value.str profile.api_base) (
            Payload.field "model" (Value.str profile.model) (
              text_field "message"
                "Profile shape is valid; live LiteLLM call is performed by deployment integration tests.")))))
