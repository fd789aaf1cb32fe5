-- ===== src/Http/Keeps/Entities.antt =====
-- The books behind the handlers of workspaces, projects, targets, model profiles, jobs and reports in
-- apps/api/kerislab/main.py.
use kerislab.Services.Bystanders.{
  Kept, then-Kept, at-Kept, get-Kept, generate_json_report-Kept, create_target-Kept,
  create_profile-Kept, test_profile-Kept,
}
use kerislab.Http.Projects.{
  create_target_endpoint, test_model_profile, create_model_profile, TargetCreate,
  ModelProfileCreate,
}
use kerislab.Http.Reports.{report_for, create_report, report_logged}
use kerislab.Http.Workspaces.{create_workspace_endpoint, set_timezone, set_theme, update_me}
use kerislab.Http.Execution.{own_jobs, drain_execution_jobs}
use kerislab.Prelude.{String, Option, List, some, ◌∷◌, none, []}
use kerislab.Models.Payload.{Payload, Value}
use kerislab.Exec.{World, get, at}
use kerislab.Prelude.Int.{ℤ}
use kerislab.Dynamic.{payload_get, text_of}
use kerislab.Models.Running.{ScanJob}
use kerislab.Services.Bystanders.Workspaces.{FreshWorkspace, create_workspace-Kept}
use kerislab.Models.Identity.{UserSettings}
use kerislab.Http.{require_workspace_access, require_role, workspace_security_roles}
use kerislab.Services.Engine.{drain}
use kerislab.Services.Authorization.{require_scan_access}
use kerislab.Http.Keeps.{behind-Kept, access-Kept, scan_access-Kept, role-Kept, at-world}
use kerislab.Store.Collections.{users, model_profiles, user_settings, scans, credit_accounts}
use kerislab.Services.Bystanders.Engine.{text_of-Kept, drain-Kept}
use kerislab.Services.Workspaces.{create_target, test_profile, create_profile, create_workspace}
use kerislab.Services.Reports.{generate_json_report}
use kerislab.Http.Keeps.Rest.{logging}

set_theme-Kept :
    (o : Option Value) (settings : UserSettings) (w : World)
    → Kept w
    → Kept (set_theme o settings w).1
unfolding set_theme
set_theme-Kept none settings w b = b
set_theme-Kept (some value) settings w b =
    then-Kept (text_of value w) _ (text_of-Kept value w b) (λ _ v h. h)

set_timezone-Kept :
    (o : Option Value) (settings : UserSettings) (w : World)
    → Kept w
    → Kept (set_timezone o settings w).1
unfolding set_timezone
set_timezone-Kept none settings w b = b
set_timezone-Kept (some value) settings w b =
    then-Kept (text_of value w) _ (text_of-Kept value w b) (λ _ v h. h)

pub update_me-Kept :
    (payload : Payload) (user_id : String) (w : World)
    → Kept w
    → Kept (update_me payload user_id w).1
unfolding update_me
update_me-Kept payload user_id w b =
    let theme : Option Value = payload_get "theme" payload in
    let timezone : Option Value = payload_get "timezone" payload in
    then-Kept (at user_settings user_id w) _ (at-Kept user_settings user_id w b) λ settings v h.
      then-Kept (set_theme theme settings v) _ (set_theme-Kept theme settings v h) λ themed u k.
        then-Kept (set_timezone timezone themed u) _ (set_timezone-Kept timezone themed u k)
          λ zoned t l. logging _ _ _ _ l (λ _ q m. m)

pub create_workspace_endpoint-Kept :
    (name : String) (initial_credits : ℤ) (user_id : String) (w : World)
    → FreshWorkspace w
    → Kept w
    → Kept (create_workspace_endpoint name initial_credits user_id w).1
unfolding create_workspace_endpoint
create_workspace_endpoint-Kept name initial_credits user_id w fresh b =
    behind-Kept (at users user_id w) _ w (at-world users user_id w) b λ owner.
      then-Kept (create_workspace name owner initial_credits w) _
        (create_workspace-Kept name owner initial_credits w fresh b)
        λ workspace v h.
          then-Kept (at credit_accounts workspace.id v) _ (at-Kept credit_accounts workspace.id v h)
            (λ _ u k. k)

pub create_model_profile-Kept :
    (payload : ModelProfileCreate) (user_id : String) (w : World)
    → Kept w
    → Kept (create_model_profile payload user_id w).1
unfolding create_model_profile
create_model_profile-Kept payload user_id w b =
    then-Kept (require_role user_id payload.workspace_id workspace_security_roles w) _
      (role-Kept user_id payload.workspace_id workspace_security_roles w b)
      λ _ v h.
        then-Kept
          (create_profile payload.workspace_id payload.name payload.model payload.api_base v) _
          (create_profile-Kept payload.workspace_id payload.name payload.model payload.api_base v h)
          λ _ u k. logging _ _ _ u k (λ _ t l. l)

pub test_model_profile-Kept :
    (profile_id user_id : String) (w : World)
    → Kept w
    → Kept (test_model_profile profile_id user_id w).1
unfolding test_model_profile
test_model_profile-Kept profile_id user_id w b =
    then-Kept (get model_profiles profile_id _ w) _ (get-Kept model_profiles profile_id _ w b)
      λ profile v h.
        then-Kept (require_role user_id profile.workspace_id workspace_security_roles v) _
          (role-Kept user_id profile.workspace_id workspace_security_roles v h)
          λ _ u k.
            then-Kept (test_profile profile_id u) _ (test_profile-Kept profile_id u k)
              λ _ t l. logging _ _ _ t l (λ _ q m. m)

pub create_target_endpoint-Kept :
    (payload : TargetCreate) (user_id : String) (w : World)
    → Kept w
    → Kept (create_target_endpoint payload user_id w).1
unfolding create_target_endpoint
create_target_endpoint-Kept payload user_id w b =
    then-Kept (require_workspace_access user_id payload.workspace_id w) _
      (access-Kept user_id payload.workspace_id w b)
      λ _ v h.
        then-Kept
          (create_target payload.workspace_id payload.project_id payload.name payload.url
            payload.excludes payload.allow_private_networks v)
          _
          (create_target-Kept payload.workspace_id payload.project_id payload.name payload.url
            payload.excludes payload.allow_private_networks v h)
          λ _ u k. logging _ _ _ u k (λ _ t l. l)

own_jobs-Kept :
    (user_id : String) (jobs : List ScanJob) (w : World) → Kept w → Kept (own_jobs user_id jobs w).1
unfolding own_jobs
own_jobs-Kept user_id [] w b = b
own_jobs-Kept user_id (job ∷ jobs) w b =
    then-Kept (at scans job.scan_id w) _ (at-Kept scans job.scan_id w b) λ scan v h.
      then-Kept (own_jobs user_id jobs v) _ (own_jobs-Kept user_id jobs v h) (λ _ u k. k)

pub drain_execution_jobs-Kept :
    (user_id : String) (w : World) → Kept w → Kept (drain_execution_jobs user_id w).1
unfolding drain_execution_jobs
drain_execution_jobs-Kept user_id w b =
    then-Kept (drain w) _ (drain-Kept w b) (λ _ v h. own_jobs-Kept user_id _ v h)

report_for-Kept :
    (scan_id : Option String) (user_id : String) (w : World)
    → Kept w
    → Kept (report_for scan_id user_id w).1
unfolding report_for report_logged
report_for-Kept none user_id w b = b
report_for-Kept (some scan_id) user_id w b =
    then-Kept (require_scan_access user_id scan_id w) _ (scan_access-Kept user_id scan_id w b)
      λ scan v h.
        then-Kept (generate_json_report scan_id v) _ (generate_json_report-Kept scan_id v h)
          λ report u k. logging _ _ _ u k (λ _ t l. l)

pub create_report-Kept :
    (scan_id : Option String) (user_id : String) (w : World)
    → Kept w
    → Kept (create_report scan_id user_id w).1
unfolding create_report
create_report-Kept scan_id user_id w b = report_for-Kept scan_id user_id w b
