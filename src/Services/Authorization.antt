-- ===== src/Services/Authorization.antt =====
-- `AuthorizationService` of apps/api/kerislab/services.py: memberships of workspaces and their roles.
pub mod Decision
use kerislab.Models.Status.{Role}
use kerislab.Prelude.{
  Bool, String, List, Option, ◌==◌, first, ◌&&◌, not, any, concat, ◌∷◌, join, sorted_set, map, [],
}
use kerislab.Store.State.{Store}
use kerislab.Exec.{Exec, ◌>>=◌, gets, get, ◌>>◌, or_raise, raise_if, pure, authorization_error}
use kerislab.Models.Values.{role_value}
use kerislab.Models.Scanning.{Scan}
use kerislab.Models.Identity.{WorkspaceMembership}
use kerislab.Dict.{values}
use kerislab.Store.Collections.{scans}

unfoldable pub same_role : Role → Role → Bool
same_role a b = role_value a == role_value b

-- `workspace_membership`: the first membership of the user in the workspace
unfoldable pub workspace_membership : String → String → Store → Option WorkspaceMembership
workspace_membership user_id workspace_id s =
    first (λ m. m.user_id == user_id && m.workspace_id == workspace_id) (values s.memberships)

unfoldable pub require_workspace_member : String → String → Exec WorkspaceMembership
require_workspace_member user_id workspace_id = do
  membership ← gets (workspace_membership user_id workspace_id)
  or_raise membership (authorization_error "user is not a member of this workspace")

-- The set of roles is a list: only membership in it, and its sorted values, are asked for.
unfoldable pub require_workspace_role : String → String → List Role → Exec WorkspaceMembership
require_workspace_role user_id workspace_id allowed_roles = do
  membership ← require_workspace_member user_id workspace_id
  raise_if (not (any (same_role membership.role) allowed_roles)) (
      authorization_error (
        concat (
          "workspace role must be one of: "
          ∷ join ", " (sorted_set (map role_value allowed_roles))
          ∷ [])))
  pure membership

unfoldable pub require_scan_access : String → String → Exec Scan
require_scan_access user_id scan_id = do
  scan ← get scans scan_id "scan"
  require_workspace_member user_id scan.workspace_id
  pure scan
