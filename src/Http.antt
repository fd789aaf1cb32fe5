-- ===== src/Http.antt =====
-- apps/api/kerislab/main.py: the HTTP interface. A handler takes what FastAPI hands to it (the user that
-- `current_user_id` has found, path parameters, the fields of the body that pydantic has checked)
-- and returns the entities that it serializes into its answer; `serialize` only turns them into
-- dictionaries. An exception that leaves a handler is the answer: `http_exception` with its status,
-- any other as an internal error. A handler that has the name of a service's method carries
-- `_endpoint` behind it.
pub mod Scans
pub mod Approvals
pub mod Billing
pub mod Projects
pub mod Workspaces
pub mod Execution
pub mod Reports
pub mod Identity
pub mod Keeps
pub mod Outsiders
pub mod Callers
pub mod Deciders
pub mod Signatures
use kerislab.Prelude.{
  List, String, Option, some, Bool, if◌then◌else◌, ◌∷◌, any, [], partition_head, ◌==◌,
  partition_tail, ◌&&◌, none, not, ◌||◌,
}
use kerislab.Exec.{
  Error, Exec, raise, not_found, http_exception, Result, ◌>>=◌, ◌>>◌, ok, authorization_error,
  raise_if, asks, message, pure, err, oauth_configuration_error, gets, oauth_state_error,
  approval_error, billing_error, credit_error, scope_error, evidence_storage_error, value_error,
  key_error, runner_error, stop_iteration,
}
use kerislab.Store.State.{Store}
use kerislab.Models.Status.{Role}
use kerislab.Services.Authorization.{require_workspace_member, require_workspace_role}
use kerislab.Services.Sessions.{user_for_session_token}
use kerislab.Dict.{contains, values}

-- The two headers that say who calls.
pub record Caller : Type 0 where
  pub authorization : Option String
  pub x_kerislab_user : Option String

-- What `handle_error` raises for an exception. All of the service's exceptions are `ValueError`s.
unfoldable pub handle_error : Error → Error
handle_error (not_found text) = http_exception 404 text
handle_error (authorization_error text) = http_exception 403 text
handle_error (oauth_configuration_error text) = http_exception 400 text
handle_error (oauth_state_error text) = http_exception 400 text
handle_error (approval_error text) = http_exception 400 text
handle_error (billing_error text) = http_exception 400 text
handle_error (credit_error text) = http_exception 400 text
handle_error (scope_error text) = http_exception 400 text
handle_error (evidence_storage_error text) = http_exception 400 text
handle_error (value_error text) = http_exception 400 text
handle_error (key_error key) = key_error key
handle_error (runner_error text) = runner_error text
handle_error (http_exception status_code detail) = http_exception status_code detail
handle_error stop_iteration = stop_iteration

module _ {A : Type 0} where
  abbrev pub map_error : (Error → Error) → Result A → Result A
  map_error f (ok a) = ok a
  map_error f (err e) = err (f e)

  -- `try: ... except Exception as exc: raise f(exc)`
  abbrev pub except_raise : (Error → Error) → Exec A → Exec A
  except_raise f m w = let (r, w') = m w in (map_error f r, w')

  -- `try: ... except Exception as exc: handle_error(exc)`
  abbrev pub handled : Exec A → Exec A
  handled = except_raise handle_error

abbrev pub unauthorized : Error → Error
unauthorized e = http_exception 401 (message e)

abbrev invalid_header : Error
invalid_header = http_exception 401 "Invalid Authorization header"

-- The token of an `Authorization` header: `scheme.lower() != "bearer" or not token`.
unfoldable pub bearer_token : String → Exec String
bearer_token authorization = do
  scheme ← asks (λ env. env.lower (partition_head " " authorization))
  let token : String = partition_tail " " authorization
  raise_if (not (scheme == "bearer") || token == "") invalid_header
  pure token

by_token : String → Exec String
by_token authorization = do
  token ← bearer_token authorization
  user ← except_raise unauthorized (user_for_session_token token)
  pure user.id

by_header : Option String → Exec String
by_header none = raise (http_exception 401 "Missing bearer token or X-KerisLab-User header")
by_header (some user_id) = do
  raise_if (user_id == "") (http_exception 401 "Missing bearer token or X-KerisLab-User header")
  known ← gets (λ s. contains user_id s.users)
  raise_if (not known) (http_exception 401 "Unknown user")
  pure user_id

by_headers : Option String → Option String → Exec String
unfolding by_token by_header
by_headers none x_kerislab_user = by_header x_kerislab_user
by_headers (some authorization) x_kerislab_user =
    if authorization == "" then by_header x_kerislab_user else by_token authorization

unfoldable pub current_user_id : Caller → Exec String
unfolding by_headers
current_user_id caller = by_headers caller.authorization caller.x_kerislab_user

unfoldable pub require_workspace_access : String → String → Exec Unit
require_workspace_access user_id workspace_id = do
  handled (require_workspace_member user_id workspace_id)
  pure tt

unfoldable pub require_role : String → String → List Role → Exec Unit
require_role user_id workspace_id allowed_roles = do
  handled (require_workspace_role user_id workspace_id allowed_roles)
  pure tt

abbrev pub workspace_admin_roles : List Role
workspace_admin_roles = Role.owner ∷ Role.admin ∷ []

abbrev pub workspace_security_roles : List Role
workspace_security_roles = Role.owner ∷ Role.admin ∷ Role.security_lead ∷ []

-- `workspace_id in {m.workspace_id for m in store.memberships.values() if m.user_id == user_id}`
abbrev pub in_workspaces : String → Store → String → Bool
in_workspaces user_id s workspace_id =
    any (λ m. m.user_id == user_id && m.workspace_id == workspace_id) (values s.memberships)
