-- ===== src/Http/Execution.antt =====
-- The handlers of jobs and of the audit log in apps/api/kerislab/main.py. Queue and drain are those of
-- the engine of the process.
use kerislab.Prelude.{
  Option, String, List, Bool, true, some, ◌∷◌, if◌then◌else◌, none, ◌==◌, select, [],
}
use kerislab.Exec.{Exec, pure, ◌>>=◌, ◌>>◌, gets, at}
use kerislab.Store.State.{Store}
use kerislab.Models.Running.{AuditLog, ScanJob}
use kerislab.Http.{in_workspaces, require_workspace_access}
use kerislab.Services.Audit.{list_logs}
use kerislab.Services.Engine.{drain, pending_jobs}
use kerislab.Dict.{values}
use kerislab.Store.Collections.{scans}

-- `[j for j in jobs if store.scans[j.scan_id].workspace_id in workspace_ids]`
unfoldable pub own_jobs : String → List ScanJob → Exec (List ScanJob)
own_jobs user_id [] = pure []
own_jobs user_id (job ∷ jobs) = do
  scan ← at scans job.scan_id
  own ← gets (λ s. in_workspaces user_id s scan.workspace_id)
  rest ← own_jobs user_id jobs
  pure (if own then job ∷ rest else rest)

unfoldable pub execution_jobs : String → Exec (List ScanJob × List ScanJob)
unfolding own_jobs
execution_jobs user_id = do
  stored ← gets (λ s. values s.scan_jobs)
  jobs ← own_jobs user_id stored
  unfinished ← pending_jobs
  pending ← own_jobs user_id unfinished
  pure (jobs, pending)

unfoldable pub drain_execution_jobs : String → Exec (List ScanJob)
unfolding own_jobs
drain_execution_jobs user_id = do
  drain
  stored ← gets (λ s. values s.scan_jobs)
  own_jobs user_id stored

-- `entry.workspace_id is None or entry.workspace_id in workspace_ids`
abbrev is_visible : String → Store → Option String → Bool
is_visible user_id s none = true
is_visible user_id s (some workspace_id) = in_workspaces user_id s workspace_id

logs_of_workspace : String → Option String → Option String → String → Exec (List AuditLog)
logs_of_workspace workspace_id actor_user_id action user_id = do
  require_workspace_access user_id workspace_id
  list_logs (some workspace_id) actor_user_id action

own_logs : Option String → Option String → String → Exec (List AuditLog)
own_logs actor_user_id action user_id = do
  entries ← list_logs none actor_user_id action
  gets (λ s. select (λ entry. is_visible user_id s entry.workspace_id) entries)

unfoldable pub audit_logs_endpoint :
    Option String → Option String → Option String → String → Exec (List AuditLog)
unfolding logs_of_workspace own_logs
audit_logs_endpoint none actor_user_id action user_id = own_logs actor_user_id action user_id
audit_logs_endpoint (some workspace_id) actor_user_id action user_id =
    if workspace_id == ""
    then own_logs actor_user_id action user_id
    else logs_of_workspace workspace_id actor_user_id action user_id
