-- ===== src/Services/Audit.antt =====
-- `AuditService` of apps/api/kerislab/services.py.
use kerislab.Models.Status.{AuditAction}
use kerislab.Prelude.{
  Option, String, none, ◌++◌, ◌∷◌, [], List, Bool, false, some, sorted_by, ◌==◌, if◌then◌else◌,
  select,
}
use kerislab.Exec.{World, Exec, next_id, ◌>>=◌, new_entity, ◌>>◌, modify, sync, pure, gets}
use kerislab.Models.Running.{AuditLog}
use kerislab.Models.Payload.{Payload}
use kerislab.Models.Values.{audit_action_value}

-- What a call of `record` may name beside the action.
pub record Subject : Type 0 where
  pub actor_user_id : Option String
  pub workspace_id : Option String
  pub project_id : Option String
  pub target_id : Option String
  pub scan_id : Option String
  pub approval_id : Option String
  pub report_id : Option String
  pub details : Payload

-- the defaults of the keyword arguments
abbrev pub by_actor : Option String → Subject
by_actor actor = record {
  actor_user_id = actor;
  workspace_id = none;
  project_id = none;
  target_id = none;
  scan_id = none;
  approval_id = none;
  report_id = none;
  details = Payload.end;
}

-- `AuditLog(...)` in the given world
abbrev audit_at : AuditAction → Subject → World → AuditLog
audit_at action subject w = record {
  action = action;
  actor_user_id = subject.actor_user_id;
  workspace_id = subject.workspace_id;
  project_id = subject.project_id;
  target_id = subject.target_id;
  scan_id = subject.scan_id;
  approval_id = subject.approval_id;
  report_id = subject.report_id;
  details = subject.details;
  id = next_id "aud" w.env w.drawn;
  created_at = w.env.clock w.ticks;
}

-- `record`
unfoldable pub log : AuditAction → Subject → Exec AuditLog
log action subject = do
  entry ← new_entity (audit_at action subject)
  modify (λ s. record s { audit_logs = s.audit_logs ++ entry ∷ [] })
  sync
  pure entry

same_text : String → Option String → Bool
same_text text none = false
same_text text (some other) = other == text

-- a filter of `list`, which None and the empty text turn off
kept_by : (AuditLog → String → Bool) → Option String → List AuditLog → List AuditLog
kept_by test none entries = entries
kept_by test (some text) entries =
    if text == "" then entries else select (λ entry. test entry text) entries

-- `list`
unfoldable pub list_logs : Option String → Option String → Option String → Exec (List AuditLog)
unfolding kept_by same_text
list_logs workspace_id actor_user_id action = do
  entries ← gets (λ s. s.audit_logs)
  let of_workspace : List AuditLog =
      kept_by (λ entry text. same_text text entry.workspace_id) workspace_id entries
  let of_actor : List AuditLog =
      kept_by (λ entry text. same_text text entry.actor_user_id) actor_user_id of_workspace
  pure (
      sorted_by (λ entry. entry.created_at)
        (kept_by (λ entry text. audit_action_value entry.action == text) action of_actor))
