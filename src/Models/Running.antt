-- ===== src/Models/Running.antt =====
-- Jobs of the execution engine, the audit log and worker heartbeats: dataclasses of
-- apps/api/kerislab/models.py, field by field. What a default factory fills in is filled in by
-- the service that makes the record.
use kerislab.Prelude.{String, Option}
use kerislab.Prelude.Int.{ℤ}
use kerislab.Models.Payload.{Time, Payload}
use kerislab.Models.Status.{ScanJobType, ScanJobStatus, AuditAction}

pub record ScanJob : Type 0 where
  pub scan_id : String
  pub job_type : ScanJobType
  pub status : ScanJobStatus
  pub payload : Payload
  pub attempts : ℤ
  pub id : String
  pub created_at : Time
  pub started_at : Option Time
  pub completed_at : Option Time
  pub error : String

pub record AuditLog : Type 0 where
  pub action : AuditAction
  pub actor_user_id : Option String
  pub workspace_id : Option String
  pub project_id : Option String
  pub target_id : Option String
  pub scan_id : Option String
  pub approval_id : Option String
  pub report_id : Option String
  pub details : Payload
  pub id : String
  pub created_at : Time

pub record WorkerHeartbeat : Type 0 where
  pub name : String
  pub queue_name : String
  pub status : String
  pub processed_jobs : ℤ
  pub error : String
  pub id : String
  pub started_at : Time
  pub last_seen_at : Time
