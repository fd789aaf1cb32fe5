-- ===== src/Models/Scanning.antt =====
-- Projects, targets, scans, and what a scan produces: dataclasses of
-- apps/api/kerislab/models.py, field by field. What a default factory fills in is filled in by
-- the service that makes the record.
use kerislab.Prelude.{String, Option, List, Bool}
use kerislab.Prelude.Int.{ℤ}
use kerislab.Models.Payload.{Time, Payload}
use kerislab.Models.Status.{
  ScanType, ScanStatus, BrowserExecutionStatus, FindingStatus, VerificationStatus, ApprovalStatus,
}

pub record ModelProfile : Type 0 where
  pub workspace_id : String
  pub name : String
  pub model : String
  pub api_base : String
  pub timeout_seconds : ℤ
  pub id : String
  pub created_at : Time

pub record Project : Type 0 where
  pub workspace_id : String
  pub name : String
  pub id : String
  pub created_at : Time

pub record Target : Type 0 where
  pub workspace_id : String
  pub project_id : String
  pub name : String
  pub url : String
  pub includes : List String
  pub excludes : List String
  pub allow_private_networks : Bool
  pub id : String
  pub created_at : Time

pub record Scan : Type 0 where
  pub workspace_id : String
  pub project_id : String
  pub target_id : String
  pub scan_type : ScanType
  pub model_profile_id : String
  pub status : ScanStatus
  pub autonomy_level : String
  pub instructions : String
  pub id : String
  pub created_at : Time
  pub completed_at : Option Time

pub record ScanEvent : Type 0 where
  pub scan_id : String
  pub type : String
  pub summary : String
  pub payload : Payload
  pub id : String
  pub created_at : Time

pub record AgentPlan : Type 0 where
  pub scan_id : String
  pub phases : List String
  pub current_phase : String
  pub objective : String
  pub id : String
  pub created_at : Time
  pub updated_at : Time

pub record BrowserAction : Type 0 where
  pub action_type : String
  pub selector : String
  pub description : String
  pub value : Option String
  pub requires_approval : Bool
  pub id : String

pub record BrowserPlan : Type 0 where
  pub scan_id : String
  pub target_url : String
  pub engine : String
  pub actions : List BrowserAction
  pub id : String
  pub created_at : Time

pub record BrowserExecution : Type 0 where
  pub scan_id : String
  pub browser_plan_id : String
  pub engine : String
  pub status : BrowserExecutionStatus
  pub result : Payload
  pub error : String
  pub id : String
  pub started_at : Time
  pub completed_at : Option Time

pub record EvidenceArtifact : Type 0 where
  pub scan_id : String
  pub artifact_type : String
  pub uri : String
  pub summary : String
  pub content_type : String
  pub content : String
  pub browser_execution_id : Option String
  pub finding_id : Option String
  pub metadata : Payload
  pub id : String
  pub created_at : Time

pub record ApprovalRequest : Type 0 where
  pub workspace_id : String
  pub scan_id : String
  pub requested_by_agent : String
  pub risk_category : String
  pub target : String
  pub proposed_tool : String
  pub proposed_action : String
  pub reason : String
  pub expected_evidence : String
  pub policy_reason : String
  pub status : ApprovalStatus
  pub resolved_by : Option String
  pub operator_note : String
  pub id : String
  pub requested_at : Time
  pub resolved_at : Option Time

pub record Finding : Type 0 where
  pub scan_id : String
  pub title : String
  pub severity : String
  pub affected_asset : String
  pub evidence_refs : List String
  pub status : FindingStatus
  pub verification_status : VerificationStatus
  pub id : String
  pub created_at : Time

pub record Report : Type 0 where
  pub workspace_id : String
  pub project_id : String
  pub scan_id : String
  pub title : String
  pub format : String
  pub content : Payload
  pub id : String
  pub created_at : Time
