-- ===== src/Models/Identity.antt =====
-- Users, sessions, OAuth states, workspaces and memberships: dataclasses of
-- apps/api/kerislab/models.py, field by field. What a default factory fills in is filled in by
-- the service that makes the record.
use kerislab.Prelude.{String, Option, List, Bool}
use kerislab.Models.Payload.{Time}
use kerislab.Models.Status.{Role, AuthProvider}

pub record User : Type 0 where
  pub email : String
  pub display_name : String
  pub provider : AuthProvider
  pub avatar_url : Option String
  pub id : String
  pub created_at : Time

pub record UserSettings : Type 0 where
  pub user_id : String
  pub default_workspace_id : Option String
  pub theme : String
  pub timezone : String
  pub notifications_enabled : Bool

pub record UserSession : Type 0 where
  pub user_id : String
  pub token : String
  pub auth_provider : AuthProvider
  pub user_agent : Option String
  pub ip_address : Option String
  pub id : String
  pub created_at : Time
  pub expires_at : Time
  pub revoked_at : Option Time
  pub last_seen_at : Option Time

pub record OAuthState : Type 0 where
  pub provider : AuthProvider
  pub state : String
  pub nonce : String
  pub redirect_uri : String
  pub consumed_at : Option Time
  pub id : String
  pub created_at : Time

pub record Workspace : Type 0 where
  pub name : String
  pub allowed_domains : List String
  pub id : String
  pub created_at : Time

pub record WorkspaceMembership : Type 0 where
  pub workspace_id : String
  pub user_id : String
  pub role : Role
  pub id : String
