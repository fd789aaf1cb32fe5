-- ===== src/Examples/Access.antt =====
-- Runs of the checks of scope and roles, of approvals, jobs, OAuth states and session tokens.
use kerislab.Models.Running.{ScanJob, WorkerHeartbeat}
use kerislab.Dict.{lookup, find_entry, values, insert}
use kerislab.Models.Identity.{UserSession, WorkspaceMembership, OAuthState, User}
use kerislab.Exec.{returned, World, Error, err, ok, authorization_error, approval_error}
use kerislab.Models.Scanning.{Scan, ApprovalRequest}
use kerislab.Services.Engine.{execute}
use kerislab.Services.Autonomous.Approvals.{decide, to_reject, to_approve, decide-decide}
use kerislab.Services.Authorization.{
  require_scan_access, require_workspace_member, require_workspace_role, workspace_membership,
}
use kerislab.Services.Sessions.{
  revoke_session_token, consume_state, require_session, log_state, user_for_session_token,
  session_lifetime, session_with,
}
use kerislab.Examples.Sample.{in_world, sample_order, sample_store, sample_world}
use kerislab.Prelude.{◌⊎◌, Among, some, none, ◌∷◌, ◌≡◌, first, [], refl, arith, String, false}
use kerislab.Models.Status.{Role, ScanJobType, AuthProvider, ApprovalStatus, ScanJobStatus}
use kerislab.Services.Scans.Creation.{ordered}
use kerislab.Services.Audit.{log}
use kerislab.Models.Payload.{Payload}
use kerislab.Services.Authorization.Decision.{
  require_scan_access-member, FirstFor, require_workspace_role_lem,
}
use kerislab.Models.Values.{same_auth_provider}
use kerislab.Services.Sessions.Once.{
  consume_state-consume_state, user_for_session_token-revoke_session_token,
}
use kerislab.Services.Engine.Once.{execute-execute}
use kerislab.Prelude.Int.{pos}
use kerislab.Services.Workers.{Components, heartbeat, components, or_new_worker}
use kerislab.Services.Workers.Alive.{components-heartbeat}
use kerislab.Services.Sessions.Validity.{Valid, user_for_session_token-Valid}

abbrev pub sample_membership : WorkspaceMembership
sample_membership = record {
  workspace_id = "wsp";
  user_id = "usr";
  role = Role.developer;
  id = "mem";
}

abbrev pub sample_scan : Scan
sample_scan = record (ordered sample_order sample_world) { id = "scn" }

abbrev pub sample_request : ApprovalRequest
sample_request = record {
  workspace_id = "wsp";
  scan_id = "scn";
  requested_by_agent = "dast-agent";
  risk_category = "file_upload_verification";
  target = "https://example.com/app";
  proposed_tool = "http.request.replay";
  proposed_action = "upload";
  reason = "upload endpoint";
  expected_evidence = "transcript";
  policy_reason = "guarded";
  status = ApprovalStatus.pending;
  resolved_by = none;
  operator_note = "";
  id = "apr";
  requested_at = 0;
  resolved_at = none;
}

abbrev sample_job : ScanJob
sample_job = record {
  scan_id = "scn";
  job_type = ScanJobType.passive_scan;
  status = ScanJobStatus.queued;
  payload = Payload.end;
  attempts = pos 0;
  id = "job";
  created_at = 0;
  started_at = none;
  completed_at = none;
  error = "";
}

abbrev sample_state : OAuthState
sample_state = record {
  provider = AuthProvider.google;
  state = "state";
  nonce = "nonce";
  redirect_uri = "https://app.example.com/callback";
  consumed_at = none;
  id = "oas";
  created_at = 0;
}

abbrev sample_session : UserSession
sample_session = record {
  user_id = "usr";
  token = "token";
  auth_provider = AuthProvider.google;
  user_agent = none;
  ip_address = none;
  id = "ses";
  created_at = 0;
  expires_at = session_lifetime;
  revoked_at = none;
  last_seen_at = none;
}

abbrev pub sample_user : User
sample_user = record {
  email = "a@example.com";
  display_name = "A";
  provider = AuthProvider.google;
  avatar_url = none;
  id = "usr";
  created_at = 0;
}

abbrev pub busy_world : World
busy_world = in_world (record sample_store {
  users = ("usr", sample_user) ∷ [];
  memberships = ("mem", sample_membership) ∷ [];
  scans = ("scn", sample_scan) ∷ [];
  approval_requests = ("apr", sample_request) ∷ [];
  scan_jobs = ("job", sample_job) ∷ [];
  oauth_states = ("state", sample_state) ∷ [];
  user_sessions = ("ses", sample_session) ∷ [];
})

require_workspace_role_lem_example :
    (((m : WorkspaceMembership) × ((require_workspace_role "usr" "wsp"
            (Role.owner ∷ [])
            busy_world).0
          ≡ ok m)
        × FirstFor "usr" "wsp" m (values busy_world.store.memberships)
        × Among m.role (Role.owner ∷ []))
      ⊎ ((returned (require_workspace_role "usr" "wsp" (Role.owner ∷ []) busy_world).0 ≡ false)
          × ¬ (
              (m : WorkspaceMembership) × FirstFor "usr" "wsp" m
                (values busy_world.store.memberships)
              × Among m.role (Role.owner ∷ []))))
    × ((require_workspace_role "usr" "wsp" (Role.owner ∷ []) busy_world).1 ≡ busy_world)
require_workspace_role_lem_example =
    require_workspace_role_lem "usr" "wsp" (Role.owner ∷ []) busy_world

access-granted : (require_scan_access "usr" "scn" busy_world).0 ≡ ok sample_scan
unfolding require_scan_access require_workspace_member workspace_membership lookup first values
access-granted = refl

require_scan_access-member_example :
    (lookup "scn" busy_world.store.scans ≡ some sample_scan)
    × ((m : WorkspaceMembership) × (workspace_membership "usr" "wsp" busy_world.store ≡ some m)
        × (m.user_id ≡ "usr")
        × (m.workspace_id ≡ "wsp"))
require_scan_access-member_example =
    require_scan_access-member "usr" "scn" sample_scan busy_world access-granted

pub request-found : lookup "apr" busy_world.store.approval_requests ≡ some sample_request
unfolding lookup
request-found = refl

decide-decide_example :
    let v = (decide to_reject "apr" "usr" "no" busy_world).1 in
    decide to_approve "apr" "other" "yes" v
    ≡ (err (approval_error "approval request has already been resolved"), v)
decide-decide_example =
    decide-decide to_reject to_approve "apr" "usr" "other" "no" "yes" sample_request busy_world
      request-found

job-found : lookup "job" busy_world.store.scan_jobs ≡ some sample_job
unfolding lookup
job-found = refl

execute-execute_example : let v = (execute "job" busy_world).1 in execute "job" v ≡ (ok tt, v)
execute-execute_example = execute-execute "job" sample_job busy_world job-found

abbrev consumed_state : OAuthState
consumed_state = record sample_state { consumed_at = some 0 }

state-consumed : (consume_state AuthProvider.google "state" busy_world).0 ≡ ok consumed_state
unfolding consume_state lookup log_state log same_auth_provider
state-consumed = refl

consume_state-consume_state_example :
    let v = (consume_state AuthProvider.google "state" busy_world).1 in
    (e : Error) × (consume_state AuthProvider.sso "state" v ≡ (err e, v))
consume_state-consume_state_example =
    consume_state-consume_state AuthProvider.google AuthProvider.sso "state" consumed_state
      busy_world state-consumed

abbrev revoked_session : UserSession
revoked_session = record sample_session { revoked_at = some 0 }

session-revoked : (revoke_session_token "token" busy_world).0 ≡ ok revoked_session
unfolding revoke_session_token require_session find_entry
session-revoked = refl

user_for_session_token-revoke_session_token_example :
    let v = (revoke_session_token "token" busy_world).1 in
    ((user_for_session_token "token" v).0
      ≡ err (authorization_error "session token has been revoked"))
    × ((user_for_session_token "token" v).1.store ≡ v.store)
user_for_session_token-revoke_session_token_example =
    user_for_session_token-revoke_session_token "token" revoked_session busy_world session-revoked

abbrev sample_beat : WorkerHeartbeat
sample_beat = record {
  name = "worker";
  queue_name = "scans";
  status = "running";
  processed_jobs = pos 4;
  error = "";
  id = "wrk";
  started_at = 0;
  last_seen_at = 2;
}

abbrev beaten_world : World
beaten_world = record sample_world {
  store = record sample_store { worker_heartbeats = ("wrk", sample_beat) ∷ [] };
  ticks = 3;
}

sample-beats :
    heartbeat "wrk" "worker" "scans" (pos 4) "running" "" sample_world
    ≡ (ok sample_beat, beaten_world)
unfolding heartbeat or_new_worker lookup insert
sample-beats = refl

components-heartbeat_example :
    (c : Components) × ((components 90 beaten_world).0 ≡ ok c) × (c.status ≡ "ok")
components-heartbeat_example =
    components-heartbeat "wrk" "worker" "scans" "" (pos 4) 90 sample_world beaten_world sample_beat
      sample-beats (omega arith)

token-accepted : (user_for_session_token "token" busy_world).0 ≡ ok sample_user
unfolding user_for_session_token require_session find_entry lookup
token-accepted = refl

user_for_session_token-Valid_example :
    (key : String) × (session : UserSession) × (session_with "token" busy_world.store
      ≡ some (key, session))
    × (session.token ≡ "token")
    × Valid session 0
    × (lookup session.user_id busy_world.store.users ≡ some sample_user)
user_for_session_token-Valid_example =
    user_for_session_token-Valid "token" sample_user busy_world token-accepted
