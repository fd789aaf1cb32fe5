-- ===== src/Services/Bystanders/Identity.antt =====
-- The books behind logins, sessions and OAuth states (apps/api/kerislab/services.py).
use kerislab.Prelude.{
  String, List, Option, Option-cases, ◌∷◌, Bool-cases, some, partition_tail, none, inl, ◌&&◌, ◌==◌,
  inr, not, leb, [],
}
use kerislab.Services.Sessions.{
  user_for_session_token, create_state, consume_state, revoke_session_token, create_session,
  log_state, require_session, new_session, session_with, is_set,
}
use kerislab.Services.Auth.{
  join_workspace, login_found, join_all, login_identity, reconcile_domain_memberships,
  new_membership, log_login, set_default, allows, is_member,
}
use kerislab.Models.Identity.{User, UserSettings, Workspace}
use kerislab.Models.Status.{AuthProvider}
use kerislab.Exec.{World, at}
use kerislab.Services.Bystanders.{Kept, then-Kept, log-Kept, at-Kept, get-Kept}
use kerislab.Services.Audit.{log}
use kerislab.Dict.{lookup, values}
use kerislab.Store.Collections.{user_settings, users}
use kerislab.Models.Values.{same_auth_provider}

set_default-Kept :
    (user_id workspace_id : String) (settings : UserSettings) (o : Option String) (w : World)
    → Kept w
    → Kept (set_default user_id workspace_id settings o w).1
set_default-Kept user_id workspace_id settings none w b = b
set_default-Kept user_id workspace_id settings (some _) w b = b

join_workspace-Kept :
    (user : User) (domain : String) (workspace : Workspace) (w : World)
    → Kept w
    → Kept (join_workspace user domain workspace w).1
unfolding join_workspace new_membership
join_workspace-Kept user domain workspace w b =
    then-Kept (at user_settings user.id _) _ (at-Kept user_settings user.id _ b) λ settings v h.
      then-Kept (set_default user.id workspace.id settings settings.default_workspace_id v) _
        (set_default-Kept user.id workspace.id settings settings.default_workspace_id v h)
        λ _ u k. then-Kept (log _ _ u) _ (log-Kept _ _ u k) (λ _ t l. l)

join_all-Kept :
    (user : User) (domain : String) (workspaces : List Workspace) (w : World)
    → Kept w
    → Kept (join_all user domain workspaces w).1
unfolding join_all
join_all-Kept user domain [] w b = b
join_all-Kept user domain (workspace ∷ rest) w b =
    elim (Bool-cases
      (allows w.env domain workspace && not (is_member user.id workspace.id w.store))) [
        | inl joins ↦ rw joins (
            then-Kept (join_workspace user domain workspace w) _
              (join_workspace-Kept user domain workspace w b)
              λ _ v h.
                then-Kept (join_all user domain rest v) _ (join_all-Kept user domain rest v h)
                  (λ _ u k. k))
        | inr stays ↦ rw stays (join_all-Kept user domain rest w b)
      ]

reconcile-Kept : (user : User) (w : World) → Kept w → Kept (reconcile_domain_memberships user w).1
unfolding reconcile_domain_memberships
reconcile-Kept user w b = elim (Bool-cases (partition_tail "@" (w.env.lower user.email) == "")) [
  | inl e ↦ rw e b
  | inr e ↦ rw e (
      then-Kept (join_all user _ (values w.store.workspaces) w) _
        (join_all-Kept user _ (values w.store.workspaces) w b) (λ _ v h. h))
]

login_found-Kept :
    (email display_name : String) (provider : AuthProvider) (avatar_url : Option String)
    (o : Option User) (w : World)
    → Kept w
    → Kept (login_found email display_name provider avatar_url o w).1
unfolding login_found log_login
login_found-Kept email display_name provider avatar_url (some user) w b =
    then-Kept (log _ _ w) _ (log-Kept _ _ w b) λ _ v h.
      then-Kept (reconcile_domain_memberships user v) _ (reconcile-Kept user v h) (λ _ u k. k)
login_found-Kept email display_name provider avatar_url none w b =
    then-Kept (log _ _ _) _ (log-Kept _ _ _ b)
      λ _ v h. then-Kept (reconcile_domain_memberships _ v) _ (reconcile-Kept _ v h) (λ _ u k. k)

pub login_identity-Kept :
    (email display_name : String) (provider : AuthProvider) (avatar_url : Option String) (w : World)
    → Kept w
    → Kept (login_identity email display_name provider avatar_url w).1
unfolding login_identity
login_identity-Kept email display_name provider avatar_url w b =
    login_found-Kept email display_name provider avatar_url _ w b

pub create_session-Kept :
    (user : User) (user_agent ip_address : Option String) (w : World)
    → Kept w
    → Kept (create_session user user_agent ip_address w).1
unfolding create_session new_session
create_session-Kept user user_agent ip_address w b = b

pub user_for_session_token-Kept :
    (token : String) (w : World) → Kept w → Kept (user_for_session_token token w).1
unfolding user_for_session_token require_session
user_for_session_token-Kept token w b = elim (Option-cases (session_with token w.store)) [
  | inl e ↦ rw e b
  | inr ((key, session), e) ↦ elim (Bool-cases (is_set session.revoked_at)) [
    | inl revoked ↦ rw (e, revoked) b
    | inr open_ended ↦ elim (Bool-cases (leb session.expires_at (w.env.clock w.ticks))) [
      | inl expired ↦ rw (e, open_ended, expired) b
      | inr fresh ↦ rw (e, open_ended, fresh) (get-Kept users session.user_id _ _ b)
    ]
  ]
]

pub revoke_session_token-Kept :
    (token : String) (w : World) → Kept w → Kept (revoke_session_token token w).1
unfolding revoke_session_token require_session
revoke_session_token-Kept token w b = elim (Option-cases (session_with token w.store)) [
  | inl e ↦ rw e b
  | inr ((key, session), e) ↦ rw e b
]

pub create_state-Kept :
    (provider : AuthProvider) (state nonce redirect_uri : String) (w : World)
    → Kept w
    → Kept (create_state provider state nonce redirect_uri w).1
unfolding create_state log_state
create_state-Kept provider state nonce redirect_uri w b =
    then-Kept (log _ _ _) _ (log-Kept _ _ _ b) (λ _ v h. h)

pub consume_state-Kept :
    (provider : AuthProvider) (state : String) (w : World)
    → Kept w
    → Kept (consume_state provider state w).1
unfolding consume_state log_state
consume_state-Kept provider state w b = elim (Option-cases (lookup state w.store.oauth_states)) [
  | inl e ↦ rw e b
  | inr (o, e) ↦ elim (Bool-cases (same_auth_provider o.provider provider)) [
    | inr other ↦ rw (e, other) b
    | inl same ↦ elim (Bool-cases (is_set o.consumed_at)) [
      | inl used ↦ rw (e, same, used) b
      | inr unused ↦ rw (e, same, unused) (then-Kept (log _ _ _) _ (log-Kept _ _ _ b) (λ _ v h. h))
    ]
  ]
]
