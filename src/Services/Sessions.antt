-- ===== src/Services/Sessions.antt =====
-- The sessions of `AuthService` (apps/api/kerislab/services.py) and `OAuthStateService`: tokens and
-- OAuth states, which are good for a time, and once. A session found by its token is the object in
-- the store, so what is assigned to it is written back under its key.
pub mod Once
pub mod Validity
use kerislab.Models.Status.{AuthProvider, AuditAction}
use kerislab.Prelude.{Option, ℕ, String, ◌*◌, Bool, none, false, some, ◌==◌, true, leb, not, ◌+◌}
use kerislab.Models.Identity.{OAuthState, User, UserSession}
use kerislab.Store.State.{Store}
use kerislab.Models.Payload.{Time, Payload, Value}
use kerislab.Exec.{
  World, Exec, ◌>>=◌, next_id, token_urlsafe, new_entity, gets, add, now_utc, or_raise, new_id,
  ◌>>◌, put, raise_if, pure, authorization_error, oauth_state_error, sync, get,
}
use kerislab.Models.Running.{AuditLog}
use kerislab.Services.Audit.{log, by_actor}
use kerislab.Dict.{find_entry, lookup}
use kerislab.Store.Collections.{user_sessions, oauth_states, users}
use kerislab.Models.Values.{same_auth_provider, auth_provider_value}
use kerislab.Services.Scans.{text_field}

-- `timedelta(days=30)`, in microseconds
abbrev pub session_lifetime : ℕ
session_lifetime = 30 * 24 * 60 * 60 * 1000000

-- `UserSession(...)`: the token is an argument, and the expiry is a reading of the clock of its own
unfoldable pub new_session : User → Option String → Option String → Exec UserSession
new_session user user_agent ip_address = do
  token ← token_urlsafe
  id ← new_id "ses"
  created_at ← now_utc
  now ← now_utc
  pure (record {
    user_id = user.id;
    token = token;
    auth_provider = user.provider;
    user_agent = user_agent;
    ip_address = ip_address;
    id = id;
    created_at = created_at;
    expires_at = now + session_lifetime;
    revoked_at = none;
    last_seen_at = none;
  })

unfoldable pub create_session : User → Option String → Option String → Exec UserSession
unfolding new_session
create_session user user_agent ip_address = do
  made ← new_session user user_agent ip_address
  session ← add user_sessions made
  sync
  pure session

-- the first session with the token, with its key
abbrev pub session_with : String → Store → Option (String × UserSession)
session_with token s = find_entry (λ session. session.token == token) s.user_sessions

unfoldable pub require_session : String → Exec (String × UserSession)
require_session token = do
  found ← gets (session_with token)
  or_raise found (authorization_error "session token is invalid")

abbrev pub is_set : Option Time → Bool
is_set none = false
is_set (some _) = true

unfoldable pub user_for_session_token : String → Exec User
unfolding require_session
user_for_session_token token = do
  (key, session) ← require_session token
  now ← now_utc
  raise_if (is_set session.revoked_at) (authorization_error "session token has been revoked")
  raise_if (leb session.expires_at now) (authorization_error "session token has expired")
  put user_sessions key (record session { last_seen_at = some now })
  sync
  get users session.user_id "user"

unfoldable pub revoke_session_token : String → Exec UserSession
unfolding require_session
revoke_session_token token = do
  (key, session) ← require_session token
  now ← now_utc
  let revoked : UserSession = record session { revoked_at = some now }
  put user_sessions key revoked
  sync
  pure revoked

-- `OAuthState(...)` in the given world
abbrev oauth_state_at : AuthProvider → String → String → String → World → OAuthState
oauth_state_at provider state nonce redirect_uri w = record {
  provider = provider;
  state = state;
  nonce = nonce;
  redirect_uri = redirect_uri;
  consumed_at = none;
  id = next_id "oas" w.env w.drawn;
  created_at = w.env.clock w.ticks;
}

unfoldable pub log_state : AuditAction → AuthProvider → OAuthState → Exec AuditLog
log_state action provider oauth_state = log action (record (by_actor none) {
  details =
      Payload.field "provider" (Value.str (auth_provider_value provider))
        (text_field "state_id" oauth_state.id);
})

-- `OAuthStateService.create`
unfoldable pub create_state : AuthProvider → String → String → String → Exec OAuthState
unfolding log_state
create_state provider state nonce redirect_uri = do
  oauth_state ← new_entity (oauth_state_at provider state nonce redirect_uri)
  put oauth_states state oauth_state
  log_state AuditAction.oauth_state_created provider oauth_state
  sync
  pure oauth_state

-- `OAuthStateService.consume`
unfoldable pub consume_state : AuthProvider → String → Exec OAuthState
unfolding log_state
consume_state provider state = do
  found ← gets (λ s. lookup state s.oauth_states)
  oauth_state ← or_raise found (oauth_state_error "OAuth state is invalid")
  raise_if (not (same_auth_provider oauth_state.provider provider))
      (oauth_state_error "OAuth state provider mismatch")
  raise_if (is_set oauth_state.consumed_at) (oauth_state_error "OAuth state has already been used")
  now ← now_utc
  let consumed : OAuthState = record oauth_state { consumed_at = some now }
  put oauth_states state consumed
  log_state AuditAction.oauth_state_consumed provider consumed
  sync
  pure consumed
