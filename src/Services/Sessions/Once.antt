-- ===== src/Services/Sessions/Once.antt =====
-- OAuth states are consumed once, and a revoked token opens no session
-- (apps/api/kerislab/services.py, `OAuthStateService` and `AuthService`).
use kerislab.Models.Status.{AuthProvider}
use kerislab.Prelude.{String, ◌≡◌, some, true, Bool-cases, Option-cases, inl, inr, refl, ◌==◌}
use kerislab.Models.Identity.{OAuthState, UserSession}
use kerislab.Exec.{World, ok, Error, err, authorization_error, oauth_state_error}
use kerislab.Dict.{lookup, lookup-insert_self, find_entry-insert, find_entry-holds}
use kerislab.Services.Sessions.{
  consume_state, is_set, revoke_session_token, log_state, user_for_session_token, require_session,
  session_with,
}
use kerislab.Services.Audit.{log}
use kerislab.Models.Values.{same_auth_provider}

-- A state under the key that has been used.
abbrev Used : String → World → Type 0
Used state w =
    (o : OAuthState) × (lookup state w.store.oauth_states ≡ some o) × (is_set o.consumed_at ≡ true)

consume_state-refused :
    (provider : AuthProvider) (state : String) (w : World)
    → Used state w
    → (e : Error) × (consume_state provider state w ≡ (err e, w))
unfolding consume_state
consume_state-refused provider state w (o, found, used) =
    elim (Bool-cases (same_auth_provider o.provider provider)) [
      | inl same ↦
          (oauth_state_error "OAuth state has already been used", rw (found, same, used) refl)
      | inr other ↦ (oauth_state_error "OAuth state provider mismatch", rw (found, other) refl)
    ]

consume_state-Used :
    (provider : AuthProvider) (state : String) (o : OAuthState) (w : World)
    → (consume_state provider state w).0 ≡ ok o
    → Used state (consume_state provider state w).1
unfolding consume_state log_state log
consume_state-Used provider state o w returns =
    elim (Option-cases (lookup state w.store.oauth_states)) [
      | inl e ↦ let h = rw e at returns in cc
      | inr (x, e) ↦ elim (Bool-cases (same_auth_provider x.provider provider)) [
        | inr other ↦ let h = rw (e, other) at returns in cc
        | inl same ↦ elim (Bool-cases (is_set x.consumed_at)) [
          | inl used ↦ let h = rw (e, same, used) at returns in cc
          | inr unused ↦
              rw (e, same, unused) (_, lookup-insert_self state _ w.store.oauth_states, refl)
        ]
      ]
    ]

-- Once an OAuth state was consumed, every further attempt with it, for any provider, is refused and changes
-- nothing.
pub consume_state-consume_state :
    (provider provider' : AuthProvider) (state : String) (o : OAuthState) (w : World)
    → (consume_state provider state w).0 ≡ ok o
    → let v = (consume_state provider state w).1 in
      (e : Error) × (consume_state provider' state v ≡ (err e, v))
consume_state-consume_state provider provider' state o w returns =
    consume_state-refused provider' state (consume_state provider state w).1
      (consume_state-Used provider state o w returns)

-- Once a token was revoked, it opens no session: every use of it raises and leaves the store as it is.
pub user_for_session_token-revoke_session_token :
    (token : String) (session : UserSession) (w : World)
    → (revoke_session_token token w).0 ≡ ok session
    → let v = (revoke_session_token token w).1 in
      ((user_for_session_token token v).0
        ≡ err (authorization_error "session token has been revoked"))
      × ((user_for_session_token token v).1.store ≡ v.store)
unfolding revoke_session_token user_for_session_token require_session
user_for_session_token-revoke_session_token token session w returns =
    elim (Option-cases (session_with token w.store)) [
      | inl e ↦ let h = rw e at returns in cc
      | inr ((key, found), e) ↦
          let revoked : UserSession = record found { revoked_at = some (w.env.clock w.ticks) } in
          let h =
            find_entry-insert (λ session. session.token == token) key found revoked
              w.store.user_sessions e
              (find_entry-holds (λ session. session.token == token) key found w.store.user_sessions
                e) in
          rw (e, h) (refl, refl)
    ]
