-- ===== src/Services/Sessions/Validity.antt =====
-- Which tokens `user_for_session_token` (apps/api/kerislab/services.py) takes.
use kerislab.Services.Sessions.{user_for_session_token, require_session, is_set, session_with}
use kerislab.Models.Identity.{UserSession, User}
use kerislab.Prelude.{
  ℕ, String, ◌≡◌, false, ◌<◌, some, Option-cases, inl, inr, Bool-cases, leb, arith, ◌==◌, eq_iff,
}
use kerislab.Exec.{World, ok}
use kerislab.Dict.{lookup, find_entry-holds}

-- The session is open at the given time.
pub record Valid (session : UserSession) (now : ℕ) : Type 0 where
  pub unrevoked : is_set session.revoked_at ≡ false
  pub unexpired : now < session.expires_at

-- A token that opens a session for a user is that of a stored session that is neither revoked nor expired, and the
-- user is the stored one of that session.
pub user_for_session_token-Valid :
    (token : String) (user : User) (w : World)
    → (user_for_session_token token w).0 ≡ ok user
    → (key : String) × (session : UserSession) × (session_with token w.store ≡ some (key, session))
      × (session.token ≡ token)
      × Valid session (w.env.clock w.ticks)
      × (lookup session.user_id w.store.users ≡ some user)
unfolding user_for_session_token require_session
user_for_session_token-Valid token user w returns =
    elim (Option-cases (session_with token w.store)) [
      | inl e ↦ let h = rw e at returns in cc
      | inr ((key, session), e) ↦ elim (Bool-cases (is_set session.revoked_at)) [
        | inl revoked ↦ let h = rw (e, revoked) at returns in cc
        | inr open_ended ↦ elim (Bool-cases (leb session.expires_at (w.env.clock w.ticks))) [
          | inl expired ↦ let h = rw (e, open_ended, expired) at returns in cc
          | inr fresh ↦ elim (Option-cases (lookup session.user_id w.store.users)) [
            | inl f ↦ let h = rw (e, open_ended, fresh, f) at returns in cc
            | inr (stored, f) ↦
                let h = rw (e, open_ended, fresh, f) at returns in
                (
                  key,
                  session,
                  e,
                  ground (
                    arith,
                    find_entry-holds (λ session. session.token == token) key session
                        w.store.user_sessions e,
                    eq_iff session.token token,
                  ),
                  record { unrevoked = open_ended; unexpired = ground (arith, fresh) },
                  cc,
                )
          ]
        ]
      ]
    ]
