-- ===== src/Http/Keeps/Logins.antt =====
-- The books behind the handlers of logins and logouts in apps/api/kerislab/main.py.
use kerislab.Exec.{Exec, World, or_raise}
use kerislab.Oidc.{
  google_config, resolve_profile, sso_config, OidcPorts, OidcProviderConfig, exchange_code,
}
use kerislab.Prelude.{
  Option, some, ◌≡◌, Bool-cases, inl, inr, none, String, ◌||◌, ◌==◌, not, partition_head,
  partition_tail,
}
use kerislab.Http.Identity.{
  config_of, google_login, sso_login, begin_login, login_by_code, provider_named, field_of, logout,
  resolved_provider, dev_login, oidc_callback_response, named_provider, oidc_callback,
  oidc_callback_get, provider_for_oauth_state, logout_with, LoginRequest,
}
use kerislab.Services.Bystanders.{Kept, then-Kept, or_raise-Kept}
use kerislab.Models.Status.{AuthProvider}
use kerislab.Services.Sessions.{consume_state, create_state, create_session}
use kerislab.Services.Bystanders.Identity.{
  create_state-Kept, consume_state-Kept, login_identity-Kept, create_session-Kept,
  revoke_session_token-Kept,
}
use kerislab.Services.Auth.{login_identity}
use kerislab.Http.{bearer_token}
use kerislab.Dict.{Dict, lookup}
use kerislab.Models.Values.{auth_provider_of}
use kerislab.Http.Keeps.Profiles.{
  sso_config-Still, google_config-Still, Still, config_of-Still, resolve_profile-Still,
}

-- Such steps keep the books.
still-Kept : {A : Type 0} (m : Exec A) (w : World) → (m w).1 ≡ w → Kept w → Kept (m w).1
still-Kept m w same b = rw same b

module _ (ports : OidcPorts) where
  begin_login-Kept :
      (configure : Exec OidcProviderConfig) (w : World)
      → Still configure
      → Kept w
      → Kept (begin_login ports configure w).1
  unfolding begin_login
  begin_login-Kept configure w still b =
      then-Kept (configure w) _ (still-Kept configure w (still w) b) λ config v h.
        then-Kept (create_state config.provider _ _ config.redirect_uri _) _
          (create_state-Kept config.provider _ _ config.redirect_uri _ h) (λ _ u k. k)

  pub google_login-Kept : (w : World) → Kept w → Kept (google_login ports w).1
  unfolding google_login
  google_login-Kept w b = begin_login-Kept (google_config ports) w (google_config-Still ports) b

  pub sso_login-Kept : (w : World) → Kept w → Kept (sso_login ports w).1
  unfolding sso_login
  sso_login-Kept w b = begin_login-Kept (sso_config ports) w (sso_config-Still ports) b

  -- what both ways to log in end with
  login_by_code-Kept :
      (provider : AuthProvider) (code state : String) (w : World)
      → Kept w
      → Kept (login_by_code ports provider code state w).1
  unfolding login_by_code exchange_code
  login_by_code-Kept provider code state w b =
      then-Kept (config_of ports provider w) _
        (still-Kept (config_of ports provider) w (config_of-Still ports provider w) b)
        λ config v h.
          then-Kept (consume_state provider state v) _ (consume_state-Kept provider state v h)
            λ oauth_state u k. then-Kept (exchange_code ports config code u) _ k λ response t l.
              let nonce_of = some oauth_state.nonce in
              then-Kept (resolve_profile ports config response nonce_of t) _
                (still-Kept (resolve_profile ports config response nonce_of) t
                  (resolve_profile-Still ports config response nonce_of t) l)
                λ profile q m.
                  then-Kept
                    (login_identity profile.email profile.display_name provider profile.avatar_url
                      q)
                    _
                    (login_identity-Kept profile.email profile.display_name provider
                      profile.avatar_url q m)
                    λ user o n.
                      then-Kept (create_session user none none o) _
                        (create_session-Kept user none none o n) (λ _ x y. y)

  pub oidc_callback_response-Kept :
      (provider : AuthProvider) (code state : String) (w : World)
      → Kept w
      → Kept (oidc_callback_response ports provider code state w).1
  unfolding oidc_callback_response
  oidc_callback_response-Kept provider code state w b = login_by_code-Kept provider code state w b

  provider_for-Kept :
      (state : String) (w : World) → Kept w → Kept (provider_for_oauth_state ports state w).1
  unfolding provider_for_oauth_state
  provider_for-Kept state w b =
      then-Kept (or_raise (lookup state w.store.oauth_states) _ w) _
        (or_raise-Kept (lookup state w.store.oauth_states) _ w b) (λ _ v h. h)

  provider_named-Kept : (text : String) (w : World) → Kept w → Kept (provider_named ports text w).1
  unfolding provider_named
  provider_named-Kept text w b = or_raise-Kept (auth_provider_of text) _ w b

  resolved_provider-Kept :
      (o : Option String) (state : String) (w : World)
      → Kept w
      → Kept (resolved_provider ports o state w).1
  unfolding resolved_provider
  resolved_provider-Kept none state w b = provider_for-Kept state w b
  resolved_provider-Kept (some text) state w b = elim (Bool-cases (text == "")) [
    | inl e ↦ rw e (provider_for-Kept state w b)
    | inr e ↦ rw e (provider_named-Kept text w b)
  ]

  pub oidc_callback_get-Kept :
      (code state : String) (provider : Option String) (w : World)
      → Kept w
      → Kept (oidc_callback_get ports code state provider w).1
  unfolding oidc_callback_get
  oidc_callback_get-Kept code state provider w b =
      then-Kept (resolved_provider ports provider state w) _
        (resolved_provider-Kept provider state w b)
        (λ resolved v h. oidc_callback_response-Kept resolved code state v h)

  field_of-Kept :
      (name : String) (payload : Dict String) (w : World)
      → Kept w
      → Kept (field_of ports name payload w).1
  unfolding field_of
  field_of-Kept name payload w b = or_raise-Kept (lookup name payload) _ w b

  by_state-Kept :
      (payload : Dict String) (w : World) → Kept w → Kept (named_provider ports none payload w).1
  unfolding named_provider
  by_state-Kept payload w b =
      then-Kept (field_of ports "state" payload w) _ (field_of-Kept "state" payload w b)
        (λ state v h. provider_for-Kept state v h)

  named_provider-Kept :
      (o : Option String) (payload : Dict String) (w : World)
      → Kept w
      → Kept (named_provider ports o payload w).1
  unfolding named_provider
  named_provider-Kept none payload w b = by_state-Kept payload w b
  named_provider-Kept (some text) payload w b = elim (Bool-cases (text == "")) [
    | inl e ↦ rw e (by_state-Kept payload w b)
    | inr e ↦ rw e (provider_named-Kept text w b)
  ]

  pub oidc_callback-Kept :
      (payload : Dict String) (w : World) → Kept w → Kept (oidc_callback ports payload w).1
  unfolding oidc_callback
  oidc_callback-Kept payload w b =
      let given : Option String = lookup "provider" payload in
      then-Kept (named_provider ports given payload w) _ (named_provider-Kept given payload w b)
        λ provider v h.
          then-Kept (field_of ports "code" payload v) _ (field_of-Kept "code" payload v h)
            λ code u k.
              then-Kept (field_of ports "state" payload u) _ (field_of-Kept "state" payload u k)
                (λ state t l. oidc_callback_response-Kept provider code state t l)

pub dev_login-Kept : (payload : LoginRequest) (w : World) → Kept w → Kept (dev_login payload w).1
unfolding dev_login
dev_login-Kept payload w b =
    then-Kept
      (login_identity payload.email payload.display_name payload.provider payload.avatar_url w) _
      (login_identity-Kept payload.email payload.display_name payload.provider payload.avatar_url w
        b)
      λ user v h.
        then-Kept (create_session user none none v) _ (create_session-Kept user none none v h)
          (λ _ u k. k)

bearer_token-Kept : (header : String) (w : World) → Kept w → Kept (bearer_token header w).1
unfolding bearer_token
bearer_token-Kept header w b =
    elim (Bool-cases (
      not (w.env.lower (partition_head " " header) == "bearer")
      || partition_tail " " header == "")) [ inl refused ↦ rw refused b | inr fine ↦ rw fine b ]

pub logout-Kept : (header : Option String) (w : World) → Kept w → Kept (logout header w).1
unfolding logout logout_with
logout-Kept none w b = b
logout-Kept (some header) w b = elim (Bool-cases (header == "")) [
  | inl e ↦ rw e b
  | inr e ↦ rw e (
      then-Kept (bearer_token header w) _ (bearer_token-Kept header w b)
        (λ token v h. revoke_session_token-Kept token v h))
]
