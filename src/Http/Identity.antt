-- ===== src/Http/Identity.antt =====
-- The handlers of login and logout in apps/api/kerislab/main.py. `token_urlsafe(24)` is the
-- environment's.
use kerislab.Oidc.{
  OidcPorts, OidcProviderConfig, google_config, sso_config, exchange_code, resolve_profile,
  authorization_url,
}
use kerislab.Prelude.{String, Option, some, if◌then◌else◌, none, concat, ◌==◌, ◌∷◌, []}
use kerislab.Models.Identity.{User, UserSession}
use kerislab.Exec.{
  Exec, Error, ◌>>=◌, gets, or_raise, key_error, token_urlsafe, raise, http_exception, ◌>>◌, pure,
  value_error,
}
use kerislab.Models.Status.{AuthProvider}
use kerislab.Http.{handled, bearer_token, except_raise, unauthorized, handle_error}
use kerislab.Dict.{Dict, lookup}
use kerislab.Services.Auth.{login_identity}
use kerislab.Services.Sessions.{consume_state, create_session, revoke_session_token, create_state}
use kerislab.Models.Values.{auth_provider_of}

-- What a login answers: the user, and the session with its token.
pub record Login : Type 0 where
  pub user : User
  pub session : UserSession

-- the `try` of `google_login` and `sso_login`, with the configuration of the provider
unfoldable pub begin_login : OidcPorts → Exec OidcProviderConfig → Exec String
begin_login ports configure = do
  config ← configure
  state ← token_urlsafe
  nonce ← token_urlsafe
  create_state config.provider state nonce config.redirect_uri
  pure (authorization_url ports config state nonce)

module _ (ports : OidcPorts) where
  unfoldable pub google_login : Exec String
  unfolding begin_login
  google_login = handled (begin_login ports (google_config ports))

  unfoldable pub sso_login : Exec String
  unfolding begin_login
  sso_login = handled (begin_login ports (sso_config ports))

  unfoldable pub config_of : AuthProvider → Exec OidcProviderConfig
  config_of AuthProvider.google = google_config ports
  config_of _ = sso_config ports

  -- the `try` of `oidc_callback_response`
  unfoldable pub login_by_code : AuthProvider → String → String → Exec Login
  unfolding config_of
  login_by_code provider code state = do
    config ← config_of provider
    oauth_state ← consume_state provider state
    response ← exchange_code ports config code
    profile ← resolve_profile ports config response (some oauth_state.nonce)
    user ← login_identity profile.email profile.display_name provider profile.avatar_url
    session ← create_session user none none
    pure (record { user = user; session = session })

  -- `except KeyError`, and then `except Exception`
  abbrev required_or_handled : Error → Error
  required_or_handled (key_error key) = http_exception 400 (concat (key ∷ " is required" ∷ []))
  required_or_handled e = handle_error e

  unfoldable pub oidc_callback_response : AuthProvider → String → String → Exec Login
  oidc_callback_response provider code state =
      except_raise required_or_handled (login_by_code provider code state)

  unfoldable pub provider_for_oauth_state : String → Exec AuthProvider
  provider_for_oauth_state state = do
    found ← gets (λ s. lookup state s.oauth_states)
    oauth_state ← or_raise found (http_exception 400 "OAuth state is invalid")
    pure oauth_state.provider

  -- `AuthProvider(provider)`
  unfoldable pub provider_named : String → Exec AuthProvider
  provider_named text =
      or_raise (auth_provider_of text)
        (value_error (concat ("'" ∷ text ∷ "' is not a valid AuthProvider" ∷ [])))

  unfoldable pub resolved_provider : Option String → String → Exec AuthProvider
  unfolding provider_named
  resolved_provider none state = provider_for_oauth_state state
  resolved_provider (some text) state =
      if text == "" then provider_for_oauth_state state else provider_named text

  unfoldable pub oidc_callback_get : String → String → Option String → Exec Login
  unfolding resolved_provider
  oidc_callback_get code state provider = do
    resolved ← resolved_provider provider state
    oidc_callback_response resolved code state

  -- `except KeyError`
  abbrev key_required : Error → Error
  key_required (key_error key) = http_exception 400 (concat (key ∷ " is required" ∷ []))
  key_required e = e

  -- `payload[name]`
  unfoldable pub field_of : String → Dict String → Exec String
  field_of name payload = or_raise (lookup name payload) (key_error name)

  unfoldable pub named_provider : Option String → Dict String → Exec AuthProvider
  unfolding provider_named field_of
  named_provider none payload = do state ← field_of "state" payload; provider_for_oauth_state state
  named_provider (some text) payload =
      if text == ""
      then (do state ← field_of "state" payload; provider_for_oauth_state state)
      else provider_named text

  -- the callback with the parameters in a body
  unfoldable pub oidc_callback : Dict String → Exec Login
  unfolding named_provider field_of
  oidc_callback payload = except_raise key_required (do
    provider ← named_provider (lookup "provider" payload) payload
    code ← field_of "code" payload
    state ← field_of "state" payload
    oidc_callback_response provider code state)

-- the body of `dev_login`
pub record LoginRequest : Type 0 where
  pub email : String
  pub display_name : String
  pub provider : AuthProvider
  pub avatar_url : Option String

unfoldable pub dev_login : LoginRequest → Exec Login
dev_login payload = do
  user ← login_identity payload.email payload.display_name payload.provider payload.avatar_url
  session ← create_session user none none
  pure (record { user = user; session = session })

unfoldable pub logout_with : String → Exec UserSession
logout_with authorization = do
  token ← bearer_token authorization
  except_raise unauthorized (revoke_session_token token)

unfoldable pub logout : Option String → Exec UserSession
unfolding logout_with
logout none = raise (http_exception 401 "Missing Authorization header")
logout (some authorization) =
    if authorization == ""
    then raise (http_exception 401 "Missing Authorization header")
    else logout_with authorization
