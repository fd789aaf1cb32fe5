-- ===== src/Oidc.antt =====
-- apps/api/kerislab/auth.py: the configuration of the identity providers, and the profile of a user
-- from their answers. The environment variables, `urlencode`, the HTTP requests with the decoding
-- of their JSON, and the decoding of a segment of a token are parameters.
pub mod Padding
pub mod Validation
use Prim.Native.String.{count}
use Prim.Native.Nat.{◌%◌}
use kerislab.Exec.{Exec, Result, raise, pure, ◌>>=◌, ◌>>◌, raise_if, oauth_configuration_error}
use kerislab.Models.Payload.{Value, Payload, Items}
use kerislab.Prelude.{
  List, Option, String, split, some, Bool, ◌∷◌, repeat, [], true, false, select, join, ◌==◌,
  if◌then◌else◌, none, concat, not, ◌-◌, ◌||◌, any, ◌&&◌,
}
use kerislab.Models.Status.{AuthProvider}
use kerislab.Dynamic.{payload_get, text_of, is_truthy, is_given}

-- What the module takes from outside.
pub record OidcPorts : Type 0 where
  pub getenv : String → Option String
  pub urlencode : List (String × String) → String
  pub split_words : String → List String
  -- `urlopen` of a POST of a form to an address, and of a GET with a bearer token
  pub post_form : String → String → Result Payload
  pub get_json : String → String → Result Payload
  -- `json.loads(urlsafe_b64decode(payload.encode()).decode())`, or none for an exception
  pub decode_segment : String → Option Payload

pub record OidcProviderConfig : Type 0 where
  pub provider : AuthProvider
  pub client_id : String
  pub client_secret : String
  pub authorize_url : String
  pub token_url : String
  pub userinfo_url : Option String
  pub issuer_urls : List String
  pub redirect_uri : String
  pub scopes : List String

pub record Profile : Type 0 where
  pub email : String
  pub display_name : String
  pub avatar_url : Option String

abbrev pub google_authorize_url : String
google_authorize_url = "https://accounts.google.com/o/oauth2/v2/auth"

abbrev pub google_token_url : String
google_token_url = "https://oauth2.googleapis.com/token"

abbrev pub google_userinfo_url : String
google_userinfo_url = "https://openidconnect.googleapis.com/v1/userinfo"

abbrev pub google_issuer_urls : List String
google_issuer_urls = "https://accounts.google.com" ∷ "accounts.google.com" ∷ []

-- `os.getenv(name, default)`
abbrev or_default : Option String → String → String
or_default none default = default
or_default (some value) default = value

unfoldable pub required_value : String → Option String → Exec String
required_value name none = raise (oauth_configuration_error (concat (name ∷ " is required" ∷ [])))
required_value name (some value) = do
  raise_if (value == "") (oauth_configuration_error (concat (name ∷ " is required" ∷ [])))
  pure value

-- `payload += "=" * (-len(payload) % 4)`
unfoldable pub padded : String → String
padded payload = concat (payload ∷ repeat "=" ((4 - count payload % 4) % 4) ∷ [])

module _ (ports : OidcPorts) where
  -- `_required`
  unfoldable pub required : String → Exec String
  unfolding required_value
  required name = required_value name (ports.getenv name)

  -- The values are read in the order of the keyword arguments.
  unfoldable pub google_config : Exec OidcProviderConfig
  google_config = do
    client_id ← required "KERISLAB_GOOGLE_CLIENT_ID"
    client_secret ← required "KERISLAB_GOOGLE_CLIENT_SECRET"
    redirect_uri ← required "KERISLAB_GOOGLE_REDIRECT_URI"
    pure (record {
      provider = AuthProvider.google;
      client_id = client_id;
      client_secret = client_secret;
      authorize_url =
          or_default (ports.getenv "KERISLAB_GOOGLE_AUTHORIZE_URL") google_authorize_url;
      token_url = or_default (ports.getenv "KERISLAB_GOOGLE_TOKEN_URL") google_token_url;
      userinfo_url =
          some (or_default (ports.getenv "KERISLAB_GOOGLE_USERINFO_URL") google_userinfo_url);
      issuer_urls =
          split ","
            (or_default (ports.getenv "KERISLAB_GOOGLE_ISSUER_URLS") (join "," google_issuer_urls));
      redirect_uri = redirect_uri;
      scopes = "openid" ∷ "email" ∷ "profile" ∷ [];
    })

  unfoldable pub sso_config : Exec OidcProviderConfig
  sso_config = do
    client_id ← required "KERISLAB_SSO_CLIENT_ID"
    client_secret ← required "KERISLAB_SSO_CLIENT_SECRET"
    authorize_url ← required "KERISLAB_SSO_AUTHORIZE_URL"
    token_url ← required "KERISLAB_SSO_TOKEN_URL"
    redirect_uri ← required "KERISLAB_SSO_REDIRECT_URI"
    pure (record {
      provider = AuthProvider.sso;
      client_id = client_id;
      client_secret = client_secret;
      authorize_url = authorize_url;
      token_url = token_url;
      userinfo_url = ports.getenv "KERISLAB_SSO_USERINFO_URL";
      issuer_urls =
          select (λ url. not (url == ""))
            (split "," (or_default (ports.getenv "KERISLAB_SSO_ISSUER_URLS") ""));
      redirect_uri = redirect_uri;
      scopes =
          ports.split_words
            (or_default (ports.getenv "KERISLAB_SSO_SCOPES") "openid email profile");
    })

  unfoldable pub authorization_url : OidcProviderConfig → String → String → String
  authorization_url config state nonce =
      let query = ports.urlencode (
        ("client_id", config.client_id)
        ∷ ("redirect_uri", config.redirect_uri)
        ∷ ("response_type", "code")
        ∷ ("scope", join " " config.scopes)
        ∷ ("state", state)
        ∷ ("nonce", nonce)
        ∷ ("access_type", "offline")
        ∷ ("prompt", "consent")
        ∷ []) in
      concat (config.authorize_url ∷ "?" ∷ query ∷ [])

  abbrev pub of_result : Result Payload → Exec Payload
  of_result r w = (r, w)

  unfoldable pub exchange_code : OidcProviderConfig → String → Exec Payload
  exchange_code config code = of_result (
      ports.post_form config.token_url (
        ports.urlencode (
          ("grant_type", "authorization_code")
          ∷ ("code", code)
          ∷ ("redirect_uri", config.redirect_uri)
          ∷ ("client_id", config.client_id)
          ∷ ("client_secret", config.client_secret)
          ∷ [])))

  unfoldable pub userinfo_from : Option String → String → Exec Payload
  userinfo_from none access_token =
      raise (oauth_configuration_error "OIDC userinfo endpoint is not configured")
  userinfo_from (some url) access_token = do
    raise_if (url == "") (oauth_configuration_error "OIDC userinfo endpoint is not configured")
    of_result (ports.get_json url access_token)

  unfoldable pub fetch_userinfo : OidcProviderConfig → String → Exec Payload
  unfolding userinfo_from
  fetch_userinfo config access_token = userinfo_from config.userinfo_url access_token

  unfoldable pub decoded : Option Payload → Exec Payload
  decoded none = raise (oauth_configuration_error "OIDC id_token payload is invalid")
  decoded (some claims) = pure claims

  unfoldable pub claims_of_parts : List String → Exec Payload
  unfolding decoded
  claims_of_parts (header ∷ payload ∷ rest) = decoded (ports.decode_segment (padded payload))
  claims_of_parts _ = raise (oauth_configuration_error "OIDC id_token is malformed")

  unfoldable pub claims_from_id_token : String → Exec Payload
  unfolding claims_of_parts
  claims_from_id_token id_token = claims_of_parts (split "." id_token)

-- A dynamic value against a text.
abbrev pub is_text : String → Option Value → Bool
is_text text (some (Value.str other)) = other == text
is_text text _ = false

unfoldable pub has_text : String → Items → Bool
has_text text Items.nil = false
has_text text (Items.cons item items) = is_text text (some item) || has_text text items

-- `client_id in audiences`: a list of audiences, or a single one
unfoldable pub in_audience : String → Option Value → Bool
in_audience client_id (some (Value.arr items)) = has_text client_id items
in_audience client_id audience = is_text client_id audience

-- `config.issuer_urls and claims.get("iss") not in config.issuer_urls`
unfoldable pub is_untrusted : List String → Option Value → Bool
is_untrusted [] issuer = false
is_untrusted urls issuer = not (any (λ url. is_text url issuer) urls)

-- `expected_nonce is not None and claims.get("nonce") != expected_nonce`
unfoldable pub is_replayed : Option String → Option Value → Bool
is_replayed none claimed = false
is_replayed (some expected) claimed = not (is_text expected claimed)

unfoldable pub validate_id_token_claims : OidcProviderConfig → Payload → Option String → Exec Unit
validate_id_token_claims config claims expected_nonce = do
  raise_if (not (in_audience config.client_id (payload_get "aud" claims)))
      (oauth_configuration_error "OIDC id_token audience does not match client_id")
  raise_if (is_untrusted config.issuer_urls (payload_get "iss" claims))
      (oauth_configuration_error "OIDC id_token issuer is not trusted")
  raise_if (is_replayed expected_nonce (payload_get "nonce" claims))
      (oauth_configuration_error "OIDC id_token nonce does not match OAuth state")

-- `isinstance(userinfo, dict)`
abbrev pub is_dict : Option Value → Bool
is_dict (some (Value.obj payload)) = true
is_dict _ = false

-- `bool(claims.get(name))`
abbrev pub is_true : Option Value → Bool
is_true none = false
is_true (some value) = is_truthy value

-- the claims, or the `userinfo` dictionary in them
abbrev pub own_claims : Payload → Option Value → Payload
own_claims claims (some (Value.obj userinfo)) = userinfo
own_claims claims _ = claims

-- `first or second`, where the second may itself be such a choice
abbrev pub first_true : Option Value → Value → Value
first_true none other = other
first_true (some value) other = if is_truthy value then value else other

unfoldable pub picture_of : Option Value → Exec (Option String)
picture_of none = pure none
picture_of (some value) =
    if is_truthy value then (do text ← text_of value; pure (some text)) else pure none

-- behind `if claims.get("email")`
unfoldable pub profile_with_email : Payload → Option Value → Exec Profile
unfolding picture_of
profile_with_email claims none =
    raise (oauth_configuration_error "OIDC claims do not include an email address")
profile_with_email claims (some email) = do
  raise_if (not (is_truthy email))
      (oauth_configuration_error "OIDC claims do not include an email address")
  address ← text_of email
  let alias : Value = first_true (payload_get "preferred_username" claims) email
  name ← text_of (first_true (payload_get "name" claims) alias)
  avatar ← picture_of (payload_get "picture" claims)
  pure (record { email = address; display_name = name; avatar_url = avatar })

unfoldable pub profile_from_claims : Payload → Exec Profile
unfolding profile_with_email
profile_from_claims claims =
    let own = own_claims claims (payload_get "userinfo" claims) in
    profile_with_email own (payload_get "email" own)

abbrev pub value_of : Option Value → Value
value_of none = Value.null
value_of (some value) = value

module _ (ports : OidcPorts) where
  -- the branch of an identity token
  unfoldable pub profile_from_id_token : OidcProviderConfig → Value → Option String → Exec Profile
  profile_from_id_token config id_token expected_nonce = do
    token ← text_of id_token
    claims ← claims_from_id_token ports token
    validate_id_token_claims config claims expected_nonce
    profile_from_claims claims

  -- the branch of an access token
  unfoldable pub profile_from_access_token : OidcProviderConfig → Value → Exec Profile
  profile_from_access_token config access_token = do
    token ← text_of access_token
    claims ← fetch_userinfo ports config token
    profile_from_claims claims

  unfoldable pub resolve_profile : OidcProviderConfig → Payload → Option String → Exec Profile
  resolve_profile config response expected_nonce =
      let id_token = payload_get "id_token" response in
      let access_token = payload_get "access_token" response in
      if is_dict (payload_get "userinfo" response) || is_true (payload_get "email" response)
      then profile_from_claims response
      else if is_true id_token
      then profile_from_id_token config (value_of id_token) expected_nonce
      else if is_true access_token && is_given config.userinfo_url
      then profile_from_access_token config (value_of access_token)
      else raise (
          oauth_configuration_error
            "OIDC token response does not include resolvable user profile claims")
