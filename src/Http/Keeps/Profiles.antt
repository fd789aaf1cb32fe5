-- ===== src/Http/Keeps/Profiles.antt =====
-- The world behind the configuration of an identity provider and the profile of a user
-- (apps/api/kerislab/auth.py).
use kerislab.Exec.{Exec, Result, World, proceed, ok, raise_if, err}
use kerislab.Oidc.{
  picture_of, profile_with_email, first_true, fetch_userinfo, google_config, profile_from_claims,
  required, resolve_profile, sso_config, claims_of_parts, userinfo_from, decoded, own_claims,
  required_value, OidcPorts, OidcProviderConfig, padded, profile_from_id_token,
  profile_from_access_token, validate_id_token_claims, claims_from_id_token, in_audience,
  is_untrusted, is_dict, is_true, value_of,
}
use kerislab.Dynamic.{text_of, is_truthy, payload_get, is_given}
use kerislab.Prelude.{
  Option, some, ◌≡◌, Bool-cases, refl, inl, ◌∙◌, inr, none, String, List, Option-cases, ◌∷◌, [],
  split, ◌||◌, ◌&&◌,
}
use kerislab.Models.Payload.{Value, Payload}
use kerislab.Http.Identity.{config_of}
use kerislab.Models.Status.{AuthProvider}

abbrev pub Still : {A : Type 0} → Exec A → Type 0
Still m = (w : World) → (m w).1 ≡ w

-- Steps that leave the world as it is.
pub then-Still :
    {A B : Type 0} (p : Result A × World) (f : A → Exec B) (w : World)
    → p.1 ≡ w
    → ((a : A) → Still (f a))
    → (proceed p f).1 ≡ w
then-Still (ok a, v) f w same k = k a v ∙ same
then-Still (err e, v) f w same k = same

pub text_of-Still : (value : Value) → Still (text_of value)
unfolding text_of
text_of-Still (Value.str text) w = refl
text_of-Still _ w = refl

picture_of-Still : (o : Option Value) → Still (picture_of o)
unfolding picture_of
picture_of-Still none w = refl
picture_of-Still (some value) w = elim (Bool-cases (is_truthy value)) [
  | inl e ↦ rw e (then-Still (text_of value w) _ w (text_of-Still value w) (λ _ v. refl))
  | inr e ↦ rw e refl
]

profile_with_email-Still :
    (claims : Payload) (o : Option Value) → Still (profile_with_email claims o)
unfolding profile_with_email
profile_with_email-Still claims none w = refl
profile_with_email-Still claims (some email) w =
    let alias : Value = first_true (payload_get "preferred_username" claims) email in
    let name : Value = first_true (payload_get "name" claims) alias in
    let picture : Option Value = payload_get "picture" claims in
    then-Still (raise_if _ _ w) _ w refl λ _ v.
      then-Still (text_of email v) _ v (text_of-Still email v) λ address u.
        then-Still (text_of name u) _ u (text_of-Still name u) λ shown t.
          then-Still (picture_of picture t) _ t (picture_of-Still picture t) (λ _ q. refl)

profile_from_claims-Still : (claims : Payload) → Still (profile_from_claims claims)
unfolding profile_from_claims
profile_from_claims-Still claims w =
    let own = own_claims claims (payload_get "userinfo" claims) in
    profile_with_email-Still own (payload_get "email" own) w

required-Still : (ports : OidcPorts) (name : String) → Still (required ports name)
unfolding required required_value
required-Still ports name w = elim (Option-cases (ports.getenv name)) [
  | inl e ↦ rw e refl
  | inr (value, e) ↦ rw e (then-Still (raise_if _ _ w) _ w refl (λ _ v. refl))
]

pub google_config-Still : (ports : OidcPorts) → Still (google_config ports)
unfolding google_config
google_config-Still ports w =
    let want = λ (name : String). required ports name in
    let still = λ (name : String). required-Still ports name in
    then-Still (required ports "KERISLAB_GOOGLE_CLIENT_ID" w) _ w
      (still "KERISLAB_GOOGLE_CLIENT_ID" w)
      λ _ v.
        then-Still (required ports "KERISLAB_GOOGLE_CLIENT_SECRET" v) _ v
          (still "KERISLAB_GOOGLE_CLIENT_SECRET" v)
          λ _ u.
            then-Still (required ports "KERISLAB_GOOGLE_REDIRECT_URI" u) _ u
              (still "KERISLAB_GOOGLE_REDIRECT_URI" u) (λ _ t. refl)

pub sso_config-Still : (ports : OidcPorts) → Still (sso_config ports)
unfolding sso_config
sso_config-Still ports w =
    let still = λ (name : String). required-Still ports name in
    then-Still (required ports "KERISLAB_SSO_CLIENT_ID" w) _ w (still "KERISLAB_SSO_CLIENT_ID" w)
      λ _ v.
        then-Still (required ports "KERISLAB_SSO_CLIENT_SECRET" v) _ v
          (still "KERISLAB_SSO_CLIENT_SECRET" v)
          λ _ u.
            then-Still (required ports "KERISLAB_SSO_AUTHORIZE_URL" u) _ u
              (still "KERISLAB_SSO_AUTHORIZE_URL" u)
              λ _ t.
                then-Still (required ports "KERISLAB_SSO_TOKEN_URL" t) _ t
                  (still "KERISLAB_SSO_TOKEN_URL" t)
                  λ _ q.
                    then-Still (required ports "KERISLAB_SSO_REDIRECT_URI" q) _ q
                      (still "KERISLAB_SSO_REDIRECT_URI" q) (λ _ m. refl)

claims_of_parts-Still :
    (ports : OidcPorts) (parts : List String) → Still (claims_of_parts ports parts)
unfolding claims_of_parts decoded
claims_of_parts-Still ports [] w = refl
claims_of_parts-Still ports (header ∷ []) w = refl
claims_of_parts-Still ports (header ∷ payload ∷ rest) w =
    elim (Option-cases (ports.decode_segment (padded payload))) [
      | inl e ↦ rw e refl
      | inr (claims, e) ↦ rw e refl
    ]

fetch_userinfo-Still :
    (ports : OidcPorts) (config : OidcProviderConfig) (access_token : String)
    → Still (fetch_userinfo ports config access_token)
unfolding fetch_userinfo userinfo_from
fetch_userinfo-Still ports config access_token w = elim (Option-cases config.userinfo_url) [
  | inl e ↦ rw e refl
  | inr (url, e) ↦ rw e (then-Still (raise_if _ _ w) _ w refl (λ _ v. refl))
]

pub validate-Still :
    (config : OidcProviderConfig) (claims : Payload) (expected : Option String)
    → Still (validate_id_token_claims config claims expected)
unfolding validate_id_token_claims
validate-Still config claims expected w =
    elim (Bool-cases (in_audience config.client_id (payload_get "aud" claims))) [
      | inr other ↦ rw other refl
      | inl ours ↦ elim (Bool-cases (is_untrusted config.issuer_urls (payload_get "iss" claims))) [
        | inl untrusted ↦ rw (ours, untrusted) refl
        | inr trusted ↦ rw (ours, trusted) refl
      ]
    ]

pub claims_from_id_token-Still :
    (ports : OidcPorts) (token : String) → Still (claims_from_id_token ports token)
unfolding claims_from_id_token
claims_from_id_token-Still ports token w = claims_of_parts-Still ports (split "." token) w

module _ (ports : OidcPorts) where
  profile_from_id_token-Still :
      (config : OidcProviderConfig) (id_token : Value) (expected : Option String)
      → Still (profile_from_id_token ports config id_token expected)
  unfolding profile_from_id_token
  profile_from_id_token-Still config id_token expected w =
      then-Still (text_of id_token w) _ w (text_of-Still id_token w) λ token v.
        then-Still (claims_from_id_token ports token v) _ v
          (claims_from_id_token-Still ports token v)
          λ claims u.
            then-Still (validate_id_token_claims config claims expected u) _ u
              (validate-Still config claims expected u) (λ _ t. profile_from_claims-Still claims t)

  profile_from_access_token-Still :
      (config : OidcProviderConfig) (access_token : Value)
      → Still (profile_from_access_token ports config access_token)
  unfolding profile_from_access_token
  profile_from_access_token-Still config access_token w =
      then-Still (text_of access_token w) _ w (text_of-Still access_token w) λ token v.
        then-Still (fetch_userinfo ports config token v) _ v
          (fetch_userinfo-Still ports config token v)
          (λ claims u. profile_from_claims-Still claims u)

  pub resolve_profile-Still :
      (config : OidcProviderConfig) (response : Payload) (expected : Option String)
      → Still (resolve_profile ports config response expected)
  unfolding resolve_profile
  resolve_profile-Still config response expected w =
      let direct =
        is_dict (payload_get "userinfo" response) || is_true (payload_get "email" response) in
      let by_access =
        is_true (payload_get "access_token" response) && is_given config.userinfo_url in
      elim (Bool-cases direct) [
        | inl a ↦ rw a (profile_from_claims-Still response w)
        | inr a ↦ elim (Bool-cases (is_true (payload_get "id_token" response))) [
          | inl t ↦
              rw (a, t)
                (profile_from_id_token-Still config (value_of (payload_get "id_token" response))
                  expected w)
          | inr t ↦ elim (Bool-cases by_access) [
            | inl c ↦
                rw (a, t, c)
                  (profile_from_access_token-Still config
                    (value_of (payload_get "access_token" response)) w)
            | inr c ↦ rw (a, t, c) refl
          ]
        ]
      ]

  pub config_of-Still : (provider : AuthProvider) → Still (config_of ports provider)
  unfolding config_of
  config_of-Still AuthProvider.google w = google_config-Still ports w
  config_of-Still AuthProvider.sso w = sso_config-Still ports w
  config_of-Still AuthProvider.development w = sso_config-Still ports w
