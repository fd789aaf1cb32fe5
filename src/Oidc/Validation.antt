-- ===== src/Oidc/Validation.antt =====
-- The claims behind a login by an identity token (`validate_id_token_claims` and `resolve_profile` of
-- apps/api/kerislab/auth.py).
use kerislab.Oidc.{
  validate_id_token_claims, has_text, OidcProviderConfig, is_text, is_replayed, is_untrusted,
  in_audience, resolve_profile, profile_from_id_token, OidcPorts, Profile, is_dict, is_true,
  claims_from_id_token, profile_from_claims, value_of,
}
use kerislab.Prelude.{
  Among, any, String, Option, List, ◌≡◌, ◌∷◌, some, true, Bool-cases, ap, ◌⊎◌, [], eq_iff, inl, inr,
  none, false, refl, arith, ◌||◌, any-Among,
}
use kerislab.Models.Payload.{Items, Payload, Value}
use kerislab.Dynamic.{payload_get, text_of}
use kerislab.Exec.{World, ok, Result, Exec, proceed, err}
use kerislab.Http.Keeps.Profiles.{text_of-Still, claims_from_id_token-Still, validate-Still}

pub data ListsText (text : String) : Items → Type 0 where
  here : (items : Items) → ListsText text (Items.cons (Value.str text) items)
  there :
      (item : Value) (items : Items) → ListsText text items → ListsText text (Items.cons item items)

-- The claims are for the client, from a trusted issuer if issuers are configured, and answer the nonce.
pub record Accepted (config : OidcProviderConfig) (claims : Payload) (expected : Option String)
    : Type 0 where
  pub addressed :
      (payload_get "aud" claims ≡ some (Value.str config.client_id))
      ⊎ ((items : Items) × (payload_get "aud" claims ≡ some (Value.arr items))
          × ListsText config.client_id items)
  pub trusted :
      (config.issuer_urls ≡ [])
      ⊎ ((url : String) × Among url config.issuer_urls
          × (payload_get "iss" claims ≡ some (Value.str url)))
  pub answers :
      (nonce_text : String)
      → expected ≡ some nonce_text
      → payload_get "nonce" claims ≡ some (Value.str nonce_text)

is_text-holds :
    (text : String) (o : Option Value) → is_text text o ≡ true → o ≡ some (Value.str text)
is_text-holds text none h = cc
is_text-holds text (some (Value.str other)) h =
    ap (λ t. some (Value.str t)) ((eq_iff other text).0 h)
is_text-holds text (some Value.null) h = cc
is_text-holds text (some (Value.bool b)) h = cc
is_text-holds text (some (Value.num n)) h = cc
is_text-holds text (some (Value.arr items)) h = cc
is_text-holds text (some (Value.obj payload)) h = cc

some_inj : {a b : Value} → some a ≡ some b → a ≡ b
some_inj h = cc

has_text-holds : (text : String) (items : Items) → has_text text items ≡ true → ListsText text items
unfolding has_text
has_text-holds text Items.nil h = cc
has_text-holds text (Items.cons item items) h = elim (Bool-cases (is_text text (some item))) [
  | inl e ↦
      let same : item ≡ Value.str text = some_inj (is_text-holds text (some item) e) in
      rw same (here items)
  | inr e ↦ there item items (has_text-holds text items (rw e at h))
]

in_audience-holds :
    (client_id : String) (o : Option Value)
    → in_audience client_id o ≡ true
    → (o ≡ some (Value.str client_id))
      ⊎ ((items : Items) × (o ≡ some (Value.arr items)) × ListsText client_id items)
unfolding in_audience
in_audience-holds client_id none h = cc
in_audience-holds client_id (some (Value.arr items)) h =
    inr (items, refl, has_text-holds client_id items h)
in_audience-holds client_id (some (Value.str other)) h =
    inl (is_text-holds client_id (some (Value.str other)) h)
in_audience-holds client_id (some Value.null) h = cc
in_audience-holds client_id (some (Value.bool b)) h = cc
in_audience-holds client_id (some (Value.num n)) h = cc
in_audience-holds client_id (some (Value.obj payload)) h = cc

untrusted-holds :
    (urls : List String) (o : Option Value)
    → is_untrusted urls o ≡ false
    → (urls ≡ []) ⊎ ((url : String) × Among url urls × (o ≡ some (Value.str url)))
unfolding is_untrusted
untrusted-holds [] o h = inl refl
untrusted-holds (url ∷ urls) o h =
    let hit : any (λ u. is_text u o) (url ∷ urls) ≡ true = ground (arith, h) in
    let (found, among, holds) = any-Among (λ u. is_text u o) (url ∷ urls) hit in
    inr (found, among, is_text-holds found o holds)

replayed-holds :
    (expected : Option String) (o : Option Value)
    → is_replayed expected o ≡ false
    → (text : String) → expected ≡ some text
    → o ≡ some (Value.str text)
unfolding is_replayed
replayed-holds none o h text e = cc
replayed-holds (some wanted) o h text e =
    let same : wanted ≡ text = cc in rw (← same) (is_text-holds wanted o (ground (arith, h)))

validate-Accepted :
    (config : OidcProviderConfig) (claims : Payload) (expected : Option String) (w : World)
    → (validate_id_token_claims config claims expected w).0 ≡ ok tt
    → Accepted config claims expected
unfolding validate_id_token_claims
validate-Accepted config claims expected w returns =
    elim (Bool-cases (in_audience config.client_id (payload_get "aud" claims))) [
      | inr other ↦ let h = rw other at returns in cc
      | inl ours ↦ elim (Bool-cases (is_untrusted config.issuer_urls (payload_get "iss" claims))) [
        | inl untrusted ↦ let h = rw (ours, untrusted) at returns in cc
        | inr trusted ↦ elim (Bool-cases (is_replayed expected (payload_get "nonce" claims))) [
          | inl replayed ↦ let h = rw (ours, trusted, replayed) at returns in cc
          | inr answered ↦ record {
            addressed = in_audience-holds config.client_id (payload_get "aud" claims) ours;
            trusted = untrusted-holds config.issuer_urls (payload_get "iss" claims) trusted;
            answers = replayed-holds expected (payload_get "nonce" claims) answered;
          }
        ]
      ]
    ]

proceed-ok :
    {A B : Type 0} (p : Result A × World) (f : A → Exec B) (b : B)
    → (proceed p f).0 ≡ ok b
    → (a : A) × (p.0 ≡ ok a) × ((f a p.1).0 ≡ ok b)
proceed-ok (ok a, w) f b h = (a, refl, h)
proceed-ok (err e, w) f b h = cc

-- A token response that carries no profile of its own but an identity token: the returned profile is that of the
-- claims in some decoded token, and those claims are for the client, from a trusted issuer (if issuers are
-- configured), and carry the expected nonce (if one is expected).
pub resolve_profile-Accepted :
    (ports : OidcPorts) (config : OidcProviderConfig) (response : Payload)
    (expected : Option String) (profile : Profile) (w : World)
    → (is_dict (payload_get "userinfo" response) || is_true (payload_get "email" response)) ≡ false
    → is_true (payload_get "id_token" response) ≡ true
    → (resolve_profile ports config response expected w).0 ≡ ok profile
    → (token : String) × (claims : Payload) × ((claims_from_id_token ports token w).0 ≡ ok claims)
      × Accepted config claims expected
      × ((profile_from_claims claims w).0 ≡ ok profile)
unfolding resolve_profile profile_from_id_token
resolve_profile-Accepted ports config response expected profile w indirect by_token returns =
    let id_token = value_of (payload_get "id_token" response) in
    let h : (profile_from_id_token ports config id_token expected w).0 ≡ ok profile =
      rw (indirect, by_token) at returns in
    let (token, told, h1) = proceed-ok (text_of id_token w) _ profile h in
    let h1' = rw (text_of-Still id_token w) at h1 in
    let (claims, decodes, h2) = proceed-ok (claims_from_id_token ports token w) _ profile h1' in
    let h2' = rw (claims_from_id_token-Still ports token w) at h2 in
    let (_, valid, h3) =
      proceed-ok (validate_id_token_claims config claims expected w) _ profile h2' in
    let h3' = rw (validate-Still config claims expected w) at h3 in
    (token, claims, decodes, validate-Accepted config claims expected w valid, h3')
