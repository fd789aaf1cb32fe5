-- ===== src/Examples/Logins.antt =====
-- Runs of a login by an identity token (apps/api/kerislab/auth.py), and of a browser plan.
use Prim.Native.String.{count}
use Prim.Native.Nat.{◌%◌}
use kerislab.Services.Browser.Playwright.{walk-ungated, walk, Page, blank_visit}
use kerislab.Oidc.Padding.{padded-whole}
use kerislab.Oidc.Validation.{resolve_profile-Accepted, Accepted}
use kerislab.Examples.Requests.{sample_ports}
use kerislab.Examples.Sample.{sample_world}
use kerislab.Prelude.{
  String, List, none, some, ◌≡◌, ◌∷◌, split, [], true, select, false, ◌≤◌, concat, not, ◌||◌, ◌+◌,
  repeat, refl, any,
}
use kerislab.Models.Payload.{Payload}
use kerislab.Models.Scanning.{BrowserAction}
use kerislab.Oidc.{
  resolve_profile, padded, Profile, OidcProviderConfig, profile_from_id_token, claims_from_id_token,
  is_dict, is_true, profile_from_claims, validate_id_token_claims, in_audience, is_untrusted,
  is_replayed,
}
use kerislab.Dynamic.{payload_get, is_truthy, text_of}
use kerislab.Services.Scans.{text_field}
use kerislab.Models.Status.{AuthProvider}
use kerislab.Exec.{ok}

abbrev sample_config : OidcProviderConfig
sample_config = record {
  provider = AuthProvider.google;
  client_id = "client";
  client_secret = "secret";
  authorize_url = "https://idp.example.com/authorize";
  token_url = "https://idp.example.com/token";
  userinfo_url = none;
  issuer_urls = "https://idp.example.com" ∷ [];
  redirect_uri = "https://app.example.com/callback";
  scopes = "openid" ∷ [];
}

abbrev sample_response : Payload
sample_response = text_field "id_token" "head.body.signature"

abbrev sample_profile : Profile
sample_profile = record { email = "a@example.com"; display_name = "A"; avatar_url = none }

indirect-response :
    (is_dict (payload_get "userinfo" sample_response)
      || is_true (payload_get "email" sample_response))
    ≡ false
unfolding payload_get text_field
indirect-response = refl

by_token-response : is_true (payload_get "id_token" sample_response) ≡ true
unfolding payload_get text_field is_truthy
by_token-response = refl

profile-resolved :
    (resolve_profile sample_ports sample_config sample_response (some "nonce") sample_world).0
    ≡ ok sample_profile
unfolding resolve_profile profile_from_id_token claims_from_id_token split padded concat repeat
    validate_id_token_claims in_audience is_untrusted is_replayed any profile_from_claims
    payload_get text_field is_truthy text_of
profile-resolved = refl

resolve_profile-Accepted_example :
    (token : String) × (claims : Payload) × ((claims_from_id_token sample_ports token
        sample_world).0
      ≡ ok claims)
    × Accepted sample_config claims (some "nonce")
    × ((profile_from_claims claims sample_world).0 ≡ ok sample_profile)
resolve_profile-Accepted_example =
    resolve_profile-Accepted sample_ports sample_config sample_response (some "nonce")
      sample_profile sample_world indirect-response by_token-response profile-resolved

padded-whole_example :
    (count (padded "abcde") % 4 ≡ 0)
    × (count "abcde" ≤ count (padded "abcde"))
    × (count (padded "abcde") ≤ count "abcde" + 3)
padded-whole_example = padded-whole "abcde"

abbrev sample_page : Page
sample_page = record {
  raised = λ calls. none;
  url = λ calls. "https://example.com/app";
  screenshot_b64 = λ calls. "";
  source = λ calls. "";
  heading = λ calls. "";
}

abbrev pub visit_action : BrowserAction
visit_action = record {
  action_type = "navigate";
  selector = "document";
  description = "Open the target";
  value = some "https://example.com/app";
  requires_approval = false;
  id = "act_1";
}

abbrev upload_action : BrowserAction
upload_action = record {
  action_type = "submit_controlled_payload";
  selector = "input[type=file]";
  description = "Upload after approval";
  value = some "kerislab-controlled-upload.txt";
  requires_approval = true;
  id = "act_2";
}

abbrev sample_actions : List BrowserAction
sample_actions = visit_action ∷ upload_action ∷ []

walk-ungated_example :
    walk sample_page sample_actions blank_visit
    ≡ walk sample_page (select (λ action. not action.requires_approval) sample_actions) blank_visit
walk-ungated_example = walk-ungated sample_page sample_actions blank_visit
