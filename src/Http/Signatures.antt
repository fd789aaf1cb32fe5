-- ===== src/Http/Signatures.antt =====
-- Which provider events `billing_webhook` of apps/api/kerislab/main.py handles.
use kerislab.Http.Billing.{BillingWebhookPayload}
use kerislab.Prelude.{Option, String, some, ◌==◌, none, if◌then◌else◌, ◌≡◌, ◌≢◌}
use kerislab.Exec.{Error, http_exception}

-- A secret is configured, and the event carries the very signature that the secret gives it.
pub record Genuine (secret : Option String) (hmac_of : String → BillingWebhookPayload → String)
    (payload : BillingWebhookPayload) (signature : Option String) : Type 0 where
  pub key : String
  pub configured : secret ≡ some key
  pub nonempty : key ≢ ""
  pub carried : signature ≡ some (hmac_of key payload)
  pub substantial : hmac_of key payload ≢ ""

abbrev pub unconfigured : Error
unconfigured = http_exception 400 "KERISLAB_BILLING_WEBHOOK_SECRET is required"

abbrev pub refusal : Option String → Error
refusal none = unconfigured
refusal (some key) =
    if key == "" then unconfigured else http_exception 401 "Invalid billing webhook signature"
