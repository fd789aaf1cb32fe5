-- ===== src/Http/Billing.antt =====
-- The handlers of credits and billing in apps/api/kerislab/main.py. The signature of a provider's
-- event is the HMAC that `hmac` and `json` make of the body and the secret: a parameter.
use kerislab.Prelude.{
  Option, String, Bool, false, if◌then◌else◌, some, List, ◌==◌, not, none, ◌&&◌, select, true,
}
use kerislab.Prelude.Int.{ℤ}
use kerislab.Models.Payload.{Payload, Value}
use kerislab.Exec.{Exec, pure, raise, http_exception, ◌>>=◌, ◌>>◌, get, raise_if, gets, at}
use kerislab.Models.Money.{
  CreditAccount, BillingWebhookEvent, BillingCheckoutSession, CreditLedgerEntry,
}
use kerislab.Services.Billing.{Confirmation, confirm_checkout_session, create_checkout_session}
use kerislab.Dynamic.{is_truthy, text_of, payload_get}
use kerislab.Http.{require_workspace_access, require_role, handled, workspace_admin_roles}
use kerislab.Services.Billing.Webhooks.{process_webhook_event}
use kerislab.Store.Collections.{billing_checkout_sessions, credit_accounts}
use kerislab.Services.Credits.{account, grant}
use kerislab.Services.Audit.{log, by_actor}
use kerislab.Models.Status.{AuditAction}
use kerislab.Services.Scans.{text_field}

unfoldable pub get_credits : String → String → Exec CreditAccount
get_credits workspace_id user_id = do
  require_workspace_access user_id workspace_id
  account workspace_id

-- the `try` of `grant_credits`
unfoldable pub grant_logged : String → ℤ → String → String → Exec CreditLedgerEntry
grant_logged workspace_id amount note user_id = do
  entry ← grant workspace_id amount note
  log AuditAction.credits_granted (record (by_actor (some user_id)) {
    workspace_id = some workspace_id;
    details = Payload.field "amount" (Value.num amount) (text_field "note" note);
  })
  pure entry

unfoldable pub grant_credits :
    String → ℤ → String → String → Exec (CreditLedgerEntry × CreditAccount)
grant_credits workspace_id amount note user_id = do
  require_role user_id workspace_id workspace_admin_roles
  entry ← handled (grant_logged workspace_id amount note user_id)
  credits ← at credit_accounts workspace_id
  pure (entry, credits)

unfoldable pub credit_ledger : String → String → Exec (List CreditLedgerEntry)
credit_ledger workspace_id user_id = do
  require_workspace_access user_id workspace_id
  gets (λ s. select (λ entry. entry.workspace_id == workspace_id) s.credit_ledger)

-- the body of `create_billing_checkout`
pub record BillingCheckoutCreate : Type 0 where
  pub credit_amount : ℤ
  pub billing_email : String
  pub unit_amount_cents : ℤ
  pub provider : String

unfoldable pub create_billing_checkout :
    String → BillingCheckoutCreate → String → Exec BillingCheckoutSession
create_billing_checkout workspace_id payload user_id = do
  require_role user_id workspace_id workspace_admin_roles
  handled (do
    session ←
        create_checkout_session workspace_id payload.credit_amount payload.billing_email
          payload.provider payload.unit_amount_cents
    log AuditAction.billing_checkout_created (record (by_actor (some user_id)) {
      workspace_id = some workspace_id;
      details =
          Payload.field "checkout_session_id" (Value.str session.id)
            (Payload.field "credit_amount" (Value.num session.credit_amount) Payload.end);
    })
    pure session)

-- the `try` of `confirm_billing_checkout`
unfoldable pub confirm_logged : String → Option String → String → Exec Confirmation
confirm_logged checkout_session_id provider_payment_id user_id = do
  c ← confirm_checkout_session checkout_session_id provider_payment_id
  log AuditAction.billing_checkout_confirmed (record (by_actor (some user_id)) {
    workspace_id = some c.session.workspace_id;
    details = Payload.field "checkout_session_id" (Value.str c.session.id) (
        Payload.field "invoice_id" (Value.str c.invoice.id) (
          Payload.field "payment_id" (Value.str c.payment.id)
            (text_field "credit_ledger_entry_id" c.ledger_entry.id)));
  })
  pure c

-- `payload.get("provider_payment_id")` is the argument.
unfoldable pub confirm_billing_checkout :
    String → Option String → String → Exec (Confirmation × CreditAccount)
confirm_billing_checkout checkout_session_id provider_payment_id user_id = do
  session ← get billing_checkout_sessions checkout_session_id "billing checkout session"
  require_role user_id session.workspace_id workspace_admin_roles
  c ← handled (confirm_logged checkout_session_id provider_payment_id user_id)
  credits ← at credit_accounts c.session.workspace_id
  pure (c, credits)

-- the body of `billing_webhook`
pub record BillingWebhookPayload : Type 0 where
  pub provider : String
  pub provider_event_id : String
  pub event_type : String
  pub data_fields : Payload

-- `str(payload.data.get("workspace_id") or "")`, and `or None`
or_none : String → Option String
or_none text = if text == "" then none else some text

unfoldable pub event_workspace : Option Value → Exec (Option String)
unfolding or_none
event_workspace none = pure none
event_workspace (some value) =
    if is_truthy value then (do text ← text_of value; pure (or_none text)) else pure none

-- `if event.processed: ...`
unfoldable pub log_processed : BillingWebhookPayload → Bool → Exec Unit
unfolding event_workspace
log_processed payload false = pure tt
log_processed payload true = do
  workspace_id ← event_workspace (payload_get "workspace_id" payload.data_fields)
  log AuditAction.billing_checkout_confirmed (record (by_actor none) {
    workspace_id = workspace_id;
    details =
        Payload.field "provider_event_id" (Value.str payload.provider_event_id)
          (text_field "event_type" payload.event_type);
  })
  pure tt

-- the `try` of `billing_webhook`
unfoldable pub process_logged : BillingWebhookPayload → Exec BillingWebhookEvent
unfolding log_processed
process_logged payload = do
  event ←
      process_webhook_event payload.provider payload.provider_event_id payload.event_type
        payload.data_fields
  log_processed payload event.processed
  pure event

-- `x_kerislab_signature and hmac.compare_digest(x_kerislab_signature, expected)`
abbrev pub is_signed : Option String → String → Bool
is_signed none expected = false
is_signed (some signature) expected = not (signature == "") && signature == expected

module _ (secret : Option String) (hmac_of : String → BillingWebhookPayload → String) where
  unfoldable pub secret_of : Option String → Exec String
  secret_of none = raise (http_exception 400 "KERISLAB_BILLING_WEBHOOK_SECRET is required")
  secret_of (some text) = do
    raise_if (text == "") (http_exception 400 "KERISLAB_BILLING_WEBHOOK_SECRET is required")
    pure text

  unfoldable pub billing_webhook : BillingWebhookPayload → Option String → Exec BillingWebhookEvent
  unfolding secret_of
  billing_webhook payload x_kerislab_signature = do
    key ← secret_of secret
    raise_if (not (is_signed x_kerislab_signature (hmac_of key payload)))
        (http_exception 401 "Invalid billing webhook signature")
    handled (process_logged payload)
