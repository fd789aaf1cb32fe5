-- ===== src/Services/Billing.antt =====
-- `BillingService` of apps/api/kerislab/services.py: checkout sessions, their confirmation, and
-- provider events. A provider is given by its text, as `BillingProvider(provider)` takes it.
pub mod Webhooks
pub mod Confirming
pub mod Replays
use kerislab.Services.Credits
use kerislab.Models.Status.{BillingProvider, CheckoutSessionStatus, InvoiceStatus, PaymentStatus}
use kerislab.Prelude.{
  String, Option, concat, some, if◌then◌else◌, ◌∷◌, [], ◌==◌, first, none, ◌&&◌, occurs_in, reverse,
}
use kerislab.Models.Money.{
  BillingCheckoutSession, BillingCustomer, BillingInvoice, BillingPayment, CreditLedgerEntry,
}
use kerislab.Prelude.Int.{ℤ, pos, ◌*ℤ◌, leb_ℤ}
use kerislab.Exec.{
  World, Exec, or_raise, raise, pure, ◌>>=◌, new_entity, gets, get, now_utc, billing_error, ◌>>◌,
  value_error, asks, add, put, raise_if, new_id, next_id, stop_iteration, sync,
}
use kerislab.Models.Values.{billing_provider_value, billing_provider_of, same_billing_provider}
use kerislab.Store.Collections.{
  billing_checkout_sessions, billing_invoices, billing_customers, billing_payments,
}
use kerislab.Dict.{values}

abbrev pub default_unit_amount_cents : ℤ
default_unit_amount_cents = pos 500

-- `BillingProvider(provider)`
unfoldable pub provider_of : String → Exec BillingProvider
provider_of text =
    or_raise (billing_provider_of text)
      (value_error (concat ("'" ∷ text ∷ "' is not a valid BillingProvider" ∷ [])))

-- `text or default`
abbrev text_or : Option String → String → String
text_or none default = default
text_or (some text) default = if text == "" then default else text

abbrev customer_at : String → BillingProvider → Option String → String → World → BillingCustomer
customer_at workspace_id provider provider_customer_id billing_email w = record {
  workspace_id = workspace_id;
  provider = provider;
  provider_customer_id =
      text_or provider_customer_id
        (concat (billing_provider_value provider ∷ ":" ∷ workspace_id ∷ []));
  billing_email = billing_email;
  id = next_id "bilcus" w.env w.drawn;
  created_at = w.env.clock w.ticks;
}

unfoldable pub or_new_customer :
    String
    → BillingProvider
    → Option String
    → String
    → Option BillingCustomer
    → Exec BillingCustomer
or_new_customer workspace_id provider provider_customer_id billing_email (some existing) =
    pure existing
or_new_customer workspace_id provider provider_customer_id billing_email none = do
  made ← new_entity (customer_at workspace_id provider provider_customer_id billing_email)
  customer ← add billing_customers made
  sync
  pure customer

-- `ensure_customer` at a provider that is already a member of the enumeration
unfoldable pub ensure_customer :
    String → String → BillingProvider → Option String → Exec BillingCustomer
unfolding or_new_customer
ensure_customer workspace_id billing_email provider provider_customer_id = do
  existing ← gets (λ s.
      first
        (λ customer.
          customer.workspace_id == workspace_id && same_billing_provider customer.provider provider)
        (values s.billing_customers))
  or_new_customer workspace_id provider provider_customer_id billing_email existing

-- `BillingCheckoutSession(...)`, whose reference is drawn from the clock before the session's own
-- identifier and creation time
unfoldable pub new_checkout : String → BillingProvider → ℤ → ℤ → Exec BillingCheckoutSession
new_checkout workspace_id provider credit_amount unit_amount_cents = do
  stamp ← now_utc
  reference ← asks (λ env. env.strftime stamp)
  id ← new_id "bilchk"
  created_at ← now_utc
  pure (record {
    workspace_id = workspace_id;
    provider = provider;
    credit_amount = credit_amount;
    unit_amount_cents = unit_amount_cents;
    currency = "USD";
    status = CheckoutSessionStatus.created;
    provider_session_id = some (concat (billing_provider_value provider ∷ ":" ∷ reference ∷ []));
    checkout_url = some (concat ("https://billing.kerislab.local/checkout/" ∷ id ∷ []));
    id = id;
    created_at = created_at;
    completed_at = none;
  })

unfoldable pub create_checkout_session :
    String → ℤ → String → String → ℤ → Exec BillingCheckoutSession
unfolding new_checkout provider_of
create_checkout_session workspace_id credit_amount billing_email provider_text unit_amount_cents =
    do
      provider ← provider_of provider_text
      raise_if (leb_ℤ credit_amount (pos 0)) (billing_error "credit_amount must be positive")
      raise_if (leb_ℤ unit_amount_cents (pos 0))
          (billing_error "unit_amount_cents must be positive")
      ensure_customer workspace_id billing_email provider none
      made ← new_checkout workspace_id provider credit_amount unit_amount_cents
      session ← add billing_checkout_sessions made
      sync
      pure session

-- What a confirmation returns.
pub record Confirmation : Type 0 where
  pub session : BillingCheckoutSession
  pub invoice : BillingInvoice
  pub payment : BillingPayment
  pub ledger_entry : CreditLedgerEntry

-- `f"checkout:{session.id}"`
abbrev pub checkout_mark : BillingCheckoutSession → String
checkout_mark session = concat ("checkout:" ∷ session.id ∷ [])

-- The answer to a confirmation of a paid session: what the first confirmation left behind.
unfoldable pub confirmed_before : BillingCheckoutSession → Exec Confirmation
confirmed_before session = do
  invoices ← gets (λ s. values s.billing_invoices)
  invoice ←
      or_raise (first (λ invoice. invoice.checkout_session_id == session.id) invoices)
        stop_iteration
  payments ← gets (λ s. values s.billing_payments)
  payment ← or_raise (first (λ payment. payment.invoice_id == invoice.id) payments) stop_iteration
  ledger ← gets (λ s. s.credit_ledger)
  entry ←
      or_raise
        (first
          (λ entry.
            entry.workspace_id == session.workspace_id
            && occurs_in (checkout_mark session) entry.note)
          (reverse ledger))
        stop_iteration
  pure (record { session = session; invoice = invoice; payment = payment; ledger_entry = entry })

-- `BillingInvoice(...)`: `paid_at` is an argument, so it is read before the defaults
unfoldable pub new_invoice : BillingCheckoutSession → Exec BillingInvoice
new_invoice session = do
  paid_at ← now_utc
  id ← new_id "bilinv"
  created_at ← now_utc
  pure (record {
    workspace_id = session.workspace_id;
    checkout_session_id = session.id;
    provider = session.provider;
    amount_cents = session.credit_amount *ℤ session.unit_amount_cents;
    currency = session.currency;
    status = InvoiceStatus.paid;
    provider_invoice_id =
        some (concat (billing_provider_value session.provider ∷ ":invoice:" ∷ session.id ∷ []));
    id = id;
    created_at = created_at;
    paid_at = some paid_at;
  })

abbrev pub payment_at :
    BillingCheckoutSession → BillingInvoice → Option String → World → BillingPayment
payment_at session invoice provider_payment_id w = record {
  workspace_id = session.workspace_id;
  invoice_id = invoice.id;
  provider = session.provider;
  amount_cents = session.credit_amount *ℤ session.unit_amount_cents;
  currency = session.currency;
  status = PaymentStatus.succeeded;
  provider_payment_id = some (
      text_or provider_payment_id
        (concat (billing_provider_value session.provider ∷ ":payment:" ∷ session.id ∷ [])));
  id = next_id "bilpay" w.env w.drawn;
  created_at = w.env.clock w.ticks;
}

-- the note of the granted credits
abbrev pub checkout_note : BillingCheckoutSession → BillingInvoice → String
checkout_note session invoice =
    concat ("Billing checkout confirmed checkout:" ∷ session.id ∷ " invoice:" ∷ invoice.id ∷ [])

-- The first confirmation of a created session.
unfoldable pub confirm_created : String → BillingCheckoutSession → Option String → Exec Confirmation
unfolding new_invoice
confirm_created checkout_session_id session provider_payment_id = do
  invoice ← new_invoice session
  payment ← new_entity (payment_at session invoice provider_payment_id)
  completed_at ← now_utc
  let paid : BillingCheckoutSession = record session {
    status = CheckoutSessionStatus.paid;
    completed_at = some completed_at;
  }
  put billing_checkout_sessions checkout_session_id paid
  add billing_invoices invoice
  add billing_payments payment
  entry ← Credits.grant session.workspace_id session.credit_amount (checkout_note session invoice)
  sync
  pure (record { session = paid; invoice = invoice; payment = payment; ledger_entry = entry })

unfoldable pub confirm_by_status :
    String → BillingCheckoutSession → Option String → CheckoutSessionStatus → Exec Confirmation
unfolding confirmed_before confirm_created
confirm_by_status checkout_session_id session provider_payment_id CheckoutSessionStatus.paid =
    confirmed_before session
confirm_by_status checkout_session_id session provider_payment_id CheckoutSessionStatus.created =
    confirm_created checkout_session_id session provider_payment_id
confirm_by_status checkout_session_id session provider_payment_id CheckoutSessionStatus.cancelled =
    raise (billing_error "checkout session cannot be confirmed")

unfoldable pub confirm_checkout_session : String → Option String → Exec Confirmation
unfolding confirm_by_status
confirm_checkout_session checkout_session_id provider_payment_id = do
  session ← get billing_checkout_sessions checkout_session_id "billing checkout session"
  confirm_by_status checkout_session_id session provider_payment_id session.status
