-- ===== src/Services/Bystanders/Billing.antt =====
-- The books behind confirmations and provider events (`BillingService` of
-- apps/api/kerislab/services.py).
use kerislab.Dynamic.{text_of, is_truthy, payload_get}
use kerislab.Services.Billing.Webhooks.{
  optional_text, or_process, handle_event, process_webhook_event, close_event, process_new,
  webhook_event_at,
}
use kerislab.Services.Billing.{
  confirm_checkout_session, confirm_by_status, confirm_created, provider_of, new_invoice,
}
use kerislab.Prelude.{Option, String, Bool-cases, some, ◌==◌, inr, inl, none}
use kerislab.Models.Money.{BillingWebhookEvent, BillingCheckoutSession}
use kerislab.Models.Payload.{Value, Payload}
use kerislab.Exec.{World, Result, ok, err, or_raise, get}
use kerislab.Models.Status.{BillingProvider, CheckoutSessionStatus}
use kerislab.Services.Bystanders.{Kept, then-Kept, or_raise-Kept, get-Kept}
use kerislab.Services.Credits.{grant}
use kerislab.Store.Collections.{billing_checkout_sessions}
use kerislab.Models.Values.{billing_provider_of}
use kerislab.Services.Books.{grant-Books}
use kerislab.Services.Billing.Confirming.{confirmed_before-world}

confirm_by-Kept :
    (id : String) (session : BillingCheckoutSession) (p : Option String)
    (status : CheckoutSessionStatus) (w : World)
    → Kept w
    → Kept (confirm_by_status id session p status w).1
unfolding confirm_by_status confirm_created new_invoice
confirm_by-Kept id session p CheckoutSessionStatus.created w b =
    then-Kept (grant session.workspace_id session.credit_amount _ _) _
      (grant-Books session.workspace_id session.credit_amount _ _ b) (λ _ v h. h)
confirm_by-Kept id session p CheckoutSessionStatus.paid w b =
    rw (confirmed_before-world session w) b
confirm_by-Kept id session p CheckoutSessionStatus.cancelled w b = b

pub confirm_checkout_session-Kept :
    (id : String) (p : Option String) (w : World)
    → Kept w
    → Kept (confirm_checkout_session id p w).1
unfolding confirm_checkout_session
confirm_checkout_session-Kept id p w b =
    then-Kept (get billing_checkout_sessions id _ w) _ (get-Kept billing_checkout_sessions id _ w b)
      (λ session v h. confirm_by-Kept id session p session.status v h)

text_of-Kept : (value : Value) (w : World) → Kept w → Kept (text_of value w).1
unfolding text_of
text_of-Kept (Value.str text) w b = b
text_of-Kept _ w b = b

optional_text-Kept : (o : Option Value) (w : World) → Kept w → Kept (optional_text o w).1
unfolding optional_text
optional_text-Kept none w b = b
optional_text-Kept (some value) w b = elim (Bool-cases (is_truthy value)) [
  | inl e ↦ rw e (then-Kept (text_of value w) _ (text_of-Kept value w b) (λ _ v h. h))
  | inr e ↦ rw e b
]

handle_event-Kept :
    (event_type : String) (payload : Payload) (w : World)
    → Kept w
    → Kept (handle_event event_type payload w).1
unfolding handle_event
handle_event-Kept event_type payload w b =
    elim (Bool-cases (event_type == "checkout.session.completed")) [
      | inr other ↦ rw other b
      | inl known ↦ rw known (
          then-Kept (or_raise (payload_get "checkout_session_id" payload) _ w) _
            (or_raise-Kept (payload_get "checkout_session_id" payload) _ w b)
            λ value v h. then-Kept (text_of value v) _ (text_of-Kept value v h) λ id u k.
              then-Kept (optional_text (payload_get "provider_payment_id" payload) u) _
                (optional_text-Kept (payload_get "provider_payment_id" payload) u k)
                λ p t l.
                  then-Kept (confirm_checkout_session id p t) _
                    (confirm_checkout_session-Kept id p t l) (λ _ r m. m))
    ]

close_event-Kept :
    (event : BillingWebhookEvent) (outcome : Result Unit) (w : World)
    → Kept w
    → Kept (close_event event outcome w).1
unfolding close_event
close_event-Kept event (ok _) w b = b
close_event-Kept event (err e) w b = b

or_process-Kept :
    (provider : BillingProvider) (id event_type : String) (payload : Payload)
    (existing : Option BillingWebhookEvent) (w : World)
    → Kept w
    → Kept (or_process provider id event_type payload existing w).1
unfolding or_process process_new
or_process-Kept provider id event_type payload (some event) w b = b
or_process-Kept provider id event_type payload none w b =
    close_event-Kept (webhook_event_at provider id event_type payload w) _ _
      (handle_event-Kept event_type payload _ b)

pub process_webhook_event-Kept :
    (provider id event_type : String) (payload : Payload) (w : World)
    → Kept w
    → Kept (process_webhook_event provider id event_type payload w).1
unfolding process_webhook_event provider_of
process_webhook_event-Kept provider id event_type payload w b =
    then-Kept (or_raise (billing_provider_of provider) _ w) _
      (or_raise-Kept (billing_provider_of provider) _ w b)
      (λ p v h. or_process-Kept p id event_type payload _ v h)
