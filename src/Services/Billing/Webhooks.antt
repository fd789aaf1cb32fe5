-- ===== src/Services/Billing/Webhooks.antt =====
-- `process_webhook_event` of `BillingService` (apps/api/kerislab/services.py): an event of a
-- provider is handled once.
use kerislab.Models.Status.{BillingProvider}
use kerislab.Services.Billing.{provider_of, confirm_checkout_session}
use kerislab.Prelude.{
  String, Option, some, false, none, true, first, if◌then◌else◌, ◌&&◌, ◌==◌, concat, ◌∷◌, [],
}
use kerislab.Models.Money.{BillingWebhookEvent}
use kerislab.Models.Payload.{Payload, Value}
use kerislab.Exec.{
  Result, Exec, World, pure, ok, ◌>>=◌, now_utc, new_entity, next_id, gets, add, ◌>>◌, attempt, put,
  sync, err, message, raise, or_raise, key_error, billing_error,
}
use kerislab.Store.Collections.{billing_webhook_events}
use kerislab.Models.Values.{same_billing_provider}
use kerislab.Dynamic.{is_truthy, text_of, payload_get}
use kerislab.Dict.{values}

-- `BillingWebhookEvent(...)` in the given world
abbrev pub webhook_event_at :
    BillingProvider → String → String → Payload → World → BillingWebhookEvent
webhook_event_at provider provider_event_id event_type payload w = record {
  provider = provider;
  provider_event_id = provider_event_id;
  event_type = event_type;
  payload = payload;
  processed = false;
  error = "";
  id = next_id "bilwh" w.env w.drawn;
  received_at = w.env.clock w.ticks;
  processed_at = none;
}

-- `str(payload.get(name) or "")`, and with `or None` behind it
unfoldable pub optional_text : Option Value → Exec (Option String)
optional_text none = pure none
optional_text (some value) =
    if is_truthy value
    then (do text ← text_of value; pure (if text == "" then none else some text))
    else pure none

-- the body of the `try`
unfoldable pub handle_event : String → Payload → Exec Unit
unfolding optional_text
handle_event event_type payload =
    if event_type == "checkout.session.completed"
    then (do
      value ← or_raise (payload_get "checkout_session_id" payload) (key_error "checkout_session_id")
      checkout_session_id ← text_of value
      provider_payment_id ← optional_text (payload_get "provider_payment_id" payload)
      confirm_checkout_session checkout_session_id provider_payment_id
      pure tt)
    else raise
        (billing_error (concat ("unsupported billing webhook event type: " ∷ event_type ∷ [])))

-- behind the `try`
unfoldable pub close_event : BillingWebhookEvent → Result Unit → Exec BillingWebhookEvent
close_event event (ok _) = do
  now ← now_utc
  let processed : BillingWebhookEvent = record event {
    processed = true;
    error = "";
    processed_at = some now;
  }
  put billing_webhook_events event.id processed
  sync
  pure processed
close_event event (err e) = do
  now ← now_utc
  put billing_webhook_events event.id (record event { error = message e; processed_at = some now })
  sync
  raise e

unfoldable pub process_new : BillingProvider → String → String → Payload → Exec BillingWebhookEvent
unfolding handle_event close_event
process_new provider provider_event_id event_type payload = do
  made ← new_entity (webhook_event_at provider provider_event_id event_type payload)
  event ← add billing_webhook_events made
  outcome ← attempt (handle_event event_type payload)
  close_event event outcome

unfoldable pub or_process :
    BillingProvider
    → String
    → String
    → Payload
    → Option BillingWebhookEvent
    → Exec BillingWebhookEvent
unfolding process_new
or_process provider provider_event_id event_type payload (some existing) = pure existing
or_process provider provider_event_id event_type payload none =
    process_new provider provider_event_id event_type payload

unfoldable pub process_webhook_event : String → String → String → Payload → Exec BillingWebhookEvent
unfolding or_process
process_webhook_event provider_text provider_event_id event_type payload = do
  provider ← provider_of provider_text
  existing ← gets (λ s.
      first
        (λ event.
          same_billing_provider event.provider provider
          && event.provider_event_id == provider_event_id)
        (values s.billing_webhook_events))
  or_process provider provider_event_id event_type payload existing
