-- ===== src/Examples/Billing.antt =====
-- Runs of the billing service.
use kerislab.Dict.{lookup, values}
use kerislab.Models.Values.{billing_provider_of}
use kerislab.Services.Billing.{confirm_checkout_session}
use kerislab.Models.Payload.{Payload}
use kerislab.Models.Money.{BillingCheckoutSession, BillingWebhookEvent}
use kerislab.Services.Billing.Webhooks.{process_webhook_event}
use kerislab.Exec.{World, ok}
use kerislab.Services.Scans.{text_field}
use kerislab.Prelude.{Among, none, some, ◌≡◌, ◌∷◌, refl, []}
use kerislab.Examples.Sample.{in_world, sample_store}
use kerislab.Models.Status.{BillingProvider, CheckoutSessionStatus}
use kerislab.Prelude.Int.{pos, ◌+ℤ◌}
use kerislab.Services.Billing.Confirming.{
  Paid, confirm_checkout_session-confirm_checkout_session, confirm_checkout_session-pays,
}
use kerislab.Services.Credits.Ledger.{balance_of}
use kerislab.Services.Billing.Replays.{process_webhook_event-process_webhook_event}

abbrev sample_checkout : BillingCheckoutSession
sample_checkout = record {
  workspace_id = "wsp";
  provider = BillingProvider.manual;
  credit_amount = pos 3;
  unit_amount_cents = pos 500;
  currency = "USD";
  status = CheckoutSessionStatus.created;
  provider_session_id = none;
  checkout_url = none;
  id = "bilchk";
  created_at = 0;
  completed_at = none;
}

abbrev billing_world : World
billing_world =
    in_world (record sample_store { billing_checkout_sessions = ("bilchk", sample_checkout) ∷ [] })

checkout-found :
    lookup "bilchk" billing_world.store.billing_checkout_sessions ≡ some sample_checkout
unfolding lookup
checkout-found = refl

confirm_checkout_session-pays_example :
    let (r, v) = confirm_checkout_session "bilchk" none billing_world in
    Paid "bilchk" sample_checkout r v
    × ((balance_of "wsp" v.store).available
        ≡ (balance_of "wsp" billing_world.store).available +ℤ pos 3)
confirm_checkout_session-pays_example =
    confirm_checkout_session-pays "bilchk" none sample_checkout billing_world checkout-found refl
      refl

confirm_checkout_session-confirm_checkout_session_example :
    let v = (confirm_checkout_session "bilchk" none billing_world).1 in
    (confirm_checkout_session "bilchk" (some "pay_2") v).1 ≡ v
confirm_checkout_session-confirm_checkout_session_example =
    confirm_checkout_session-confirm_checkout_session "bilchk" none (some "pay_2") billing_world

abbrev sample_payload : Payload
sample_payload = text_field "checkout_session_id" "bilchk"

manual-known : billing_provider_of "manual" ≡ some BillingProvider.manual
unfolding billing_provider_of
manual-known = refl

process_webhook_event-process_webhook_event_example :
    let v =
      (process_webhook_event "manual" "evt_1" "checkout.session.completed" sample_payload
        billing_world).1 in
    (event : BillingWebhookEvent) × (process_webhook_event "manual" "evt_1"
        "checkout.session.completed" sample_payload v
      ≡ (ok event, v))
    × Among event (values v.store.billing_webhook_events)
    × (event.provider ≡ BillingProvider.manual)
    × (event.provider_event_id ≡ "evt_1")
process_webhook_event-process_webhook_event_example =
    process_webhook_event-process_webhook_event BillingProvider.manual "manual" "evt_1"
      "checkout.session.completed" "checkout.session.completed" sample_payload sample_payload
      billing_world manual-known
