-- ===== src/Services/Billing/Replays.antt =====
-- Provider events and confirmations (`BillingService` of apps/api/kerislab/services.py) that come
-- a second time.
use kerislab.Dict.{lookup, values, insert, Dict, lookup-insert_self}
use kerislab.Models.Status.{BillingProvider}
use kerislab.Prelude.{
  Among, ◌∷◌, String, first, Bool, Option, ◌≡◌, some, true, ◌&&◌, ◌==◌, Bool-cases, eq_refl, refl,
  inl, Option-cases, inr, arith, eq_iff, [], first-holds, first-Among,
}
use kerislab.Exec.{World, Result, ok, err, message}
use kerislab.Store.State.{Store}
use kerislab.Services.Billing.Webhooks.{
  process_new, process_webhook_event, close_event, or_process, webhook_event_at,
}
use kerislab.Models.Money.{BillingWebhookEvent}
use kerislab.Models.Payload.{Payload}
use kerislab.Models.Values.{same_billing_provider, billing_provider_of}
use kerislab.Services.Billing.{provider_of}

-- If an entry passes a test, a search finds one.
first-of_lookup {ℓ} :
    {V : Type ℓ} (p : V → Bool) (k : String) (v : V) (d : Dict V)
    → lookup k d ≡ some v
    → p v ≡ true
    → (x : V) × (first p (values d) ≡ some x)
unfolding lookup values first
first-of_lookup p k v [] h e = cc
first-of_lookup p k v ((j, x) ∷ d) h e = elim (Bool-cases (p x)) [
  | inl hit ↦ rw hit (x, refl)
  | inr miss ↦ rw miss (first-of_lookup p k v d (ground (arith, eq_iff j k)) e)
]

same_billing_provider_refl : (p : BillingProvider) → same_billing_provider p p ≡ true
unfolding same_billing_provider
same_billing_provider_refl BillingProvider.manual = refl
same_billing_provider_refl BillingProvider.stripe = refl

same_provider : (p q : BillingProvider) → same_billing_provider p q ≡ true → p ≡ q
unfolding same_billing_provider
same_provider BillingProvider.manual BillingProvider.manual h = refl
same_provider BillingProvider.manual BillingProvider.stripe h = cc
same_provider BillingProvider.stripe BillingProvider.manual h = cc
same_provider BillingProvider.stripe BillingProvider.stripe h = refl

module _ (provider : BillingProvider) (provider_event_id : String) where
  -- the recorded event of the provider
  abbrev pub recorded : Store → Option BillingWebhookEvent
  recorded s =
      first
        (λ event.
          same_billing_provider event.provider provider
          && event.provider_event_id == provider_event_id)
        (values s.billing_webhook_events)

  abbrev Recorded : World → Type 0
  Recorded w = (event : BillingWebhookEvent) × (recorded w.store ≡ some event)

  recorded_after :
      (event : BillingWebhookEvent) (key : String) (s : Store)
      → event.provider ≡ provider
      → event.provider_event_id ≡ provider_event_id
      → (x : BillingWebhookEvent) × (recorded
            (record s { billing_webhook_events = insert key event s.billing_webhook_events })
          ≡ some x)
  recorded_after event key s own same =
      first-of_lookup _ key event (insert key event s.billing_webhook_events)
        (lookup-insert_self key event s.billing_webhook_events)
        (rw (own, same, eq_refl, same_billing_provider_refl) refl)

  close_event-Recorded :
      (event : BillingWebhookEvent) (outcome : Result Unit) (w : World)
      → event.provider ≡ provider
      → event.provider_event_id ≡ provider_event_id
      → Recorded (close_event event outcome w).1
  unfolding close_event
  close_event-Recorded event (ok _) w own same =
      recorded_after
        (record event { processed = true; error = ""; processed_at = some (w.env.clock w.ticks) })
        event.id w.store own same
  close_event-Recorded event (err e) w own same =
      recorded_after (record event { error = message e; processed_at = some (w.env.clock w.ticks) })
        event.id w.store own same

  process_new-Recorded :
      (event_type : String) (payload : Payload) (w : World)
      → Recorded (process_new provider provider_event_id event_type payload w).1
  unfolding process_new
  process_new-Recorded event_type payload w =
      close_event-Recorded (webhook_event_at provider provider_event_id event_type payload w) _ _
        refl refl

  or_process-Recorded :
      (event_type : String) (payload : Payload) (w : World)
      → Recorded (or_process provider provider_event_id event_type payload (recorded w.store) w).1
  unfolding or_process
  or_process-Recorded event_type payload w = elim (Option-cases (recorded w.store)) [
    | inl e ↦ rw e (process_new-Recorded event_type payload w)
    | inr (x, e) ↦ rw e (x, e)
  ]

module _ (provider : BillingProvider) (provider_event_id : String) where
  -- What the search finds is a stored event of the provider under the identifier.
  recorded-stored :
      (event : BillingWebhookEvent) (s : Store)
      → recorded provider provider_event_id s ≡ some event
      → Among event (values s.billing_webhook_events)
        × (event.provider ≡ provider)
        × (event.provider_event_id ≡ provider_event_id)
  recorded-stored event s found =
      let p = λ (e : BillingWebhookEvent).
        same_billing_provider e.provider provider && e.provider_event_id == provider_event_id in
      let passes = first-holds p (values s.billing_webhook_events) event found in
      (
        first-Among p (values s.billing_webhook_events) event found,
        same_provider event.provider provider (ground (arith, passes)),
        ground (arith, passes, eq_iff event.provider_event_id provider_event_id),
      )

-- A delivery of an event of a known provider, whatever came of it, is the last that does anything: every further
-- delivery under its identifier, whatever it says, changes nothing and returns a stored event that
-- has this provider and this identifier.
pub process_webhook_event-process_webhook_event :
    (provider : BillingProvider) (provider_text provider_event_id event_type event_type' : String)
    (payload payload' : Payload) (w : World)
    → billing_provider_of provider_text ≡ some provider
    → let v = (process_webhook_event provider_text provider_event_id event_type payload w).1 in
      (event : BillingWebhookEvent) × (process_webhook_event provider_text provider_event_id
          event_type' payload' v
        ≡ (ok event, v))
      × Among event (values v.store.billing_webhook_events)
      × (event.provider ≡ provider)
      × (event.provider_event_id ≡ provider_event_id)
unfolding process_webhook_event provider_of or_process
process_webhook_event-process_webhook_event provider provider_text provider_event_id event_type
      event_type' payload payload' w known =
    let v =
      (or_process provider provider_event_id event_type payload
        (recorded provider provider_event_id w.store) w).1 in
    let (x, e) = or_process-Recorded provider provider_event_id event_type payload w in
    let (among, of_provider, identified) = recorded-stored provider provider_event_id x v.store e in
    rw known (x, rw e refl, among, of_provider, identified)
