-- ===== src/Services/Billing/Confirming.antt =====
-- The confirmation of a checkout (`confirm_checkout_session` of apps/api/kerislab/services.py): it
-- grants its credits, and it does so once.
use kerislab.Services.Billing.{
  confirm_by_status, confirm_created, confirmed_before, new_invoice, checkout_mark,
  confirm_checkout_session, Confirmation,
}
use kerislab.Prelude.{
  String, Option, ◌≡◌, Bool-cases, Option-cases, some, ◌≢◌, first, arith, ◌==◌, refl, inl, inr,
  ◌&&◌, occurs_in, reverse, ◌+◌, false, ap,
}
use kerislab.Prelude.Int.{◌*ℤ◌, ℤ, leb_ℤ, pos, ◌+ℤ◌}
use kerislab.Exec.{World, ok, Result, Exec, proceed}
use kerislab.Models.Money.{CreditAccount, BillingCheckoutSession, CreditLedgerEntry}
use kerislab.Services.Credits.{grant}
use kerislab.Dict.{lookup, lookup-insert_self, values, Dict, insert}
use kerislab.Models.Status.{CheckoutSessionStatus}
use kerislab.Services.Books.{proceed-keeps}
use kerislab.Services.Credits.Effects.{
  grant_refused, grant_ok, grant_entry, after_posting, granted_account, or_new, opening,
}
use kerislab.Store.State.{Store}
use kerislab.Services.Credits.Ledger.{balance_of, balance}
use kerislab.Services.Credits.Postings.{balance-or_new}

pub confirmed_before-world :
    (session : BillingCheckoutSession) (w : World) → (confirmed_before session w).1 ≡ w
unfolding confirmed_before
confirmed_before-world session w =
    elim (Option-cases (
      first (λ invoice. invoice.checkout_session_id == session.id)
        (values w.store.billing_invoices))) [
          | inl e ↦ rw e refl
          | inr (invoice, e) ↦
              elim (Option-cases (
                first (λ payment. payment.invoice_id == invoice.id)
                  (values w.store.billing_payments))) [
                    | inl f ↦ rw (e, f) refl
                    | inr (payment, f) ↦
                        elim (Option-cases (
                          first
                            (λ entry.
                              entry.workspace_id == session.workspace_id
                              && occurs_in (checkout_mark session) entry.note)
                            (reverse w.store.credit_ledger))) [
                              | inl g ↦ rw (e, f, g) refl
                              | inr (entry, g) ↦ rw (e, f, g) refl
                            ]
                  ]
        ]

-- The session under the key is not open to a confirmation any more.
abbrev Closed : String → World → Type 0
Closed id w =
    (session : BillingCheckoutSession) × (lookup id w.store.billing_checkout_sessions
      ≡ some session)
    × (session.status ≢ CheckoutSessionStatus.created)

closed_by :
    (id : String) (provider_payment_id : Option String) (session : BillingCheckoutSession)
    (status : CheckoutSessionStatus) (w : World)
    → status ≢ CheckoutSessionStatus.created
    → (confirm_by_status id session provider_payment_id status w).1 ≡ w
unfolding confirm_by_status
closed_by id p session CheckoutSessionStatus.created w h = ground arith
closed_by id p session CheckoutSessionStatus.paid w h = confirmed_before-world session w
closed_by id p session CheckoutSessionStatus.cancelled w h = refl

grant-sessions :
    (workspace_id : String) (amount : ℤ) (note : String) (w : World)
    → (grant workspace_id amount note w).1.store.billing_checkout_sessions
      ≡ w.store.billing_checkout_sessions
grant-sessions workspace_id amount note w = elim (Bool-cases (leb_ℤ amount (pos 0))) [
  | inl refused ↦ rw (grant_refused workspace_id amount note w refused) refl
  | inr positive ↦ rw (grant_ok workspace_id amount note w positive) refl
]

-- The session as its confirmation leaves it, at the fourth reading of the clock.
abbrev paid_session : BillingCheckoutSession → World → BillingCheckoutSession
paid_session session w = record session {
  status = CheckoutSessionStatus.paid;
  completed_at = some (w.env.clock (w.ticks + 1 + 1 + 1));
}

confirm_created-Closed :
    (id : String) (session : BillingCheckoutSession) (p : Option String) (w : World)
    → Closed id (confirm_created id session p w).1
unfolding confirm_created new_invoice
confirm_created-Closed id session p w =
    proceed-keeps (Closed id) (grant session.workspace_id session.credit_amount _ _) _
      (
        paid_session session w,
        rw grant-sessions
            (lookup-insert_self id (paid_session session w) w.store.billing_checkout_sessions),
        ground arith,
      )
      (λ _ v h. h)

confirm_by-Closed :
    (id : String) (session : BillingCheckoutSession) (p : Option String)
    (status : CheckoutSessionStatus) (w : World)
    → lookup id w.store.billing_checkout_sessions ≡ some session
    → session.status ≡ status
    → Closed id (confirm_by_status id session p status w).1
unfolding confirm_by_status
confirm_by-Closed id session p CheckoutSessionStatus.created w found h =
    confirm_created-Closed id session p w
confirm_by-Closed id session p CheckoutSessionStatus.paid w found h =
    rw (confirmed_before-world session w) (session, found, ground arith)
confirm_by-Closed id session p CheckoutSessionStatus.cancelled w found h =
    (session, found, ground arith)

again :
    (id : String) (p : Option String) (w : World)
    → Closed id w
    → (confirm_checkout_session id p w).1 ≡ w
unfolding confirm_checkout_session
again id p w (session, found, closed) = rw found (closed_by id p session session.status w closed)

-- Whatever came of the confirmation of a checkout session, confirming it again changes nothing: no credit is granted,
-- and no invoice and no payment is written a second time.
pub confirm_checkout_session-confirm_checkout_session :
    (checkout_session_id : String) (provider_payment_id provider_payment_id' : Option String)
    (w : World)
    → let v = (confirm_checkout_session checkout_session_id provider_payment_id w).1 in
      (confirm_checkout_session checkout_session_id provider_payment_id' v).1 ≡ v
unfolding confirm_checkout_session
confirm_checkout_session-confirm_checkout_session id p p' w =
    elim (Option-cases (lookup id w.store.billing_checkout_sessions)) [
      | inl e ↦ rw (e, e) refl
      | inr (session, e) ↦
          again id p' (confirm_checkout_session id p w).1
            (rw e (confirm_by-Closed id session p session.status w e refl))
    ]

-- What a confirmation over the session promises: its documents, and the session as it is stored.
abbrev pub Paid : String → BillingCheckoutSession → Result Confirmation → World → Type 0
Paid checkout_session_id session r v =
    (c : Confirmation) × (r ≡ ok c)
    × (c.invoice.amount_cents ≡ session.credit_amount *ℤ session.unit_amount_cents)
    × (c.payment.amount_cents ≡ c.invoice.amount_cents)
    × (c.payment.invoice_id ≡ c.invoice.id)
    × (lookup checkout_session_id v.store.billing_checkout_sessions ≡ some c.session)
    × (c.session.status ≡ CheckoutSessionStatus.paid)

abbrev available_of : String → Store → ℤ
available_of workspace_id s = (balance_of workspace_id s).available

proceed-grant :
    {B : Type 0} (P : Result B × World → Type 0) (workspace_id : String) (amount : ℤ)
    (note : String) (v : World) (f : CreditLedgerEntry → Exec B)
    → leb_ℤ amount (pos 0) ≡ false
    → let entry = grant_entry workspace_id amount note v in
      P (f entry (after_posting workspace_id (granted_account workspace_id amount note v) entry v))
      → P (proceed (grant workspace_id amount note v) f)
proceed-grant P workspace_id amount note v f positive h =
    rw (grant_ok workspace_id amount note v positive) h

granted-available :
    (workspace_id : String) (amount : ℤ) (d : Dict CreditAccount)
    → let acct = or_new workspace_id (lookup workspace_id d) in
      (balance (
        lookup workspace_id (
          insert workspace_id
            (record acct { available = acct.available +ℤ amount })
            (opening workspace_id d)))).available
      ≡ (balance (lookup workspace_id d)).available +ℤ amount
granted-available workspace_id amount d =
    rw lookup-insert_self
      (ap (λ b. b.available +ℤ amount) (balance-or_new workspace_id (lookup workspace_id d)))

created_pays :
    (id : String) (p : Option String) (session : BillingCheckoutSession) (w : World)
    → leb_ℤ session.credit_amount (pos 0) ≡ false
    → let (r, v) = confirm_created id session p w in
      Paid id session r v
      × (available_of session.workspace_id v.store
          ≡ available_of session.workspace_id w.store +ℤ session.credit_amount)
unfolding confirm_created new_invoice
created_pays id p session w positive =
    proceed-grant
      (λ x.
        Paid id session x.0 x.1
        × (available_of session.workspace_id x.1.store
            ≡ available_of session.workspace_id w.store +ℤ session.credit_amount))
      session.workspace_id session.credit_amount _ _ _ positive
      (
        (
          _,
          refl,
          refl,
          refl,
          refl,
          lookup-insert_self id (paid_session session w) w.store.billing_checkout_sessions,
          refl,
        ),
        granted-available session.workspace_id session.credit_amount w.store.credit_accounts,
      )

-- The confirmation of a session that is stored as created, for a positive number of credits, returns its invoice
-- and its payment over the credits times the unit price, and afterwards the workspace has that many more free credits
-- and the session is stored as paid.
pub confirm_checkout_session-pays :
    (checkout_session_id : String) (provider_payment_id : Option String)
    (session : BillingCheckoutSession) (w : World)
    → lookup checkout_session_id w.store.billing_checkout_sessions ≡ some session
    → session.status ≡ CheckoutSessionStatus.created
    → leb_ℤ session.credit_amount (pos 0) ≡ false
    → let (r, v) = confirm_checkout_session checkout_session_id provider_payment_id w in
      Paid checkout_session_id session r v
      × (available_of session.workspace_id v.store
          ≡ available_of session.workspace_id w.store +ℤ session.credit_amount)
unfolding confirm_checkout_session confirm_by_status
confirm_checkout_session-pays id p session w found created positive =
    rw (found, created) (created_pays id p session w positive)
