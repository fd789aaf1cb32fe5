-- ===== src/Models/Money.antt =====
-- Credit accounts, their ledger and reservations, and the billing records: dataclasses of
-- apps/api/kerislab/models.py, field by field. What a default factory fills in is filled in by
-- the service that makes the record.
use kerislab.Prelude.{String, Option, Bool}
use kerislab.Prelude.Int.{ℤ}
use kerislab.Models.Payload.{Time, Payload}
use kerislab.Models.Status.{
  BillingProvider, CheckoutSessionStatus, InvoiceStatus, PaymentStatus, CreditReservationStatus,
  LedgerEntryType,
}

pub record CreditAccount : Type 0 where
  pub workspace_id : String
  pub available : ℤ
  pub reserved : ℤ
  pub consumed : ℤ

pub record CreditLedgerEntry : Type 0 where
  pub workspace_id : String
  pub entry_type : LedgerEntryType
  pub amount : ℤ
  pub balance_after : ℤ
  pub scan_id : Option String
  pub note : String
  pub id : String
  pub created_at : Time

pub record CreditReservation : Type 0 where
  pub workspace_id : String
  pub scan_id : String
  pub status : CreditReservationStatus
  pub id : String
  pub created_at : Time

pub record BillingCustomer : Type 0 where
  pub workspace_id : String
  pub provider : BillingProvider
  pub provider_customer_id : String
  pub billing_email : String
  pub id : String
  pub created_at : Time

pub record BillingCheckoutSession : Type 0 where
  pub workspace_id : String
  pub provider : BillingProvider
  pub credit_amount : ℤ
  pub unit_amount_cents : ℤ
  pub currency : String
  pub status : CheckoutSessionStatus
  pub provider_session_id : Option String
  pub checkout_url : Option String
  pub id : String
  pub created_at : Time
  pub completed_at : Option Time

pub record BillingInvoice : Type 0 where
  pub workspace_id : String
  pub checkout_session_id : String
  pub provider : BillingProvider
  pub amount_cents : ℤ
  pub currency : String
  pub status : InvoiceStatus
  pub provider_invoice_id : Option String
  pub id : String
  pub created_at : Time
  pub paid_at : Option Time

pub record BillingPayment : Type 0 where
  pub workspace_id : String
  pub invoice_id : String
  pub provider : BillingProvider
  pub amount_cents : ℤ
  pub currency : String
  pub status : PaymentStatus
  pub provider_payment_id : Option String
  pub id : String
  pub created_at : Time

pub record BillingWebhookEvent : Type 0 where
  pub provider : BillingProvider
  pub provider_event_id : String
  pub event_type : String
  pub payload : Payload
  pub processed : Bool
  pub error : String
  pub id : String
  pub received_at : Time
  pub processed_at : Option Time
