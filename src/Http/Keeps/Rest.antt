-- ===== src/Http/Keeps/Rest.antt =====
-- The books behind the handlers of credits, billing and workspaces in apps/api/kerislab/main.py.
use kerislab.Services.Bystanders.{
  Kept, then-Kept, account-Kept, get-Kept, log-Kept, create_project-Kept, update_sso_domains-Kept,
  create_checkout_session-Kept, at-Kept,
}
use kerislab.Models.Status.{AuditAction}
use kerislab.Http.Billing.{
  process_logged, event_workspace, confirm_billing_checkout, confirm_logged, log_processed,
  BillingWebhookPayload, grant_credits, create_billing_checkout, get_credits, grant_logged,
  BillingCheckoutCreate, billing_webhook, secret_of,
}
use kerislab.Prelude.{
  String, Option, Bool, List, some, Bool-cases, false, true, inl, inr, none, ◌==◌,
}
use kerislab.Exec.{World, get, Exec, proceed, at, raise_if}
use kerislab.Services.Audit.{Subject, log}
use kerislab.Http.Workspaces.{update_workspace_sso, get_workspace}
use kerislab.Models.Payload.{Value}
use kerislab.Models.Running.{AuditLog}
use kerislab.Http.Projects.{create_project_endpoint}
use kerislab.Http.{require_workspace_access, require_role, workspace_admin_roles, handled}
use kerislab.Services.Billing.{confirm_checkout_session, create_checkout_session}
use kerislab.Services.Billing.Webhooks.{process_webhook_event}
use kerislab.Dynamic.{payload_get, is_truthy, text_of}
use kerislab.Store.Collections.{billing_checkout_sessions, workspaces, credit_accounts}
use kerislab.Prelude.Int.{ℤ}
use kerislab.Services.Bystanders.Billing.{confirm_checkout_session-Kept, process_webhook_event-Kept}
use kerislab.Http.Keeps.{access-Kept, role-Kept}
use kerislab.Services.Workspaces.{create_project, update_sso_domains}
use kerislab.Services.Credits.{account, grant}
use kerislab.Services.Bystanders.Engine.{text_of-Kept}
use kerislab.Services.Books.{grant-Books}

-- The end of a handler that has called a service: an audit entry.
pub logging :
    {A : Type 0} (action : AuditAction) (subject : Subject) (f : AuditLog → Exec A) (w : World)
    → Kept w
    → ((entry : AuditLog) (v : World) → Kept v → Kept (f entry v).1)
    → Kept (proceed (log action subject w) f).1
logging action subject f w b k = then-Kept (log action subject w) f (log-Kept action subject w b) k

module _ (workspace_id user_id : String) (w : World) (b : Kept w) where
  pub get_credits-Kept : Kept (get_credits workspace_id user_id w).1
  unfolding get_credits
  get_credits-Kept =
      then-Kept (require_workspace_access user_id workspace_id w) _
        (access-Kept user_id workspace_id w b) (λ _ v h. account-Kept workspace_id v h)

  pub get_workspace-Kept : Kept (get_workspace workspace_id user_id w).1
  unfolding get_workspace
  get_workspace-Kept =
      then-Kept (require_workspace_access user_id workspace_id w) _
        (access-Kept user_id workspace_id w b)
        λ _ v h.
          then-Kept (get workspaces workspace_id _ v) _ (get-Kept workspaces workspace_id _ v h)
            λ _ u k.
              then-Kept (account workspace_id u) _ (account-Kept workspace_id u k) (λ _ t l. l)

  pub grant_credits-Kept :
      (amount : ℤ) (note : String) → Kept (grant_credits workspace_id amount note user_id w).1
  unfolding grant_credits grant_logged
  grant_credits-Kept amount note =
      then-Kept (require_role user_id workspace_id workspace_admin_roles w) _
        (role-Kept user_id workspace_id workspace_admin_roles w b)
        λ _ v h.
          then-Kept (handled (grant_logged workspace_id amount note user_id) v) _
            (then-Kept (grant workspace_id amount note v) _
              (grant-Books workspace_id amount note v h) λ _ u k. logging _ _ _ u k (λ _ t l. l))
            λ _ u k.
              then-Kept (at credit_accounts workspace_id u) _
                (at-Kept credit_accounts workspace_id u k) (λ _ t l. l)

  pub create_billing_checkout-Kept :
      (payload : BillingCheckoutCreate)
      → Kept (create_billing_checkout workspace_id payload user_id w).1
  unfolding create_billing_checkout
  create_billing_checkout-Kept payload =
      then-Kept (require_role user_id workspace_id workspace_admin_roles w) _
        (role-Kept user_id workspace_id workspace_admin_roles w b)
        λ _ v h.
          then-Kept
            (create_checkout_session workspace_id payload.credit_amount payload.billing_email
              payload.provider payload.unit_amount_cents v)
            _
            (create_checkout_session-Kept workspace_id payload.credit_amount payload.billing_email
              payload.provider payload.unit_amount_cents v h)
            λ _ u k. logging _ _ _ u k (λ _ t l. l)

  pub update_workspace_sso-Kept :
      (domains : List String) → Kept (update_workspace_sso workspace_id domains user_id w).1
  unfolding update_workspace_sso
  update_workspace_sso-Kept domains =
      then-Kept (require_role user_id workspace_id workspace_admin_roles w) _
        (role-Kept user_id workspace_id workspace_admin_roles w b)
        λ _ v h.
          then-Kept (update_sso_domains workspace_id domains v) _
            (update_sso_domains-Kept workspace_id domains v h)
            λ _ u k. logging _ _ _ u k (λ _ t l. l)

  pub create_project_endpoint-Kept :
      (name : String) → Kept (create_project_endpoint workspace_id name user_id w).1
  unfolding create_project_endpoint
  create_project_endpoint-Kept name =
      then-Kept (require_workspace_access user_id workspace_id w) _
        (access-Kept user_id workspace_id w b)
        λ _ v h.
          then-Kept (create_project workspace_id name v) _
            (create_project-Kept workspace_id name v h) λ _ u k. logging _ _ _ u k (λ _ t l. l)

confirm_logged-Kept :
    (id : String) (payment_id : Option String) (user_id : String) (w : World)
    → Kept w
    → Kept (confirm_logged id payment_id user_id w).1
unfolding confirm_logged
confirm_logged-Kept id payment_id user_id w b =
    then-Kept (confirm_checkout_session id payment_id w) _
      (confirm_checkout_session-Kept id payment_id w b) λ _ v h. logging _ _ _ v h (λ _ u k. k)

pub confirm_billing_checkout-Kept :
    (id : String) (payment_id : Option String) (user_id : String) (w : World)
    → Kept w
    → Kept (confirm_billing_checkout id payment_id user_id w).1
unfolding confirm_billing_checkout
confirm_billing_checkout-Kept id payment_id user_id w b =
    then-Kept (get billing_checkout_sessions id _ w) _ (get-Kept billing_checkout_sessions id _ w b)
      λ session v h.
        then-Kept (require_role user_id session.workspace_id workspace_admin_roles v) _
          (role-Kept user_id session.workspace_id workspace_admin_roles v h)
          λ _ u k.
            then-Kept (handled (confirm_logged id payment_id user_id) u) _
              (confirm_logged-Kept id payment_id user_id u k)
              λ c t l.
                then-Kept (at credit_accounts c.session.workspace_id t) _
                  (at-Kept credit_accounts _ t l) (λ _ x y. y)

event_workspace-Kept : (o : Option Value) (w : World) → Kept w → Kept (event_workspace o w).1
unfolding event_workspace
event_workspace-Kept none w b = b
event_workspace-Kept (some value) w b = elim (Bool-cases (is_truthy value)) [
  | inl e ↦ rw e (then-Kept (text_of value w) _ (text_of-Kept value w b) (λ _ v h. h))
  | inr e ↦ rw e b
]

log_processed-Kept :
    (payload : BillingWebhookPayload) (processed : Bool) (w : World)
    → Kept w
    → Kept (log_processed payload processed w).1
unfolding log_processed
log_processed-Kept payload false w b = b
log_processed-Kept payload true w b =
    let workspace : Option Value = payload_get "workspace_id" payload.data_fields in
    then-Kept (event_workspace workspace w) _ (event_workspace-Kept workspace w b)
      λ _ v h. logging _ _ _ v h (λ _ u k. k)

process_logged-Kept :
    (payload : BillingWebhookPayload) (w : World) → Kept w → Kept (process_logged payload w).1
unfolding process_logged
process_logged-Kept payload w b =
    then-Kept
      (process_webhook_event payload.provider payload.provider_event_id payload.event_type
        payload.data_fields w)
      _
      (process_webhook_event-Kept payload.provider payload.provider_event_id payload.event_type
        payload.data_fields w b)
      λ event v h.
        then-Kept (log_processed payload event.processed v) _
          (log_processed-Kept payload event.processed v h) (λ _ u k. k)

pub billing_webhook-Kept :
    (secret : Option String) (hmac_of : String → BillingWebhookPayload → String)
    (payload : BillingWebhookPayload) (signature : Option String) (w : World)
    → Kept w
    → Kept (billing_webhook secret hmac_of payload signature w).1
unfolding billing_webhook secret_of
billing_webhook-Kept none hmac_of payload signature w b = b
billing_webhook-Kept (some key) hmac_of payload signature w b = elim (Bool-cases (key == "")) [
  | inl blank ↦ rw blank b
  | inr given ↦ rw given (then-Kept (raise_if _ _ w) _ b (λ _ v h. process_logged-Kept payload v h))
]
