-- ===== src/Services/Bystanders.antt =====
-- The books behind the operations of apps/api/kerislab/services.py that Services/Lifecycle does not name.
pub mod Billing
pub mod Identity
pub mod Engine
pub mod Browser
pub mod Workspaces
use kerislab.Store.Collections.{Collection, model_profiles, scans, workspaces}
use kerislab.Services.Workspaces.{
  create_target, create_project, create_profile, test_profile, update_sso_domains,
}
use kerislab.Prelude.{
  Option, String, List, Option-cases, Bool, first, some, inl, ◌==◌, none, inr, ◌&&◌, Bool-cases,
  starts_with, ◌||◌,
}
use kerislab.Services.Billing.{
  ensure_customer, create_checkout_session, provider_of, or_new_customer, new_checkout,
}
use kerislab.Services.Audit.{log, Subject}
use kerislab.Exec.{Result, World, raise_if, Exec, get, at, Error, proceed, or_raise, ok}
use kerislab.Services.Reports.{generate_json_report}
use kerislab.Services.Scans.{emit}
use kerislab.Models.Scanning.{Target}
use kerislab.Models.Status.{AuditAction, BillingProvider}
use kerislab.Services.Books.{Books, proceed-keeps}
use kerislab.Scope.{validate_target_scope}
use kerislab.Services.Credits.{account}
use kerislab.Models.Payload.{Payload}
use kerislab.Scope.Decision.{validate_target_scope_lem}
use kerislab.Services.Credits.Postings.{Accounted-Agrees, with_account_open-Accounted}
use kerislab.Prelude.Int.{ℤ, leb_ℤ, pos}
use kerislab.Dict.{lookup, values}
use kerislab.Services.Credits.Effects.{account_lem}
use kerislab.Models.Values.{billing_provider_of, same_billing_provider}
use kerislab.Services.Credits.Reservations.{opened-Counted}

abbrev pub Kept : World → Type 0
Kept w = Books w.store

-- Behind a step that keeps the books, steps that keep them.
pub then-Kept :
    {A B : Type 0} (p : Result A × World) (f : A → Exec B)
    → Kept p.1
    → ((a : A) (w : World) → Kept w → Kept (f a w).1)
    → Kept (proceed p f).1
then-Kept p f h k = proceed-keeps Kept p f h k

-- The same of actions.
abbrev pub Keeping : {A : Type 0} → Exec A → Type 0
Keeping m = (w : World) → Kept w → Kept (m w).1

pub log-Kept :
    (action : AuditAction) (subject : Subject) (w : World) → Kept w → Kept (log action subject w).1
unfolding log
log-Kept action subject w b = b

pub emit-Kept :
    (scan_id type summary : String) (payload : Payload) (w : World)
    → Kept w
    → Kept (emit scan_id type summary payload w).1
unfolding emit
emit-Kept scan_id type summary payload w b = b

pub get-Kept :
    {V : Type 0} (c : Collection V) (key label : String) (w : World)
    → Kept w
    → Kept (get c key label w).1
get-Kept c key label w b = elim (Option-cases (lookup key (c.read w.store))) [
  | inl e ↦ rw e b
  | inr (v, e) ↦ rw e b
]

pub at-Kept :
    {V : Type 0} (c : Collection V) (key : String) (w : World) → Kept w → Kept (at c key w).1
at-Kept c key w b = elim (Option-cases (lookup key (c.read w.store))) [
  | inl e ↦ rw e b
  | inr (v, e) ↦ rw e b
]

pub or_raise-Kept :
    {A : Type 0} (o : Option A) (e : Error) (w : World) → Kept w → Kept (or_raise o e w).1
or_raise-Kept none e w b = b
or_raise-Kept (some a) e w b = b

pub create_project-Kept :
    (workspace_id name : String) (w : World) → Kept w → Kept (create_project workspace_id name w).1
unfolding create_project
create_project-Kept workspace_id name w b = b

pub validate_target_scope-Kept :
    (target : Target) (w : World) → Kept w → Kept (validate_target_scope target w).1
validate_target_scope-Kept target w b = rw (validate_target_scope_lem target w).1 b

pub create_target-Kept :
    (workspace_id project_id name url : String) (excludes : List String)
    (allow_private_networks : Bool) (w : World)
    → Kept w
    → Kept (create_target workspace_id project_id name url excludes allow_private_networks w).1
unfolding create_target
create_target-Kept workspace_id project_id name url excludes allow w b =
    then-Kept (validate_target_scope _ _) _ (validate_target_scope-Kept _ _ b) (λ _ v h. h)

pub create_profile-Kept :
    (workspace_id name model api_base : String) (w : World)
    → Kept w
    → Kept (create_profile workspace_id name model api_base w).1
unfolding create_profile
create_profile-Kept workspace_id name model api_base w b =
    elim (Bool-cases (w.env.strip model == "")) [
      | inl blank ↦ rw blank b
      | inr named ↦
          elim (Bool-cases (starts_with api_base "http://" || starts_with api_base "https://")) [
            | inl is_http ↦ rw (named, is_http) b
            | inr other ↦ rw (named, other) b
          ]
    ]

pub test_profile-Kept :
    (profile_id : String) (w : World) → Kept w → Kept (test_profile profile_id w).1
unfolding test_profile
test_profile-Kept profile_id w b =
    then-Kept (get model_profiles profile_id _ w) _ (get-Kept model_profiles profile_id _ w b)
      (λ _ v h. h)

pub update_sso_domains-Kept :
    (workspace_id : String) (domains : List String) (w : World)
    → Kept w
    → Kept (update_sso_domains workspace_id domains w).1
unfolding update_sso_domains
update_sso_domains-Kept workspace_id domains w b =
    then-Kept (get workspaces workspace_id _ w) _ (get-Kept workspaces workspace_id _ w b)
      (λ _ v h. then-Kept (raise_if _ _ v) _ h (λ _ u k. k))

pub generate_json_report-Kept :
    (scan_id : String) (w : World) → Kept w → Kept (generate_json_report scan_id w).1
unfolding generate_json_report
generate_json_report-Kept scan_id w b =
    then-Kept (get scans scan_id _ w) _ (get-Kept scans scan_id _ w b) (λ _ v h. h)

pub account-Kept : (workspace_id : String) (w : World) → Kept w → Kept (account workspace_id w).1
account-Kept workspace_id w b =
    let agrees = Accounted-Agrees (with_account_open-Accounted workspace_id w) b.agrees in
    rw account_lem (record {
      agrees = agrees;
      counted = opened-Counted workspace_id b.counted;
      covered = b.covered;
      named = b.named;
    })

pub ensure_customer-Kept :
    (workspace_id billing_email : String) (provider : BillingProvider) (id : Option String)
    (w : World)
    → Kept w
    → Kept (ensure_customer workspace_id billing_email provider id w).1
unfolding ensure_customer or_new_customer
ensure_customer-Kept workspace_id billing_email provider id w b =
    elim (Option-cases (
      first
        (λ customer.
          customer.workspace_id == workspace_id && same_billing_provider customer.provider provider)
        (values w.store.billing_customers))) [ inl e ↦ rw e b | inr (v, e) ↦ rw e b ]

pub create_checkout_session-Kept :
    (workspace_id : String) (credit_amount : ℤ) (billing_email provider : String) (unit : ℤ)
    (w : World)
    → Kept w
    → Kept (create_checkout_session workspace_id credit_amount billing_email provider unit w).1
unfolding create_checkout_session provider_of new_checkout
create_checkout_session-Kept workspace_id credit_amount billing_email provider unit w b =
    then-Kept (or_raise (billing_provider_of provider) _ w) _
      (or_raise-Kept (billing_provider_of provider) _ w b)
      λ _ v h. then-Kept (raise_if (leb_ℤ credit_amount (pos 0)) _ v) _ h λ _ u k.
        then-Kept (raise_if (leb_ℤ unit (pos 0)) _ u) _ k λ _ t l.
          then-Kept (ensure_customer workspace_id billing_email _ none t) _
            (ensure_customer-Kept workspace_id billing_email _ none t l) (λ _ r m. m)
