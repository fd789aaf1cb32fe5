-- ===== src/Examples/Requests.antt =====
-- Runs of requests to apps/api/kerislab/main.py.
use kerislab.Http.Outsiders.{serve-outsider, about}
use kerislab.Http.Keeps.Requests.{
  Serves-Books, DrawsNew, Outside, serve, pauses_scan, creates_scan, grants_credits, Serves, after,
  untouched,
}
use kerislab.Http.Callers.{current_user_id-known, Named, Opened}
use kerislab.Examples.Access.{
  busy_world, sample_user, sample_membership, sample_scan, sample_request, request-found,
}
use kerislab.Examples.Sample.{sample_store, in_world}
use kerislab.Services.Books.{Books}
use kerislab.Http.Scans.{ScanCreate}
use kerislab.Http.{current_user_id, Caller, require_role}
use kerislab.Models.Payload.{Payload, Value}
use kerislab.Services.Authorization.{
  workspace_membership, require_workspace_role, require_workspace_member, same_role,
}
use kerislab.Oidc.{OidcPorts}
use kerislab.Exec.{World, ok, err, value_error}
use kerislab.Http.Billing.{BillingWebhookPayload, grant_credits, grant_logged}
use kerislab.Prelude.{none, some, ◌⊎◌, false, ◌∷◌, ◌≡◌, concat, [], refl, first, any, ◌++◌}
use kerislab.Services.Lifecycle.{empty-Books, explained}
use kerislab.Dict.{lookup, contains, values, insert}
use kerislab.Models.Status.{ScanType, Role, ApprovalStatus, ScanStatus, AuditAction}
use kerislab.Services.Scans.{text_field}
use kerislab.Prelude.Int.{pos}
use kerislab.Services.Credits.{grant, append_entry, account, or_new_account}
use kerislab.Services.Audit.{log}
use kerislab.Models.Values.{role_value}
use kerislab.Services.Scans.Creation.{FreshScan}
use kerislab.Http.Approvals.{approve_request}
use kerislab.Models.Scanning.{ApprovalRequest, Scan}
use kerislab.Services.Credits.Conservation.{granted_in}
use kerislab.Http.Keeps.Explained.{requests_explained}
use kerislab.Http.Deciders.{approve_request-anyone}
use kerislab.Models.Running.{AuditLog}

abbrev sample_claims : Payload
sample_claims = Payload.field "aud" (Value.str "client") (
    Payload.field "iss" (Value.str "https://idp.example.com") (
      Payload.field "nonce" (Value.str "nonce")
        (Payload.field "email" (Value.str "a@example.com") (text_field "name" "A"))))

abbrev pub sample_ports : OidcPorts
sample_ports = record {
  getenv = λ name. none;
  urlencode = λ fields. "";
  split_words = λ text. text ∷ [];
  post_form = λ url body. err (value_error "offline");
  get_json = λ url token. err (value_error "offline");
  decode_segment = λ segment. some sample_claims;
}

abbrev pub sample_outside : Outside
sample_outside = record {
  settings = record {
    endpoint = none;
    bucket = "kerislab-evidence";
    access_key = none;
    secret_key = none;
    local_root = "evidence";
  };
  backend = record {
    boto3_installed = false;
    put_object = λ bucket key content content_type. none;
    write_text = λ path content. none;
    join_path = λ root key. concat (root ∷ "/" ∷ key ∷ []);
  };
  runner = λ plan. ok Payload.end;
  secret = some "secret";
  hmac_of = λ key payload. concat (key ∷ "-" ∷ payload.provider_event_id ∷ []);
  ports = sample_ports;
}

abbrev owned_world : World
owned_world = in_world (record sample_store {
  users = ("usr", sample_user) ∷ [];
  memberships = ("mem", record sample_membership { role = Role.owner }) ∷ [];
})

abbrev sample_scan_order : ScanCreate
sample_scan_order = record {
  workspace_id = "wsp";
  project_id = "prj";
  target_id = "tgt";
  scan_type = ScanType.passive_blackbox;
  model_profile_id = "mdl";
  instructions = "";
}

-- credits granted by the owner, and then a scan ordered
abbrev supplied_world : World
supplied_world = serve sample_outside (grants_credits "wsp" (pos 2) "trial") "usr" owned_world

abbrev served_world : World
served_world = serve sample_outside (creates_scan sample_scan_order) "usr" supplied_world

supplied-FreshScan : FreshScan supplied_world
unfolding serve grant_credits require_role require_workspace_role require_workspace_member
    workspace_membership first values any same_role grant_logged grant append_entry account
    or_new_account log lookup role_value insert
supplied-FreshScan = refl

served-Serves : Serves sample_outside owned_world served_world
unfolding DrawsNew
served-Serves =
    after (creates_scan sample_scan_order) "usr" supplied_world
      (after (grants_credits "wsp" (pos 2) "trial") "usr" owned_world untouched tt)
      supplied-FreshScan

Serves-Books_example : Books served_world.store
Serves-Books_example = Serves-Books served-Serves empty-Books

about-scan : about (pauses_scan "scn") busy_world.store ≡ some "wsp"
unfolding about lookup
about-scan = refl

no-membership : workspace_membership "stranger" "wsp" busy_world.store ≡ none
unfolding workspace_membership first values
no-membership = refl

serve-outsider_example : serve sample_outside (pauses_scan "scn") "stranger" busy_world ≡ busy_world
serve-outsider_example =
    serve-outsider sample_outside (pauses_scan "scn") "stranger" "wsp" busy_world about-scan refl
      no-membership

abbrev sample_event : BillingWebhookPayload
sample_event = record {
  provider = "internal";
  provider_event_id = "evt";
  event_type = "checkout.session.completed";
  data_fields = Payload.end;
}

abbrev sample_caller : Caller
sample_caller = record { authorization = none; x_kerislab_user = some "usr" }

caller-known : (current_user_id sample_caller owned_world).0 ≡ ok "usr"
unfolding current_user_id contains lookup
caller-known = refl

current_user_id-known_example :
    Named sample_caller "usr" owned_world ⊎ Opened sample_caller "usr" owned_world
current_user_id-known_example = current_user_id-known sample_caller "usr" owned_world caller-known

requests_explained_example :
    explained "wsp" served_world.store ≡ granted_in "wsp" served_world.store.credit_ledger
requests_explained_example = requests_explained "wsp" served-Serves empty-Books

scan-stored : lookup "scn" busy_world.store.scans ≡ some sample_scan
unfolding lookup
scan-stored = refl

approve_request-anyone_example :
    let v = (approve_request "apr" "fine" "stranger" busy_world).1 in
    ((approved : ApprovalRequest) × ((approve_request "apr" "fine" "stranger" busy_world).0
        ≡ ok approved)
      × (lookup "apr" v.store.approval_requests ≡ some approved)
      × (approved.status ≡ ApprovalStatus.approved)
      × (approved.resolved_by ≡ some "stranger")
      × (approved.operator_note ≡ "fine")
      × (approved.id ≡ "apr"))
    × ((resumed : Scan) × (lookup "scn" v.store.scans ≡ some resumed)
        × (resumed.status ≡ ScanStatus.running))
    × ((entry : AuditLog) × (v.store.audit_logs ≡ busy_world.store.audit_logs ++ entry ∷ [])
        × (entry.action ≡ AuditAction.approval_resolved)
        × (entry.actor_user_id ≡ some "stranger")
        × (entry.workspace_id ≡ some "wsp")
        × (entry.approval_id ≡ some "apr"))
approve_request-anyone_example =
    approve_request-anyone "apr" "fine" "stranger" sample_request sample_scan busy_world
      request-found refl scan-stored
