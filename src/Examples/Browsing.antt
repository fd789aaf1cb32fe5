-- ===== src/Examples/Browsing.antt =====
-- Runs of a browser plan (apps/api/kerislab/services.py) that do not succeed.
use kerislab.Services.Browser.Outcomes.{execute_plan-failed, execute_plan-malformed, next_execution}
use kerislab.Dynamic.{payload_get_or, payload_get}
use kerislab.Services.Browser.{execute_plan}
use kerislab.Dict.{lookup}
use kerislab.Models.Payload.{Payload, Value, Items, Time}
use kerislab.Exec.{World, Result, returned, err, ok, runner_error, message}
use kerislab.Models.Scanning.{BrowserPlan, BrowserExecution}
use kerislab.Services.Scans.{text_field}
use kerislab.Examples.Access.{busy_world, sample_scan}
use kerislab.Examples.Logins.{visit_action}
use kerislab.Examples.Requests.{sample_outside}
use kerislab.Prelude.{◌∷◌, [], ◌≡◌, some, false, refl, none}
use kerislab.Models.Status.{BrowserExecutionStatus}

abbrev sample_plan : BrowserPlan
sample_plan = record {
  scan_id = "scn";
  target_url = "https://example.com/app";
  engine = "playwright";
  actions = visit_action ∷ [];
  id = "bpl";
  created_at = 0;
}

abbrev planned_world : World
planned_world = record busy_world {
  store = record busy_world.store { browser_plans = ("scn", sample_plan) ∷ [] };
}

scan-found : lookup "scn" planned_world.store.scans ≡ some sample_scan
unfolding lookup
scan-found = refl

plan-found : lookup "scn" planned_world.store.browser_plans ≡ some sample_plan
unfolding lookup
plan-found = refl

abbrev crashing : BrowserPlan → Result Payload
crashing plan = err (runner_error "browser crashed")

execute_plan-failed_example :
    let v =
      (execute_plan sample_outside.settings sample_outside.backend crashing "scn"
        planned_world).1 in
    ((execute_plan sample_outside.settings sample_outside.backend crashing "scn" planned_world).0
      ≡ err (runner_error "browser crashed"))
    × ((execution : BrowserExecution) × (completed : Time) × (lookup
            (next_execution planned_world)
            v.store.browser_executions
          ≡ some execution)
        × (execution.status ≡ BrowserExecutionStatus.failed)
        × (execution.error ≡ message (runner_error "browser crashed"))
        × (execution.completed_at ≡ some completed))
    × (v.store.evidence_artifacts ≡ planned_world.store.evidence_artifacts)
    × (v.store.scans ≡ planned_world.store.scans)
execute_plan-failed_example =
    execute_plan-failed sample_outside.settings sample_outside.backend crashing "scn" sample_scan
      sample_plan planned_world scan-found plan-found (runner_error "browser crashed") refl

abbrev odd_result : Payload
odd_result = text_field "evidence" "none"

abbrev careless : BrowserPlan → Result Payload
careless plan = ok odd_result

evidence-text : payload_get_or "evidence" (Value.arr Items.nil) odd_result ≡ Value.str "none"
unfolding payload_get_or payload_get text_field
evidence-text = refl

execute_plan-malformed_example :
    let v =
      (execute_plan sample_outside.settings sample_outside.backend careless "scn"
        planned_world).1 in
    (returned
        (execute_plan sample_outside.settings sample_outside.backend careless "scn" planned_world).0
      ≡ false)
    × ((execution : BrowserExecution) × (lookup
            (next_execution planned_world)
            v.store.browser_executions
          ≡ some execution)
        × (execution.status ≡ BrowserExecutionStatus.completed)
        × (execution.completed_at ≡ none)
        × (execution.result ≡ Payload.end))
execute_plan-malformed_example =
    execute_plan-malformed sample_outside.settings sample_outside.backend careless "scn" sample_scan
      sample_plan planned_world scan-found plan-found odd_result "none" refl evidence-text
