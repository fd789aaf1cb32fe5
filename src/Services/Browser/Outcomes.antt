-- ===== src/Services/Browser/Outcomes.antt =====
-- What a browser execution that does not succeed leaves stored (`execute` of `BrowserExecutionService`,
-- apps/api/kerislab/services.py).
use kerislab.Services.Browser.{
  execute_plan, finish_execution, fail_execution, close_execution, persist_evidence, persist_list,
}
use kerislab.Services.Evidence.{StorageSettings, StorageBackend}
use kerislab.Exec.{World, next_id, Result, Error, err, ok, returned, message}
use kerislab.Prelude.{String, ◌≡◌, some, false, none, refl}
use kerislab.Models.Scanning.{BrowserPlan, Scan, BrowserExecution}
use kerislab.Models.Payload.{Payload, Time, Value, Items}
use kerislab.Dict.{lookup, lookup-insert_self}
use kerislab.Services.Autonomous.{browser_plan, or_create_plan}
use kerislab.Services.Scans.{emit}
use kerislab.Dynamic.{payload_get_or}
use kerislab.Models.Status.{BrowserExecutionStatus}

-- The identifier that the next browser execution gets.
abbrev pub next_execution : World → String
next_execution w = next_id "bex" w.env w.drawn

module _ (settings : StorageSettings) (backend : StorageBackend)
    (runner : BrowserPlan → Result Payload) (scan_id : String) (scan : Scan) (plan : BrowserPlan)
    (w : World) (found : lookup scan_id w.store.scans ≡ some scan)
    (planned : lookup scan_id w.store.browser_plans ≡ some plan) where
  -- When the runner raises for the stored plan, the call raises the same exception, the execution is stored as
  -- failed with the exception's text and a time of completion, no evidence is stored, and every
  -- scan stays as it was.
  pub execute_plan-failed :
      (e : Error)
      → runner plan ≡ err e
      → let v = (execute_plan settings backend runner scan_id w).1 in
        ((execute_plan settings backend runner scan_id w).0 ≡ err e)
        × ((execution : BrowserExecution) × (completed : Time) × (lookup
                (next_execution w)
                v.store.browser_executions
              ≡ some execution)
            × (execution.status ≡ BrowserExecutionStatus.failed)
            × (execution.error ≡ message e)
            × (execution.completed_at ≡ some completed))
        × (v.store.evidence_artifacts ≡ w.store.evidence_artifacts)
        × (v.store.scans ≡ w.store.scans)
  unfolding execute_plan browser_plan or_create_plan finish_execution fail_execution emit
  execute_plan-failed e fails =
      rw (found, planned, fails)
        (refl, (_, _, lookup-insert_self _ _ _, refl, refl, refl), refl, refl)

  -- When the runner returns for the stored plan, but what it calls evidence is a text, the call raises, and the
  -- execution is stored as completed all the same, without a time of completion and without the
  -- result.
  pub execute_plan-malformed :
      (result : Payload) (text : String)
      → runner plan ≡ ok result
      → payload_get_or "evidence" (Value.arr Items.nil) result ≡ Value.str text
      → let v = (execute_plan settings backend runner scan_id w).1 in
        (returned (execute_plan settings backend runner scan_id w).0 ≡ false)
        × ((execution : BrowserExecution) × (lookup (next_execution w) v.store.browser_executions
              ≡ some execution)
            × (execution.status ≡ BrowserExecutionStatus.completed)
            × (execution.completed_at ≡ none)
            × (execution.result ≡ Payload.end))
  unfolding execute_plan browser_plan or_create_plan finish_execution close_execution
      persist_evidence persist_list emit
  execute_plan-malformed result text returns malformed =
      rw (found, planned, returns, malformed)
        (refl, (_, lookup-insert_self _ _ _, refl, refl, refl))
